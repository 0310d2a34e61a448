-- ===== src/Rdp/Dirty/Covers.antt =====
-- What `ajouter_rect` (rdp-sidecar/src/trames.rs) leaves in the zone.
use avash.Base.{
  ℕ, zero, suc, ◌+◌, ◌≤◌, ◌<◌, false, ◌≡◌, refl, ap, subst, inl, inr, Option, some, List, [], ◌∷◌,
  ◌++◌, arith, length, set, remove_at, length-append, length-set, length-remove_at, All, ltb, leb,
  ltb→lt, ltb-false→le, Bool-cases, Option-cases,
}
use avash.Rdp.Dirty.{Rect, rects_max, union, cost, merge_first, best_pair, fuse, reduce, add_rect}
use avash.Rdp.Dirty.Pairs.{best_pair-IsPair}
use avash.Rdp.Dirty.Pixels.{
  get-within, Covered, Holds-union_left, Holds-union_right, Covered-append, Covered-fused, All-get,
  All-set, All-remove_at, All-append,
}

zone-eq : {a b : List Rect} → ◌≡◌ {A = Option (List Rect)} (some a) (some b) → a ≡ b
zone-eq e = cc

le→ltb : (n : ℕ) → n ≤ rects_max → ltb rects_max n ≡ false
le→ltb n h = ground arith

-- The new zone holds every pixel of the old one, and every property that unions keep.
pub record Keeps (zone z : List Rect) : Type 1 where
  pub pixels : (x y : ℕ) → Covered x y zone → Covered x y z
  pub shape :
      (P : Rect → Type 0) → ((a b : Rect) → P a → P b → P (union a b)) → All P zone → All P z

fuse-Keeps :
    (zone : List Rect) (i j : ℕ)
    → i < j
    → j < length zone
    → (z : List Rect) × (fuse zone i j ≡ some z) × (length z + 1 ≡ length zone) × Keeps zone z
unfolding fuse
fuse-Keeps zone i j o w =
    let (a, ga) = get-within zone i (omega arith) in
    let (b, gb) = get-within zone j w in
    let u = union a b in
    (
      remove_at (set zone i u) j,
      rw (ga, fuse) (rw gb refl),
      omega (arith, length-remove_at (set zone i u) j, length-set zone i u),
      record {
        pixels = λ x y. Covered-fused x y zone i j a b o w ga gb;
        shape = λ P closed h.
            All-remove_at P (set zone i u) j (
              All-set P zone i u (closed a b (All-get P zone i a ga h) (All-get P zone j b gb h))
                h);
      },
    )

Keeps-refl : (zone : List Rect) → Keeps zone zone
Keeps-refl zone = record { pixels = λ x y h. h; shape = λ P closed h. h }

Keeps-trans : {a b c : List Rect} → Keeps a b → Keeps b c → Keeps a c
Keeps-trans k l = record {
  pixels = λ x y h. l.pixels x y (k.pixels x y h);
  shape = λ P closed h. l.shape P closed (k.shape P closed h);
}

reduce-Keeps :
    (f : ℕ) (zone : List Rect)
    → length zone ≤ f + rects_max
    → (z : List Rect) × (reduce f zone ≡ some z) × (length z ≤ rects_max) × Keeps zone z
unfolding reduce
reduce-Keeps zero zone h = (zone, rw (le→ltb (length zone) h) refl, h, Keeps-refl zone)
reduce-Keeps (suc f) zone h = elim (Bool-cases (ltb rects_max (length zone))) [
  | inr e ↦ (zone, rw e refl, ltb-false→le rects_max (length zone) e, Keeps-refl zone)
  | inl e ↦
      let more = ltb→lt rects_max (length zone) e in
      let p = best_pair-IsPair zone (omega arith) in
      let (z, run, one_less, k) =
        fuse-Keeps zone (best_pair zone).first (best_pair zone).second p.ordered p.within in
      let (z', run', bound, k') = reduce-Keeps f z (omega arith) in
      (z', rw e (rw run run'), bound, Keeps-trans k k')
]

merge_first-Keeps :
    (zone : List Rect) (r : Rect) (z : List Rect)
    → merge_first zone r ≡ some z
    → (length z ≡ length zone) × Keeps (r ∷ zone) z
unfolding merge_first
merge_first-Keeps [] r z h = absurd (cc h)
merge_first-Keeps (e ∷ zone) r z h = elim (Bool-cases (leb (cost (union e r)) (cost e + cost r))) [
  | inl c ↦
      subst (λ z. (length z ≡ suc (length zone)) × Keeps (r ∷ e ∷ zone) z)
        (zone-eq (rw (c, merge_first) at h))
        (
          refl,
          record {
            pixels = λ x y. merged-pixels x y;
            shape = λ P closed k. (closed e r k.1.0 k.0, k.1.1);
          },
        )
  | inr c ↦ elim (Option-cases (merge_first zone r)) [
    | inl m ↦ absurd (cc (rw (c, merge_first, m) at h))
    | inr (z', m) ↦
        let (len, k) = merge_first-Keeps zone r z' m in
        subst (λ z. (length z ≡ suc (length zone)) × Keeps (r ∷ e ∷ zone) z)
          (zone-eq (rw (c, merge_first, m) at h))
          (
            ap suc len,
            record {
              pixels = λ x y. passed-pixels x y z' (k.pixels x y);
              shape = λ P closed a. (a.1.0, k.shape P closed (a.0, a.1.1));
            },
          )
  ]
]
  where
    passed-pixels :
        (x y : ℕ) (z' : List Rect)
        → (Covered x y (r ∷ zone) → Covered x y z')
        → Covered x y (r ∷ e ∷ zone)
        → Covered x y (e ∷ z')
    passed-pixels x y z' k (inl h) = inr (k (inl h))
    passed-pixels x y z' k (inr (inl h)) = inl h
    passed-pixels x y z' k (inr (inr h)) = inr (k (inr h))

    merged-pixels : (x y : ℕ) → Covered x y (r ∷ e ∷ zone) → Covered x y (union e r ∷ zone)
    merged-pixels x y (inl k) = inl (Holds-union_right x y e r k)
    merged-pixels x y (inr (inl k)) = inl (Holds-union_left x y e r k)
    merged-pixels x y (inr (inr k)) = inr k

pushed-Keeps : (zone : List Rect) (r : Rect) → Keeps (r ∷ zone) (zone ++ r ∷ [])
pushed-Keeps zone r = record {
  pixels = λ x y. pushed x y;
  shape = λ P closed h. All-append P zone r h.1 h.0;
}
  where
    pushed : (x y : ℕ) → Covered x y (r ∷ zone) → Covered x y (zone ++ r ∷ [])
    pushed x y (inl h) = Covered-append x y zone r (inr h)
    pushed x y (inr h) = Covered-append x y zone r (inl h)

-- A rectangle added to a zone of at most eight gives a zone of at most eight, with no panic and an
-- end to the loop. It holds every pixel of the old zone and of the rectangle, and every property of
-- these that the union of two rectangles keeps.
pub add_rect-Keeps :
    (zone : List Rect) (r : Rect)
    → length zone ≤ rects_max
    → (z : List Rect) × (add_rect zone r ≡ some z) × (length z ≤ rects_max) × Keeps (r ∷ zone) z
unfolding add_rect
add_rect-Keeps zone r h = elim (Option-cases (merge_first zone r)) [
  | inr (z, m) ↦
      let (len, k) = merge_first-Keeps zone r z m in
      (z, rw (m, add_rect) refl, omega (arith, len), k)
  | inl m ↦
      let (z, run, bound, k) =
        reduce-Keeps (length zone + 1) (zone ++ r ∷ [])
          (omega (arith, length-append zone (r ∷ []))) in
      (z, rw (m, add_rect) run, bound, Keeps-trans (pushed-Keeps zone r) k)
]
