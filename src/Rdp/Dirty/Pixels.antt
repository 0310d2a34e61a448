-- ===== src/Rdp/Dirty/Pixels.antt =====
-- The places of a zone and the pixels that its rectangles hold (rdp-sidecar/src/trames.rs).
use avash.Base.{
  ℕ, zero, suc, ◌≤◌, ◌<◌, ◌≡◌, refl, sym, subst, ◌∙◌, inl, inr, ◌⊎◌, Option, some, List, [], ◌∷◌,
  ◌++◌, arith, length, get_elem?, set, remove_at, All,
}
use avash.Rdp.Dirty.{Rect, union}

pub some-eq : {a b : Rect} → ◌≡◌ {A = Option Rect} (some a) (some b) → a ≡ b
some-eq e = cc

pub get-set_same :
    (zone : List Rect) (i : ℕ) (u : Rect) → i < length zone → get_elem? (set zone i u) i ≡ some u
get-set_same [] i u h = elim h [ ]
get-set_same (e ∷ zone) zero u h = refl
get-set_same (e ∷ zone) (suc i) u h = get-set_same zone i u (omega arith)

pub get-set_other :
    (zone : List Rect) (i j : ℕ) (u : Rect) → i < j → get_elem? (set zone i u) j ≡ get_elem? zone j
get-set_other [] i j u h = refl
get-set_other (e ∷ zone) zero zero u h = elim h [ ]
get-set_other (e ∷ zone) zero (suc j) u h = refl
get-set_other (e ∷ zone) (suc i) zero u h = elim h [ ]
get-set_other (e ∷ zone) (suc i) (suc j) u h = get-set_other zone i j u (omega arith)

pub get-remove_at :
    (zone : List Rect) (i j : ℕ) → i < j → get_elem? (remove_at zone j) i ≡ get_elem? zone i
get-remove_at [] i j h = refl
get-remove_at (e ∷ zone) i zero h = elim h [ ]
get-remove_at (e ∷ zone) zero (suc j) h = refl
get-remove_at (e ∷ zone) (suc i) (suc j) h = get-remove_at zone i j (omega arith)

pub get-within :
    (zone : List Rect) (i : ℕ) → i < length zone → (a : Rect) × (get_elem? zone i ≡ some a)
get-within [] i h = elim h [ ]
get-within (e ∷ zone) zero h = (e, refl)
get-within (e ∷ zone) (suc i) h = get-within zone i (omega arith)

module _ (x y : ℕ) where
  -- The pixel lies in the rectangle.
  abbrev pub Holds : Rect → Type 0
  Holds r = (r.left ≤ x) × (x ≤ r.right) × (r.top ≤ y) × (y ≤ r.bottom)

  -- It lies in a rectangle of the zone.
  abbrev pub Covered : List Rect → Type 0
  Covered [] = ⊥
  Covered (r ∷ zone) = Holds r ⊎ Covered zone

  pub Holds-union_left : (a b : Rect) → Holds a → Holds (union a b)
  Holds-union_left a b h = (omega (arith, h), omega (arith, h), omega (arith, h), omega (arith, h))

  pub Holds-union_right : (a b : Rect) → Holds b → Holds (union a b)
  Holds-union_right a b h = (omega (arith, h), omega (arith, h), omega (arith, h), omega (arith, h))

  pub Covered-append :
      (zone : List Rect) (r : Rect) → Covered zone ⊎ Holds r → Covered (zone ++ r ∷ [])
  Covered-append [] r (inl h) = elim h [ ]
  Covered-append [] r (inr h) = inl h
  Covered-append (e ∷ zone) r (inl (inl h)) = inl h
  Covered-append (e ∷ zone) r (inl (inr h)) = inr (Covered-append zone r (inl h))
  Covered-append (e ∷ zone) r (inr h) = inr (Covered-append zone r (inr h))

  pub Covered-set :
      (zone : List Rect) (i : ℕ) (a u : Rect)
      → get_elem? zone i ≡ some a
      → (Holds a → Holds u)
      → Covered zone
      → Covered (set zone i u)
  Covered-set [] i a u g w h = elim h [ ]
  Covered-set (e ∷ zone) zero a u g w (inl h) = inl (w (subst Holds (some-eq g) h))
  Covered-set (e ∷ zone) zero a u g w (inr h) = inr h
  Covered-set (e ∷ zone) (suc i) a u g w (inl h) = inl h
  Covered-set (e ∷ zone) (suc i) a u g w (inr h) = inr (Covered-set zone i a u g w h)

  pub Covered-at :
      (zone : List Rect) (i : ℕ) (u : Rect) → get_elem? zone i ≡ some u → Holds u → Covered zone
  Covered-at [] i u g h = absurd (cc g)
  Covered-at (e ∷ zone) zero u g h = inl (subst Holds (sym (some-eq g)) h)
  Covered-at (e ∷ zone) (suc i) u g h = inr (Covered-at zone i u g h)

  pub Covered-remove_at :
      (zone : List Rect) (j : ℕ) (b : Rect)
      → get_elem? zone j ≡ some b
      → Covered zone
      → Holds b ⊎ Covered (remove_at zone j)
  Covered-remove_at [] j b g h = elim h [ ]
  Covered-remove_at (e ∷ zone) zero b g (inl h) = inl (subst Holds (some-eq g) h)
  Covered-remove_at (e ∷ zone) zero b g (inr h) = inr h
  Covered-remove_at (e ∷ zone) (suc j) b g (inl h) = inr (inl h)
  Covered-remove_at (e ∷ zone) (suc j) b g (inr h) = later (Covered-remove_at zone j b g h)
    where
      later : {P Q R : Type 0} → P ⊎ Q → P ⊎ (R ⊎ Q)
      later (inl p) = inl p
      later (inr q) = inr (inr q)

  pub Covered-fused :
      (zone : List Rect) (i j : ℕ) (a b : Rect)
      → i < j
      → j < length zone
      → get_elem? zone i ≡ some a
      → get_elem? zone j ≡ some b
      → Covered zone
      → Covered (remove_at (set zone i (union a b)) j)
  Covered-fused zone i j a b o w ga gb h =
      let z = set zone i (union a b) in
      let there = get-remove_at z i j o ∙ get-set_same zone i (union a b) (omega arith) in
      elim (Covered-remove_at z j b (get-set_other zone i j (union a b) o ∙ gb)
        (Covered-set zone i a (union a b) ga (Holds-union_left a b) h)) [
          | inl k ↦ Covered-at (remove_at z j) i (union a b) there (Holds-union_right a b k)
          | inr k ↦ k
        ]

module _ (P : Rect → Type 0) where
  pub All-get : (zone : List Rect) (i : ℕ) (a : Rect) → get_elem? zone i ≡ some a → All P zone → P a
  All-get [] i a g h = absurd (cc g)
  All-get (e ∷ zone) zero a g h = subst P (some-eq g) h.0
  All-get (e ∷ zone) (suc i) a g h = All-get zone i a g h.1

  pub All-set : (zone : List Rect) (i : ℕ) (u : Rect) → P u → All P zone → All P (set zone i u)
  All-set [] i u p h = tt
  All-set (e ∷ zone) zero u p h = (p, h.1)
  All-set (e ∷ zone) (suc i) u p h = (h.0, All-set zone i u p h.1)

  pub All-remove_at : (zone : List Rect) (j : ℕ) → All P zone → All P (remove_at zone j)
  All-remove_at [] j h = tt
  All-remove_at (e ∷ zone) zero h = h.1
  All-remove_at (e ∷ zone) (suc j) h = (h.0, All-remove_at zone j h.1)

  pub All-append : (zone : List Rect) (r : Rect) → All P zone → P r → All P (zone ++ r ∷ [])
  All-append [] r h p = (p, tt)
  All-append (e ∷ zone) r h p = (h.0, All-append zone r h.1 p)
