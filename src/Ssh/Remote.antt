-- ===== src/Ssh/Remote.antt =====
-- What `sans_marqueurs_internes` (crates/avash/src/ssh.rs) leaves of a remote text.
use avash.Base.{
  ℕ, zero, suc, ◌+◌, ◌≤◌, ◌<◌, not, ◌≡◌, refl, ap, subst, ◌∙◌, inl, inr, Option, none, some, [],
  ◌∷◌, ◌++◌, arith, length, length-append, any, Bool-cases, Option-cases,
}
use avash.Base.Text.{Text, codes, strip_prefix}
use avash.Ssh.{
  split_at, marker_start, in_marker, after_marker, onto_front, without_markers_in, without_markers,
}

pub some-eq {ℓ} : {A : Type ℓ} {a b : A} → ◌≡◌ {A = Option A} (some a) (some b) → a ≡ b
some-eq {a} e = ap (λ o. elim o [ none ↦ a | some x ↦ x ]) e

strip_prefix-length :
    (pre s r : Text) → strip_prefix pre s ≡ some r → length pre + length r ≡ length s
unfolding strip_prefix
strip_prefix-length [] s r e = let q : s ≡ r = some-eq e in rw q (omega arith)
strip_prefix-length (x ∷ pre) [] r e = cc
strip_prefix-length (x ∷ pre) (c ∷ s) r e = ground (arith, strip_prefix-length pre s r)

-- The parts of a split text, and the text between them, have its length.
abbrev Measured : Text → ℕ → Text × Text → Type 0
Measured sep n p = length p.0 + (length sep + length p.1) ≡ n

split_at-length :
    (sep s : Text) (p : Text × Text) → split_at sep s ≡ some p → Measured sep (length s) p
unfolding split_at
split_at-length [] [] p e = subst (Measured [] 0) (some-eq e) (omega arith)
split_at-length (x ∷ sep) [] p e = cc
split_at-length sep (c ∷ s) p e = elim (Option-cases (strip_prefix sep (c ∷ s))) [
  | inr (r, y) ↦
      subst (Measured sep (suc (length s))) (some-eq (rw (split_at, y) at e))
        (omega (arith, strip_prefix-length sep (c ∷ s) r y))
  | inl n ↦ elim (Option-cases (split_at sep s)) [
    | inl m ↦ absurd (cc (rw (split_at, n, m) at e))
    | inr (q, m) ↦
        subst (Measured sep (suc (length s))) (some-eq (rw (split_at, n, m) at e))
          (omega (arith, split_at-length sep s q m))
  ]
]

after_marker-length : (s : Text) → length (after_marker s) ≤ length s
unfolding after_marker
after_marker-length s = elim (Option-cases (split_at (codes "]") s)) [
  | inl n ↦ rw (after_marker, n) (omega arith)
  | inr (p, y) ↦ elim (Bool-cases (any (λ c. not (in_marker c)) p.0)) [
    | inl b ↦ rw (after_marker, y, b) (omega arith)
    | inr b ↦ rw (after_marker, y, b) (omega (arith, split_at-length (codes "]") s p y))
  ]
]

without_markers_in-some :
    (f : ℕ) (s : Text)
    → length s < f
    → (t : Text) × (without_markers_in f s ≡ some t) × (length t ≤ length s)
unfolding without_markers_in
without_markers_in-some zero s h = elim h [ ]
without_markers_in-some (suc f) s h = elim (Option-cases (split_at marker_start s)) [
  | inl n ↦ (s, rw (without_markers_in, n) refl, omega arith)
  | inr (p, y) ↦
      let m : length p.0 + (7 + length p.1) ≡ length s = split_at-length marker_start s p y in
      let (t, run, l) =
        without_markers_in-some f (after_marker p.1)
          (omega (arith, h, m, after_marker-length p.1)) in
      (
        p.0 ++ t,
        rw (without_markers_in, y) (rw run refl),
        omega (arith, length-append p.0 t, l, m, after_marker-length p.1),
      )
]

-- Whatever a remote machine writes, the loop over the markers ends, and adds nothing.
pub without_markers-some :
    (s : Text) → (t : Text) × (without_markers s ≡ some t) × (length t ≤ length s)
unfolding without_markers
without_markers-some s = without_markers_in-some (length s + 1) s (omega arith)

tail-none :
    (s : Text) → split_at marker_start s ≡ none → split_at marker_start (codes "SH_" ++ s) ≡ none
unfolding split_at strip_prefix
tail-none s h = rw h refl

head-split :
    (s : Text)
    → split_at marker_start (codes "[AVA[AVASH_]SH_" ++ s) ≡ some (codes "[AVA", codes "]SH_" ++ s)
unfolding split_at strip_prefix
head-split s = refl

head-after : (s : Text) → after_marker (codes "]SH_" ++ s) ≡ codes "SH_" ++ s
unfolding after_marker split_at strip_prefix
head-after s = refl

without_markers_in-none :
    (f : ℕ) (s : Text) → split_at marker_start s ≡ none → without_markers_in (suc f) s ≡ some s
unfolding without_markers_in
without_markers_in-none f s h = rw (without_markers_in, h) refl

without_markers_in-nested :
    (f : ℕ) (s : Text)
    → split_at marker_start s ≡ none
    → without_markers_in (suc (suc f)) (codes "[AVA[AVASH_]SH_" ++ s) ≡ some (marker_start ++ s)
unfolding without_markers_in
without_markers_in-nested f s h =
    rw (without_markers_in, head-split s)
      (ap (λ t. onto_front (codes "[AVA") (without_markers_in (suc f) t)) (head-after s)
        ∙ ap (onto_front (codes "[AVA"))
            (without_markers_in-none f (codes "SH_" ++ s) (tail-none s h)))

-- Before a text that holds no start of a marker, `[AVA[AVASH_]SH_` is left as `[AVASH_`: the marker in
-- its middle is removed, and the two halves around it meet to be the start of a marker.
pub without_markers-nested :
    (s : Text)
    → split_at marker_start s ≡ none
    → without_markers (codes "[AVA[AVASH_]SH_" ++ s) ≡ some (marker_start ++ s)
unfolding without_markers
without_markers-nested s h =
    let fuel : length (codes "[AVA[AVASH_]SH_" ++ s) + 1 ≡ suc (suc (length s + 14)) =
      omega arith in
    ap (λ f. without_markers_in f (codes "[AVA[AVASH_]SH_" ++ s)) fuel
    ∙ without_markers_in-nested (length s + 14) s h
