-- ===== src/Ssh/Safe.antt =====
-- What `texte_distant_sur` (crates/avash/src/ssh.rs) lets through of a remote text.
use avash.Base.{
  ℕ, zero, suc, ◌+◌, ◌≤◌, false, not, Bool, ◌≡◌, refl, subst, inl, inr, some, [], ◌∷◌, ◌++◌, arith,
  length, take, length-append, any, leb, Bool-cases, Option-cases,
}
use avash.Base.Text.{
  Text, codes, strip_prefix, is_whitespace, is_control, trim, trim_end, trim_end_if, push_trimmed,
}
use avash.Base.Any.{any-append, any-trim, any-trim_end_if}
use avash.Config.Validate.{without_control}
use avash.Ssh.{
  split_at, marker_start, in_marker, after_marker, without_markers_in, without_markers, text_max,
  shortened, safe_remote_text,
}
use avash.Ssh.Remote.{some-eq, without_markers-some}

-- What no character of a text passes, no character of its parts passes.
module _ (q : ℕ → Bool) where
  any-strip_prefix :
      (pre s r : Text) → strip_prefix pre s ≡ some r → any q s ≡ false → any q r ≡ false
  unfolding strip_prefix
  any-strip_prefix [] s r e h = subst (λ r. any q r ≡ false) (some-eq e) h
  any-strip_prefix (x ∷ pre) [] r e h = cc
  any-strip_prefix (x ∷ pre) (c ∷ s) r e h = ground (arith, any-strip_prefix pre s r)

  abbrev BothFree : Text × Text → Type 0
  BothFree p = (any q p.0 ≡ false) × (any q p.1 ≡ false)

  any-split_at :
      (sep s : Text) (p : Text × Text) → split_at sep s ≡ some p → any q s ≡ false → BothFree p
  unfolding split_at
  any-split_at [] [] p e h = subst BothFree (some-eq e) (refl, refl)
  any-split_at (x ∷ sep) [] p e h = cc
  any-split_at sep (c ∷ s) p e h = elim (Option-cases (strip_prefix sep (c ∷ s))) [
    | inr (r, y) ↦
        subst BothFree (some-eq (rw (split_at, y) at e)) (refl, any-strip_prefix sep (c ∷ s) r y h)
    | inl n ↦ elim (Option-cases (split_at sep s)) [
      | inl m ↦ absurd (cc (rw (split_at, n, m) at e))
      | inr (p', m) ↦
          let (a, b) = any-split_at sep s p' m (ground arith) in
          subst BothFree (some-eq (rw (split_at, n, m) at e)) (ground arith, b)
    ]
  ]

  any-after_marker : (s : Text) → any q s ≡ false → any q (after_marker s) ≡ false
  unfolding after_marker
  any-after_marker s h = elim (Option-cases (split_at (codes "]") s)) [
    | inl n ↦ rw (after_marker, n) h
    | inr (p, y) ↦ elim (Bool-cases (any (λ c. not (in_marker c)) p.0)) [
      | inl b ↦ rw (after_marker, y, b) h
      | inr b ↦ rw (after_marker, y, b) (any-split_at (codes "]") s p y h).1
    ]
  ]

  any-without_markers_in :
      (f : ℕ) (s t : Text) → without_markers_in f s ≡ some t → any q s ≡ false → any q t ≡ false
  unfolding without_markers_in
  any-without_markers_in zero s t e h = cc
  any-without_markers_in (suc f) s t e h = elim (Option-cases (split_at marker_start s)) [
    | inl n ↦ subst (λ t. any q t ≡ false) (some-eq (rw (without_markers_in, n) at e)) h
    | inr (p, y) ↦ elim (Option-cases (without_markers_in f (after_marker p.1))) [
      | inl m ↦ absurd (cc (rw (without_markers_in, y, m) at e))
      | inr (u, m) ↦
          let (a, b) = any-split_at marker_start s p y h in
          subst (λ t. any q t ≡ false) (some-eq (rw (without_markers_in, y, m) at e))
            (any-append q p.0 u a
              (any-without_markers_in f (after_marker p.1) u m (any-after_marker p.1 b)))
    ]
  ]

  any-take : (n : ℕ) (s : Text) → any q s ≡ false → any q (take n s) ≡ false
  any-take zero s h = refl
  any-take (suc n) [] h = refl
  any-take (suc n) (c ∷ s) h = ground (arith, any-take n s)

length-take-le : (n : ℕ) (s : Text) → length (take n s) ≤ n
length-take-le zero s = omega arith
length-take-le (suc n) [] = omega arith
length-take-le (suc n) (c ∷ s) = omega (arith, length-take-le n s)

length-push_trimmed :
    (p : ℕ → Bool) (c : ℕ) (s : Text) → length (push_trimmed p c s) ≤ suc (length s)
length-push_trimmed p c [] = ground arith
length-push_trimmed p c (d ∷ s) = ground arith

length-trim_end_if : (p : ℕ → Bool) (s : Text) → length (trim_end_if p s) ≤ length s
unfolding trim_end_if
length-trim_end_if p [] = omega arith
length-trim_end_if p (c ∷ s) =
    omega (arith, length-push_trimmed p c (trim_end_if p s), length-trim_end_if p s)

without_control-free : (s : Text) → any is_control (without_control s) ≡ false
unfolding without_control is_control
without_control-free [] = refl
without_control-free (c ∷ s) = elim (Bool-cases (is_control c)) [
  | inl y ↦ rw y (without_control-free s)
  | inr n ↦ rw (n, n) (without_control-free s)
]

-- No control character, and at most `text_max` characters and the sign of a cut.
pub record IsSafe (s : Text) : Type 0 where
  pub printable : any is_control s ≡ false
  pub short : length s ≤ text_max + 1

cut-IsSafe :
    (s : Text) → any is_control s ≡ false → IsSafe (trim_end (take text_max s) ++ 0x2026 ∷ [])
unfolding is_control
cut-IsSafe s h = record {
  printable =
      any-append is_control (trim_end (take text_max s)) (0x2026 ∷ [])
        (any-trim_end_if is_control is_whitespace (take text_max s)
          (any-take is_control text_max s h))
        refl;
  short = omega (
    arith,
    length-append (trim_end (take text_max s)) (0x2026 ∷ []),
    length-trim_end_if is_whitespace (take text_max s),
    length-take-le text_max s,
  );
}

shortened-IsSafe : (s : Text) → any is_control s ≡ false → IsSafe (shortened s)
shortened-IsSafe s h = elim (Bool-cases (leb (length s) text_max)) [
  | inl y ↦ rw y (record { printable = h; short = ground arith })
  | inr n ↦ rw n (cut-IsSafe s h)
]

any-without_markers :
    (q : ℕ → Bool) (s t : Text) → without_markers s ≡ some t → any q s ≡ false → any q t ≡ false
unfolding without_markers
any-without_markers q s t = any-without_markers_in q (length s + 1) s t

safe_remote_text-shortened :
    (raw t : Text)
    → without_markers (without_control raw) ≡ some t
    → safe_remote_text raw ≡ some (shortened (trim t))
unfolding safe_remote_text
safe_remote_text-shortened raw t e = rw (safe_remote_text, e) refl

-- Whatever a remote machine writes, a text is shown: it has no control character, and at most 201
-- characters.
pub safe_remote_text-IsSafe : (raw : Text) → (s : Text) × (safe_remote_text raw ≡ some s) × IsSafe s
safe_remote_text-IsSafe raw =
    let (t, run, l) = without_markers-some (without_control raw) in
    (
      shortened (trim t),
      safe_remote_text-shortened raw t run,
      shortened-IsSafe (trim t) (
          any-trim is_control t (
            any-without_markers is_control (without_control raw) t run (without_control-free raw))),
    )
