-- ===== src/Base/Replace.antt =====
-- `str::contains` and `str::replace` of Rust, and why a loop of replacements by a shorter text ends.
use Prim.Native.Nat.{ℕ, zero, suc, ◌+◌, ◌-◌, ◌≤◌, ◌<◌}
use mathlib.Core.Bool.{Bool, true, false, ◌||◌}
use mathlib.Core.List.{[], ◌∷◌, ◌++◌}
use mathlib.Core.Logic.{inl, inr}
use mathlib.Core.Path.{◌≡◌, refl}
use native.Mathlib.Omega.{arith}
use avash.Base.Tests.{if◌then◌else◌, Bool-cases}
use avash.Base.Lists.{is_nil, length, length-append}
use avash.Base.Text.{Text, strip_prefix, starts_with, trim_start_if}

-- `str::replace`: `skip` characters belong to the occurrence that was just replaced.
unfoldable pub replace_from : Text → Text → ℕ → Text → Text
unfolding strip_prefix
replace_from old new skip [] = []
replace_from old new (suc k) (c ∷ s) = replace_from old new k s
replace_from old new zero (c ∷ s) =
    let found = new ++ replace_from old new (length old - 1) s in
    let passed = c ∷ replace_from old new zero s in
    if starts_with old (c ∷ s) then found else passed

unfoldable pub contains : Text → Text → Bool
unfolding strip_prefix
contains sub [] = is_nil sub
contains sub (c ∷ s) = starts_with sub (c ∷ s) || contains sub s

unfoldable pub replace : Text → Text → Text → Text
unfolding replace_from
replace old new = replace_from old new 0

starts_with-length : (old s : Text) → starts_with old s ≡ true → length old ≤ length s
unfolding strip_prefix
starts_with-length [] s h = omega arith
starts_with-length (x ∷ old) [] h = cc
starts_with-length (x ∷ old) (c ∷ s) h = ground (arith, starts_with-length old s)

nonempty : (old : Text) {n : ℕ} → n < length old → ¬ (is_nil old ≡ true)
nonempty [] h e = elim h [ ]
nonempty (x ∷ old) h e = cc

module _ (old new : Text) (shorter : length new < length old) where
  replace_from-length :
      (s : Text) (k : ℕ) → k ≤ length s → length (replace_from old new k s) + k ≤ length s
  unfolding replace_from
  replace_from-length [] k h = omega arith
  replace_from-length (c ∷ s) (suc k) h = omega (arith, replace_from-length s k (omega arith))
  replace_from-length (c ∷ s) zero h = elim (Bool-cases (starts_with old (c ∷ s))) [
    | inl f ↦ rw f (
        omega (
          arith,
          length-append new (replace_from old new (length old - 1) s),
          replace_from-length s (length old - 1),
          starts_with-length old (c ∷ s) f,
        ))
    | inr f ↦ rw f (omega (arith, replace_from-length s 0))
  ]

  -- A replacement that happens makes the text shorter.
  pub length-replace : (s : Text) → contains old s ≡ true → length (replace old new s) < length s
  unfolding replace contains
  length-replace [] h = absurd (nonempty old shorter h)
  length-replace (c ∷ s) h = elim (Bool-cases (starts_with old (c ∷ s))) [
    | inl f ↦ rw f (
        omega (
          arith,
          length-append new (replace_from old new (length old - 1) s),
          replace_from-length s (length old - 1),
          starts_with-length old (c ∷ s) f,
        ))
    | inr f ↦ rw f (omega (arith, length-replace s (rw (f, contains) at h)))
  ]

  pub length-replace_le : (s : Text) → length (replace old new s) ≤ length s
  unfolding replace
  length-replace_le s = omega (arith, replace_from-length s 0)

-- A text that holds no `sub` holds none behind a trimmed beginning.
pub contains-trim_start_if :
    (sub : Text) (p : ℕ → Bool) (s : Text)
    → contains sub s ≡ false
    → contains sub (trim_start_if p s) ≡ false
unfolding contains trim_start_if
contains-trim_start_if sub p [] h = h
contains-trim_start_if sub p (c ∷ s) h = ground (arith, contains-trim_start_if sub p s)

-- A text without `old` is not changed by a replacement of it.
pub replace-absent : (old new s : Text) → contains old s ≡ false → replace old new s ≡ s
unfolding contains replace replace_from
replace-absent old new [] h = refl
replace-absent old new (c ∷ s) h = ground (arith, replace-absent old new s)
