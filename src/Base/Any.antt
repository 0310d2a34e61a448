-- ===== src/Base/Any.antt =====
-- A test that no character of a text passes, and what keeps that.
use Prim.Native.Nat.{ℕ}
use mathlib.Core.Bool.{Bool, false}
use mathlib.Core.List.{List, [], ◌∷◌, ◌++◌, map}
use mathlib.Core.Logic.{inl, inr}
use mathlib.Core.Path.{◌≡◌, refl}
use native.Mathlib.Omega.{arith}
use avash.Base.Tests.{Bool-cases}
use avash.Base.Lists.{any, All}
use avash.Base.Text.{
  Text, push_trimmed, trim_start_if, trim_end_if, is_whitespace, trim, keep_if, join,
}

module _ (q : ℕ → Bool) where
  pub any-append : (a b : Text) → any q a ≡ false → any q b ≡ false → any q (a ++ b) ≡ false
  any-append [] b ha hb = hb
  any-append (c ∷ a) b ha hb = ground (arith, any-append a b)

  pub any-trim_start_if :
      (p : ℕ → Bool) (s : Text) → any q s ≡ false → any q (trim_start_if p s) ≡ false
  unfolding trim_start_if
  any-trim_start_if p [] h = h
  any-trim_start_if p (c ∷ s) h = ground (arith, any-trim_start_if p s)

  any-push_trimmed :
      (p : ℕ → Bool) (c : ℕ) (s : Text)
      → q c ≡ false
      → any q s ≡ false
      → any q (push_trimmed p c s) ≡ false
  any-push_trimmed p c [] h k = ground arith
  any-push_trimmed p c (d ∷ s) h k = ground arith

  pub any-trim_end_if :
      (p : ℕ → Bool) (s : Text) → any q s ≡ false → any q (trim_end_if p s) ≡ false
  unfolding trim_end_if
  any-trim_end_if p [] h = h
  any-trim_end_if p (c ∷ s) h =
      any-push_trimmed p c (trim_end_if p s) (ground arith) (any-trim_end_if p s (ground arith))

  pub any-trim : (s : Text) → any q s ≡ false → any q (trim s) ≡ false
  any-trim s h =
      any-trim_end_if is_whitespace (trim_start_if is_whitespace s)
        (any-trim_start_if is_whitespace s h)

  abbrev pub AnyFree : List Text → Type 0
  AnyFree = All (λ a. any q a ≡ false)

  pub AnyFree-map-trim : (l : List Text) → AnyFree l → AnyFree (map trim l)
  AnyFree-map-trim [] h = h
  AnyFree-map-trim (a ∷ l) h = (any-trim a h.0, AnyFree-map-trim l h.1)

  pub AnyFree-keep_if : (p : Text → Bool) (l : List Text) → AnyFree l → AnyFree (keep_if p l)
  unfolding keep_if
  AnyFree-keep_if p [] h = h
  AnyFree-keep_if p (a ∷ l) h = elim (Bool-cases (p a)) [
    | inl y ↦ rw y (h.0, AnyFree-keep_if p l h.1)
    | inr n ↦ rw n (AnyFree-keep_if p l h.1)
  ]

  pub any-join :
      (sep : Text) (l : List Text) → any q sep ≡ false → AnyFree l → any q (join sep l) ≡ false
  unfolding join
  any-join sep [] k h = refl
  any-join sep (a ∷ []) k h = h.0
  any-join sep (a ∷ b ∷ l) k h =
      any-append a (sep ++ join sep (b ∷ l)) h.0
        (any-append sep (join sep (b ∷ l)) k (any-join sep (b ∷ l) k h.1))

  pub AnyFree-append : (a b : List Text) → AnyFree a → AnyFree b → AnyFree (a ++ b)
  AnyFree-append [] b ha hb = hb
  AnyFree-append (x ∷ a) b ha hb = (ha.0, AnyFree-append a b ha.1 hb)
