-- ===== src/Base/Trim.antt =====
-- Laws of Rust's `trim`, `trim_start` and `trim_end`.
use Prim.Native.Nat.{ℕ}
use mathlib.Core.Bool.{Bool, true, false}
use mathlib.Core.List.{[], ◌∷◌, ◌++◌}
use mathlib.Core.Logic.{inl, inr}
use mathlib.Core.Path.{◌≡◌, refl, ap, sym, ◌∙◌}
use native.Mathlib.Omega.{arith}
use avash.Base.Tests.{Bool-cases}
use avash.Base.Lists.{All, is_nil, any}
use avash.Base.Text.{Text, push_trimmed, trim_start_if, trim_end_if, is_whitespace, trim}

module _ (p : ℕ → Bool) where
  pub trim_start_if-cons : (c : ℕ) (s : Text) → p c ≡ false → trim_start_if p (c ∷ s) ≡ c ∷ s
  unfolding trim_start_if
  trim_start_if-cons c s h = rw h

  pub trim_start_if-drop :
      (c : ℕ) (s : Text) → p c ≡ true → trim_start_if p (c ∷ s) ≡ trim_start_if p s
  unfolding trim_start_if
  trim_start_if-drop c s h = rw h

  pub push_trimmed-cons : (c : ℕ) (s : Text) → p c ≡ false → push_trimmed p c s ≡ c ∷ s
  push_trimmed-cons c [] h = rw h
  push_trimmed-cons c (d ∷ s) h = refl

  pub trim_end_if-cons :
      (c : ℕ) (s : Text) → p c ≡ false → trim_end_if p (c ∷ s) ≡ c ∷ trim_end_if p s
  unfolding trim_end_if
  trim_end_if-cons c s h = push_trimmed-cons c (trim_end_if p s) h

  push_trimmed_idem :
      (c : ℕ) (s : Text)
      → trim_end_if p s ≡ s
      → trim_end_if p (push_trimmed p c s) ≡ push_trimmed p c s
  push_trimmed_idem c [] h = elim (Bool-cases (p c)) [
    | inl y ↦ rw y h
    | inr n ↦ rw n (unfold trim_end_if in rw n)
  ]
  push_trimmed_idem c (d ∷ s) h = unfold trim_end_if in rw (h, push_trimmed)

  pub trim_end_if_idem : (s : Text) → trim_end_if p (trim_end_if p s) ≡ trim_end_if p s
  unfolding trim_end_if
  trim_end_if_idem [] = refl
  trim_end_if_idem (c ∷ s) = push_trimmed_idem c (trim_end_if p s) (trim_end_if_idem s)

  trim_start_if-end :
      (s : Text)
      → trim_start_if p (trim_end_if p (trim_start_if p s)) ≡ trim_end_if p (trim_start_if p s)
  trim_start_if-end [] = unfold trim_start_if trim_end_if in refl
  trim_start_if-end (c ∷ s) = elim (Bool-cases (p c)) [
    | inl y ↦ rw (trim_start_if-drop c s y) (trim_start_if-end s)
    | inr n ↦ rw (trim_start_if-cons c s n) (rw (trim_end_if-cons c s n) (trim_start_if-cons c _ n))
  ]

  push_trimmed-full : (c : ℕ) (s : Text) → is_nil s ≡ false → push_trimmed p c s ≡ c ∷ s
  push_trimmed-full c [] h = cc
  push_trimmed-full c (d ∷ s) h = refl

  append-full : (a b : Text) → is_nil b ≡ false → is_nil (a ++ b) ≡ false
  append-full [] b h = h
  append-full (c ∷ a) b h = refl

  -- A text that trimming leaves something of keeps what stands before it.
  pub trim_end_if-append :
      (a b : Text)
      → is_nil (trim_end_if p b) ≡ false
      → trim_end_if p (a ++ b) ≡ a ++ trim_end_if p b
  unfolding trim_end_if
  trim_end_if-append [] b h = refl
  trim_end_if-append (c ∷ a) b h =
      ap (push_trimmed p c) (trim_end_if-append a b h)
      ∙ push_trimmed-full c _ (append-full a (trim_end_if p b) h)

  pub trim_end_if-word :
      (a b : Text) → any p a ≡ false → trim_end_if p (a ++ b) ≡ a ++ trim_end_if p b
  trim_end_if-word [] b h = refl
  trim_end_if-word (c ∷ a) b h =
      trim_end_if-cons c (a ++ b) (ground arith) ∙ ap (◌∷◌ c) (trim_end_if-word a b (ground arith))

  pub trim_start_if-free : (s : Text) → any p s ≡ false → trim_start_if p s ≡ s
  trim_start_if-free [] h = unfold trim_start_if in refl
  trim_start_if-free (c ∷ s) h = trim_start_if-cons c s (ground arith)

  pub trim_end_if-free : (s : Text) → any p s ≡ false → trim_end_if p s ≡ s
  trim_end_if-free [] h = unfold trim_end_if in refl
  trim_end_if-free (c ∷ s) h =
      trim_end_if-cons c s (ground arith) ∙ ap (◌∷◌ c) (trim_end_if-free s (ground arith))

  start-push :
      (c : ℕ) (s : Text) → p c ≡ true → trim_start_if p (push_trimmed p c s) ≡ trim_start_if p s
  start-push c [] h = rw h refl
  start-push c (d ∷ s) h = trim_start_if-drop c (d ∷ s) h

  start-push-end :
      (c : ℕ) (s : Text)
      → p c ≡ true
      → trim_start_if p (trim_end_if p (c ∷ s)) ≡ trim_start_if p (trim_end_if p s)
  start-push-end c s h = unfold trim_end_if in start-push c (trim_end_if p s) h

  pub trim_start_if-trim_end_if :
      (s : Text) → trim_start_if p (trim_end_if p s) ≡ trim_end_if p (trim_start_if p s)
  trim_start_if-trim_end_if [] = unfold trim_start_if trim_end_if in refl
  trim_start_if-trim_end_if (c ∷ s) = elim (Bool-cases (p c)) [
    | inl y ↦
        start-push-end c s y
        ∙ (trim_start_if-trim_end_if s ∙ ap (trim_end_if p) (sym (trim_start_if-drop c s y)))
    | inr n ↦
        ap (trim_start_if p) (trim_end_if-cons c s n)
        ∙ (trim_start_if-cons c _ n
            ∙ (sym (trim_end_if-cons c s n) ∙ ap (trim_end_if p) (sym (trim_start_if-cons c s n))))
  ]

-- Trimming behind a trimmed end is trimming.
pub trim-trim_end : (s : Text) → trim (trim_end_if is_whitespace s) ≡ trim s
trim-trim_end s =
    ap (trim_end_if is_whitespace) (trim_start_if-trim_end_if is_whitespace s)
    ∙ trim_end_if_idem is_whitespace (trim_start_if is_whitespace s)

pub trim-word : (s : Text) → any is_whitespace s ≡ false → trim s ≡ s
trim-word s h =
    ap (trim_end_if is_whitespace) (trim_start_if-free is_whitespace s h)
    ∙ trim_end_if-free is_whitespace s h

-- Trimming a trimmed text changes nothing.
pub trim-trim : (s : Text) → trim (trim s) ≡ trim s
trim-trim s =
    ap (trim_end_if is_whitespace) (trim_start_if-end is_whitespace s)
    ∙ trim_end_if_idem is_whitespace (trim_start_if is_whitespace s)

module _ {κ} (P : ℕ → Type κ) (p : ℕ → Bool) where
  pub All-trim_start_if : (s : Text) → All P s → All P (trim_start_if p s)
  unfolding trim_start_if
  All-trim_start_if [] a = a
  All-trim_start_if (c ∷ s) a = elim (Bool-cases (p c)) [
    | inl y ↦ rw y (All-trim_start_if s a.1)
    | inr n ↦ rw n a
  ]

  All-push_trimmed : (c : ℕ) (s : Text) → P c → All P s → All P (push_trimmed p c s)
  All-push_trimmed c [] a b = elim (Bool-cases (p c)) [ inl y ↦ rw y b | inr n ↦ rw n (a, b) ]
  All-push_trimmed c (d ∷ s) a b = (a, b)

  pub All-trim_end_if : (s : Text) → All P s → All P (trim_end_if p s)
  unfolding trim_end_if
  All-trim_end_if [] a = a
  All-trim_end_if (c ∷ s) a = All-push_trimmed c _ a.0 (All-trim_end_if s a.1)
