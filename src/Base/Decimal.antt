-- ===== src/Base/Decimal.antt =====
-- A `u16` is written in decimal and read back.
use Prim.Native.Nat.{ℕ, ◌+◌, ◌*◌, ◌/◌, ◌%◌, ◌<◌}
use mathlib.Core.Bool.{false}
use mathlib.Core.List.{List, [], ◌∷◌}
use mathlib.Core.Option.{some}
use mathlib.Core.Path.{◌≡◌, refl, ap, ◌∙◌}
use native.Mathlib.Omega.{arith}
use avash.Base.Tests.{ltb, if◌then◌else◌}
use avash.Base.Lists.{any, All, is_nil}
use avash.Base.Text.{Text, is_whitespace, digits_from, parse_u16, show_u16}

-- The number that digits stand for, the highest first.
abbrev value_of : ℕ → List ℕ → ℕ
value_of n [] = n
value_of n (d ∷ l) = value_of (n * 10 + d) l

abbrev digit_codes : List ℕ → Text
digit_codes [] = []
digit_codes (d ∷ l) = (b'0' + d) ∷ digit_codes l

abbrev IsDigit : ℕ → Type 0
IsDigit d = d < 10

digits_from-digit_codes :
    (n : ℕ) (l : List ℕ) → All IsDigit l → digits_from n (digit_codes l) ≡ some (value_of n l)
unfolding digits_from
digits_from-digit_codes n [] h = refl
digits_from-digit_codes n (d ∷ l) h = ground (arith, digits_from-digit_codes (n * 10 + d) l h.1)

-- The digits of a number of at most five.
abbrev digits : ℕ → List ℕ
digits n =
    if ltb n 10
    then n ∷ []
    else if ltb n 100
    then n / 10 ∷ n % 10 ∷ []
    else if ltb n 1000
    then n / 100 ∷ n / 10 % 10 ∷ n % 10 ∷ []
    else if ltb n 10000
    then n / 1000 ∷ n / 100 % 10 ∷ n / 10 % 10 ∷ n % 10 ∷ []
    else n / 10000 ∷ n / 1000 % 10 ∷ n / 100 % 10 ∷ n / 10 % 10 ∷ n % 10 ∷ []

show_u16-digits : (n : ℕ) → show_u16 n ≡ digit_codes (digits n)
unfolding show_u16
show_u16-digits n = ground arith

digits-IsDigit : (n : ℕ) → n < 0x1_0000 → All IsDigit (digits n)
digits-IsDigit n h = ground arith

digits-value_of : (n : ℕ) → value_of 0 (digits n) ≡ n
digits-value_of n = ground arith

digit_codes-word : (l : List ℕ) → All IsDigit l → any is_whitespace (digit_codes l) ≡ false
unfolding is_whitespace
digit_codes-word [] h = refl
digit_codes-word (d ∷ l) h = ground (arith, digit_codes-word l h.1)

digits-full : (n : ℕ) → is_nil (digits n) ≡ false
digits-full n = ground arith

digit_codes-full : (l : List ℕ) → is_nil l ≡ false → is_nil (digit_codes l) ≡ false
digit_codes-full [] h = h
digit_codes-full (d ∷ l) h = refl

parse_u16-digit_codes :
    (l : List ℕ)
    → is_nil l ≡ false
    → All IsDigit l
    → value_of 0 l < 0x1_0000
    → parse_u16 (digit_codes l) ≡ some (value_of 0 l)
unfolding parse_u16
parse_u16-digit_codes [] f h b = cc
parse_u16-digit_codes (d ∷ l) f h b = ground (arith, digits_from-digit_codes 0 (d ∷ l) h)

pub show_u16-full : (n : ℕ) → is_nil (show_u16 n) ≡ false
show_u16-full n = rw (show_u16-digits n) (digit_codes-full (digits n) (digits-full n))

pub show_u16-word : (n : ℕ) → n < 0x1_0000 → any is_whitespace (show_u16 n) ≡ false
show_u16-word n h = rw (show_u16-digits n) (digit_codes-word (digits n) (digits-IsDigit n h))

-- A number of 16 bits that is written in decimal is read back.
pub parse_u16-show_u16 : (n : ℕ) → n < 0x1_0000 → parse_u16 (show_u16 n) ≡ some n
parse_u16-show_u16 n h = rw (show_u16-digits n) (
    parse_u16-digit_codes (digits n) (digits-full n) (digits-IsDigit n h) (rw (digits-value_of n) h)
    ∙ ap some (digits-value_of n))
