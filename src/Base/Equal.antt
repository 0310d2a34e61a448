-- ===== src/Base/Equal.antt =====
-- Equality of texts, and membership of a text in a list.
use mathlib.Core.Bool.{Bool, true, ◌||◌}
use mathlib.Core.List.{List, [], ◌∷◌, ◌++◌}
use mathlib.Core.Path.{◌≡◌, refl}
use native.Mathlib.Omega.{arith}
use avash.Base.Lists.{any}
use avash.Base.Text.{Text, text_eq}

pub text_eq-eq : (a b : Text) → text_eq a b ≡ true → a ≡ b
text_eq-eq [] [] h = refl
text_eq-eq [] (y ∷ b) h = cc
text_eq-eq (x ∷ a) [] h = cc
text_eq-eq (x ∷ a) (y ∷ b) h = ground (arith, text_eq-eq a b)

pub text_eq_refl : (a : Text) → text_eq a a ≡ true
text_eq_refl [] = refl
text_eq_refl (x ∷ a) = ground (arith, text_eq_refl a)

abbrev pub has : Text → List Text → Bool
has x = any (text_eq x)

pub has-append : (x : Text) (a b : List Text) → has x (a ++ b) ≡ (has x a || has x b)
has-append x [] b = refl
has-append x (y ∷ a) b = ground (arith, has-append x a b)
