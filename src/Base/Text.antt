-- ===== src/Base/Text.antt =====
-- What the code uses of Rust's `str`: a text is the list of its characters' code points.
use Prim.Native.Nat.{ℕ, ◌+◌, ◌-◌, ◌*◌, ◌/◌, ◌%◌}
use Prim.Native.Char.{code}
use Prim.Native.String.{String}
use mathlib.Core.Bool.{Bool, true, false, not, ◌&&◌, ◌||◌}
use mathlib.Core.List.{List, [], ◌∷◌, ◌++◌, map}
use mathlib.Core.Option.{Option, none, some}
use avash.Base.Tests.{ltb, leb, ◌==◌, if◌then◌else◌}
use avash.Base.Lists.{is_nil, any}

abbrev pub Text : Type 0
Text = List ℕ

abbrev pub Bytes : Type 0
Bytes = List ℕ

-- The code points of a literal.
abbrev pub codes : String → Text
codes String.[] = []
codes (String.◌∷◌ c s) = code c ∷ codes s

-- The UTF-8 bytes of a text.
utf8 : ℕ → Bytes
utf8 c =
    if ltb c 0x80
    then c ∷ []
    else if ltb c 0x800
    then (0xc0 + c / 64) ∷ (0x80 + c % 64) ∷ []
    else if ltb c 0x1_0000
    then (0xe0 + c / 4096) ∷ (0x80 + c / 64 % 64) ∷ (0x80 + c % 64) ∷ []
    else (0xf0 + c / 0x4_0000)
      ∷ (0x80 + c / 4096 % 64)
      ∷ (0x80 + c / 64 % 64)
      ∷ (0x80 + c % 64)
      ∷ []

unfoldable pub as_bytes : Text → Bytes
unfolding utf8
as_bytes [] = []
as_bytes (c ∷ s) = utf8 c ++ as_bytes s

-- `str ==`
abbrev pub text_eq : Text → Text → Bool
text_eq [] [] = true
text_eq (x ∷ a) (y ∷ b) = x == y && text_eq a b
text_eq _ _ = false

-- `char::is_whitespace`: the property White_Space.
unfoldable pub is_whitespace : ℕ → Bool
is_whitespace c =
    (leb 9 c && leb c 13)
    || c == 32
    || c == 0x85
    || c == 0xa0
    || c == 0x1680
    || (leb 0x2000 c && leb c 0x200a)
    || c == 0x2028
    || c == 0x2029
    || c == 0x202f
    || c == 0x205f
    || c == 0x3000

-- `char::is_control`: the category Cc.
unfoldable pub is_control : ℕ → Bool
is_control c = leb c 31 || (leb 127 c && leb c 159)

abbrev is_upper : ℕ → Bool
is_upper c = leb b'A' c && leb c b'Z'

unfoldable pub lower : ℕ → ℕ
lower c = if is_upper c then c + 32 else c

-- `to_ascii_lowercase`. It also stands for `to_lowercase`, which the code compares with ASCII
-- keywords only; no letter outside ASCII has the lower case of a letter of one of those.
abbrev pub to_lowercase : Text → Text
to_lowercase = map lower

abbrev pub eq_ignore_case : Text → Text → Bool
eq_ignore_case a b = text_eq (to_lowercase a) (to_lowercase b)

unfoldable pub trim_start_if : (ℕ → Bool) → Text → Text
trim_start_if p [] = []
trim_start_if p (c ∷ s) = if p c then trim_start_if p s else c ∷ s

-- One character in front of a text whose end is trimmed.
abbrev pub push_trimmed : (ℕ → Bool) → ℕ → Text → Text
push_trimmed p c [] = if p c then [] else c ∷ []
push_trimmed p c (d ∷ s) = c ∷ d ∷ s

unfoldable pub trim_end_if : (ℕ → Bool) → Text → Text
trim_end_if p [] = []
trim_end_if p (c ∷ s) = push_trimmed p c (trim_end_if p s)

abbrev pub trim_start : Text → Text
trim_start = trim_start_if is_whitespace

abbrev pub trim_end : Text → Text
trim_end = trim_end_if is_whitespace

abbrev pub trim : Text → Text
trim s = trim_end (trim_start s)

-- `trim_matches` by one character.
abbrev pub trim_matches : ℕ → Text → Text
trim_matches k s = trim_end_if (λ c. c == k) (trim_start_if (λ c. c == k) s)

abbrev pub onto_first {ℓ} : {A : Type ℓ} → ℕ → Option (Text × A) → Option (Text × A)
onto_first c none = none
onto_first c (some (a, b)) = some (c ∷ a, b)

-- `split_once` by a test of the character.
unfoldable pub split_once : (ℕ → Bool) → Text → Option (Text × Text)
split_once p [] = none
split_once p (c ∷ s) = if p c then some ([], s) else onto_first c (split_once p s)

abbrev or_here : ℕ → ℕ → Text → Option (Text × Text) → Option (Text × Text)
or_here k c s (some (a, b)) = some (c ∷ a, b)
or_here k c s none = if c == k then some ([], s) else none

-- `rsplit_once` at one character.
unfoldable pub rsplit_once : ℕ → Text → Option (Text × Text)
rsplit_once k [] = none
rsplit_once k (c ∷ s) = or_here k c s (rsplit_once k s)

unfoldable pub strip_prefix : Text → Text → Option Text
strip_prefix [] s = some s
strip_prefix (x ∷ pre) [] = none
strip_prefix (x ∷ pre) (c ∷ s) = if x == c then strip_prefix pre s else none

-- `strip_suffix` of one character.
unfoldable pub strip_last : ℕ → Text → Option Text
strip_last k [] = none
strip_last k (c ∷ []) = if c == k then some [] else none
strip_last k (c ∷ d ∷ s) = elim (strip_last k (d ∷ s)) [ none ↦ none | some r ↦ some (c ∷ r) ]

abbrev pub starts_with : Text → Text → Bool
starts_with pre s = elim (strip_prefix pre s) [ none ↦ false | some _ ↦ true ]

unfoldable pub ends_with : Text → Text → Bool
ends_with suf [] = is_nil suf
ends_with suf (c ∷ s) = text_eq suf (c ∷ s) || ends_with suf s

abbrev pub contains_char : ℕ → Text → Bool
contains_char k = any (λ c. c == k)

abbrev pub onto_part : ℕ → List Text → List Text
onto_part c [] = (c ∷ []) ∷ []
onto_part c (a ∷ r) = (c ∷ a) ∷ r

-- `split` at a test of the character: always at least one part.
unfoldable pub split_if : (ℕ → Bool) → Text → List Text
split_if p [] = [] ∷ []
split_if p (c ∷ s) = let rest = split_if p s in if p c then [] ∷ rest else onto_part c rest

unfoldable pub keep_if : (Text → Bool) → List Text → List Text
keep_if p [] = []
keep_if p (a ∷ r) = let rest = keep_if p r in if p a then a ∷ rest else rest

unfoldable pub split_whitespace : Text → List Text
unfolding split_if keep_if is_whitespace
split_whitespace s = keep_if (λ a. not (is_nil a)) (split_if is_whitespace s)

unfoldable pub join : Text → List Text → Text
join sep [] = []
join sep (a ∷ []) = a
join sep (a ∷ b ∷ r) = a ++ (sep ++ join sep (b ∷ r))

-- A line as `lines` returns it: a carriage return before the line feed goes.
abbrev pub without_cr : Text → Text
without_cr a = elim (strip_last b'\r' a) [ none ↦ a | some r ↦ r ]

-- The line in reading is held with its characters; a last line needs no line feed.
unfoldable pub lines_from : Text → Text → List Text
unfolding strip_last
lines_from acc [] = if is_nil acc then [] else acc ∷ []
lines_from acc (c ∷ s) =
    let ended = without_cr acc ∷ lines_from [] s in
    let goes_on = lines_from (acc ++ c ∷ []) s in if c == b'\n' then ended else goes_on

abbrev pub lines : Text → List Text
lines = lines_from []

-- `str::replace` of one character.
unfoldable pub replace_char : ℕ → Text → Text → Text
replace_char k by [] = []
replace_char k by (c ∷ s) =
    let rest = replace_char k by s in if c == k then by ++ rest else c ∷ rest

abbrev is_digit : ℕ → Bool
is_digit c = leb b'0' c && leb c b'9'

unfoldable pub digits_from : ℕ → Text → Option ℕ
digits_from n [] = some n
digits_from n (c ∷ s) =
    let rest = digits_from (n * 10 + (c - b'0')) s in if is_digit c then rest else none

abbrev pub below_u16 : Option ℕ → Option ℕ
below_u16 none = none
below_u16 (some n) = if ltb n 0x1_0000 then some n else none

abbrev pub some_digits : Text → Option ℕ
some_digits [] = none
some_digits (c ∷ s) = digits_from 0 (c ∷ s)

-- `parse::<u16>`: one sign `+` is allowed, at least one digit is wanted, and 65535 is the last.
unfoldable pub parse_u16 : Text → Option ℕ
unfolding digits_from
parse_u16 [] = none
parse_u16 (c ∷ s) = below_u16 (if c == b'+' then some_digits s else some_digits (c ∷ s))

digit_text : ℕ → Text
digit_text d = (b'0' + d) ∷ []

-- `Display` of a `u16`.
unfoldable pub show_u16 : ℕ → Text
unfolding digit_text
show_u16 n =
    if ltb n 10
    then digit_text n
    else if ltb n 100
    then digit_text (n / 10) ++ digit_text (n % 10)
    else if ltb n 1000
    then digit_text (n / 100) ++ (digit_text (n / 10 % 10) ++ digit_text (n % 10))
    else if ltb n 10000
    then digit_text (n / 1000)
      ++ (digit_text (n / 100 % 10) ++ (digit_text (n / 10 % 10) ++ digit_text (n % 10)))
    else digit_text (n / 10000)
      ++ (digit_text (n / 1000 % 10)
          ++ (digit_text (n / 100 % 10) ++ (digit_text (n / 10 % 10) ++ digit_text (n % 10))))
