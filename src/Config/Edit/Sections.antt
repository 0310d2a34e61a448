-- ===== src/Config/Edit/Sections.antt =====
-- The text of a configuration as sections: a `Host` or `Match` line, and the lines below it. It is
-- the independent description against which the editing loops of crates/avash/src/lib.rs are read.
use avash.Base.{
  Bool, true, ◌&&◌, ◌||◌, ◌≡◌, refl, ap, inl, inr, Bool-cases, List, [], ◌∷◌, ◌++◌, if◌then◌else◌,
}
use avash.Base.Text.{Text, codes, trim_start, text_eq, to_lowercase}
use avash.Config.Edit.{key_and_value, opens_block_of, is_free_line}

unfoldable pub is_host : Text → Bool
is_host line = text_eq (to_lowercase (key_and_value (trim_start line)).0) (codes "host")

unfoldable pub is_match : Text → Bool
is_match line = text_eq (to_lowercase (key_and_value (trim_start line)).0) (codes "match")

-- `Host alias`, with no other name.
unfoldable pub opens : Text → Text → Bool
opens alias line = is_host line && opens_block_of (key_and_value (trim_start line)).1 alias

pub record Sections : Type 0 where
  pub preamble : List Text
  pub parts : List (Text × List Text)

abbrev pub put : Text → Sections → Sections
put l s =
    if is_host l || is_match l
    then record { preamble = []; parts = (l, s.preamble) ∷ s.parts }
    else record s { preamble = l ∷ s.preamble }

abbrev pub sections : List Text → Sections
sections [] = record { preamble = []; parts = [] }
sections (l ∷ ls) = put l (sections ls)

-- Every part is replaced by lines of its own.
abbrev pub rewrite_parts : (Text → List Text → List Text) → List (Text × List Text) → List Text
rewrite_parts f [] = []
rewrite_parts f ((h, body) ∷ r) = f h body ++ rewrite_parts f r

abbrev pub all_free : List Text → Bool
all_free [] = true
all_free (l ∷ r) = is_free_line l && all_free r

-- The free lines at the end of a body: blank lines and comments that announce what follows.
abbrev pub free_tail : List Text → List Text
free_tail [] = []
free_tail (l ∷ r) = if all_free (l ∷ r) then l ∷ r else free_tail r

pub sections-join :
    (ls : List Text) → (sections ls).preamble ++ rewrite_parts ◌∷◌ (sections ls).parts ≡ ls
sections-join [] = refl
sections-join (l ∷ ls) = elim (Bool-cases (is_host l || is_match l)) [
  | inl h ↦ rw h (ap (λ x. l ∷ x) (sections-join ls))
  | inr h ↦ rw h (ap (λ x. l ∷ x) (sections-join ls))
]
