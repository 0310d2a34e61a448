-- ===== src/Snippet.antt =====
-- crates/avash/src/snippet.rs: commands with variables, and what is sent to a terminal. The code
-- walks over bytes and compares them with braces, which are one byte each; here it walks over
-- characters. The file is decoded and encoded by `serde_yaml`, and is a list here.
pub mod Payload
pub mod Variables
mod Tests
use avash.Base.{
  ℕ, zero, suc, ◌+◌, Bool, true, false, not, ◌&&◌, ◌||◌, Option, none, some, List, [], ◌∷◌, ◌++◌,
  length, drop, if◌then◌else◌, is_nil,
}
use avash.Base.Text.{
  Text, codes, is_whitespace, trim, text_eq, strip_prefix, starts_with, ends_with, replace_char,
}
use avash.Base.Replace.{contains, replace}
use avash.Base.Equal.{has}

pub record Snippet : Type 0 where
  pub id : Text
  pub name : Text
  pub command : Text
  pub run : Bool
  pub category : Text

-- What stands before the first `}}`.
unfoldable pub before_close : Text → Option Text
before_close [] = none
before_close (c ∷ s) =
    let later = elim (before_close s) as (λ _. Option Text) [
      | none ↦ none
      | some n ↦ some (c ∷ n)
    ] in
    if starts_with (codes "}}") (c ∷ s) then some [] else later

-- The name between braces at the front of a text, untrimmed.
unfoldable pub braced : Text → Option Text
unfolding before_close
braced s = if starts_with (codes "{{") s then before_close (drop 2 s) else none

abbrev pub add_name : List Text → Text → List Text
add_name out name = if not (is_nil name) && not (has name out) then out ++ name ∷ [] else out

-- `skip` characters belong to the variable that was just read.
unfoldable pub extract_from : List Text → ℕ → Text → List Text
unfolding braced
extract_from out skip [] = out
extract_from out (suc k) (c ∷ s) = extract_from out k s
extract_from out zero (c ∷ s) = elim (braced (c ∷ s)) [
  | none ↦ extract_from out 0 s
  | some n ↦ extract_from (add_name out (trim n)) (length n + 3) s
]

unfoldable pub extract_vars : Text → List Text
unfolding extract_from
extract_vars command = extract_from [] 0 command

-- A table of values; a missing name is empty.
abbrev pub Table : Type 0
Table = Text → Option Text

abbrev pub value_of : Table → Text → Text
value_of vars name = elim (vars name) [ none ↦ [] | some v ↦ v ]

unfoldable pub render_from : Table → ℕ → Text → Text
unfolding braced
render_from vars skip [] = []
render_from vars (suc k) (c ∷ s) = render_from vars k s
render_from vars zero (c ∷ s) = elim (braced (c ∷ s)) [
  | none ↦ c ∷ render_from vars 0 s
  | some n ↦ value_of vars (trim n) ++ render_from vars (length n + 3) s
]

unfoldable pub render : Text → Table → Text
unfolding render_from
render command vars = render_from vars 0 command

abbrev pub paste_start : Text
paste_start = 0x1b ∷ codes "[200~"

abbrev pub paste_end : Text
paste_end = 0x1b ∷ codes "[201~"

-- The `while` over the markers of a protected paste.
unfoldable pub without_pastes : ℕ → Text → Text
unfolding contains replace
without_pastes zero s = s
without_pastes (suc f) s =
    let again = without_pastes f (replace paste_end [] (replace paste_start [] s)) in
    if contains paste_start s || contains paste_end s then again else s

-- Line feeds become carriage returns.
unfoldable pub with_returns : Text → Text
unfolding replace replace_char
with_returns text = replace_char b'\n' (codes "\r") (replace (codes "\r\n") (codes "\n") text)

unfoldable pub terminal_payload : Text → Bool → Bool → Text
unfolding without_pastes with_returns ends_with
terminal_payload text run brackets =
    let conv = with_returns text in
    let out =
      if brackets then paste_start ++ (without_pastes (length conv) conv ++ paste_end) else conv in
    if run && not (ends_with (codes "\r") out) then out ++ codes "\r" else out

-- What is wrong with a snippet, or with its file.
pub data SnippetError : Type 0 where
  no_name no_command unreadable : SnippetError

unfoldable pub validate : Snippet → Option SnippetError
validate s =
    if is_nil (trim s.name)
    then some no_name
    else if is_nil (trim s.command)
    then some no_command
    else none

-- `snippets.yaml`: an error, or its list, which is empty if there is no file.
abbrev pub SnippetsFile : Type 0
SnippetsFile = Option (List Snippet)

pub data Saved : Type 0 where
  failed : SnippetError → Saved
  saved : List Snippet → Saved

unfoldable pub upsert : Snippet → List Snippet → List Snippet
upsert s [] = s ∷ []
upsert s (t ∷ r) = let later = t ∷ upsert s r in if text_eq t.id s.id then s ∷ r else later

unfoldable pub upsert_snippet_in : SnippetsFile → Snippet → Saved
unfolding validate upsert
upsert_snippet_in file s = elim (validate s) [
  | some e ↦ failed e
  | none ↦ elim file [ none ↦ failed unreadable | some all ↦ saved (upsert s all) ]
]

unfoldable pub without_id : Text → List Snippet → List Snippet
without_id id [] = []
without_id id (t ∷ r) = let rest = without_id id r in if text_eq t.id id then rest else t ∷ rest

unfoldable pub remove_snippet_in : SnippetsFile → Text → Saved
unfolding without_id
remove_snippet_in file id = elim file [
  | none ↦ failed unreadable
  | some all ↦ saved (without_id id all)
]
