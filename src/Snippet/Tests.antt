-- ===== src/Snippet/Tests.antt =====
-- The theorems on snippets (crates/avash/src/snippet.rs), applied to small ones.
use avash.Base.{
  true, false, subst, inl, inr, Bool-cases, ◌≡◌, refl, none, some, [], ◌∷◌, ◌++◌, if◌then◌else◌,
}
use avash.Base.Text.{strip_prefix, trim_end_if, trim_start_if, is_whitespace, Text, codes, text_eq}
use avash.Base.Equal.{has, text_eq-eq}
use avash.Snippet.{extract_vars, value_of, Table, render, paste_start, paste_end, terminal_payload}
use avash.Snippet.Payload.{NoPaste, terminal_payload-NoPaste}
use avash.Snippet.Variables.{render-extract_vars}

-- A text that holds a marker within another.
abbrev nested : Text
nested = 0x1b ∷ (codes "[20" ++ (paste_end ++ codes "1~\nls"))

terminal_payload-NoPaste_example :
    (inner : Text) × NoPaste inner
    × (terminal_payload nested true true
        ≡ (paste_start ++ (inner ++ paste_end)) ++ (if true then codes "\r" else []))
terminal_payload-NoPaste_example = terminal_payload-NoPaste nested true

abbrev table : Table
table name = if text_eq name (codes "host") then some (codes "db") else none

-- The same, with a variable that the command does not use.
abbrev longer : Table
longer name = if text_eq name (codes "port") then some (codes "22") else table name

unlisted : has (codes "port") (extract_vars (codes "ping {{ host }} {{n}}")) ≡ false
unfolding extract_vars strip_prefix trim_end_if trim_start_if is_whitespace
unlisted = refl

agree :
    (x : Text)
    → has x (extract_vars (codes "ping {{ host }} {{n}}")) ≡ true
    → value_of table x ≡ value_of longer x
agree x h = elim (Bool-cases (text_eq x (codes "port"))) [
  | inr n ↦ rw (value_of, n) refl
  | inl y ↦ absurd (
      cc (
        subst (λ s. has s (extract_vars (codes "ping {{ host }} {{n}}")) ≡ true)
            (text_eq-eq x (codes "port") y) h,
        unlisted,
      ))
]

render-extract_vars_example :
    render (codes "ping {{ host }} {{n}}") table ≡ render (codes "ping {{ host }} {{n}}") longer
render-extract_vars_example =
    render-extract_vars (codes "ping {{ host }} {{n}}") table longer refl agree
