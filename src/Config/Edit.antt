-- ===== src/Config/Edit.antt =====
-- crates/avash/src/lib.rs: what the functions that edit `~/.ssh/config` share. The text in writing
-- (`out`) is the list of the pieces that are each followed by a line feed.
pub mod Append
pub mod Remove
pub mod Update
pub mod Folder
pub mod Blanks
pub mod Sections
use avash.Base.{
  ℕ, zero, suc, ◌-◌, Bool, true, false, not, ◌&&◌, ◌||◌, Option, none, some, List, [], ◌∷◌, ◌++◌,
  length, ltb, ◌==◌, if◌then◌else◌, is_nil, any,
}
use avash.Base.Text.{
  Text, codes, is_whitespace, trim, trim_start, trim_start_if, text_eq, to_lowercase,
  eq_ignore_case, strip_prefix, starts_with, split_once, split_whitespace, contains_char, join,
  replace_char, lines,
}
use avash.Base.Replace.{contains, replace}
use avash.Config.Host.{
  SshHost, Error, Result, ok, err, FileRead, absent, unreadable_file, content, unreadable,
  several_aliases, not_found,
}
use avash.Config.Blocks.{either_prefix, tags_after, folder_after, parse_config_str}

-- The position of the first line feed, and what stands before it.
unfoldable pub first_line : Text → Option Text
first_line [] = none
first_line (c ∷ s) =
    if c == b'\n' then some [] else elim (first_line s) [ none ↦ none | some l ↦ some (c ∷ l) ]

abbrev ends_in_cr : Text → Bool
ends_in_cr [] = false
ends_in_cr (c ∷ []) = c == b'\r'
ends_in_cr (c ∷ d ∷ s) = ends_in_cr (d ∷ s)

-- `fin_de_ligne(content) == "\r\n"`
unfoldable pub is_crlf : Text → Bool
unfolding first_line
is_crlf text = elim (first_line text) [ none ↦ false | some l ↦ ends_in_cr l ]

-- `None` stands for the failure of `parse_ssh_config`.
unfoldable pub is_declared : Text → Option (List SshHost) → Text → Bool
unfolding parse_config_str
is_declared alias all_hosts main =
    let taken = λ (hosts : List SshHost). any (λ h. eq_ignore_case h.alias alias) hosts in
    elim all_hosts [ some hosts ↦ taken hosts | none ↦ taken (parse_config_str main) ]

-- The keyword of a line, and its trimmed value.
unfoldable pub key_and_value : Text → Text × Text
unfolding split_once is_whitespace
key_and_value trimmed = elim (split_once is_whitespace trimmed) [
  | none ↦ (trimmed, [])
  | some (k, v) ↦ (k, trim v)
]

-- `value.split_whitespace().eq(once(alias))`
abbrev pub is_only : List Text → Text → Bool
is_only (name ∷ []) alias = text_eq name alias
is_only _ alias = false

-- The line opens the block of this alias alone.
unfoldable pub opens_block_of : Text → Text → Bool
unfolding split_whitespace
opens_block_of value alias = is_only (split_whitespace value) alias

unfoldable pub multi_alias_block : Text → List Text → Option (List Text)
unfolding split_once split_whitespace is_whitespace
multi_alias_block alias [] = none
multi_alias_block alias (l ∷ ls) =
    let go_on = multi_alias_block alias ls in
    elim (split_once is_whitespace (trim_start l)) [
      | none ↦ go_on
      | some (key, value) ↦
          let names = split_whitespace value in
          if not (eq_ignore_case key (codes "host"))
          then go_on
          else if ltb 1 (length names) && any (λ n. text_eq n alias) names
          then some names
          else go_on
    ]

unfoldable pub not_editable : Text → Text → Error
unfolding multi_alias_block join
not_editable text alias = elim (multi_alias_block alias (lines text)) [
  | some names ↦ several_aliases (join (codes " ") names)
  | none ↦ not_found alias
]

abbrev pub is_some : Option Text → Bool
is_some none = false
is_some (some a) = true

unfoldable pub is_tags_comment : Text → Bool
unfolding strip_prefix
is_tags_comment line = elim (strip_prefix (codes "#") (trim_start line)) [
  | none ↦ false
  | some r ↦ is_some (tags_after r)
]

unfoldable pub is_folder_comment : Text → Bool
unfolding strip_prefix
is_folder_comment line = elim (strip_prefix (codes "#") (trim_start line)) [
  | none ↦ false
  | some r ↦ is_some (folder_after r)
]

-- An empty line or a free comment: it may announce the block that follows.
unfoldable pub is_free_line : Text → Bool
unfolding is_tags_comment is_folder_comment
is_free_line line =
    let trimmed = trim_start line in
    is_nil trimmed
    || (starts_with (codes "#") trimmed
        && not (is_tags_comment line)
        && not (is_folder_comment line))

abbrev pub three_feeds : Text
three_feeds = codes "\n\n\n"

-- `while out.contains("\n\n\n") { out = out.replace("\n\n\n", "\n\n"); }`
unfoldable pub compact : ℕ → Text → Text
unfolding replace contains
compact zero out = out
compact (suc f) out =
    let again = compact f (replace three_feeds (codes "\n\n") out) in
    if contains three_feeds out then again else out

-- What is written: blank lines compacted, none at the front, and the line ends of the file.
unfoldable pub with_line_ends : Text → Text → Text
unfolding is_crlf replace_char
with_line_ends original out =
    if is_crlf original then replace_char b'\n' (codes "\r\n") out else out

unfoldable pub written : Text → Text → Text
unfolding compact with_line_ends trim_start_if
written original out =
    with_line_ends original (trim_start_if (λ c. c == b'\n') (compact (length out) out))

-- `read_to_string`, where an absent file is an error too.
abbrev pub text_of : FileRead → Result Text
text_of absent = err unreadable
text_of unreadable_file = err unreadable
text_of (content t) = ok t
