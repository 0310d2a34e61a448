-- ===== src/Config/Blocks.antt =====
-- crates/avash/src/lib.rs: `dequote`, `blocs_bruts` and `parse_config_str`. One `step` is the body
-- of the loop over the lines.
use avash.Base.{
  ℕ, Bool, not, ◌&&◌, Option, none, some, List, [], ◌∷◌, ◌++◌, map, ◌==◌, if◌then◌else◌, is_nil,
}
use avash.Base.Text.{
  Text, codes, is_whitespace, trim, trim_start, trim_matches, text_eq, to_lowercase, strip_prefix,
  strip_last, split_once, split_if, split_whitespace, keep_if, contains_char, starts_with,
  parse_u16, lines,
}
use avash.Config.Host.{SshHost, new_host}

abbrev pub or_else : Option Text → Option Text → Option Text
or_else (some a) b = some a
or_else none b = b

abbrev pub unquoted : Text → Text
unquoted v = elim (strip_prefix (codes "\"") v) [
  | none ↦ v
  | some s ↦ elim (strip_last b'"' s) [ none ↦ v | some r ↦ r ]
]

unfoldable pub dequote : Text → Text
dequote value = unquoted (trim value)

pub record Reader : Type 0 where
  pub hosts : List SshHost
  pub current : Option SshHost

abbrev pub start : Reader
start = record { hosts = []; current = none }

-- `if let Some(h) = current.take() { hosts.push(h) }`
unfoldable pub close : Reader → List SshHost
close r = elim r.current [ none ↦ r.hosts | some h ↦ r.hosts ++ h ∷ [] ]

abbrev pub update_current : (SshHost → SshHost) → Reader → Reader
update_current f r = record r { current = elim r.current [ none ↦ none | some h ↦ some (f h) ] }

-- The list behind `#Tags:`.
unfoldable pub tag_list : Text → List Text
tag_list text = keep_if (λ t. not (is_nil t)) (map trim (split_if (λ c. c == b',') text))

abbrev pub either_prefix : Text → Text → Text → Option Text
either_prefix a b s = or_else (strip_prefix a s) (strip_prefix b s)

abbrev pub tags_after : Text → Option Text
tags_after rest = either_prefix (codes "Tags:") (codes "tags:") (trim_start rest)

abbrev pub folder_after : Text → Option Text
folder_after rest = either_prefix (codes "Folder:") (codes "folder:") (trim_start rest)

abbrev pub set_tags : Text → SshHost → SshHost
set_tags text h = if is_nil h.tags then record h { tags = tag_list text } else h

abbrev pub set_folder : Text → SshHost → SshHost
set_folder path h =
    if is_nil h.folder then record h { folder = trim_matches b'/' (trim path) } else h

unfoldable pub comment : Text → Reader → Reader
comment rest r = elim (tags_after rest) [
  | some text ↦ update_current (set_tags text) r
  | none ↦ elim (folder_after rest) [ some path ↦ update_current (set_folder path) r | none ↦ r ]
]

-- A field takes the first value that is not empty.
abbrev pub first_value : Option Text → Text → Option Text
first_value (some v) new = some v
first_value none new = if is_nil new then none else some new

abbrev pub nonzero : Option ℕ → Option ℕ
nonzero none = none
nonzero (some p) = if p == 0 then none else some p

abbrev pub first_port : Option ℕ → Text → Option ℕ
first_port (some p) value = some p
first_port none value = nonzero (parse_u16 value)

unfoldable pub set_field : Text → Text → SshHost → SshHost
set_field key value h =
    let v = dequote value in
    if text_eq key (codes "hostname")
    then record h { hostname = first_value h.hostname v }
    else if text_eq key (codes "user")
    then record h { user = first_value h.user v }
    else if text_eq key (codes "port")
    then record h { port = first_port h.port value }
    else if text_eq key (codes "identityfile")
    then record h { identity_file = first_value h.identity_file v }
    else if text_eq key (codes "proxyjump")
    then record h { proxy_jump = first_value h.proxy_jump v }
    else h

-- The keyword of a line, in lower case, and its trimmed value.
unfoldable pub key_value : Text → Text × Text
key_value line = elim (split_once is_whitespace line) [
  | none ↦ (to_lowercase line, [])
  | some (k, v) ↦ (to_lowercase k, trim v)
]

unfoldable pub directive : Text → Text → Reader → Reader
directive key value r =
    if text_eq key (codes "host")
    then record { hosts = close r; current = some (new_host value) }
    else if text_eq key (codes "match")
    then record { hosts = close r; current = none }
    else update_current (set_field key value) r

-- A trimmed line.
unfoldable pub on_line : Reader → Text → Reader
on_line r line = if is_nil line then r else elim (strip_prefix (codes "#") line) [
  | some rest ↦ comment rest r
  | none ↦ let (key, value) = key_value line in directive key value r
]

abbrev pub step : Reader → Text → Reader
step r raw = on_line r (trim raw)

unfoldable pub read_lines : Reader → List Text → Reader
read_lines r [] = r
read_lines r (l ∷ ls) = read_lines (step r l) ls

unfoldable pub raw_blocks : Text → List SshHost
raw_blocks text = close (read_lines start (lines text))

-- `Host a b` is two hosts.
unfoldable pub per_alias : SshHost → List Text → List SshHost
per_alias h [] = []
per_alias h (a ∷ r) = record h { alias = a } ∷ per_alias h r

unfoldable pub expand : List SshHost → List SshHost
expand [] = []
expand (h ∷ r) = per_alias h (split_whitespace h.alias) ++ expand r

unfoldable pub is_listed : SshHost → Bool
is_listed h = not (contains_char b'*' h.alias) && not (starts_with (codes "!") h.alias)

unfoldable pub retain_listed : List SshHost → List SshHost
retain_listed [] = []
retain_listed (h ∷ r) = let rest = retain_listed r in if is_listed h then h ∷ rest else rest

unfoldable pub parse_config_str : Text → List SshHost
unfolding raw_blocks expand retain_listed
parse_config_str text = retain_listed (expand (raw_blocks text))
