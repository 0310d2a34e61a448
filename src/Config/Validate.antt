-- ===== src/Config/Validate.antt =====
-- crates/avash/src/lib.rs: `sans_controle`, `validate_config_value` and the other checks of a host
-- before it is written.
pub mod Accepts
use avash.Base.{
  ℕ, Bool, true, false, ◌||◌, Option, none, some, List, [], ◌∷◌, map, ◌==◌, if◌then◌else◌, is_nil,
  any,
}
use avash.Base.Text.{Text, codes, is_whitespace, is_control, trim, split_if, contains_char}
use avash.Config.Host.{
  SshHost, Checked, ok, err, control_char, double_quote, inner_space, empty_alias, wildcard, ◌>>◌,
  ◌>>=◌,
}

unfoldable pub without_control : Text → Text
unfolding is_control
without_control = map (λ c. if is_control c then 32 else c)

-- `value.chars().find(|c| c.is_control())`
unfoldable pub find_control : Text → Option ℕ
find_control [] = none
find_control (c ∷ s) = if is_control c then some c else find_control s

unfoldable pub validate_config_value : Text → Text → Checked
validate_config_value label value = elim (find_control value) [
  | some c ↦ err (control_char label c)
  | none ↦ if contains_char b'"' value then err (double_quote label) else ok tt
]

unfoldable pub validate_config_value_no_space : Text → Text → Checked
validate_config_value_no_space label value = do
  validate_config_value label value
  if any is_whitespace value then err (inner_space label value) else ok tt

-- The loop over the links of the chain.
unfoldable pub validate_links : List Text → Checked
validate_links [] = ok tt
validate_links (l ∷ r) =
    let rest = validate_links r in
    if is_nil (trim l)
    then rest
    else (do validate_config_value_no_space (codes "ProxyJump") (trim l); rest)

unfoldable pub validate_proxy_jump : Text → Checked
validate_proxy_jump value = do
  validate_config_value (codes "ProxyJump") value
  validate_links (split_if (λ c. c == b',') value)

unfoldable pub validate_alias : Text → Checked
validate_alias alias = if is_nil alias then err empty_alias else elim (find_control alias) [
  | some c ↦ err (control_char (codes "Host") c)
  | none ↦
      if any is_whitespace alias
      then err (inner_space (codes "Host") alias)
      else if any (λ c. c == b'*' || c == b'?' || c == b'!') alias
      then err wildcard
      else ok tt
]

-- `if let Some(v) = … { check(v)?; }`
abbrev pub optionally : (Text → Checked) → Option Text → Checked
optionally check none = ok tt
optionally check (some v) = check v

unfoldable pub validate_tags : List Text → Checked
validate_tags [] = ok tt
validate_tags (t ∷ r) =
    let rest = validate_tags r in (do validate_config_value (codes "Tags") t; rest)

unfoldable pub validate_host : SshHost → Checked
unfolding is_control find_control validate_config_value validate_config_value_no_space
    validate_links validate_proxy_jump validate_alias validate_tags split_if
validate_host host = do
  validate_alias (trim host.alias)
  optionally (validate_config_value_no_space (codes "HostName")) host.hostname
  optionally (validate_config_value_no_space (codes "User")) host.user
  optionally (validate_config_value (codes "IdentityFile")) host.identity_file
  optionally validate_proxy_jump host.proxy_jump
  validate_tags host.tags
  validate_config_value (codes "Folder") host.folder
