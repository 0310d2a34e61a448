-- ===== src/Config/Hops.antt =====
-- crates/avash/src/lib.rs: `HopSpec` and `split_proxy_jump`.
pub mod Clean
use avash.Base.{
  ℕ, Bool, true, false, not, ◌&&◌, ◌||◌, Option, none, some, List, [], ◌∷◌, map, ◌==◌,
  if◌then◌else◌, is_nil,
}
use avash.Base.Text.{
  Text, codes, trim, eq_ignore_case, strip_prefix, split_once, rsplit_once, split_if, keep_if,
  replace_char, parse_u16,
}

pub record HopSpec : Type 0 where
  pub user : Option Text
  pub host : Text
  pub port : Option ℕ

abbrev pub nonempty : Text → Option Text
nonempty u = if is_nil u then none else some u

-- The part before the first `@`, and the rest.
unfoldable pub user_and_rest : Text → Option Text × Text
user_and_rest token = elim (split_once (λ c. c == b'@') token) [
  | some (u, r) ↦ (nonempty (trim u), trim r)
  | none ↦ (none, token)
]

-- `parse::<u16>().ok().filter(|p| *p != 0)` of a trimmed text.
unfoldable pub port_of : Text → Option ℕ
port_of p = elim (parse_u16 (trim p)) [ none ↦ none | some n ↦ if n == 0 then none else some n ]

-- Behind an opening bracket.
unfoldable pub bracketed : Text → Text × Option ℕ
bracketed rest = elim (split_once (λ c. c == b']') rest) [
  | some (host, after) ↦
      (trim host, elim (strip_prefix (codes ":") after) [ none ↦ none | some p ↦ port_of p ])
  | none ↦ (trim rest, none)
]

-- Without brackets a last `:port` is cut off only if it is a port behind a host.
unfoldable pub bare : Text → Text × Option ℕ
bare rest = elim (rsplit_once b':' rest) [
  | some (h, p) ↦ elim (port_of p) [
    | some n ↦ if is_nil (trim h) then (rest, none) else (trim h, some n)
    | none ↦ (rest, none)
  ]
  | none ↦ (rest, none)
]

unfoldable pub host_and_port : Text → Text × Option ℕ
host_and_port rest = elim (strip_prefix (codes "[") rest) [
  | some inner ↦ bracketed inner
  | none ↦ bare rest
]

-- `replace(['[', ']'], "")`
unfoldable pub without_brackets : Text → Text
without_brackets s = replace_char b']' [] (replace_char b'[' [] s)

unfoldable pub hop_of : Text → HopSpec
hop_of token =
    let (user, rest) = user_and_rest token in
    let (host, port) = host_and_port rest in
    record { user = user; host = trim (without_brackets host); port = port }

abbrev is_hop_token : Text → Bool
is_hop_token t = not (is_nil t) && not (eq_ignore_case t (codes "none"))

unfoldable pub with_host : List HopSpec → List HopSpec
with_host [] = []
with_host (h ∷ r) = let rest = with_host r in if is_nil h.host then rest else h ∷ rest

unfoldable pub split_proxy_jump : Text → List HopSpec
unfolding split_if keep_if split_once strip_prefix rsplit_once parse_u16 port_of user_and_rest
    bracketed bare host_and_port replace_char without_brackets hop_of with_host
split_proxy_jump spec =
    with_host (map hop_of (keep_if is_hop_token (map trim (split_if (λ c. c == b',') spec))))
