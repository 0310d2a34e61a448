-- ===== src/Tunnel.antt =====
-- crates/avash/src/tunnel.rs: the definitions of tunnels and their file, which `serde_yaml` decodes,
-- and the handshake of the SOCKS5 proxy, over the bytes that the client sends.
pub mod Socks
pub mod Store
mod Tests
use avash.Base.{
  ℕ, zero, suc, ◌+◌, ◌*◌, Bool, true, false, not, ◌&&◌, Option, none, some, List, [], ◌∷◌, ◌++◌,
  length, take, drop, ltb, ◌==◌, if◌then◌else◌, is_nil, any,
}
use avash.Base.Text.{Text, Bytes, codes, is_whitespace, trim, text_eq, show_u16}

pub data Kind : Type 0 where
  local remote dynamic : Kind

pub record TunnelDef : Type 0 where
  pub id : Text
  pub alias : Text
  pub kind : Kind
  pub bind_port : ℕ
  pub target_host : Text
  pub target_port : ℕ
  pub name : Text

pub data TunnelError : Type 0 where
  no_alias no_fixed_port no_target no_target_port no_bind_port unreadable : TunnelError

-- The checks of the two kinds that have a destination.
abbrev pub validate_target : TunnelDef → Option TunnelError
validate_target d =
    if is_nil (trim d.target_host)
    then some no_target
    else if d.target_port == 0
    then some no_target_port
    else if d.bind_port == 0
    then some no_bind_port
    else none

unfoldable pub validate : TunnelDef → Option TunnelError
validate d = if is_nil (trim d.alias) then some no_alias else elim d.kind [
  | dynamic ↦ if d.bind_port == 0 then some no_fixed_port else none
  | local ↦ validate_target d
  | remote ↦ validate_target d
]

abbrev arrow : Text
arrow = 32 ∷ 0x2192 ∷ 32 ∷ []

unfoldable pub describe : TunnelDef → Text
unfolding show_u16
describe d =
    let target = d.target_host ++ (codes ":" ++ show_u16 d.target_port) in
    elim d.kind [
      | local ↦
          codes "localhost:" ++ (show_u16 d.bind_port ++ (arrow ++ (d.alias ++ (arrow ++ target))))
      | remote ↦
          d.alias
          ++ (codes ":"
              ++ (show_u16 d.bind_port ++ (arrow ++ (codes "localhost" ++ (arrow ++ target)))))
      | dynamic ↦ codes "SOCKS5 localhost:" ++ (show_u16 d.bind_port ++ (arrow ++ d.alias))
    ]

-- `tunnels.yaml`: an error, or its list, which is empty if there is no file.
abbrev pub TunnelsFile : Type 0
TunnelsFile = Option (List TunnelDef)

pub data Saved : Type 0 where
  failed : TunnelError → Saved
  saved : List TunnelDef → Saved

unfoldable pub upsert : TunnelDef → List TunnelDef → List TunnelDef
upsert d [] = d ∷ []
upsert d (e ∷ r) = let later = e ∷ upsert d r in if text_eq e.id d.id then d ∷ r else later

unfoldable pub upsert_def_in : TunnelsFile → TunnelDef → Saved
unfolding validate upsert
upsert_def_in file d = elim (validate d) [
  | some e ↦ failed e
  | none ↦ elim file [ none ↦ failed unreadable | some defs ↦ saved (upsert d defs) ]
]

unfoldable pub without_id : Text → List TunnelDef → List TunnelDef
without_id id [] = []
without_id id (e ∷ r) = let rest = without_id id r in if text_eq e.id id then rest else e ∷ rest

unfoldable pub remove_def_in : TunnelsFile → Text → Saved
unfolding without_id
remove_def_in file id = elim file [
  | none ↦ failed unreadable
  | some defs ↦ saved (without_id id defs)
]

-- How a handshake ends; with the bytes that were written to the client so far.
pub data Refusal : Type 0 where
  cut_off bad_version needs_login bad_command bad_name bad_address : Refusal

pub data Outcome : Type 0 where
  refused : Bytes → Refusal → Outcome
  asked : Bytes → Text → ℕ → Bytes → Outcome

-- `read_exact`: the first `n` bytes of what the client sends, and the rest.
abbrev pub read_exact : ℕ → Bytes → (Bytes → Bytes → Outcome) → Outcome → Outcome
read_exact n s next short = if ltb (length s) n then short else next (take n s) (drop n s)

abbrev pub byte_at : ℕ → Bytes → ℕ
byte_at i [] = 0
byte_at zero (b ∷ s) = b
byte_at (suc i) (b ∷ s) = byte_at i s

abbrev pub accepted : Bytes
accepted = 5 ∷ 0 ∷ []

-- A reply that refuses the request, with its code.
abbrev pub reply : ℕ → Bytes
reply code = 5 ∷ code ∷ 0 ∷ 1 ∷ 0 ∷ 0 ∷ 0 ∷ 0 ∷ 0 ∷ 0 ∷ []

-- The texts of an IPv4 and of an IPv6 address are the language's; `from_utf8` may refuse.
module _ (ipv4 ipv6 : Bytes → Text) (from_utf8 : Bytes → Option Text) where
  -- The port behind the address.
  unfoldable pub read_port : Text → Bytes → Outcome
  read_port host s =
      read_exact 2 s (λ p rest. asked accepted host (256 * byte_at 0 p + byte_at 1 p) rest)
        (refused accepted cut_off)

  unfoldable pub read_name : Bytes → Outcome
  unfolding read_port
  read_name s =
      read_exact 1 s
        (λ n more.
          read_exact (byte_at 0 n) more
            (λ name rest. elim (from_utf8 name) [
              | none ↦ refused accepted bad_name
              | some host ↦ read_port host rest
            ])
            (refused accepted cut_off))
        (refused accepted cut_off)

  unfoldable pub read_address : ℕ → Bytes → Outcome
  unfolding read_port read_name
  read_address kind s =
      if kind == 1
      then read_exact 4 s (λ a rest. read_port (ipv4 a) rest) (refused accepted cut_off)
      else if kind == 3
      then read_name s
      else if kind == 4
      then read_exact 16 s (λ a rest. read_port (ipv6 a) rest) (refused accepted cut_off)
      else refused (accepted ++ reply 8) bad_address

  -- The request behind an accepted greeting.
  unfoldable pub read_request : Bytes → Outcome
  unfolding read_address
  read_request s =
      read_exact 4 s
        (λ req rest.
          if not (byte_at 1 req == 1)
          then refused (accepted ++ reply 7) bad_command
          else read_address (byte_at 3 req) rest)
        (refused accepted cut_off)

  -- `socks5_handshake`
  unfoldable pub socks5_handshake : Bytes → Outcome
  unfolding read_request
  socks5_handshake s =
      read_exact 2 s
        (λ head more.
          if not (byte_at 0 head == 5)
          then refused [] bad_version
          else read_exact (byte_at 1 head) more
              (λ methods rest.
                if any (λ m. m == 0) methods
                then read_request rest
                else refused (5 ∷ 0xff ∷ []) needs_login)
              (refused [] cut_off))
        (refused [] cut_off)
