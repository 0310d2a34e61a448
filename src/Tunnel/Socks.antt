-- ===== src/Tunnel/Socks.antt =====
-- The SOCKS5 handshake (`socks5_handshake` of crates/avash/src/tunnel.rs) of a client that asks for a name.
use avash.Base.{
  ℕ, ◌+◌, ◌*◌, ◌/◌, ◌%◌, true, false, not, ◌≡◌, refl, ap, ◌∙◌, Option, none, some, [], ◌∷◌, ◌++◌,
  arith, length, length-append, take, drop, ltb, ◌==◌, if◌then◌else◌, any,
}
use avash.Base.Text.{Text, Bytes}
use avash.Tunnel.{
  Outcome, cut_off, bad_version, needs_login, bad_command, bad_name, reply, refused, asked,
  read_exact, byte_at, accepted, read_port, read_name, read_address, read_request, socks5_handshake,
}

take-append : (a s : Bytes) → take (length a) (a ++ s) ≡ a
take-append [] s = refl
take-append (x ∷ a) s = ap (◌∷◌ x) (take-append a s)

drop-append : (a s : Bytes) → drop (length a) (a ++ s) ≡ s
drop-append [] s = refl
drop-append (x ∷ a) s = drop-append a s

-- Bytes that are sent are read, and no more.
read_exact-append :
    (a s : Bytes) (next : Bytes → Bytes → Outcome) (short : Outcome)
    → read_exact (length a) (a ++ s) next short ≡ next a s
read_exact-append a s next short =
    rw (read_exact, long-enough, take-append a s, drop-append a s) refl
  where
    long-enough : ltb (length (a ++ s)) (length a) ≡ false
    long-enough = ground (arith, length-append a s)

-- What a client sends: its methods, and a request to connect to a name and a port.
abbrev pub request : Bytes → Bytes → ℕ → Bytes → Bytes
request methods name port rest =
    5
    ∷ length methods
    ∷ (methods ++ (5 ∷ 1 ∷ 0 ∷ 3 ∷ length name ∷ (name ++ (port / 256 ∷ port % 256 ∷ rest))))

module _ (ipv4 ipv6 : Bytes → Text) (from_utf8 : Bytes → Option Text) where
  -- The port at the end of a request.
  abbrev port_bytes : ℕ → Bytes → Bytes
  port_bytes port rest = port / 256 ∷ port % 256 ∷ rest

  read_port-request :
      (host : Text) (port : ℕ) (rest : Bytes)
      → read_port ipv4 ipv6 from_utf8 host (port_bytes port rest) ≡ asked accepted host port rest
  unfolding read_port
  read_port-request host port rest =
      let whole : 256 * (port / 256) + port % 256 ≡ port = omega arith in
      read_exact-append (port / 256 ∷ port % 256 ∷ []) rest
        (λ p rest. asked accepted host (256 * byte_at 0 p + byte_at 1 p) rest)
        (refused accepted cut_off)
      ∙ ap (λ n. asked accepted host n rest) whole

  abbrev with_host : Bytes → Bytes → Outcome
  with_host name rest = elim (from_utf8 name) [
    | none ↦ refused accepted bad_name
    | some host ↦ read_port ipv4 ipv6 from_utf8 host rest
  ]

  with_host-request :
      (name : Bytes) (host : Text) (port : ℕ) (rest : Bytes)
      → from_utf8 name ≡ some host
      → with_host name (port_bytes port rest) ≡ asked accepted host port rest
  with_host-request name host port rest utf8 =
      rw (with_host, utf8) (read_port-request host port rest)

  read_name-request :
      (name : Bytes) (host : Text) (port : ℕ) (rest : Bytes)
      → from_utf8 name ≡ some host
      → read_name ipv4 ipv6 from_utf8 (length name ∷ (name ++ port_bytes port rest))
        ≡ asked accepted host port rest
  unfolding read_name
  read_name-request name host port rest utf8 =
      read_exact-append (length name ∷ []) (name ++ port_bytes port rest)
        (λ n more. read_exact (byte_at 0 n) more with_host (refused accepted cut_off))
        (refused accepted cut_off)
      ∙ (read_exact-append name (port_bytes port rest) with_host (refused accepted cut_off)
          ∙ with_host-request name host port rest utf8)

  abbrev at_request : Bytes → Bytes → Outcome
  at_request req rest =
      if not (byte_at 1 req == 1)
      then refused (accepted ++ reply 7) bad_command
      else read_address ipv4 ipv6 from_utf8 (byte_at 3 req) rest

  read_request-request :
      (name : Bytes) (host : Text) (port : ℕ) (rest : Bytes)
      → from_utf8 name ≡ some host
      → read_request ipv4 ipv6 from_utf8
          (5 ∷ 1 ∷ 0 ∷ 3 ∷ length name ∷ (name ++ port_bytes port rest))
        ≡ asked accepted host port rest
  unfolding read_request read_address
  read_request-request name host port rest utf8 =
      read_exact-append (5 ∷ 1 ∷ 0 ∷ 3 ∷ []) (length name ∷ (name ++ port_bytes port rest))
        at_request (refused accepted cut_off)
      ∙ read_name-request name host port rest utf8

  abbrev at_methods : Bytes → Bytes → Outcome
  at_methods methods rest =
      if any (λ m. m == 0) methods
      then read_request ipv4 ipv6 from_utf8 rest
      else refused (5 ∷ 0xff ∷ []) needs_login

  -- A request for a name, with the method without a login among those proposed, is accepted, and
  -- asks for the host that the name stands for and for its port. What follows it is left unread.
  pub socks5_handshake-request :
      (methods name : Bytes) (host : Text) (port : ℕ) (rest : Bytes)
      → any (λ m. m == 0) methods ≡ true
      → from_utf8 name ≡ some host
      → socks5_handshake ipv4 ipv6 from_utf8 (request methods name port rest)
        ≡ asked accepted host port rest
  unfolding socks5_handshake
  socks5_handshake-request methods name host port rest login utf8 =
      let behind = 5 ∷ 1 ∷ 0 ∷ 3 ∷ length name ∷ (name ++ port_bytes port rest) in
      read_exact-append (5 ∷ length methods ∷ []) (methods ++ behind)
        (λ head more.
          if not (byte_at 0 head == 5)
          then refused [] bad_version
          else read_exact (byte_at 1 head) more at_methods (refused [] cut_off))
        (refused [] cut_off)
      ∙ (read_exact-append methods behind at_methods (refused [] cut_off)
          ∙ rw login (read_request-request name host port rest utf8))
