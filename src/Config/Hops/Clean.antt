-- ===== src/Config/Hops/Clean.antt =====
-- The links that `split_proxy_jump` (crates/avash/src/lib.rs) gives.
use avash.Base.{
  ℕ, ◌<◌, false, ◌≡◌, ◌≢◌, inl, inr, Option, none, some, List, [], ◌∷◌, map, arith, All, is_nil,
  ◌==◌, if◌then◌else◌, Bool-cases, Option-cases,
}
use avash.Base.Text.{
  Text, codes, trim, replace_char, is_whitespace, parse_u16, below_u16, some_digits, strip_prefix,
  split_once, rsplit_once,
}
use avash.Base.Trim.{trim-trim, All-trim_start_if, All-trim_end_if}
use avash.Config.Hops.{
  HopSpec, nonempty, user_and_rest, port_of, bracketed, bare, host_and_port, without_brackets,
  hop_of, with_host, split_proxy_jump,
}

abbrev pub NoBracket : ℕ → Type 0
NoBracket c = (c ≢ b'[') × (c ≢ b']')

abbrev pub InPort : Option ℕ → Type 0
InPort none = Unit
InPort (some p) = (0 < p) × (p < 65536)

pub record IsCleanHop (h : HopSpec) : Type 0 where
  pub host_given : is_nil h.host ≡ false
  pub host_trimmed : trim h.host ≡ h.host
  pub host_plain : All NoBracket h.host
  pub port_range : InPort h.port
  pub user_given : h.user ≢ some []

All-replace_char : (P : ℕ → Type 0) (k : ℕ) (s : Text) → All P s → All P (replace_char k [] s)
unfolding replace_char
All-replace_char P k [] a = a
All-replace_char P k (c ∷ s) a = elim (Bool-cases (c == k)) [
  | inl y ↦ rw y (All-replace_char P k s a.1)
  | inr n ↦ rw n (a.0, All-replace_char P k s a.1)
]

replace_char-removes : (k : ℕ) (s : Text) → All (λ c. c ≢ k) (replace_char k [] s)
unfolding replace_char
replace_char-removes k [] = tt
replace_char-removes k (c ∷ s) = elim (Bool-cases (c == k)) [
  | inl y ↦ rw y (replace_char-removes k s)
  | inr n ↦ rw n (ground arith, replace_char-removes k s)
]

All-both : (P Q : ℕ → Type 0) (s : Text) → All P s → All Q s → All (λ c. P c × Q c) s
All-both P Q [] a b = tt
All-both P Q (c ∷ s) a b = ((a.0, b.0), All-both P Q s a.1 b.1)

without_brackets-plain : (s : Text) → All NoBracket (without_brackets s)
unfolding without_brackets
without_brackets-plain s =
    All-both (λ c. c ≢ b'[') (λ c. c ≢ b']') _
      (All-replace_char (λ c. c ≢ b'[') b']' (replace_char b'[' [] s) (replace_char-removes b'[' s))
      (replace_char-removes b']' (replace_char b'[' [] s))

below_u16-lt : (o : Option ℕ) {n : ℕ} → below_u16 o ≡ some n → n < 65536
below_u16-lt none e = cc
below_u16-lt (some m) e = ground arith

parse_u16-lt : (s : Text) {n : ℕ} → parse_u16 s ≡ some n → n < 65536
unfolding parse_u16
parse_u16-lt [] e = cc
parse_u16-lt (c ∷ s) e = below_u16-lt (if c == b'+' then some_digits s else some_digits (c ∷ s)) e

port_of-InPort : (s : Text) → InPort (port_of s)
unfolding port_of
port_of-InPort s = elim (Option-cases (parse_u16 (trim s))) [
  | inl e ↦ rw (e, InPort) tt
  | inr (n, e) ↦
      rw (e, InPort)
        (elim (Bool-cases (n == 0)) [
          | inl z ↦ rw (z, InPort) tt
          | inr z ↦ rw (z, InPort) (ground arith, parse_u16-lt (trim s) e)
        ])
]

bracketed-InPort : (s : Text) → InPort (bracketed s).1
unfolding bracketed
bracketed-InPort s = elim (Option-cases (split_once (λ c. c == b']') s)) [
  | inl e ↦ rw (e, InPort) tt
  | inr ((host, after), e) ↦
      rw (e, InPort)
        (elim (Option-cases (strip_prefix (codes ":") after)) [
          | inl f ↦ rw (f, InPort) tt
          | inr (q, f) ↦ rw (f, InPort) (port_of-InPort q)
        ])
]

bare-InPort : (s : Text) → InPort (bare s).1
unfolding bare
bare-InPort s = elim (Option-cases (rsplit_once b':' s)) [
  | inl e ↦ rw (e, InPort) tt
  | inr ((h, q), e) ↦
      rw (e, InPort)
        (elim (Option-cases (port_of q)) [
          | inl f ↦ rw (f, InPort) tt
          | inr (n, f) ↦
              let inside : InPort (some n) = rw f at (port_of-InPort q) in
              rw (f, InPort)
                (elim (Bool-cases (is_nil (trim h))) [
                  | inl z ↦ rw (z, InPort) tt
                  | inr z ↦ rw (z, InPort) inside
                ])
        ])
]

host_and_port-InPort : (s : Text) → InPort (host_and_port s).1
unfolding host_and_port
host_and_port-InPort s = elim (Option-cases (strip_prefix (codes "[") s)) [
  | inl e ↦ rw (e, InPort) (bare-InPort s)
  | inr (inner, e) ↦ rw (e, InPort) (bracketed-InPort inner)
]

nonempty-given : (u : Text) → nonempty u ≢ some []
nonempty-given [] = λ e. cc e
nonempty-given (c ∷ u) = λ e. cc e

user_and_rest-given : (s : Text) → (user_and_rest s).0 ≢ some []
unfolding user_and_rest
user_and_rest-given s = elim (Option-cases (split_once (λ c. c == b'@') s)) [
  | inl e ↦ rw (e, user_and_rest) (λ x. cc x)
  | inr ((u, r), e) ↦ rw (e, user_and_rest) (nonempty-given (trim u))
]

hop_of-IsCleanHop : (t : Text) → is_nil (hop_of t).host ≡ false → IsCleanHop (hop_of t)
unfolding hop_of
hop_of-IsCleanHop t h =
    let (user, rest) = user_and_rest t in
    let (host, port) = host_and_port rest in
    record {
      host_given = h;
      host_trimmed = trim-trim (without_brackets host);
      host_plain =
          All-trim_end_if NoBracket is_whitespace _
            (All-trim_start_if NoBracket is_whitespace _ (without_brackets-plain host));
      port_range = host_and_port-InPort rest;
      user_given = user_and_rest-given t;
    }

with_host-IsCleanHop : (l : List Text) → All IsCleanHop (with_host (map hop_of l))
unfolding with_host
with_host-IsCleanHop [] = tt
with_host-IsCleanHop (t ∷ l) = elim (Bool-cases (is_nil (hop_of t).host)) [
  | inl e ↦ rw e (with_host-IsCleanHop l)
  | inr e ↦ rw e (hop_of-IsCleanHop t e, with_host-IsCleanHop l)
]

-- Whatever the value of `ProxyJump`, every link has a host that is not empty, trimmed and free of
-- brackets, no empty user, and a port, if any, from 1 to 65535.
pub split_proxy_jump-IsCleanHop : (spec : Text) → All IsCleanHop (split_proxy_jump spec)
unfolding split_proxy_jump
split_proxy_jump-IsCleanHop spec = with_host-IsCleanHop _
