-- ===== src/Config/Render/Fields.antt =====
-- How the parser of crates/avash/src/lib.rs reads one line that `render_host_block` writes.
use avash.Base.{
  ℕ, false, ◌≡◌, refl, ap, ◌∙◌, inl, inr, some, List, [], ◌∷◌, ◌++◌, arith, any, ◌==◌, Bool-cases,
  is_nil,
}
use avash.Base.Text.{
  Text, codes, is_whitespace, trim_start, trim_end, trim, trim_end, trim_start_if, trim_end_if,
  strip_prefix, strip_last, split_once, lower,
}
use avash.Base.Trim.{trim-trim, trim_start_if-cons, trim_end_if_idem, trim_end_if-append}
use avash.Config.Host.{SshHost}
use avash.Config.Blocks.{
  Reader, step, first_port, unquoted, dequote, on_line, key_value, directive, set_field,
  first_value,
}
use avash.Config.Render.{quoted}

-- What trimming has left, and is not empty.
pub record IsTrimmed (v : Text) : Type 0 where
  pub given : is_nil v ≡ false
  pub at_end : trim_end_if is_whitespace v ≡ v
  pub both : trim v ≡ v

pub trim-IsTrimmed : (s : Text) → is_nil (trim s) ≡ false → IsTrimmed (trim s)
trim-IsTrimmed s h = record {
  given = h;
  at_end = trim_end_if_idem is_whitespace (trim_start_if is_whitespace s);
  both = trim-trim s;
}

unquoted-plain : (v : Text) → any (λ c. c == b'"') v ≡ false → unquoted v ≡ v
unfolding strip_prefix
unquoted-plain [] h = refl
unquoted-plain (c ∷ v) h = ground arith

pub dequote-plain : (v : Text) → any (λ c. c == b'"') v ≡ false → trim v ≡ v → dequote v ≡ v
unfolding dequote
dequote-plain v h t = ap unquoted t ∙ unquoted-plain v h

pub trim_start-indent : (s : Text) → trim_start (codes "    " ++ s) ≡ trim_start s
unfolding trim_start_if is_whitespace
trim_start-indent s = refl

-- A line of a key, one space and a trimmed value, behind four spaces.
pub trim-line :
    (k : ℕ) (ks v : Text)
    → is_whitespace k ≡ false
    → is_nil v ≡ false
    → trim_end v ≡ v
    → trim (codes "    " ++ k ∷ (ks ++ v)) ≡ k ∷ (ks ++ v)
trim-line k ks v h full at_end =
    ap (trim_end_if is_whitespace)
      (trim_start-indent (k ∷ (ks ++ v)) ∙ trim_start_if-cons is_whitespace k (ks ++ v) h)
    ∙ (trim_end_if-append is_whitespace (k ∷ ks) v (rw at_end full)
        ∙ ap (λ a. k ∷ (ks ++ a)) at_end)

-- A reader inside the block of a host.
abbrev pub reading : List SshHost → SshHost → Reader
reading hosts h = record { hosts = hosts; current = some h }

module _ (hosts : List SshHost) (h : SshHost) (v w : Text) (t : IsTrimmed v)
    (d : dequote v ≡ w) where
  pub step-hostname :
      step (reading hosts h) (codes "    HostName " ++ v)
      ≡ reading hosts (record h { hostname = first_value h.hostname w })
  unfolding on_line directive set_field key_value split_once strip_prefix lower is_whitespace
  step-hostname =
      ap (on_line (reading hosts h))
        (trim-line b'H' (codes "ostName ") v (unfold is_whitespace in refl) t.given t.at_end)
      ∙ ap (λ x. reading hosts (record h { hostname = first_value h.hostname x }))
          (ap dequote t.both ∙ d)

  pub step-user :
      step (reading hosts h) (codes "    User " ++ v)
      ≡ reading hosts (record h { user = first_value h.user w })
  unfolding on_line directive set_field key_value split_once strip_prefix lower is_whitespace
  step-user =
      ap (on_line (reading hosts h))
        (trim-line b'U' (codes "ser ") v (unfold is_whitespace in refl) t.given t.at_end)
      ∙ ap (λ x. reading hosts (record h { user = first_value h.user x })) (ap dequote t.both ∙ d)

  pub step-identity :
      step (reading hosts h) (codes "    IdentityFile " ++ v)
      ≡ reading hosts (record h { identity_file = first_value h.identity_file w })
  unfolding on_line directive set_field key_value split_once strip_prefix lower is_whitespace
  step-identity =
      ap (on_line (reading hosts h))
        (trim-line b'I' (codes "dentityFile ") v (unfold is_whitespace in refl) t.given t.at_end)
      ∙ ap (λ x. reading hosts (record h { identity_file = first_value h.identity_file x }))
          (ap dequote t.both ∙ d)

  pub step-jump :
      step (reading hosts h) (codes "    ProxyJump " ++ v)
      ≡ reading hosts (record h { proxy_jump = first_value h.proxy_jump w })
  unfolding on_line directive set_field key_value split_once strip_prefix lower is_whitespace
  step-jump =
      ap (on_line (reading hosts h))
        (trim-line b'P' (codes "roxyJump ") v (unfold is_whitespace in refl) t.given t.at_end)
      ∙ ap (λ x. reading hosts (record h { proxy_jump = first_value h.proxy_jump x }))
          (ap dequote t.both ∙ d)

pub step-port :
    (hosts : List SshHost) (h : SshHost) (v : Text)
    → IsTrimmed v
    → step (reading hosts h) (codes "    Port " ++ v)
      ≡ reading hosts (record h { port = first_port h.port v })
unfolding on_line directive set_field key_value split_once strip_prefix lower is_whitespace
step-port hosts h v t =
    ap (on_line (reading hosts h))
      (trim-line b'P' (codes "ort ") v (unfold is_whitespace in refl) t.given t.at_end)
    ∙ ap (λ x. reading hosts (record h { port = first_port h.port x })) t.both

strip_last-append : (k : ℕ) (s : Text) → strip_last k (s ++ k ∷ []) ≡ some s
unfolding strip_last
strip_last-append k [] = ground arith
strip_last-append k (c ∷ []) = ground arith
strip_last-append k (c ∷ d ∷ s) = rw (strip_last-append k (d ∷ s)) refl

quotes-trim_end :
    (v : Text) → trim_end_if is_whitespace (b'"' ∷ (v ++ b'"' ∷ [])) ≡ b'"' ∷ (v ++ b'"' ∷ [])
unfolding trim_end_if is_whitespace
quotes-trim_end v = trim_end_if-append is_whitespace (b'"' ∷ v) (b'"' ∷ []) refl

quotes-trim : (v : Text) → trim (b'"' ∷ (v ++ b'"' ∷ [])) ≡ b'"' ∷ (v ++ b'"' ∷ [])
quotes-trim v =
    ap (trim_end_if is_whitespace)
      (trim_start_if-cons is_whitespace b'"' (v ++ b'"' ∷ []) (unfold is_whitespace in refl))
    ∙ quotes-trim_end v

unquoted-quotes : (v : Text) → unquoted (b'"' ∷ (v ++ b'"' ∷ [])) ≡ v
unfolding strip_prefix
unquoted-quotes v = rw (unquoted, strip_last-append b'"' v) refl

-- A path in quotes is trimmed, and is read without them.
pub quoted-IsTrimmed : (v : Text) → IsTrimmed v → IsTrimmed (quoted v)
unfolding quoted
quoted-IsTrimmed v t = elim (Bool-cases (any is_whitespace v)) [
  | inl e ↦ rw e (record { given = refl; at_end = quotes-trim_end v; both = quotes-trim v })
  | inr e ↦ rw e t
]

pub dequote-quoted :
    (v : Text) → IsTrimmed v → any (λ c. c == b'"') v ≡ false → dequote (quoted v) ≡ v
unfolding quoted
dequote-quoted v t plain = elim (Bool-cases (any is_whitespace v)) [
  | inl e ↦ rw e (unfold dequote in (ap unquoted (quotes-trim v) ∙ unquoted-quotes v))
  | inr e ↦ rw e (dequote-plain v plain t.both)
]
