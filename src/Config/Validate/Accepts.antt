-- ===== src/Config/Validate/Accepts.antt =====
-- What a value that the checks of crates/avash/src/lib.rs accept is free of.
use avash.Base.{
  ℕ, ◌||◌, Bool-cases, Bool, true, false, ◌≡◌, refl, inl, inr, Option, none, some, List, [], ◌∷◌,
  arith, any, All, ◌==◌, if◌then◌else◌, Option-cases, is_nil,
}
use avash.Base.Text.{Text, codes, is_whitespace, is_control, trim, split_if}
use avash.Config.Host.{SshHost, Error, double_quote, inner_space, Checked, ok, err, ◌>>◌}
use avash.Config.Validate.{
  find_control, validate_links, validate_config_value, validate_config_value_no_space,
  validate_proxy_jump, validate_alias, optionally, validate_tags, validate_host,
}

find_control-none : (s : Text) → find_control s ≡ none → any is_control s ≡ false
unfolding find_control
find_control-none [] h = refl
find_control-none (c ∷ s) h = ground (arith, find_control-none s)

>>-eq-ok : (m k : Checked) → (m >> k) ≡ ok tt → (m ≡ ok tt) × (k ≡ ok tt)
>>-eq-ok (ok a) k h = (refl, h)
>>-eq-ok (err e) k h = cc

checked_if :
    (b : Bool) (e : Error) → ◌≡◌ {A = Checked} (if b then err e else ok tt) (ok tt) → b ≡ false
checked_if true e h = cc
checked_if false e h = refl

-- No control character and no double quote.
pub record IsPlain (s : Text) : Type 0 where
  pub no_control : any is_control s ≡ false
  pub no_quote : any (λ c. c == b'"') s ≡ false

pub validate_config_value-IsPlain :
    (label s : Text) → validate_config_value label s ≡ ok tt → IsPlain s
unfolding validate_config_value
validate_config_value-IsPlain label s h = elim (Option-cases (find_control s)) [
  | inr (c, e) ↦ absurd (cc (e, h))
  | inl e ↦ record {
    no_control = find_control-none s e;
    no_quote = checked_if _ (double_quote label) (rw (e, validate_config_value) at h);
  }
]

pub validate_config_value_no_space-IsPlain :
    (label s : Text)
    → validate_config_value_no_space label s ≡ ok tt
    → IsPlain s × (any is_whitespace s ≡ false)
unfolding validate_config_value_no_space
validate_config_value_no_space-IsPlain label s h =
    let (a, b) = >>-eq-ok (validate_config_value label s) _ h in
    (validate_config_value-IsPlain label s a, checked_if _ (inner_space label s) b)

-- A character of a pattern.
abbrev pub is_wild : ℕ → Bool
is_wild c = c == b'*' || c == b'?' || c == b'!'

pub validate_alias-IsPlain :
    (s : Text)
    → validate_alias s ≡ ok tt
    → (is_nil s ≡ false)
      × (any is_control s ≡ false)
      × (any is_whitespace s ≡ false)
      × (any is_wild s ≡ false)
unfolding validate_alias
validate_alias-IsPlain s h = ground (arith, find_control-none s)

abbrev pub OptionIs {κ} : (Text → Type κ) → Option Text → Type κ
OptionIs P none = Unit
OptionIs P (some v) = P v

abbrev pub IsWord : Text → Type 0
IsWord s = IsPlain s × (any is_whitespace s ≡ false)

-- A chain of hosts: no space within a link, once it is trimmed.
abbrev pub IsChain : Text → Type 0
IsChain v = All (λ l. any is_whitespace (trim l) ≡ false) (split_if (λ c. c == b',') v)

pub record IsAccepted (h : SshHost) : Type 0 where
  pub alias_given : is_nil (trim h.alias) ≡ false
  pub alias_control : any is_control (trim h.alias) ≡ false
  pub alias_space : any is_whitespace (trim h.alias) ≡ false
  pub alias_literal : any is_wild (trim h.alias) ≡ false
  pub hostname_word : OptionIs IsWord h.hostname
  pub user_word : OptionIs IsWord h.user
  pub identity_plain : OptionIs IsPlain h.identity_file
  pub jump_plain : OptionIs IsPlain h.proxy_jump
  pub jump_links : OptionIs IsChain h.proxy_jump
  pub tags_plain : All IsPlain h.tags
  pub folder_plain : IsPlain h.folder

optionally-OptionIs {κ} :
    {P : Text → Type κ} (check : Text → Checked) (o : Option Text)
    → ((v : Text) → check v ≡ ok tt → P v)
    → optionally check o ≡ ok tt
    → OptionIs P o
optionally-OptionIs check none sound h = tt
optionally-OptionIs check (some v) sound h = sound v h

validate_proxy_jump-IsPlain : (v : Text) → validate_proxy_jump v ≡ ok tt → IsPlain v
unfolding validate_proxy_jump
validate_proxy_jump-IsPlain v h =
    validate_config_value-IsPlain (codes "ProxyJump") v (>>-eq-ok _ _ h).0

is_nil-space : (s : Text) → is_nil s ≡ true → any is_whitespace s ≡ false
is_nil-space [] h = refl
is_nil-space (c ∷ s) h = cc

validate_links-spaceless :
    (l : List Text) → validate_links l ≡ ok tt → All (λ l. any is_whitespace (trim l) ≡ false) l
unfolding validate_links
validate_links-spaceless [] h = tt
validate_links-spaceless (l ∷ r) h = elim (Bool-cases (is_nil (trim l))) [
  | inl y ↦ (is_nil-space (trim l) y, validate_links-spaceless r (rw (y, validate_links) at h))
  | inr n ↦
      let (a, b) =
        >>-eq-ok (validate_config_value_no_space (codes "ProxyJump") (trim l)) (validate_links r)
          (rw (n, validate_links) at h) in
      (
        (validate_config_value_no_space-IsPlain (codes "ProxyJump") (trim l) a).1,
        validate_links-spaceless r b,
      )
]

validate_proxy_jump-IsChain : (v : Text) → validate_proxy_jump v ≡ ok tt → IsChain v
unfolding validate_proxy_jump
validate_proxy_jump-IsChain v h = validate_links-spaceless _ (>>-eq-ok _ _ h).1

validate_tags-IsPlain : (l : List Text) → validate_tags l ≡ ok tt → All IsPlain l
unfolding validate_tags
validate_tags-IsPlain [] h = tt
validate_tags-IsPlain (t ∷ l) h =
    let (a, b) = >>-eq-ok (validate_config_value (codes "Tags") t) (validate_tags l) h in
    (validate_config_value-IsPlain (codes "Tags") t a, validate_tags-IsPlain l b)

-- A host that `validate_host` accepts has an alias that, once it is trimmed, is not empty and has no control
-- character, no space and no character of a pattern; a host name and a user without control character, space or
-- double quote; a key file, a chain, tags and a folder without control character or double quote; and no space within
-- a link of the chain. So no field, written trimmed, can add a line to the configuration file.
pub validate_host-IsAccepted : (h : SshHost) → validate_host h ≡ ok tt → IsAccepted h
unfolding validate_host
validate_host-IsAccepted h e =
    let (alias, e1) = >>-eq-ok (validate_alias (trim h.alias)) _ e in
    let (hostname, e2) =
      >>-eq-ok (optionally (validate_config_value_no_space (codes "HostName")) h.hostname) _ e1 in
    let (user, e3) =
      >>-eq-ok (optionally (validate_config_value_no_space (codes "User")) h.user) _ e2 in
    let (identity, e4) =
      >>-eq-ok (optionally (validate_config_value (codes "IdentityFile")) h.identity_file) _ e3 in
    let (jump, e5) = >>-eq-ok (optionally validate_proxy_jump h.proxy_jump) _ e4 in
    let (tags, folder) = >>-eq-ok (validate_tags h.tags) _ e5 in
    let (given, control, space, literal) = validate_alias-IsPlain (trim h.alias) alias in
    record {
      alias_given = given;
      alias_control = control;
      alias_space = space;
      alias_literal = literal;
      hostname_word =
          optionally-OptionIs (validate_config_value_no_space (codes "HostName")) h.hostname
            (validate_config_value_no_space-IsPlain (codes "HostName")) hostname;
      user_word =
          optionally-OptionIs (validate_config_value_no_space (codes "User")) h.user
            (validate_config_value_no_space-IsPlain (codes "User")) user;
      identity_plain =
          optionally-OptionIs (validate_config_value (codes "IdentityFile")) h.identity_file
            (validate_config_value-IsPlain (codes "IdentityFile")) identity;
      jump_plain =
          optionally-OptionIs validate_proxy_jump h.proxy_jump validate_proxy_jump-IsPlain jump;
      jump_links =
          optionally-OptionIs validate_proxy_jump h.proxy_jump validate_proxy_jump-IsChain jump;
      tags_plain = validate_tags-IsPlain h.tags tags;
      folder_plain = validate_config_value-IsPlain (codes "Folder") h.folder folder;
    }
