-- ===== src/Config/Resolve/Defaults.antt =====
-- `resoudre_hote_dans` (crates/avash/src/lib.rs) against its rule: the first value obtained is kept.
use avash.Base.{
  Bool, true, false, not, ◌&&◌, ◌||◌, ◌≡◌, refl, ◌∙◌, inl, inr, Option, none, some, List, [], ◌∷◌,
  arith, if◌then◌else◌, Bool-cases, is_nil, any,
}
use avash.Base.Text.{Text, codes, to_lowercase, strip_prefix, split_whitespace}
use avash.Config.Host.{SshHost}
use avash.Config.Glob.{glob_match}
use avash.Config.Blocks.{raw_blocks}
use avash.Config.Resolve.{
  tokens_apply, block_applies, first_some, first_full, is_literal, Resolution, visit, visit_all,
  resolve_host_in,
}

-- A token without `!` that matches, and one behind a `!` that does.
abbrev pub is_positive : Text → Text → Bool
is_positive alias token = elim (strip_prefix (codes "!") token) [
  | none ↦ glob_match (to_lowercase token) alias
  | some _ ↦ false
]

abbrev pub is_negative : Text → Text → Bool
is_negative alias token = elim (strip_prefix (codes "!") token) [
  | none ↦ false
  | some negative ↦ glob_match (to_lowercase negative) alias
]

tokens_apply-any :
    (tokens : List Text) (alias : Text) (positive : Bool)
    → tokens_apply tokens alias positive
      ≡ ((positive || any (is_positive alias) tokens) && not (any (is_negative alias) tokens))
unfolding tokens_apply
tokens_apply-any [] alias positive = ground arith
tokens_apply-any (t ∷ r) alias positive = ground (
  arith,
  tokens_apply-any r alias positive,
  tokens_apply-any r alias (positive || glob_match (to_lowercase t) alias),
)

-- A block applies exactly if one of its patterns matches and none of its negated ones does.
pub block_applies-any :
    (patterns alias : Text)
    → block_applies patterns alias ≡ (
        any (is_positive (to_lowercase alias)) (split_whitespace patterns)
        && not (any (is_negative (to_lowercase alias)) (split_whitespace patterns)))
unfolding block_applies
block_applies-any patterns alias =
    tokens_apply-any (split_whitespace patterns) (to_lowercase alias) false

abbrev pub select : (SshHost → Bool) → List SshHost → List SshHost
select p [] = []
select p (h ∷ r) = if p h then h ∷ select p r else select p r

abbrev pub first_of {ℓ} : {A : Type ℓ} → (SshHost → Option A) → List SshHost → Option A
first_of f [] = none
first_of f (h ∷ r) = first_some (f h) (first_of f r)

abbrev pub first_full_of {ℓ} : {A : Type ℓ} → (SshHost → List A) → List SshHost → List A
first_full_of f [] = []
first_full_of f (h ∷ r) = first_full (f h) (first_full_of f r)

first_some_assoc {ℓ} :
    {A : Type ℓ} (a b c : Option A) → first_some (first_some a b) c ≡ first_some a (first_some b c)
first_some_assoc (some a) b c = refl
first_some_assoc none b c = refl

first_full_assoc {ℓ} :
    {A : Type ℓ} (a b c : List A) → first_full (first_full a b) c ≡ first_full a (first_full b c)
first_full_assoc (x ∷ a) b c = refl
first_full_assoc [] b c = refl

first_some-none {ℓ} : {A : Type ℓ} (a : Option A) → first_some a none ≡ a
first_some-none (some a) = refl
first_some-none none = refl

first_full-nil {ℓ} : {A : Type ℓ} (a : List A) → first_full a [] ≡ a
first_full-nil (x ∷ a) = refl
first_full-nil [] = refl

-- The blocks that apply, and those among them that list the alias itself.
abbrev pub applying : Text → List SshHost → List SshHost
applying alias = select (λ b. block_applies b.alias alias)

abbrev pub literal : Text → List SshHost → List SshHost
literal alias blocks = select (is_literal alias) (applying alias blocks)

abbrev merged : Text → Resolution → List SshHost → Resolution
merged alias r bs = record {
  host = record {
    alias = r.host.alias;
    hostname = first_some r.host.hostname (first_of (λ h. h.hostname) (literal alias bs));
    user = first_some r.host.user (first_of (λ h. h.user) (applying alias bs));
    port = first_some r.host.port (first_of (λ h. h.port) (applying alias bs));
    identity_file =
        first_some r.host.identity_file (first_of (λ h. h.identity_file) (applying alias bs));
    proxy_jump = first_some r.host.proxy_jump (first_of (λ h. h.proxy_jump) (applying alias bs));
    tags = first_full r.host.tags (first_full_of (λ h. h.tags) (literal alias bs));
    folder = first_full r.host.folder (first_full_of (λ h. h.folder) (literal alias bs));
  };
  found = r.found || not (is_nil (literal alias bs));
}

or-false : (b : Bool) → (b || false) ≡ b
or-false true = refl
or-false false = refl

or-true : (b : Bool) → (b || true) ≡ true
or-true true = refl
or-true false = refl

if-not {ℓ} : {A : Type ℓ} (b : Bool) (x y : A) → (if not b then x else y) ≡ (if b then y else x)
if-not true x y = refl
if-not false x y = refl

ruleset first_laws =
    (or-true, first_some-none, first_full-nil, or-false, first_some_assoc, first_full_assoc)

visit-merged :
    (alias : Text) (b : SshHost) (bs : List SshHost) (r : Resolution)
    → merged alias (visit alias r b) bs ≡ merged alias r (b ∷ bs)
unfolding visit
visit-merged alias b bs r = elim (Bool-cases (block_applies b.alias alias)) [
  | inr n ↦ rw (n, visit)
  | inl y ↦
      rw (y, visit)
        (elim (Bool-cases (is_literal alias b)) [
          | inr n ↦ rw n (simp first_laws)
          | inl l ↦ rw l (simp first_laws)
        ])
]

visit_all-merged :
    (alias : Text) (bs : List SshHost) (r : Resolution) → visit_all alias r bs ≡ merged alias r bs
unfolding visit_all
visit_all-merged alias [] r = simp first_laws
visit_all-merged alias (b ∷ bs) r =
    visit_all-merged alias bs (visit alias r b) ∙ visit-merged alias b bs r

-- What the blocks give for an alias: its own settings from the blocks that list it, and the
-- settings of the connection from all that apply.
abbrev pub resolved : Text → List SshHost → SshHost
resolved alias blocks = record {
  alias = alias;
  hostname = first_of (λ h. h.hostname) (literal alias blocks);
  user = first_of (λ h. h.user) (applying alias blocks);
  port = first_of (λ h. h.port) (applying alias blocks);
  identity_file = first_of (λ h. h.identity_file) (applying alias blocks);
  proxy_jump = first_of (λ h. h.proxy_jump) (applying alias blocks);
  tags = first_full_of (λ h. h.tags) (literal alias blocks);
  folder = first_full_of (λ h. h.folder) (literal alias blocks);
}

-- An alias is known exactly if a block that applies lists it. It then has, in the order of the
-- file, the first user, port, key and jump of the blocks that apply, and the first host name,
-- tags and folder of those that list it.
pub resolve_host_in-resolved :
    (text alias : Text)
    → resolve_host_in text alias ≡ (
        if is_nil (literal alias (raw_blocks text))
        then none
        else some (resolved alias (raw_blocks text)))
unfolding resolve_host_in
resolve_host_in-resolved text alias = rw visit_all-merged (
    if-not (is_nil (literal alias (raw_blocks text))) (some (resolved alias (raw_blocks text)))
      none)
