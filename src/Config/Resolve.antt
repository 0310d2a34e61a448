-- ===== src/Config/Resolve.antt =====
-- crates/avash/src/lib.rs: `bloc_s_applique` and `resoudre_hote_dans`.
pub mod Defaults
use avash.Base.{
  Bool, true, false, not, ◌&&◌, ◌||◌, Option, none, some, List, [], ◌∷◌, if◌then◌else◌, is_nil, any,
}
use avash.Base.Text.{Text, codes, text_eq, to_lowercase, strip_prefix, split_whitespace}
use avash.Config.Host.{SshHost, new_host}
use avash.Config.Glob.{glob_match}
use avash.Config.Blocks.{raw_blocks}

-- The loop over the tokens; `alias` is in lower case, `positive` is what was found so far.
unfoldable pub tokens_apply : List Text → Text → Bool → Bool
tokens_apply [] alias positive = positive
tokens_apply (token ∷ rest) alias positive = elim (strip_prefix (codes "!") token) [
  | some negative ↦
      let go_on = tokens_apply rest alias positive in
      if glob_match (to_lowercase negative) alias then false else go_on
  | none ↦ tokens_apply rest alias (positive || glob_match (to_lowercase token) alias)
]

unfoldable pub block_applies : Text → Text → Bool
block_applies patterns alias = tokens_apply (split_whitespace patterns) (to_lowercase alias) false

abbrev pub first_some {ℓ} : {A : Type ℓ} → Option A → Option A → Option A
first_some (some a) b = some a
first_some none b = b

abbrev pub first_full {ℓ} : {A : Type ℓ} → List A → List A → List A
first_full [] b = b
first_full (x ∷ a) b = x ∷ a

-- The block lists the alias itself.
unfoldable pub is_literal : Text → SshHost → Bool
is_literal alias block = any (λ token. text_eq token alias) (split_whitespace block.alias)

abbrev pub take_literal : SshHost → SshHost → SshHost
take_literal block h = record h {
  hostname = first_some h.hostname block.hostname;
  tags = first_full h.tags block.tags;
  folder = first_full h.folder block.folder;
}

abbrev pub take_defaults : SshHost → SshHost → SshHost
take_defaults block h = record h {
  user = first_some h.user block.user;
  port = first_some h.port block.port;
  identity_file = first_some h.identity_file block.identity_file;
  proxy_jump = first_some h.proxy_jump block.proxy_jump;
}

pub record Resolution : Type 0 where
  pub host : SshHost
  pub found : Bool

-- The body of the loop over the blocks.
unfoldable pub visit : Text → Resolution → SshHost → Resolution
visit alias r block =
    if not (block_applies block.alias alias)
    then r
    else if is_literal alias block
    then record { host = take_defaults block (take_literal block r.host); found = true }
    else record r { host = take_defaults block r.host }

unfoldable pub visit_all : Text → Resolution → List SshHost → Resolution
visit_all alias r [] = r
visit_all alias r (b ∷ bs) = visit_all alias (visit alias r b) bs

unfoldable pub resolve_host_in : Text → Text → Option SshHost
unfolding strip_prefix split_whitespace tokens_apply block_applies is_literal visit visit_all
resolve_host_in text alias =
    let r = visit_all alias (record { host = new_host alias; found = false }) (raw_blocks text) in
    if r.found then some r.host else none
