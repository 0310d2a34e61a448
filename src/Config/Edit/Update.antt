-- ===== src/Config/Edit/Update.antt =====
-- crates/avash/src/lib.rs: `directive_regeneree` and `update_host`.
pub mod Keeps
pub mod Whole
use avash.Base.{
  Bool, true, false, not, ◌&&◌, ◌||◌, Option, none, some, List, [], ◌∷◌, ◌++◌, if◌then◌else◌,
  is_nil,
}
use avash.Base.Text.{
  Text, codes, is_whitespace, trim, trim_start, trim_end, text_eq, to_lowercase, eq_ignore_case,
  split_once, keep_if, lines,
}
use avash.Config.Host.{SshHost, Result, ok, err, FileRead, already_declared, ◌>>=◌, ◌>>◌}
use avash.Config.Validate.{validate_host}
use avash.Config.Render.{unlines, render_host_block}
use avash.Config.Edit.{
  key_and_value, opens_block_of, is_tags_comment, is_folder_comment, is_free_line, is_declared,
  not_editable, written, text_of,
}

-- The keywords that `render_host_block` writes.
abbrev pub is_managed : Text → Bool
is_managed key =
    text_eq key (codes "hostname")
    || text_eq key (codes "user")
    || text_eq key (codes "port")
    || text_eq key (codes "identityfile")
    || text_eq key (codes "proxyjump")

unfoldable pub is_regenerated : Text → Bool
unfolding is_tags_comment is_folder_comment key_and_value
is_regenerated line =
    let t = trim_start line in
    if is_nil t
    then true
    else if is_folder_comment line || is_tags_comment line
    then true
    else is_managed (to_lowercase (key_and_value t).0)

pub record Updater : Type 0 where
  pub out : List Text
  pub skipping : Bool
  pub replaced : Bool
  pub kept : List Text
  pub buffer : List Text

abbrev pub start : Updater
start = record { out = []; skipping = false; replaced = false; kept = []; buffer = [] }

-- `emettre`: the block written anew, the directives kept from the old one, the buffered lines.
abbrev pub emit : Text → Updater → Updater
emit block u = record u {
  out = u.out ++ (block ∷ (u.kept ++ u.buffer));
  kept = [];
  buffer = [];
  skipping = false;
}

abbrev pub nonblank : List Text → List Text
nonblank = keep_if (λ l. not (is_nil (trim l)))

unfoldable pub keep_or_skip : Text → Updater → Updater
keep_or_skip line u =
    if u.skipping
    then (if is_free_line line then record u { buffer = u.buffer ++ line ∷ [] } else record u {
      kept = u.kept ++ (nonblank u.buffer ++ (if is_regenerated line then [] else line ∷ []));
      buffer = [];
    })
    else record u { out = u.out ++ line ∷ [] }

unfoldable pub step : Text → Text → Updater → Text → Updater
step block alias u line =
    let (key, value) = key_and_value (trim_start line) in
    let key_lower = to_lowercase key in
    if text_eq key_lower (codes "host")
    then (let e = if u.skipping then emit block u else u in
        if opens_block_of value alias
        then record e { skipping = true; replaced = true }
        else keep_or_skip line e)
    else if text_eq key_lower (codes "match") && u.skipping
    then keep_or_skip line (emit block u)
    else keep_or_skip line u

unfoldable pub update_lines : Text → Text → Updater → List Text → Updater
update_lines block alias u [] = if u.skipping then emit block u else u
update_lines block alias u (l ∷ ls) = update_lines block alias (step block alias u l) ls

unfoldable pub update_host : Option (List SshHost) → FileRead → Text → SshHost → Result Text
unfolding key_and_value opens_block_of is_free_line is_regenerated keep_if keep_or_skip step
    update_lines validate_host is_declared render_host_block not_editable written unlines
update_host all_hosts file old_name host = do
  let old_alias = trim old_name
  validate_host host
  text ← text_of file
  if not (eq_ignore_case host.alias old_alias) && is_declared (trim host.alias) all_hosts text
      then err (already_declared (trim host.alias))
      else do
        let u = update_lines (trim_end (render_host_block host)) old_alias start (lines text)
        if u.replaced then ok (written text (unlines u.out)) else err (not_editable text old_alias)
