-- ===== src/Config/Edit/Folder.antt =====
-- crates/avash/src/lib.rs: `flush_folder_block` and `set_host_folder_at`.
pub mod Keeps
pub mod Marks
use avash.Base.{
  Bool, true, false, not, ◌&&◌, ◌||◌, Option, none, some, List, [], ◌∷◌, ◌++◌, if◌then◌else◌,
  is_nil,
}
use avash.Base.Text.{
  Text, codes, trim, trim_start, trim_matches, text_eq, to_lowercase, keep_if, lines,
}
use avash.Config.Host.{Result, ok, err, FileRead, ◌>>=◌, ◌>>◌}
use avash.Config.Validate.{validate_config_value}
use avash.Config.Render.{unlines}
use avash.Config.Edit.{
  key_and_value, opens_block_of, is_folder_comment, not_editable, with_line_ends, text_of,
}

-- `block.insert(pos, …)`, where `pos` follows the last line that is not blank; a block with
-- blank lines only takes the mark at its end.
unfoldable pub all_blank : List Text → Bool
all_blank [] = true
all_blank (l ∷ r) = is_nil (trim l) && all_blank r

unfoldable pub insert_mark : Text → List Text → List Text
unfolding all_blank
insert_mark mark [] = []
insert_mark mark (l ∷ r) =
    let onward = l ∷ insert_mark mark r in
    if all_blank r && not (is_nil (trim l)) then l ∷ mark ∷ r else onward

unfoldable pub place_mark : Text → List Text → List Text
unfolding insert_mark
place_mark mark block = if all_blank block then block ++ mark ∷ [] else insert_mark mark block

unfoldable pub flush_block : Bool → Text → List Text → List Text
flush_block is_target folder block =
    let bare = keep_if (λ l. not (is_folder_comment l)) block in
    if not is_target
    then block
    else if is_nil folder
    then bare
    else place_mark (codes "    #Folder: " ++ folder) bare

pub record Filer : Type 0 where
  pub out : List Text
  pub block : List Text
  pub in_target : Bool
  pub found : Bool

abbrev pub start : Filer
start = record { out = []; block = []; in_target = false; found = false }

unfoldable pub step : Text → Text → Filer → Text → Filer
step alias folder f line =
    let (key, value) = key_and_value (trim_start line) in
    let key_lower = to_lowercase key in
    let target = text_eq key_lower (codes "host") && opens_block_of value alias in
    if text_eq key_lower (codes "host") || text_eq key_lower (codes "match")
    then record {
      out = f.out ++ flush_block f.in_target folder f.block;
      block = line ∷ [];
      in_target = target;
      found = f.found || target;
    }
    else record f { block = f.block ++ line ∷ [] }

unfoldable pub file_lines : Text → Text → Filer → List Text → Filer
file_lines alias folder f [] = record f {
  out = f.out ++ flush_block f.in_target folder f.block;
  block = [];
}
file_lines alias folder f (l ∷ ls) = file_lines alias folder (step alias folder f l) ls

unfoldable pub set_host_folder_at : FileRead → Text → Text → Result Text
unfolding key_and_value opens_block_of keep_if is_folder_comment place_mark flush_block step
    file_lines validate_config_value not_editable with_line_ends unlines
set_host_folder_at file name dir = do
  let alias = trim name
  let folder = trim_matches b'/' (trim dir)
  validate_config_value (codes "Folder") folder
  text ← text_of file
  let f = file_lines alias folder start (lines text)
  if f.found then ok (with_line_ends text (unlines f.out)) else err (not_editable text alias)
