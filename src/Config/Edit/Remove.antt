-- ===== src/Config/Edit/Remove.antt =====
-- crates/avash/src/lib.rs: `remove_host`.
pub mod Keeps
use avash.Base.{
  Bool, true, false, ◌||◌, Option, none, some, List, [], ◌∷◌, ◌++◌, if◌then◌else◌, is_nil,
}
use avash.Base.Text.{Text, codes, trim, trim_start, text_eq, to_lowercase, lines}
use avash.Config.Host.{Result, ok, err, FileRead, empty_name, ◌>>=◌}
use avash.Config.Render.{unlines}
use avash.Config.Edit.{key_and_value, opens_block_of, is_free_line, not_editable, written, text_of}

pub record Remover : Type 0 where
  pub out : List Text
  pub skipping : Bool
  pub removed : Bool
  pub buffer : List Text

abbrev pub start : Remover
start = record { out = []; skipping = false; removed = false; buffer = [] }

-- `vider`
abbrev pub flush : Remover → Remover
flush r = record r { out = r.out ++ r.buffer; buffer = [] }

-- The end of the loop's body, on a line that opens no removed block.
unfoldable pub keep_or_skip : Text → Remover → Remover
keep_or_skip line r =
    if r.skipping
    then (if is_free_line line
        then record r { buffer = r.buffer ++ line ∷ [] }
        else record r { buffer = [] })
    else record r { out = r.out ++ line ∷ [] }

unfoldable pub step : Text → Remover → Text → Remover
step alias r line =
    let (key, value) = key_and_value (trim_start line) in
    let key_lower = to_lowercase key in
    if text_eq key_lower (codes "host")
    then (let f = flush r in
        if opens_block_of value alias
        then record f { skipping = true; removed = true }
        else keep_or_skip line (record f { skipping = false }))
    else if text_eq key_lower (codes "match")
    then keep_or_skip line (record r { out = r.out ++ r.buffer; buffer = []; skipping = false })
    else keep_or_skip line r

unfoldable pub remove_lines : Text → Remover → List Text → Remover
remove_lines alias r [] = flush r
remove_lines alias r (l ∷ ls) = remove_lines alias (step alias r l) ls

unfoldable pub remove_host : FileRead → Text → Result Text
unfolding key_and_value opens_block_of is_free_line keep_or_skip step remove_lines not_editable
    written unlines
remove_host file name = do
  let alias = trim name
  if is_nil alias then err empty_name else do
    text ← text_of file
    let r = remove_lines alias start (lines text)
    if r.removed then ok (written text (unlines r.out)) else err (not_editable text alias)
