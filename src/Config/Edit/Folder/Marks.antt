-- ===== src/Config/Edit/Folder/Marks.antt =====
-- The lines that `set_host_folder_at` (crates/avash/src/lib.rs) changes.
use mathlib.Core.List.{append-nil}
use avash.Base.{
  ap, Bool, true, false, ◌≡◌, refl, sym, ◌∙◌, inl, inr, List, [], ◌∷◌, ◌++◌, arith, Bool-cases,
  is_nil,
}
use avash.Base.Text.{Text, codes, trim_start_if, keep_if, strip_prefix, is_whitespace}
use avash.Config.Edit.{is_folder_comment}
use avash.Config.Edit.Sections.{opens, sections, sections-join, rewrite_parts}
use avash.Config.Edit.Folder.{start, file_lines, all_blank, insert_mark, place_mark, flush_block}
use avash.Config.Edit.Folder.Keeps.{unmarked, flushed, file_lines-flushed}

insert_mark-unmarked :
    (mark : Text) (block : List Text)
    → is_folder_comment mark ≡ true
    → unmarked (insert_mark mark block) ≡ unmarked block
unfolding insert_mark keep_if
insert_mark-unmarked mark [] h = refl
insert_mark-unmarked mark (l ∷ r) h = ground (arith, insert_mark-unmarked mark r h)

unmarked-append : (a b : List Text) → unmarked (a ++ b) ≡ unmarked a ++ unmarked b
unfolding keep_if
unmarked-append [] b = refl
unmarked-append (l ∷ a) b = ground (arith, unmarked-append a b)

unmarked_idem : (a : List Text) → unmarked (unmarked a) ≡ unmarked a
unfolding keep_if
unmarked_idem [] = refl
unmarked_idem (l ∷ a) = ground (arith, unmarked_idem a)

mark-is_folder_comment :
    (folder : Text) → is_folder_comment (codes "    #Folder: " ++ folder) ≡ true
unfolding is_folder_comment trim_start_if strip_prefix is_whitespace
mark-is_folder_comment folder = refl

unmarked-mark : (mark : Text) → is_folder_comment mark ≡ true → unmarked (mark ∷ []) ≡ []
unfolding keep_if
unmarked-mark mark h = rw h

place_mark-unmarked :
    (mark : Text) (block : List Text)
    → is_folder_comment mark ≡ true
    → unmarked (place_mark mark block) ≡ unmarked block
unfolding place_mark
place_mark-unmarked mark block h = elim (Bool-cases (all_blank block)) [
  | inl a ↦
      rw a (
        unmarked-append block (mark ∷ []) ∙ rw (unmarked-mark mark h) (append-nil (unmarked block)))
  | inr a ↦ rw a (insert_mark-unmarked mark block h)
]

flush_block-unmarked :
    (target : Bool) (folder : Text) (block : List Text)
    → unmarked (flush_block target folder block) ≡ unmarked block
unfolding flush_block
flush_block-unmarked false folder block = refl
flush_block-unmarked true folder block = elim (Bool-cases (is_nil folder)) [
  | inl n ↦ rw n (unmarked_idem block)
  | inr n ↦ rw n (place_mark-unmarked _ _ (mark-is_folder_comment folder) ∙ unmarked_idem block)
]

parts-unmarked :
    (alias folder : Text) (parts : List (Text × List Text))
    → unmarked (rewrite_parts (flushed alias folder) parts) ≡ unmarked (rewrite_parts ◌∷◌ parts)
parts-unmarked alias folder [] = refl
parts-unmarked alias folder ((h, body) ∷ r) =
    unmarked-append (flushed alias folder h body) _
    ∙ rw (flush_block-unmarked (opens alias h) folder (h ∷ body), parts-unmarked alias folder r)
        (sym (unmarked-append (h ∷ body) _))

-- Whatever the file holds, the loop of `set_host_folder_at` leaves every line but the `#Folder:` marks, in order.
pub file_lines-unmarked :
    (alias folder : Text) (ls : List Text)
    → unmarked (file_lines alias folder start ls).out ≡ unmarked ls
file_lines-unmarked alias folder ls =
    ap unmarked (file_lines-flushed alias folder ls)
    ∙ (unmarked-append (sections ls).preamble _
        ∙ rw (parts-unmarked alias folder (sections ls).parts)
            (sym (unmarked-append (sections ls).preamble _) ∙ rw (sections-join ls)))
