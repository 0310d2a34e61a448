-- ===== src/Config/Edit/Folder/Keeps.antt =====
-- `set_host_folder_at` (crates/avash/src/lib.rs), read on the sections of the file.
use mathlib.Core.List.{append-nil, append_assoc}
use avash.Base.{
  not, ◌&&◌, Bool, refl, ap, is_nil, true, false, ◌||◌, ◌≡◌, ◌∙◌, inl, inr, List, [], ◌∷◌, ◌++◌,
  arith, if◌then◌else◌, Bool-cases, any,
}
use avash.Base.Text.{Text, keep_if, codes, trim, trim_matches, lines}
use avash.Config.Host.{ok, err, content}
use avash.Config.Validate.{validate_config_value}
use avash.Config.Render.{unlines}
use avash.Config.Edit.{is_folder_comment, not_editable, with_line_ends}
use avash.Config.Edit.Sections.{is_host, is_match, opens, put, sections, rewrite_parts}
use avash.Config.Edit.Folder.{
  all_blank, insert_mark, place_mark, Filer, start, flush_block, step, file_lines,
  set_host_folder_at,
}

abbrev pub flushed : Text → Text → Text → List Text → List Text
flushed alias folder header body = flush_block (opens alias header) folder (header ∷ body)

step-plain :
    (alias folder l : Text) (f : Filer)
    → (is_host l || is_match l) ≡ false
    → step alias folder f l ≡ record f { block = f.block ++ l ∷ [] }
unfolding step is_host is_match
step-plain alias folder l f p = ground arith

step-header :
    (alias folder l : Text) (f : Filer)
    → (is_host l || is_match l) ≡ true
    → step alias folder f l ≡ record {
      out = f.out ++ flush_block f.in_target folder f.block;
      block = l ∷ [];
      in_target = opens alias l;
      found = f.found || opens alias l;
    }
unfolding step opens is_host is_match
step-header alias folder l f h = ground arith

abbrev whole : Text → Filer → List Text → List Text → List Text
whole folder f pre parts = f.out ++ (flush_block f.in_target folder (f.block ++ pre) ++ parts)

step-whole :
    (alias folder l : Text) (pre : List Text) (parts : List (Text × List Text)) (f : Filer)
    → whole folder (step alias folder f l) pre (rewrite_parts (flushed alias folder) parts)
      ≡ whole folder f (put l (record { preamble = pre; parts = parts })).preamble (
          rewrite_parts
            (flushed alias folder)
            (put l (record { preamble = pre; parts = parts })).parts)
step-whole alias folder l pre parts f = elim (Bool-cases (is_host l || is_match l)) [
  | inl h ↦
      rw (step-header alias folder l f h)
        (rw (h, append-nil f.block) (append_assoc f.out (flush_block f.in_target folder f.block) _))
  | inr p ↦ rw (step-plain alias folder l f p) (rw p (rw (append_assoc f.block (l ∷ []) pre)))
]

rest :
    (alias folder : Text) (ls : List Text) (f : Filer)
    → (file_lines alias folder f ls).out
      ≡ whole folder f
          (sections ls).preamble
          (rewrite_parts (flushed alias folder) (sections ls).parts)
unfolding file_lines
rest alias folder [] f =
    rw (append-nil f.block, append-nil (flush_block f.in_target folder f.block))
rest alias folder (l ∷ ls) f =
    rest alias folder ls (step alias folder f l)
    ∙ step-whole alias folder l (sections ls).preamble (sections ls).parts f

file_lines-found :
    (alias folder : Text) (ls : List Text) (f : Filer)
    → (file_lines alias folder f ls).found ≡ (f.found || any (opens alias) ls)
unfolding file_lines step opens is_host
file_lines-found alias folder [] f = ground arith
file_lines-found alias folder (l ∷ ls) f =
    file_lines-found alias folder ls (step alias folder f l) ∙ ground arith

-- The lines in front of the blank ones at the end, and those.
abbrev pub body_of : List Text → List Text
body_of [] = []
body_of (l ∷ r) = if all_blank (l ∷ r) then [] else l ∷ body_of r

abbrev pub blank_end : List Text → List Text
blank_end [] = []
blank_end (l ∷ r) = if all_blank (l ∷ r) then l ∷ r else blank_end r

-- A mark behind the last line that is not blank, and at the end of blank lines only.
abbrev pub marked : Text → List Text → List Text
marked mark ls = if all_blank ls then ls ++ mark ∷ [] else body_of ls ++ (mark ∷ blank_end ls)

-- The lines that are no `#Folder:` mark.
abbrev pub unmarked : List Text → List Text
unmarked = keep_if (λ l. not (is_folder_comment l))

-- The section of the alias without its marks, and with one for a folder that is not empty; any other as it is.
abbrev pub refiled : Text → Text → Text → List Text → List Text
refiled alias folder header body =
    if opens alias header
    then (if is_nil folder
        then unmarked (header ∷ body)
        else marked (codes "    #Folder: " ++ folder) (unmarked (header ∷ body)))
    else header ∷ body

body_of-blank : (ls : List Text) → all_blank ls ≡ true → body_of ls ≡ []
body_of-blank [] h = refl
body_of-blank (l ∷ r) h = rw h refl

blank_end-blank : (ls : List Text) → all_blank ls ≡ true → blank_end ls ≡ ls
blank_end-blank [] h = refl
blank_end-blank (l ∷ r) h = rw h refl

-- A line before blank ones, that is not blank with them.
full_line : (b c : Bool) → (b && c) ≡ false → c ≡ true → b ≡ false
full_line true true h e = absurd (cc h)
full_line true false h e = absurd (cc e)
full_line false c h e = refl

insert_mark-body_of :
    (mark : Text) (ls : List Text)
    → all_blank ls ≡ false
    → insert_mark mark ls ≡ body_of ls ++ (mark ∷ blank_end ls)
unfolding insert_mark all_blank
insert_mark-body_of mark [] h = absurd (cc h)
insert_mark-body_of mark (l ∷ r) h = elim (Bool-cases (all_blank r)) [
  | inl y ↦
      rw (y, full_line (is_nil (trim l)) (all_blank r) h y)
        (rw (body_of-blank r y, blank_end-blank r y) refl)
  | inr n ↦ rw (h, n) (ap (◌∷◌ l) (insert_mark-body_of mark r n))
]

place_mark-marked : (mark : Text) (ls : List Text) → place_mark mark ls ≡ marked mark ls
unfolding place_mark
place_mark-marked mark ls = elim (Bool-cases (all_blank ls)) [
  | inl y ↦ rw y refl
  | inr n ↦ rw n (insert_mark-body_of mark ls n)
]

flush_block-refiled :
    (alias folder header : Text) (body : List Text)
    → flush_block (opens alias header) folder (header ∷ body) ≡ refiled alias folder header body
unfolding flush_block
flush_block-refiled alias folder header body = elim (Bool-cases (opens alias header)) [
  | inr n ↦ rw n refl
  | inl y ↦ elim (Bool-cases (is_nil folder)) [
    | inl e ↦ rw (y, e) refl
    | inr e ↦ rw (y, e) (place_mark-marked (codes "    #Folder: " ++ folder) _)
  ]
]

parts-refiled :
    (alias folder : Text) (parts : List (Text × List Text))
    → rewrite_parts (flushed alias folder) parts ≡ rewrite_parts (refiled alias folder) parts
parts-refiled alias folder [] = refl
parts-refiled alias folder ((h, body) ∷ r) =
    rw (flush_block-refiled alias folder h body, parts-refiled alias folder r) refl

-- The lines of the file, with the section of the alias filed anew.
abbrev pub refiled_lines : Text → Text → List Text → List Text
refiled_lines alias folder ls =
    (sections ls).preamble ++ rewrite_parts (refiled alias folder) (sections ls).parts

-- What the loop leaves, section by section.
pub file_lines-flushed :
    (alias folder : Text) (ls : List Text)
    → (file_lines alias folder start ls).out
      ≡ (sections ls).preamble ++ rewrite_parts (flushed alias folder) (sections ls).parts
unfolding flush_block
file_lines-flushed alias folder ls = rest alias folder ls start

file_lines-refiled_lines :
    (alias folder : Text) (ls : List Text)
    → (file_lines alias folder start ls).out ≡ refiled_lines alias folder ls
file_lines-refiled_lines alias folder ls =
    file_lines-flushed alias folder ls
    ∙ ap (λ x. (sections ls).preamble ++ x) (parts-refiled alias folder (sections ls).parts)

-- `set_host_folder_at` with its guards passed.
set_host_folder_at-run :
    (text name dir : Text)
    → validate_config_value (codes "Folder") (trim_matches b'/' (trim dir)) ≡ ok tt
    → set_host_folder_at (content text) name dir ≡ (
        if (file_lines (trim name) (trim_matches b'/' (trim dir)) start (lines text)).found
        then ok (
            with_line_ends text (
              unlines
                (file_lines (trim name) (trim_matches b'/' (trim dir)) start (lines text)).out))
        else err (not_editable text (trim name)))
unfolding set_host_folder_at
set_host_folder_at-run text name dir valid = rw valid

-- On a readable file and a folder whose value is accepted, `set_host_folder_at` fails exactly if
-- no `Host` line declares the alias alone. Otherwise it leaves every other section as it is. The
-- section of the alias loses its `#Folder:` marks, and takes one with a folder that is not empty,
-- behind its last line that is not blank. The line ends are those that `with_line_ends` gives.
pub set_host_folder_at-refiled_lines :
    (text name dir : Text)
    → validate_config_value (codes "Folder") (trim_matches b'/' (trim dir)) ≡ ok tt
    → set_host_folder_at (content text) name dir ≡ (
        if any (opens (trim name)) (lines text)
        then ok (
            with_line_ends text
              (unlines (refiled_lines (trim name) (trim_matches b'/' (trim dir)) (lines text))))
        else err (not_editable text (trim name)))
set_host_folder_at-refiled_lines text name dir valid =
    set_host_folder_at-run text name dir valid
    ∙ rw (
      file_lines-found (trim name) (trim_matches b'/' (trim dir)) (lines text) start,
      file_lines-refiled_lines (trim name) (trim_matches b'/' (trim dir)) (lines text),
    )
