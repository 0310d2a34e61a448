-- ===== src/Config/Edit/Remove/Keeps.antt =====
-- `remove_host` (crates/avash/src/lib.rs), read on the sections of the file.
use mathlib.Core.List.{append-nil, append_assoc}
use avash.Base.{
  Bool, true, false, ◌||◌, ◌≡◌, refl, sym, ap, ◌∙◌, inl, inr, List, [], ◌∷◌, ◌++◌, arith,
  if◌then◌else◌, Bool-cases, is_nil, any,
}
use avash.Base.Text.{Text, trim, lines}
use avash.Config.Host.{ok, err, content}
use avash.Config.Render.{unlines}
use avash.Config.Edit.{is_free_line, not_editable, written}
use avash.Config.Edit.Sections.{
  is_host, is_match, opens, put, sections, rewrite_parts, all_free, free_tail,
}
use avash.Config.Edit.Remove.{Remover, start, flush, keep_or_skip, step, remove_lines, remove_host}

-- A section of the alias leaves its free end, any other section stays whole.
abbrev pub survivors : Text → Text → List Text → List Text
survivors alias header body = if opens alias header then free_tail body else header ∷ body

-- What is left of the rest of a section that is being skipped, after the lines in the buffer.
abbrev tail_after : List Text → List Text → List Text
tail_after buffer rest = if all_free rest then buffer ++ rest else free_tail rest

step-plain :
    (alias : Text) (l : Text) (r : Remover)
    → (is_host l || is_match l) ≡ false
    → step alias r l ≡ keep_or_skip l r
unfolding step is_host is_match
step-plain alias l r p = ground arith

step-target :
    (alias : Text) (r : Remover) (l : Text)
    → opens alias l ≡ true
    → step alias r l ≡ record (flush r) { skipping = true; removed = true }
unfolding step opens is_host
step-target alias r l h = ground arith

step-header :
    (alias : Text) (r : Remover) (l : Text)
    → (is_host l || is_match l) ≡ true
    → opens alias l ≡ false
    → step alias r l
      ≡ record r { out = (r.out ++ r.buffer) ++ l ∷ []; buffer = []; skipping = false }
unfolding step opens is_host is_match keep_or_skip
step-header alias r l h o = ground arith

opens→is_host : (alias l : Text) → opens alias l ≡ true → is_host l ≡ true
unfolding opens
opens→is_host alias l h = ground arith

tail_after-nil : (rest : List Text) → tail_after [] rest ≡ free_tail rest
tail_after-nil [] = refl
tail_after-nil (l ∷ r) = ground arith

tail_after-free :
    (buffer : List Text) (l : Text) (rest : List Text)
    → is_free_line l ≡ true
    → tail_after (buffer ++ l ∷ []) rest ≡ tail_after buffer (l ∷ rest)
tail_after-free buffer l rest h = rw h (elim (Bool-cases (all_free rest)) [
  | inl a ↦ rw a (append_assoc buffer (l ∷ []) rest)
  | inr a ↦ rw a refl
])

tail_after-bound :
    (buffer : List Text) (l : Text) (rest : List Text)
    → is_free_line l ≡ false
    → tail_after [] rest ≡ tail_after buffer (l ∷ rest)
tail_after-bound buffer l rest h = rw h (tail_after-nil rest)

-- What a state leaves of the lines in front of the next header.
abbrev begun : Bool → List Text → List Text → List Text
begun true buffer rest = tail_after buffer rest
begun false buffer rest = rest

abbrev whole : Remover → List Text → List Text → List Text
whole r pre parts = r.out ++ (begun r.skipping r.buffer pre ++ parts)

-- Outside a removed section the buffer is empty.
abbrev Idle : Remover → Type 0
Idle r = r.skipping ≡ false → r.buffer ≡ []

begun-nil : (r : Remover) → Idle r → begun r.skipping r.buffer [] ≡ r.buffer
begun-nil r b = elim (Bool-cases r.skipping) [
  | inl k ↦ rw k (append-nil r.buffer)
  | inr k ↦ rw k (sym (b k))
]

step-Idle : (alias l : Text) (r : Remover) → Idle r → Idle (step alias r l)
unfolding step keep_or_skip
step-Idle alias l r b = ground arith

keep_or_skip-whole :
    (l : Text) (pre parts : List Text) (r : Remover)
    → whole (keep_or_skip l r) pre parts ≡ whole r (l ∷ pre) parts
unfolding keep_or_skip
keep_or_skip-whole l pre parts r = elim (Bool-cases r.skipping) [
  | inr k ↦ rw (k, keep_or_skip) (append_assoc r.out (l ∷ []) (pre ++ parts))
  | inl k ↦
      rw (k, keep_or_skip)
        (elim (Bool-cases (is_free_line l)) [
          | inl f ↦ rw f (ap (λ x. r.out ++ (x ++ parts)) (tail_after-free r.buffer l pre f ∙ rw f))
          | inr f ↦ rw f (ap (λ x. r.out ++ (x ++ parts)) (tail_after-nil pre))
        ])
]

step-whole :
    (alias l : Text) (pre : List Text) (parts : List (Text × List Text)) (r : Remover)
    → Idle r
    → whole (step alias r l) pre (rewrite_parts (survivors alias) parts)
      ≡ whole r
          (put l (record { preamble = pre; parts = parts })).preamble
          (rewrite_parts (survivors alias) (put l (record { preamble = pre; parts = parts })).parts)
step-whole alias l pre parts r b = elim (Bool-cases (opens alias l)) [
  | inl o ↦
      rw (step-target alias r l o, opens→is_host alias l o, o)
        (rw (begun-nil r b, tail_after-nil pre) (append_assoc r.out r.buffer _))
  | inr n ↦ elim (Bool-cases (is_host l || is_match l)) [
    | inl h ↦ rw (step-header alias r l h n) (
        rw (h, n)
          (rw (begun-nil r b)
            (append_assoc (r.out ++ r.buffer) (l ∷ []) _ ∙ append_assoc r.out r.buffer _)))
    | inr p ↦ rw (step-plain alias l r p) (rw p (keep_or_skip-whole l pre _ r))
  ]
]

rest :
    (alias : Text) (ls : List Text) (r : Remover)
    → Idle r
    → (remove_lines alias r ls).out
      ≡ whole r (sections ls).preamble (rewrite_parts (survivors alias) (sections ls).parts)
unfolding remove_lines
rest alias [] r b = ap (λ x. r.out ++ x) (sym (append-nil _ ∙ begun-nil r b))
rest alias (l ∷ ls) r b =
    rest alias ls (step alias r l) (step-Idle alias l r b)
    ∙ step-whole alias l (sections ls).preamble (sections ls).parts r b

step-removed :
    (alias l : Text) (r : Remover) → (step alias r l).removed ≡ (opens alias l || r.removed)
unfolding step keep_or_skip opens is_host
step-removed alias l r = ground arith

remove_lines-removed :
    (alias : Text) (ls : List Text) (r : Remover)
    → (remove_lines alias r ls).removed ≡ (r.removed || any (opens alias) ls)
unfolding remove_lines
remove_lines-removed alias [] r = ground arith
remove_lines-removed alias (l ∷ ls) r =
    remove_lines-removed alias ls (step alias r l) ∙ rw (step-removed alias l r) (ground arith)

module _ (text name : Text) (h : is_nil (trim name) ≡ false) where
  -- `remove_host` with its guards passed.
  remove_host-run : remove_host (content text) name ≡ (
      if (remove_lines (trim name) start (lines text)).removed
      then ok (written text (unlines (remove_lines (trim name) start (lines text)).out))
      else err (not_editable text (trim name)))
  unfolding remove_host
  remove_host-run = rw h

-- What is left of the lines of a file.
abbrev pub kept_lines : Text → List Text → List Text
kept_lines alias ls = (sections ls).preamble ++ rewrite_parts (survivors alias) (sections ls).parts

-- On a readable file and a name that is not blank, `remove_host` fails exactly if no `Host` line
-- declares the alias alone. Otherwise it writes what `written` makes of these lines, its treatment
-- of blank lines and line ends: those of every other section as they are, and of the section of the
-- alias only the blank lines and free comments at its end.
pub remove_host-kept_lines :
    (text name : Text)
    → is_nil (trim name) ≡ false
    → remove_host (content text) name ≡ (
        if any (opens (trim name)) (lines text)
        then ok (written text (unlines (kept_lines (trim name) (lines text))))
        else err (not_editable text (trim name)))
remove_host-kept_lines text name h =
    remove_host-run text name h
    ∙ rw (
      remove_lines-removed (trim name) (lines text) start,
      rest (trim name) (lines text) start (λ _. refl),
    )
