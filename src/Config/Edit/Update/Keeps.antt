-- ===== src/Config/Edit/Update/Keeps.antt =====
-- The loop of `update_host` (crates/avash/src/lib.rs), read on the sections of the file.
use mathlib.Core.List.{append-nil, append_assoc}
use avash.Base.{
  Bool, true, false, ◌||◌, ◌≡◌, refl, sym, ap, ◌∙◌, inl, inr, List, [], ◌∷◌, ◌++◌, arith,
  if◌then◌else◌, Bool-cases, is_nil,
}
use avash.Base.Text.{Text, codes, text_eq, trim_start, to_lowercase, keep_if}
use avash.Config.Edit.{is_free_line, is_folder_comment, is_tags_comment, key_and_value}
use avash.Base.Equal.{has}
use avash.Config.Edit.Sections.{
  is_host, is_match, opens, put, sections, rewrite_parts, all_free, free_tail,
}
use avash.Config.Edit.Update.{
  Updater, emit, nonblank, is_managed, is_regenerated, keep_or_skip, step, update_lines,
}

-- The keywords of the directives that Avash writes.
abbrev pub avash_keywords : List Text
avash_keywords =
    codes "hostname" ∷ codes "user" ∷ codes "port" ∷ codes "identityfile" ∷ codes "proxyjump" ∷ []

-- A line that is written anew: it is blank, is a mark of a folder or of tags, or begins with such a keyword.
abbrev pub is_renewed : Text → Bool
is_renewed l =
    is_nil (trim_start l)
    || is_folder_comment l
    || is_tags_comment l
    || has (to_lowercase (key_and_value (trim_start l)).0) avash_keywords

any-of : (a f t m : Bool) → (if a then true else if f || t then true else m) ≡ (a || f || t || m)
any-of true f t m = refl
any-of false true t m = refl
any-of false false true m = refl
any-of false false false m = refl

any-of_five :
    (a b c d e : Bool) → (a || b || c || d || e) ≡ (a || (b || (c || (d || (e || false)))))
any-of_five true b c d e = refl
any-of_five false true c d e = refl
any-of_five false false true d e = refl
any-of_five false false false true e = refl
any-of_five false false false false true = refl
any-of_five false false false false false = refl

is_managed-has : (k : Text) → is_managed k ≡ has k avash_keywords
is_managed-has k =
    any-of_five (text_eq k (codes "hostname")) (text_eq k (codes "user")) (text_eq k (codes "port"))
      (text_eq k (codes "identityfile")) (text_eq k (codes "proxyjump"))

is_regenerated-is_renewed : (l : Text) → is_regenerated l ≡ is_renewed l
unfolding is_regenerated
is_regenerated-is_renewed l =
    any-of (is_nil (trim_start l)) (is_folder_comment l) (is_tags_comment l) _
    ∙ ap (λ b. is_nil (trim_start l) || is_folder_comment l || is_tags_comment l || b)
        (is_managed-has (to_lowercase (key_and_value (trim_start l)).0))

-- What one line of the section leaves, if a directive follows it: nothing of a blank line or of a
-- directive that is written anew, and every other line whole.
abbrev pub kept_line : Text → List Text
kept_line l = if is_free_line l then nonblank (l ∷ []) else if is_renewed l then [] else l ∷ []

-- The same of the lines in front of the free end.
abbrev pub kept_body : List Text → List Text
kept_body [] = []
kept_body (l ∷ r) = if all_free (l ∷ r) then [] else kept_line l ++ kept_body r

abbrev pub rewritten : Text → Text → Text → List Text → List Text
rewritten block alias header body =
    if opens alias header then block ∷ (kept_body body ++ free_tail body) else header ∷ body

keep_if-append :
    (p : Text → Bool) (a b : List Text) → keep_if p (a ++ b) ≡ keep_if p a ++ keep_if p b
unfolding keep_if
keep_if-append p [] b = refl
keep_if-append p (x ∷ a) b = elim (Bool-cases (p x)) [
  | inl h ↦ rw h (ap (λ l. x ∷ l) (keep_if-append p a b))
  | inr h ↦ rw h (keep_if-append p a b)
]

step-plain :
    (block alias l : Text) (u : Updater)
    → (is_host l || is_match l) ≡ false
    → step block alias u l ≡ keep_or_skip l u
unfolding step is_host is_match
step-plain block alias l u p = ground arith

abbrev closed : Text → Updater → Updater
closed block u = if u.skipping then emit block u else u

step-target :
    (block alias l : Text) (u : Updater)
    → opens alias l ≡ true
    → step block alias u l ≡ record (closed block u) { skipping = true; replaced = true }
unfolding step opens is_host
step-target block alias l u h = ground arith

step-header :
    (block alias l : Text) (u : Updater)
    → (is_host l || is_match l) ≡ true
    → opens alias l ≡ false
    → step block alias u l
      ≡ record (closed block u) { out = (closed block u).out ++ l ∷ []; skipping = false }
unfolding step opens is_host is_match keep_or_skip
step-header block alias l u h o = ground arith

opens→is_host : (alias l : Text) → opens alias l ≡ true → is_host l ≡ true
unfolding opens
opens→is_host alias l h = ground arith

-- What a section in writing makes of the rest of its lines.
abbrev pub finished : Text → List Text → List Text → List Text → List Text
finished block kept buffer pre =
    if all_free pre
    then block ∷ (kept ++ (buffer ++ pre))
    else block ∷ ((kept ++ (nonblank buffer ++ kept_body pre)) ++ free_tail pre)

abbrev pub begun : Text → Updater → List Text → List Text
begun block u pre = if u.skipping then finished block u.kept u.buffer pre else pre

abbrev pub whole : Text → Updater → List Text → List Text → List Text
whole block u pre parts = u.out ++ (begun block u pre ++ parts)

-- Outside the section of the alias nothing is held back.
abbrev pub Idle : Updater → Type 0
Idle u = u.skipping ≡ false → (u.buffer ≡ []) × (u.kept ≡ [])

step-Idle : (block alias l : Text) (u : Updater) → Idle u → Idle (step block alias u l)
unfolding step keep_or_skip
step-Idle block alias l u b = ground arith

finished-start :
    (block : Text) (pre : List Text)
    → finished block [] [] pre ≡ block ∷ (kept_body pre ++ free_tail pre)
unfolding keep_if
finished-start block [] = refl
finished-start block (l ∷ r) = ground arith

closed-out :
    (block : Text) (u : Updater) (x : List Text)
    → Idle u
    → (closed block u).out ++ x ≡ u.out ++ (begun block u [] ++ x)
closed-out block u x b = elim (Bool-cases u.skipping) [
  | inr k ↦ rw k
  | inl k ↦ rw (k, append-nil u.buffer) (append_assoc u.out _ x)
]

closed-empty :
    (block : Text) (u : Updater)
    → Idle u
    → ((closed block u).buffer ≡ []) × ((closed block u).kept ≡ [])
closed-empty block u b = ground arith

abbrev unmanaged : Text → List Text
unmanaged l = if is_renewed l then [] else l ∷ []

free_body : (pre : List Text) → all_free pre ≡ true → (kept_body pre ≡ []) × (free_tail pre ≡ pre)
free_body [] h = (refl, refl)
free_body (l ∷ r) h = (rw h, rw h)

finished-free :
    (block : Text) (kept buffer pre : List Text) (l : Text)
    → is_free_line l ≡ true
    → finished block kept (buffer ++ l ∷ []) pre ≡ finished block kept buffer (l ∷ pre)
finished-free block kept buffer pre l f = elim (Bool-cases (all_free pre)) [
  | inl a ↦ rw (f, a) (ap (λ x. block ∷ (kept ++ x)) (append_assoc buffer (l ∷ []) pre))
  | inr a ↦ rw f (
      rw a (
        ap (λ x. block ∷ ((kept ++ x) ++ free_tail pre))
          (rw keep_if-append (append_assoc (nonblank buffer) (nonblank (l ∷ [])) (kept_body pre)))))
]

finished-bound :
    (block : Text) (kept buffer pre : List Text) (l : Text)
    → is_free_line l ≡ false
    → finished block (kept ++ (nonblank buffer ++ unmanaged l)) [] pre
      ≡ finished block kept buffer (l ∷ pre)
unfolding keep_if
finished-bound block kept buffer pre l f = elim (Bool-cases (all_free pre)) [
  | inl a ↦
      rw f (rw (a, (free_body pre a).0, (free_body pre a).1) (simp (append_assoc, append-nil)))
  | inr a ↦ rw f (rw a (simp append_assoc))
]

keep-free :
    (l : Text) (u : Updater)
    → u.skipping ≡ true
    → is_free_line l ≡ true
    → keep_or_skip l u ≡ record u { buffer = u.buffer ++ l ∷ [] }
unfolding keep_or_skip
keep-free l u k f = rw (k, keep_or_skip) (rw f)

keep-bound :
    (l : Text) (u : Updater)
    → u.skipping ≡ true
    → is_free_line l ≡ false
    → keep_or_skip l u
      ≡ record u { kept = u.kept ++ (nonblank u.buffer ++ unmanaged l); buffer = [] }
unfolding keep_or_skip
keep-bound l u k f = rw (k, keep_or_skip) (rw (f, is_regenerated-is_renewed l) refl)

keep_or_skip-whole :
    (block l : Text) (pre parts : List Text) (u : Updater)
    → whole block (keep_or_skip l u) pre parts ≡ whole block u (l ∷ pre) parts
keep_or_skip-whole block l pre parts u = elim (Bool-cases u.skipping) [
  | inr k ↦ unfold keep_or_skip in rw (k, keep_or_skip) (append_assoc u.out (l ∷ []) (pre ++ parts))
  | inl k ↦ elim (Bool-cases (is_free_line l)) [
    | inl f ↦
        rw (keep-free l u k f)
          (rw k (ap (λ x. u.out ++ (x ++ parts)) (finished-free block u.kept u.buffer pre l f)))
    | inr f ↦
        rw (keep-bound l u k f)
          (rw k (ap (λ x. u.out ++ (x ++ parts)) (finished-bound block u.kept u.buffer pre l f)))
  ]
]

step-whole :
    (block alias l : Text) (pre : List Text) (parts : List (Text × List Text)) (u : Updater)
    → Idle u
    → whole block (step block alias u l) pre (rewrite_parts (rewritten block alias) parts)
      ≡ whole block u (put l (record { preamble = pre; parts = parts })).preamble (
          rewrite_parts
            (rewritten block alias)
            (put l (record { preamble = pre; parts = parts })).parts)
step-whole block alias l pre parts u b = elim (Bool-cases (opens alias l)) [
  | inl o ↦
      rw (step-target block alias l u o, opens→is_host alias l o, o)
        (rw ((closed-empty block u b).0, (closed-empty block u b).1, finished-start block pre)
          (closed-out block u _ b))
  | inr n ↦ elim (Bool-cases (is_host l || is_match l)) [
    | inl h ↦
        rw (step-header block alias l u h n)
          (rw (h, n) (append_assoc (closed block u).out (l ∷ []) _ ∙ closed-out block u _ b))
    | inr p ↦ rw (step-plain block alias l u p) (rw p (keep_or_skip-whole block l pre _ u))
  ]
]

pub rest :
    (block alias : Text) (ls : List Text) (u : Updater)
    → Idle u
    → (update_lines block alias u ls).out
      ≡ whole block u
          (sections ls).preamble
          (rewrite_parts (rewritten block alias) (sections ls).parts)
unfolding update_lines
rest block alias [] u b = sym (append-nil _) ∙ closed-out block u [] b
rest block alias (l ∷ ls) u b =
    rest block alias ls (step block alias u l) (step-Idle block alias l u b)
    ∙ step-whole block alias l (sections ls).preamble (sections ls).parts u b
