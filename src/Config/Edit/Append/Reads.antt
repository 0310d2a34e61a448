-- ===== src/Config/Edit/Append/Reads.antt =====
-- What the parser of crates/avash/src/lib.rs reads behind `append_host`.
use avash.Base.{
  Bool, true, false, ◌≡◌, refl, sym, ap, subst, append_assoc, ◌∙◌, inl, inr, Option, List, [], ◌∷◌,
  ◌++◌, arith, any, if◌then◌else◌, Bool-cases, is_nil,
}
use avash.Base.Text.{Text, codes, is_control, trim, lines, ends_with, text_eq, replace_char}
use avash.Base.Equal.{text_eq-eq}
use avash.Base.Any.{AnyFree, AnyFree-append}
use avash.Config.Host.{SshHost, Result, Result-cases, FileRead, ok}
use avash.Config.Blocks.{Reader, start, close, read_lines, raw_blocks}
use avash.Config.Validate.{validate_host}
use avash.Config.Validate.Accepts.{validate_host-IsAccepted}
use avash.Config.Render.{unlines, host_lines, render_host_block}
use avash.Config.Render.Lines.{IsPort, host_lines-free}
use avash.Config.Render.Comments.{CommaFree}
use avash.Config.Render.RoundTrip.{read_lines-host_lines}
use avash.Config.Render.ReadBack.{read_back}
use avash.Config.Edit.Append.Joined.{
  ended, read_lines-append, read_lines-ended, read_lines-lines, read_lines-nil, read_lines-blank,
}
use avash.Config.Edit.{is_crlf, is_declared}
use avash.Config.Edit.Append.{existing, separator, appended_block, append_host}

ends_with-suffix :
    (suf t : Text)
    → ends_with (codes "\n") suf ≡ true
    → ends_with suf t ≡ true
    → ends_with (codes "\n") t ≡ true
unfolding ends_with
ends_with-suffix [] [] e h = e
ends_with-suffix (x ∷ suf) [] e h = cc
ends_with-suffix suf (c ∷ t) e h = elim (Bool-cases (text_eq suf (c ∷ t))) [
  | inl y ↦ subst (λ x. ends_with (codes "\n") x ≡ true) (text_eq-eq suf (c ∷ t) y) e
  | inr n ↦ ground (arith, ends_with-suffix suf t e (rw n at h))
]

-- The three ways a block is parted from the text before it.
data Parted (t : Text) : Type 0 where
  at_start : is_nil t ≡ true → separator t ≡ [] → Parted t
  behind_blank : ends_with (codes "\n") t ≡ true → separator t ≡ [] → Parted t
  by_one : separator t ≡ codes "\n" → Parted t
  by_two : separator t ≡ codes "\n\n" → Parted t

Parted-cases : (t : Text) → Parted t
unfolding separator
Parted-cases t = elim (Bool-cases (is_nil t)) [
  | inl n ↦ at_start n (rw (separator, n) refl)
  | inr n ↦ elim (Bool-cases (ends_with (codes "\n\n") t)) [
    | inl y ↦
        behind_blank (ends_with-suffix (codes "\n\n") t (unfold ends_with in refl) y)
          (rw (separator, n, y) refl)
    | inr a ↦ elim (Bool-cases (ends_with (codes "\r\n\r\n") t)) [
      | inl y ↦
          behind_blank (ends_with-suffix (codes "\r\n\r\n") t (unfold ends_with in refl) y)
            (rw (separator, n, a, y) refl)
      | inr b ↦ elim (Bool-cases (ends_with (codes "\n") t)) [
        | inl y ↦ by_one (rw (separator, n, a, b, y) refl)
        | inr c ↦ by_two (rw (separator, n, a, b, c) refl)
      ]
    ]
  ]
]

ended-unlines : (ls : List Text) → unlines ls ≡ ended false ls
unfolding unlines
ended-unlines [] = refl
ended-unlines (l ∷ ls) = ap (λ s. l ++ b'\n' ∷ s) (ended-unlines ls)

replace_char-line :
    (l s : Text)
    → any is_control l ≡ false
    → replace_char b'\n' (codes "\r\n") (l ++ s) ≡ l ++ replace_char b'\n' (codes "\r\n") s
unfolding replace_char is_control
replace_char-line [] s h = refl
replace_char-line (c ∷ l) s h = rw (replace_char-line l s (ground arith)) (ground arith)

ended-replace_char :
    (ls : List Text)
    → AnyFree is_control ls
    → replace_char b'\n' (codes "\r\n") (unlines ls) ≡ ended true ls
unfolding unlines replace_char
ended-replace_char [] h = refl
ended-replace_char (l ∷ ls) h =
    replace_char-line l (b'\n' ∷ unlines ls) h.0
    ∙ ap (λ s. l ++ (b'\r' ∷ b'\n' ∷ s)) (ended-replace_char ls h.1)

-- The appended text as lines that end the way the text's own lines do.
with_ends :
    (crlf : Bool) (ls : List Text)
    → AnyFree is_control ls
    → (if crlf then replace_char b'\n' (codes "\r\n") (unlines ls) else unlines ls) ≡ ended crlf ls
with_ends true ls h = ended-replace_char ls h
with_ends false ls h = ended-unlines ls

unlines-append : (a b : List Text) → unlines a ++ unlines b ≡ unlines (a ++ b)
unfolding unlines
unlines-append [] b = refl
unlines-append (l ∷ a) b =
    append_assoc l (b'\n' ∷ unlines a) (unlines b) ∙ ap (λ s. l ++ b'\n' ∷ s) (unlines-append a b)

unlines-nil : [] ≡ unlines []
unfolding unlines
unlines-nil = refl

unlines-one : codes "\n" ≡ unlines ([] ∷ [])
unfolding unlines
unlines-one = refl

unlines-two : codes "\n\n" ≡ unlines ([] ∷ [] ∷ [])
unfolding unlines
unlines-two = refl

module _ (text : Text) (h : SshHost) (free : AnyFree is_control (host_lines h)) where
  appended_block-ended :
      (blanks : List Text)
      → AnyFree is_control blanks
      → separator text ≡ unlines blanks
      → appended_block text h ≡ ended (is_crlf text) (blanks ++ host_lines h)
  unfolding appended_block render_host_block
  appended_block-ended blanks bf e =
      ap (λ b. if is_crlf text then replace_char b'\n' (codes "\r\n") b else b)
        (ap (λ s. s ++ unlines (host_lines h)) e ∙ unlines-append blanks (host_lines h))
      ∙ with_ends (is_crlf text) (blanks ++ host_lines h)
          (AnyFree-append is_control blanks (host_lines h) bf free)

  both :
      (blanks : List Text)
      → AnyFree is_control blanks
      → separator text ≡ unlines blanks
      → (r : Reader)
      → read_lines r (lines (appended_block text h)) ≡ read_lines r (blanks ++ host_lines h)
  both blanks bf e r =
      ap (λ b. read_lines r (lines b)) (appended_block-ended blanks bf e)
      ∙ read_lines-lines (is_crlf text) (blanks ++ host_lines h) r
          (AnyFree-append is_control blanks (host_lines h) bf free)

  -- The text and the block behind it are read one after the other.
  read_lines-appended_block :
      (r : Reader)
      → read_lines r (lines (text ++ appended_block text h))
        ≡ read_lines (read_lines r (lines text)) (host_lines h)
  read_lines-appended_block r = elim (Parted-cases text) [
    | at_start n e ↦
        read_lines-nil text (appended_block text h) n r
        ∙ both [] tt (e ∙ unlines-nil) (read_lines r (lines text))
    | behind_blank l e ↦
        read_lines-ended [] text (appended_block text h) r l
        ∙ both [] tt (e ∙ unlines-nil) (read_lines r (lines text))
    | by_one e ↦
        ap (λ b. read_lines r (lines (text ++ b)))
          (appended_block-ended ([] ∷ []) (refl, tt) (e ∙ unlines-one))
        ∙ (read_lines-append (is_crlf text) [] text (ended (is_crlf text) (host_lines h)) r
            ∙ read_lines-lines (is_crlf text) (host_lines h) (read_lines r (lines text)) free)
    | by_two e ↦
        ap (λ b. read_lines r (lines (text ++ b)))
          (appended_block-ended ([] ∷ [] ∷ []) (refl, (refl, tt)) (e ∙ unlines-two))
        ∙ (read_lines-append (is_crlf text) [] text (ended (is_crlf text) ([] ∷ host_lines h)) r
            ∙ (read_lines-lines (is_crlf text) ([] ∷ host_lines h) (read_lines r (lines text))
                  (refl, free)
                ∙ read_lines-blank (read_lines r (lines text)) (host_lines h)))
  ]

ok-eq : {x y : Text} → ◌≡◌ {A = Result Text} (ok x) (ok y) → x ≡ y
ok-eq e = cc

-- A success of `append_host` is of an accepted host, and writes the block behind the text.
append_host-ok :
    (all_hosts : Option (List SshHost)) (file : FileRead) (text new : Text) (h : SshHost)
    → existing file ≡ ok text
    → append_host all_hosts file h ≡ ok new
    → (validate_host h ≡ ok tt) × (text ++ appended_block text h ≡ new)
unfolding append_host
append_host-ok all_hosts file text new h read e = elim (Result-cases (validate_host h)) [
  | inr (x, v) ↦ absurd (cc (rw (append_host, v) at e))
  | inl (tt, v) ↦ elim (Bool-cases (is_declared (trim h.alias) all_hosts text)) [
    | inl d ↦ absurd (cc (rw (append_host, v, read, d) at e))
    | inr d ↦ (v, ok-eq (rw (append_host, v, read, d) at e))
  ]
]

-- A host that `append_host` writes, of a port of 16 bits and without a comma in a tag, is read from
-- the new file as one more host, behind all that the old file gave and nothing else changed.
pub append_host-raw_blocks :
    (all_hosts : Option (List SshHost)) (file : FileRead) (text new : Text) (h : SshHost)
    → existing file ≡ ok text
    → append_host all_hosts file h ≡ ok new
    → IsPort h.port
    → CommaFree h.tags
    → raw_blocks new ≡ raw_blocks text ++ read_back h ∷ []
unfolding append_host raw_blocks close
append_host-raw_blocks all_hosts file text new h read e p c =
    let (v, n) = append_host-ok all_hosts file text new h read e in
    let accepted = validate_host-IsAccepted h v in
    ap raw_blocks (sym n)
    ∙ ap close (
        read_lines-appended_block text h (host_lines-free h accepted p) start
        ∙ read_lines-host_lines (read_lines start (lines text)) h accepted p c)
