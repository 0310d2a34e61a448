-- ===== src/Config/Edit/Append/Joined.antt =====
-- What `blocs_bruts` (crates/avash/src/lib.rs) reads of a text that is written behind another.
use avash.Base.{
  ℕ, Bool, true, false, ◌≡◌, refl, sym, ap, append_nil, ◌∙◌, inl, inr, some, List, [], ◌∷◌, ◌++◌,
  arith, any, ◌==◌, ==_iff, Bool-cases, Option-cases, is_nil,
}
use avash.Base.Text.{
  Text, codes, is_whitespace, is_control, trim, trim_start_if, trim_end_if, push_trimmed,
  strip_last, without_cr, lines_from, lines, ends_with,
}
use avash.Base.Trim.{trim_start_if-trim_end_if}
use avash.Base.Any.{AnyFree}
use avash.Config.Blocks.{Reader, step, on_line, read_lines}
use avash.Config.Render.Lines.{is_control-lf, append_snoc}

-- The end of a line: a line feed, behind a carriage return or not.
abbrev pub end_of : Bool → Text
end_of true = b'\r' ∷ b'\n' ∷ []
end_of false = b'\n' ∷ []

abbrev pub ended : Bool → List Text → Text
ended crlf [] = []
ended crlf (l ∷ ls) = l ++ (end_of crlf ++ ended crlf ls)

strip_last-append : (k : ℕ) (s : Text) → strip_last k (s ++ k ∷ []) ≡ some s
unfolding strip_last
strip_last-append k [] = ground arith
strip_last-append k (c ∷ []) = ground arith
strip_last-append k (c ∷ d ∷ s) = rw (strip_last-append k (d ∷ s)) refl

without_cr-append : (s : Text) → without_cr (s ++ b'\r' ∷ []) ≡ s
without_cr-append s = rw (without_cr, strip_last-append b'\r' s) refl

trim_end-without_cr :
    (s : Text) → trim_end_if is_whitespace (without_cr s) ≡ trim_end_if is_whitespace s
unfolding strip_last trim_end_if is_whitespace
trim_end-without_cr [] = refl
trim_end-without_cr (c ∷ []) = elim (Bool-cases (c == b'\r')) [
  | inl e ↦ rw (without_cr, e, (==_iff c b'\r').0 e) refl
  | inr e ↦ rw (without_cr, e) refl
]
trim_end-without_cr (c ∷ d ∷ s) =
    let ih = trim_end-without_cr (d ∷ s) in
    elim (Option-cases (strip_last b'\r' (d ∷ s))) [
      | inl n ↦ rw (without_cr, n) refl
      | inr (t, y) ↦
          rw (without_cr, y) (ap (push_trimmed is_whitespace c) (rw (without_cr, y) at ih))
    ]

pub trim-without_cr : (s : Text) → trim (without_cr s) ≡ trim s
trim-without_cr s =
    sym (trim_start_if-trim_end_if is_whitespace (without_cr s))
    ∙ (ap (trim_start_if is_whitespace) (trim_end-without_cr s)
        ∙ trim_start_if-trim_end_if is_whitespace s)

step-without_cr : (r : Reader) (l : Text) → step r (without_cr l) ≡ step r l
step-without_cr r l = ap (on_line r) (trim-without_cr l)

step-blank : (r : Reader) → step r [] ≡ r
unfolding on_line trim_start_if trim_end_if
step-blank r = refl

lines_from-end_of :
    (crlf : Bool) (acc s : Text) (r : Reader)
    → read_lines r (lines_from acc (end_of crlf ++ s)) ≡ read_lines (step r acc) (lines s)
unfolding lines_from read_lines
lines_from-end_of true acc s r =
    ap (λ r. read_lines r (lines s)) (ap (step r) (without_cr-append acc))
lines_from-end_of false acc s r = ap (λ r. read_lines r (lines s)) (step-without_cr r acc)

-- What follows the end of a line is read behind what the text before it gave.
pub read_lines-append :
    (crlf : Bool) (acc t s : Text) (r : Reader)
    → read_lines r (lines_from acc (t ++ (end_of crlf ++ s)))
      ≡ read_lines (read_lines r (lines_from acc t)) (lines s)
unfolding lines_from read_lines
read_lines-append crlf [] [] s r =
    lines_from-end_of crlf [] s r ∙ ap (λ r. read_lines r (lines s)) (step-blank r)
read_lines-append crlf (a ∷ acc) [] s r = lines_from-end_of crlf (a ∷ acc) s r
read_lines-append crlf acc (c ∷ t) s r = elim (Bool-cases (c == b'\n')) [
  | inl e ↦ rw (lines_from, e) (read_lines-append crlf [] t s (step r (without_cr acc)))
  | inr e ↦ rw (lines_from, e) (read_lines-append crlf (acc ++ c ∷ []) t s r)
]

only-rest :
    (c d : ℕ) (t : Text)
    → ends_with (codes "\n") (c ∷ d ∷ t) ≡ true
    → ends_with (codes "\n") (d ∷ t) ≡ true
unfolding ends_with
only-rest c d t e = ground arith

-- The same behind a text that is empty or ends a line itself.
pub read_lines-ended :
    (acc t s : Text) (r : Reader)
    → ends_with (codes "\n") t ≡ true
    → read_lines r (lines_from acc (t ++ s))
      ≡ read_lines (read_lines r (lines_from acc t)) (lines s)
unfolding lines_from read_lines ends_with
read_lines-ended acc [] s r e = cc
read_lines-ended acc (c ∷ []) s r e = elim (Bool-cases (c == b'\n')) [
  | inl y ↦ rw (lines_from, y) refl
  | inr n ↦ absurd (ground arith)
]
read_lines-ended acc (c ∷ d ∷ t) s r e =
    let more = only-rest c d t e in
    elim (Bool-cases (c == b'\n')) [
      | inl y ↦ rw (lines_from, y) (read_lines-ended [] (d ∷ t) s (step r (without_cr acc)) more)
      | inr n ↦ rw (lines_from, n) (read_lines-ended (acc ++ c ∷ []) (d ∷ t) s r more)
    ]

read_lines-free :
    (acc l : Text) (r : Reader)
    → any is_control l ≡ false
    → read_lines r (lines_from acc l) ≡ step r (acc ++ l)
unfolding lines_from read_lines
read_lines-free [] [] r h = sym (step-blank r)
read_lines-free (a ∷ acc) [] r h = ap (λ l. step r (a ∷ l)) (sym (append_nil acc))
read_lines-free acc (c ∷ l) r h =
    rw (lines_from, is_control-lf c (ground arith))
      (read_lines-free (acc ++ c ∷ []) l r (ground arith) ∙ ap (step r) (append_snoc acc c l))

pub read_lines-lines :
    (crlf : Bool) (ls : List Text) (r : Reader)
    → AnyFree is_control ls
    → read_lines r (lines (ended crlf ls)) ≡ read_lines r ls
unfolding read_lines
read_lines-lines crlf [] r h = unfold lines_from in refl
read_lines-lines crlf (l ∷ ls) r h =
    read_lines-append crlf [] l (ended crlf ls) r
    ∙ (ap (λ r. read_lines r (lines (ended crlf ls))) (read_lines-free [] l r h.0)
        ∙ read_lines-lines crlf ls (step r l) h.1)

pub read_lines-nil :
    (t s : Text)
    → is_nil t ≡ true
    → (r : Reader) → read_lines r (lines (t ++ s)) ≡ read_lines (read_lines r (lines t)) (lines s)
unfolding lines_from read_lines
read_lines-nil [] s h r = refl
read_lines-nil (c ∷ t) s h r = cc

pub read_lines-blank : (r : Reader) (ls : List Text) → read_lines r ([] ∷ ls) ≡ read_lines r ls
unfolding read_lines
read_lines-blank r ls = ap (λ r. read_lines r ls) (step-blank r)
