-- ===== src/Rdp/Trust/Lines.antt =====
-- The lines of the file of fingerprints, as `chercher_empreinte` of rdp-sidecar/src/empreintes.rs reads them.
use avash.Base.{
  ℕ, Bool, true, false, not, ◌≡◌, refl, sym, ap, ◌∙◌, inl, inr, Option, none, some, [], ◌∷◌, ◌++◌,
  arith, any, ◌==◌, ==_iff, if◌then◌else◌, is_nil, Bool-cases, Option-cases, append_nil,
  append_assoc,
}
use avash.Base.Text.{
  Text, codes, trim, split_once, strip_last, without_cr, lines_from, lines, ends_with, onto_first,
}
use avash.Base.Any.{any-append}
use avash.Config.Edit.Append.Joined.{trim-without_cr}
use avash.Config.Render.Lines.{append_snoc}
use avash.Rdp.Trust.{entry_of, first_of, line_entry, find_line, needs_break, new_line}

-- The same name, and the same value once it is trimmed.
abbrev Alike : Option (Text × Text) → Option (Text × Text) → Type 0
Alike none none = Unit
Alike (some (a, b)) (some (c, d)) = (a ≡ c) × (trim b ≡ trim d)
Alike _ _ = ⊥

entry_of-Alike :
    (key : Text) (x y : Option (Text × Text)) → Alike x y → entry_of key x ≡ entry_of key y
entry_of-Alike key none none h = refl
entry_of-Alike key (some (a, b)) (some (c, d)) h = rw (h.0, h.1) refl
entry_of-Alike key none (some y) h = absurd h
entry_of-Alike key (some x) none h = absurd h

onto_first-Alike :
    (c : ℕ) (x y : Option (Text × Text)) → Alike x y → Alike (onto_first c x) (onto_first c y)
onto_first-Alike c none none h = tt
onto_first-Alike c (some (a, b)) (some (d, e)) h = (ap (◌∷◌ c) h.0, h.1)
onto_first-Alike c none (some y) h = absurd h
onto_first-Alike c (some x) none h = absurd h

abbrev pub is_space : ℕ → Bool
is_space c = c == b' '

without_cr-cons : (c d : ℕ) (s : Text) → without_cr (c ∷ d ∷ s) ≡ c ∷ without_cr (d ∷ s)
unfolding strip_last
without_cr-cons c d s = elim (Option-cases (strip_last b'\r' (d ∷ s))) [
  | inl n ↦ rw (without_cr, n) refl
  | inr (t, y) ↦ rw (without_cr, y) refl
]

Alike-refl : (x : Option (Text × Text)) → Alike x x
Alike-refl none = tt
Alike-refl (some x) = (refl, refl)

split_once-without_cr :
    (l : Text) → Alike (split_once is_space (without_cr l)) (split_once is_space l)
unfolding strip_last split_once
split_once-without_cr [] = tt
split_once-without_cr (c ∷ []) = elim (Bool-cases (c == b'\r')) [
  | inl e ↦ rw (without_cr, e, (==_iff c b'\r').0 e) tt
  | inr e ↦ rw (without_cr, e) (Alike-refl _)
]
split_once-without_cr (c ∷ d ∷ s) = rw (without_cr-cons c d s) (elim (Bool-cases (c == b' ')) [
  | inl y ↦ rw y (refl, trim-without_cr (d ∷ s))
  | inr n ↦ rw n (onto_first-Alike c _ _ (split_once-without_cr (d ∷ s)))
])

line_entry-without_cr : (key l : Text) → line_entry key (without_cr l) ≡ line_entry key l
line_entry-without_cr key l = entry_of-Alike key _ _ (split_once-without_cr l)

first_of_assoc : (a b c : Option Text) → first_of (first_of a b) c ≡ first_of a (first_of b c)
first_of_assoc none b c = refl
first_of_assoc (some a) b c = refl

first_of-none : (a : Option Text) → first_of a none ≡ a
first_of-none none = refl
first_of-none (some a) = refl

-- Whether a text leaves a line unfinished, of which `acc` is read.
abbrev is_unfinished : Text → Text → Bool
is_unfinished acc [] = not (is_nil acc)
is_unfinished acc (c ∷ t) =
    let ended = is_unfinished [] t in
    let goes_on = is_unfinished (acc ++ c ∷ []) t in if c == b'\n' then ended else goes_on

abbrev pub break_of : Bool → Text
break_of true = b'\n' ∷ []
break_of false = []

-- What stands behind the whole lines of a text is read after them.
pub find_line-behind :
    (key acc t l : Text)
    → find_line key (lines_from acc (t ++ (break_of (is_unfinished acc t) ++ l)))
      ≡ first_of (find_line key (lines_from acc t)) (find_line key (lines l))
unfolding lines_from
find_line-behind key [] [] l = refl
find_line-behind key (a ∷ acc) [] l =
    ap (λ x. first_of x (find_line key (lines l)))
      (line_entry-without_cr key (a ∷ acc) ∙ sym (first_of-none (line_entry key (a ∷ acc))))
find_line-behind key acc (c ∷ t) l = elim (Bool-cases (c == b'\n')) [
  | inl y ↦ rw y (
      ap (first_of (line_entry key (without_cr acc))) (find_line-behind key [] t l)
      ∙ sym (first_of_assoc (line_entry key (without_cr acc)) _ _))
  | inr n ↦ rw n (find_line-behind key (acc ++ c ∷ []) t l)
]

is_nil-snoc : (a : Text) (c : ℕ) → is_nil (a ++ c ∷ []) ≡ false
is_nil-snoc [] c = refl
is_nil-snoc (x ∷ a) c = refl

ends_with-line :
    (c d : ℕ) (t : Text) → ends_with (codes "\n") (c ∷ d ∷ t) ≡ ends_with (codes "\n") (d ∷ t)
unfolding ends_with
ends_with-line c d t = elim (Bool-cases (b'\n' == c)) [ inl y ↦ rw y refl | inr n ↦ rw n refl ]

is_unfinished-full :
    (acc : Text) (c : ℕ) (t : Text)
    → is_unfinished acc (c ∷ t) ≡ not (ends_with (codes "\n") (c ∷ t))
unfolding ends_with
is_unfinished-full acc c [] = ground (arith, is_nil-snoc acc c)
is_unfinished-full acc c (d ∷ t) = elim (Bool-cases (c == b'\n')) [
  | inl y ↦ rw y (is_unfinished-full [] d t ∙ ap not (sym (ends_with-line c d t)))
  | inr n ↦ rw n (is_unfinished-full (acc ++ c ∷ []) d t ∙ ap not (sym (ends_with-line c d t)))
]

pub needs_break-unfinished : (t : Text) → needs_break t ≡ is_unfinished [] t
needs_break-unfinished [] = refl
needs_break-unfinished (c ∷ t) = sym (is_unfinished-full [] c t)

lines_from-one :
    (acc w : Text)
    → any (λ c. c == b'\n') w ≡ false
    → lines_from acc (w ++ b'\n' ∷ []) ≡ without_cr (acc ++ w) ∷ []
unfolding lines_from
lines_from-one acc [] h = ap (λ a. without_cr a ∷ []) (sym (append_nil acc))
lines_from-one acc (c ∷ w) h = elim (Bool-cases (c == b'\n')) [
  | inl y ↦ ground (arith, y)
  | inr n ↦ rw n (
      lines_from-one (acc ++ c ∷ []) w (ground (arith, n))
      ∙ ap (λ a. without_cr a ∷ []) (append_snoc acc c w))
]

split_once-key :
    (key e : Text)
    → any is_space key ≡ false
    → split_once is_space (key ++ b' ' ∷ e) ≡ some (key, e)
unfolding split_once
split_once-key [] e h = refl
split_once-key (c ∷ key) e h = elim (Bool-cases (is_space c)) [
  | inl y ↦ ground (arith, y)
  | inr n ↦ rw n (ap (onto_first c) (split_once-key key e (ground (arith, n))))
]

pub new_line-eq :
    (b : Bool) (key e : Text) → new_line b key e ≡ break_of b ++ ((key ++ b' ' ∷ e) ++ b'\n' ∷ [])
new_line-eq true key e = ap (◌∷◌ b'\n') (sym (append_assoc key (b' ' ∷ e) (b'\n' ∷ [])))
new_line-eq false key e = sym (append_assoc key (b' ' ∷ e) (b'\n' ∷ []))

-- What a line of a key and its fingerprint gives.
pub find_line-one :
    (key e asked : Text)
    → any is_space key ≡ false
    → any (λ c. c == b'\n') key ≡ false
    → any (λ c. c == b'\n') e ≡ false
    → find_line asked (lines ((key ++ b' ' ∷ e) ++ b'\n' ∷ [])) ≡ entry_of asked (some (key, e))
find_line-one key e asked hs hk he =
    ap (find_line asked)
      (lines_from-one [] (key ++ b' ' ∷ e) (any-append (λ c. c == b'\n') key (b' ' ∷ e) hk he))
    ∙ (first_of-none (line_entry asked (without_cr (key ++ b' ' ∷ e)))
        ∙ (line_entry-without_cr asked (key ++ b' ' ∷ e)
            ∙ ap (entry_of asked) (split_once-key key e hs)))
