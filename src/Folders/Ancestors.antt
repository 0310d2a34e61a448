-- ===== src/Folders/Ancestors.antt =====
-- What `is_under` and `with_ancestors` (crates/avash/src/folders.rs) say of the names of folders.
use avash.Base.{
  ℕ, Bool, true, false, ◌≡◌, ◌⊎◌, ◌↔◌, refl, sym, ap, subst, ◌∙◌, inl, inr, some, List, [], ◌∷◌,
  ◌++◌, map, arith, append_assoc, is_nil, All, any, ◌==◌, ==_iff, Bool-cases, Option-cases,
}
use avash.Base.Text.{Text, codes, text_eq, strip_prefix, starts_with, join}
use avash.Base.Equal.{text_eq-eq, text_eq_refl, has}
use avash.Folders.{is_under, ancestors_from}
use avash.Folders.Normal.{IsSegment}
use avash.Folders.Moves.{same-is_under, below-is_under}

-- A folder is another one, or lies below it: it goes on behind a slash.
abbrev pub Within : Text → Text → Type 0
Within x folder = (x ≡ folder) ⊎ ((rest : Text) × (x ≡ folder ++ (codes "/" ++ rest)))

cons-eq : {a b : ℕ} {x y : Text} → a ≡ b → x ≡ y → ◌≡◌ {A = Text} (a ∷ x) (b ∷ y)
cons-eq e f = cc

strip_prefix-eq : (p s r : Text) → strip_prefix p s ≡ some r → s ≡ p ++ r
unfolding strip_prefix
strip_prefix-eq [] s r e = cc
strip_prefix-eq (c ∷ p) [] r e = absurd (cc e)
strip_prefix-eq (c ∷ p) (d ∷ s) r e = elim (Bool-cases (c == d)) [
  | inl y ↦ let later = strip_prefix-eq p s r (rw y at e) in cons-eq (sym ((==_iff c d).0 y)) later
  | inr n ↦ absurd (cc (rw n at e))
]

pub is_under-Within : (x folder : Text) → (is_under x folder ≡ true) ↔ Within x folder
unfolding is_under
is_under-Within x folder = (onward, back)
  where
    onward : is_under x folder ≡ true → Within x folder
    onward h = elim (Bool-cases (text_eq x folder)) [
      | inl y ↦ inl (text_eq-eq x folder y)
      | inr n ↦ elim (Option-cases (strip_prefix (folder ++ codes "/") x)) [
        | inl m ↦
            let no : is_under x folder ≡ false = rw (is_under, starts_with, n, m) refl in
            absurd (cc (sym h ∙ no))
        | inr (rest, m) ↦ inr (
          rest,
          strip_prefix-eq (folder ++ codes "/") x rest m ∙ append_assoc folder (codes "/") rest,
        )
      ]
    ]

    back : Within x folder → is_under x folder ≡ true
    back (inl e) = subst (λ f. is_under x f ≡ true) e (same-is_under x)
    back (inr (rest, e)) =
        subst (λ y. is_under y folder ≡ true) (sym e) (below-is_under folder rest)

abbrev below : Text → Text → Text
below s t = s ++ (codes "/" ++ t)

below-below : (a u t : Text) → below a (below u t) ≡ below (below a u) t
below-below a u t = sym (append_assoc a (codes "/" ++ u) (codes "/" ++ t))

map-below :
    (a u : Text) (l : List Text) → map (below a) (map (below u) l) ≡ map (below (below a u)) l
map-below a u [] = refl
map-below a u (t ∷ l) =
    rw (map-below a u l) (ap (λ x. x ∷ map (below (below a u)) l) (below-below a u t))

abbrev Given : Text → Type 0
Given s = is_nil s ≡ false

is_nil-below : (a u : Text) → is_nil (below a u) ≡ false
is_nil-below [] u = refl
is_nil-below (c ∷ a) u = refl

-- The folders from a given one on are those of the rest, below it.
ancestors_from-below :
    (a : Text) (us : List Text)
    → Given a
    → All Given us
    → ancestors_from a us ≡ map (below a) (ancestors_from [] us)
unfolding ancestors_from
ancestors_from-below a [] g h = refl
ancestors_from-below a (u ∷ us) g h = elim (Bool-cases (is_nil a)) [
  | inl y ↦ absurd (cc (sym y ∙ g))
  | inr n ↦
      rw
        (
          n,
          ancestors_from-below (below a u) us (is_nil-below a u) h.1,
          ancestors_from-below u us h.0 h.1,
          map-below a u (ancestors_from [] us),
        )
        refl
]

abbrev is_slash : ℕ → Bool
is_slash c = c == b'/'

slash-within : (x rest : Text) → any is_slash (below x rest) ≡ true
slash-within [] rest = refl
slash-within (c ∷ x) rest = ground (arith, slash-within x rest)

head-eq : {a b : ℕ} {x y : Text} → ◌≡◌ {A = Text} (a ∷ x) (b ∷ y) → a ≡ b
head-eq e = cc

tail-eq : {a b : ℕ} {x y : Text} → ◌≡◌ {A = Text} (a ∷ x) (b ∷ y) → x ≡ y
tail-eq e = cc

no_slash-tail : (c : ℕ) (s : Text) → any is_slash (c ∷ s) ≡ false → any is_slash s ≡ false
no_slash-tail c s h = ground arith

-- Where a name without a slash and a folder begin alike, up to a slash.
up_to_slash :
    (s x j rest : Text)
    → any is_slash s ≡ false
    → below s j ≡ below x rest
    → (x ≡ s) ⊎ ((t : Text) × (x ≡ below s t) × (j ≡ below t rest))
up_to_slash [] [] j rest h e = inl refl
up_to_slash [] (d ∷ x) j rest h e = inr (x, ap (λ y. y ∷ x) (sym (head-eq e)), tail-eq e)
up_to_slash (c ∷ s) [] j rest h e = let same = head-eq e in absurd (ground arith)
up_to_slash (c ∷ s) (d ∷ x) j rest h e =
    let same = head-eq e in
    elim (up_to_slash s x j rest (no_slash-tail c s h) (tail-eq e)) [
      | inl y ↦ inl (cons-eq (sym same) y)
      | inr (t, y, z) ↦ inr (t, cons-eq (sym same) y, z)
    ]

map-has :
    (x s : Text) (l : List Text)
    → has x (map (below s) l) ≡ true
    → (t : Text) × (x ≡ below s t) × (has t l ≡ true)
map-has x s [] h = absurd (cc h)
map-has x s (t ∷ l) h = elim (Bool-cases (text_eq x (below s t))) [
  | inl y ↦ (t, text_eq-eq x (below s t) y, rw (text_eq_refl t) refl)
  | inr n ↦ let (u, e, k) = map-has x s l (rw n at h) in (u, e, rw k (ground arith))
]

has-map : (s t : Text) (l : List Text) → has t l ≡ true → has (below s t) (map (below s) l) ≡ true
has-map s t [] h = h
has-map s t (u ∷ l) h = elim (Bool-cases (text_eq t u)) [
  | inl y ↦
      subst (λ v. has (below s t) (map (below s) (v ∷ l)) ≡ true) (text_eq-eq t u y)
        (rw (text_eq_refl (below s t)) refl)
  | inr n ↦ rw (has-map s t l (rw n at h)) (ground arith)
]

segments-Given : (l : List Text) → All IsSegment l → All Given l
segments-Given [] h = tt
segments-Given (s ∷ l) h = (ground (arith, h.0.kept), segments-Given l h.1)

deeper :
    (s u : Text) (us : List Text)
    → All IsSegment (s ∷ u ∷ us)
    → ancestors_from [] (s ∷ u ∷ us) ≡ s ∷ map (below s) (ancestors_from [] (u ∷ us))
unfolding ancestors_from
deeper s u us h =
    let given = segments-Given (s ∷ u ∷ us) h in
    ap (λ l. s ∷ l) (ancestors_from-below s (u ∷ us) given.0 given.1)

-- A folder lies in a path of segments, or is one, exactly if it is among the path's folders.
abbrev Holds : Text → List Text → Type 0
Holds path l = (t : Text) → (has t l ≡ true) ↔ Within path t

-- One segment more in front.
module _ (s u : Text) (us : List Text) (h : All IsSegment (s ∷ u ∷ us)) where
  abbrev path : Text
  path = join (codes "/") (u ∷ us)

  abbrev rest : List Text
  rest = ancestors_from [] (u ∷ us)

  Within-longer :
      (x : Text)
      → Holds path rest
      → has x (ancestors_from [] (s ∷ u ∷ us)) ≡ true
      → Within (below s path) x
  Within-longer x ih k = elim (Bool-cases (text_eq x s)) [
    | inl y ↦ inr (path, ap (λ v. below v path) (sym (text_eq-eq x s y)))
    | inr n ↦
        let all : has x (s ∷ map (below s) rest) ≡ true =
          subst (λ l. has x l ≡ true) (deeper s u us h) k in
        let (t, e, m) = map-has x s rest (rw n at all) in
        elim ((ih t).0 m) [
          | inl y ↦ inl (ap (below s) y ∙ sym e)
          | inr (r, y) ↦ inr (r, ap (below s) y ∙ below-below s t r ∙ ap (λ v. below v r) (sym e))
        ]
  ]

  has-deeper :
      (t : Text) → has t rest ≡ true → has (below s t) (ancestors_from [] (s ∷ u ∷ us)) ≡ true
  has-deeper t k =
      subst (λ l. has (below s t) l ≡ true) (sym (deeper s u us h))
        (rw (has-map s t rest k) (ground arith))

  has-longer :
      (x : Text)
      → Holds path rest
      → Within (below s path) x
      → has x (ancestors_from [] (s ∷ u ∷ us)) ≡ true
  has-longer x ih (inl e) =
      subst (λ y. has y (ancestors_from [] (s ∷ u ∷ us)) ≡ true) e
        (has-deeper path ((ih path).1 (inl refl)))
  has-longer x ih (inr (r, e)) = elim (up_to_slash s x path r h.0.flat e) [
    | inl y ↦
        subst (λ y. has y (ancestors_from [] (s ∷ u ∷ us)) ≡ true) (sym y)
          (subst (λ l. has s l ≡ true) (sym (deeper s u us h)) (rw (text_eq_refl s) refl))
    | inr (t, y, z) ↦
        subst (λ y. has y (ancestors_from [] (s ∷ u ∷ us)) ≡ true) (sym y)
          (has-deeper t ((ih t).1 (inr (r, z))))
  ]

-- The folders of a path of segments are those that it lies in, itself included.
pub ancestors_from-Within :
    (s : Text) (l : List Text)
    → All IsSegment (s ∷ l)
    → Holds (join (codes "/") (s ∷ l)) (ancestors_from [] (s ∷ l))
unfolding ancestors_from join
ancestors_from-Within s [] h x = (onward, back)
  where
    onward : has x (s ∷ []) ≡ true → Within s x
    onward k = inl (sym (text_eq-eq x s (ground arith)))

    back : Within s x → has x (s ∷ []) ≡ true
    back (inl e) = subst (λ y. has y (s ∷ []) ≡ true) e (rw (text_eq_refl s) refl)
    back (inr (rest, e)) = absurd (cc (sym (ap (any is_slash) e ∙ slash-within x rest) ∙ h.0.flat))
ancestors_from-Within s (u ∷ us) h x =
    let ih = ancestors_from-Within u us h.1 in
    (Within-longer s u us h x ih, has-longer s u us h x ih)
