-- ===== src/Folders/Ordered.antt =====
-- What sorting, removing doubles and adding missing folders keep (crates/avash/src/folders.rs).
use avash.Base.{
  Bool, true, false, not, ◌||◌, ◌≡◌, refl, ap, sym, subst, ◌∙◌, inl, inr, List, [], ◌∷◌, ◌++◌, map,
  arith, is_nil, All, Bool-cases,
}
use avash.Base.Text.{Text, text_eq, keep_if}
use avash.Base.Equal.{text_eq-eq, has, has-append}
use avash.Folders.Normal.{normalize_idem}
use avash.Folders.{normalize, text_lt, insert, sort, onto_run, dedup, add_missing, tidy}

has-insert : (x a : Text) (l : List Text) → has x (insert a l) ≡ (text_eq x a || has x l)
unfolding insert
has-insert x a [] = refl
has-insert x a (b ∷ l) = ground (arith, has-insert x a l)

pub has-sort : (x : Text) (l : List Text) → has x (sort l) ≡ has x l
unfolding sort
has-sort x [] = refl
has-sort x (a ∷ l) = has-insert x a (sort l) ∙ ap (λ b. text_eq x a || b) (has-sort x l)

or-same : (a b : Bool) → (a || b) ≡ (a || (a || b))
or-same true b = refl
or-same false b = refl

has-onto_run : (x a : Text) (l : List Text) → has x (onto_run a l) ≡ (text_eq x a || has x l)
has-onto_run x a [] = refl
has-onto_run x a (b ∷ l) = elim (Bool-cases (text_eq a b)) [
  | inl y ↦ rw y (
      subst (λ c. has x (b ∷ l) ≡ (text_eq x c || has x (b ∷ l))) (sym (text_eq-eq a b y))
        (or-same (text_eq x b) (has x l)))
  | inr n ↦ rw n refl
]

pub has-dedup : (x : Text) (l : List Text) → has x (dedup l) ≡ has x l
unfolding dedup
has-dedup x [] = refl
has-dedup x (a ∷ l) = has-onto_run x a (dedup l) ∙ ap (λ b. text_eq x a || b) (has-dedup x l)

has-known :
    (x p : Text) (all : List Text) → has p all ≡ true → has x all ≡ (has x all || text_eq x p)
has-known x p all h = elim (Bool-cases (text_eq x p)) [
  | inl y ↦ rw y (subst (λ p. has p all ≡ true) (sym (text_eq-eq x p y)) h ∙ ground arith)
  | inr n ↦ rw n (ground arith)
]

pub has-add_missing :
    (x : Text) (ps all : List Text) → has x (add_missing all ps) ≡ (has x all || has x ps)
unfolding add_missing
has-add_missing x [] all = ground arith
has-add_missing x (p ∷ ps) all = elim (Bool-cases (has p all)) [
  | inl y ↦ rw y (has-add_missing x ps all ∙ rw (has-known x p all y) (ground arith))
  | inr n ↦
      rw n (has-add_missing x ps (all ++ p ∷ []) ∙ rw (has-append x all (p ∷ [])) (ground arith))
]

-- A folder in normal form that is not the root.
pub record IsFolder (p : Text) : Type 0 where
  pub normal : normalize p ≡ p
  pub given : is_nil p ≡ false

pub normal-tidied :
    (l : List Text) → All IsFolder l → keep_if (λ p. not (is_nil p)) (map normalize l) ≡ l
unfolding keep_if
normal-tidied [] h = refl
normal-tidied (p ∷ l) h = rw (h.0.normal, h.0.given) (ap (◌∷◌ p) (normal-tidied l h.1))

-- Tidying folders in normal form changes only their order and their doubles.
pub has-tidy : (x : Text) (l : List Text) → All IsFolder l → has x (tidy l) ≡ has x l
unfolding tidy
has-tidy x l h =
    has-dedup x (sort (keep_if (λ p. not (is_nil p)) (map normalize l)))
    ∙ (has-sort x (keep_if (λ p. not (is_nil p)) (map normalize l))
        ∙ ap (has x) (normal-tidied l h))

All-insert : (P : Text → Type 0) (a : Text) (l : List Text) → P a → All P l → All P (insert a l)
unfolding insert
All-insert P a [] p h = (p, tt)
All-insert P a (b ∷ l) p h = elim (Bool-cases (text_lt b a)) [
  | inl y ↦ rw (insert, y) (h.0, All-insert P a l p h.1)
  | inr n ↦ rw (insert, n) (p, h)
]

All-sort : (P : Text → Type 0) (l : List Text) → All P l → All P (sort l)
unfolding sort
All-sort P [] h = tt
All-sort P (a ∷ l) h = All-insert P a (sort l) h.0 (All-sort P l h.1)

All-onto_run : (P : Text → Type 0) (a : Text) (l : List Text) → P a → All P l → All P (onto_run a l)
All-onto_run P a [] p h = (p, tt)
All-onto_run P a (b ∷ l) p h = elim (Bool-cases (text_eq a b)) [
  | inl y ↦ rw y h
  | inr n ↦ rw n (p, h)
]

All-dedup : (P : Text → Type 0) (l : List Text) → All P l → All P (dedup l)
unfolding dedup
All-dedup P [] h = tt
All-dedup P (a ∷ l) h = All-onto_run P a (dedup l) h.0 (All-dedup P l h.1)

kept-IsFolder : (l : List Text) → All IsFolder (keep_if (λ p. not (is_nil p)) (map normalize l))
unfolding keep_if
kept-IsFolder [] = tt
kept-IsFolder (p ∷ l) = elim (Bool-cases (is_nil (normalize p))) [
  | inl y ↦ rw y (kept-IsFolder l)
  | inr n ↦ rw n (record { normal = normalize_idem p; given = n }, kept-IsFolder l)
]

pub tidy-IsFolder : (l : List Text) → All IsFolder (tidy l)
unfolding tidy
tidy-IsFolder l = All-dedup IsFolder _ (All-sort IsFolder _ (kept-IsFolder l))

pub All-add_missing :
    (P : Text → Type 0) (ps all : List Text) → All P all → All P ps → All P (add_missing all ps)
unfolding add_missing
All-add_missing P [] all h k = h
All-add_missing P (p ∷ ps) all h k = elim (Bool-cases (has p all)) [
  | inl y ↦ rw y (All-add_missing P ps all h k.1)
  | inr n ↦ rw n (All-add_missing P ps (all ++ p ∷ []) (All-snoc P all p h k.0) k.1)
]
  where
    All-snoc :
        (P : Text → Type 0) (all : List Text) (p : Text) → All P all → P p → All P (all ++ p ∷ [])
    All-snoc P [] p h q = (q, tt)
    All-snoc P (a ∷ all) p h q = (h.0, All-snoc P all p h.1 q)
