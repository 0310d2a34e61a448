-- ===== src/Folders/Remove.antt =====
-- What `remove_in` (crates/avash/src/folders.rs) leaves in the registry.
use avash.Base.{
  Bool, true, false, not, ◌&&◌, ◌≡◌, ◌↔◌, refl, subst, ◌∙◌, inl, inr, List, [], ◌∷◌, arith, All,
  Bool-cases,
}
use avash.Base.Text.{Text, text_eq, keep_if}
use avash.Base.Equal.{text_eq-eq, text_eq_refl, has}
use avash.Folders.{normalize, is_under, tidy, listed, done, load, remove_in}
use avash.Folders.Ancestors.{Within, is_under-Within}
use avash.Folders.Ordered.{IsFolder, has-tidy, tidy-IsFolder}

has-keep_if : (f : Text → Bool) (x : Text) (l : List Text) → has x (keep_if f l) ≡ (has x l && f x)
unfolding keep_if
has-keep_if f x [] = refl
has-keep_if f x (a ∷ l) = elim (Bool-cases (text_eq x a)) [
  | inl y ↦
      subst (λ b. has x (keep_if f (b ∷ l)) ≡ (has x (b ∷ l) && f x)) (text_eq-eq x a y)
        (elim (Bool-cases (f x)) [
          | inl k ↦ rw (k, text_eq_refl x) refl
          | inr d ↦ rw (d, text_eq_refl x, has-keep_if f x l, d) (ground arith)
        ])
  | inr n ↦ elim (Bool-cases (f a)) [
    | inl k ↦ rw (k, n) (has-keep_if f x l)
    | inr d ↦ rw (d, n) (has-keep_if f x l)
  ]
]

All-keep_if : (P : Text → Type 0) (f : Text → Bool) (l : List Text) → All P l → All P (keep_if f l)
unfolding keep_if
All-keep_if P f [] h = tt
All-keep_if P f (a ∷ l) h = elim (Bool-cases (f a)) [
  | inl y ↦ rw y (h.0, All-keep_if P f l h.1)
  | inr n ↦ rw n (All-keep_if P f l h.1)
]

unless :
    {P : Type 0} (a b c : Bool)
    → a ≡ (b && not c)
    → (c ≡ true) ↔ P
    → (a ≡ true) ↔ ((b ≡ true) × ¬ P)
unless a b true e (f, g) = (λ h. absurd (ground arith), λ k. absurd (k.1 (f refl)))
unless a b false e (f, g) = (λ h. (ground arith, λ p. cc (g p)), λ k. ground (arith, k.0))

-- On a registry that is read, removing a folder writes a list and returns one. A folder is in one
-- or in the other exactly if it was in the registry, is not the removed folder, and does not lie
-- in it: its name is not that of the removed folder, a slash and a rest.
pub remove_in-has :
    (paths : List Text) (path : Text)
    → (w : List Text) × (r : List Text) × (remove_in (listed paths) path ≡ done w r)
      × ((x : Text)
          → ((has x w ≡ true) ↔ ((has x (tidy paths) ≡ true) × ¬ Within x (normalize path)))
            × ((has x r ≡ true) ↔ ((has x (tidy paths) ≡ true) × ¬ Within x (normalize path))))
unfolding remove_in load
remove_in-has paths path =
    let stays : Text → Bool = λ p. not (is_under p (normalize path)) in
    let rest = keep_if stays (tidy paths) in
    (
      tidy rest,
      rest,
      refl,
      λ x.
          let under = is_under-Within x (normalize path) in
          let kept = has-keep_if stays x (tidy paths) in
          let inside = is_under x (normalize path) in
          let folders = All-keep_if IsFolder stays (tidy paths) (tidy-IsFolder paths) in
          (
            unless (has x (tidy rest)) (has x (tidy paths)) inside (has-tidy x rest folders ∙ kept)
                under,
            unless (has x rest) (has x (tidy paths)) inside kept under,
          ),
    )
