-- ===== src/Folders/Moves.antt =====
-- `remap` and `is_under` (crates/avash/src/folders.rs), compared.
use avash.Base.{
  Bool, true, false, ◌≡◌, refl, subst, inl, inr, Option, none, some, [], ◌∷◌, ◌++◌, arith,
  append_assoc, Bool-cases, Option-cases,
}
use avash.Base.Text.{Text, codes, text_eq, strip_prefix, starts_with}
use avash.Base.Equal.{text_eq_refl}
use avash.Folders.{is_under, remap}

abbrev pub is_moved : Option Text → Bool
is_moved none = false
is_moved (some p) = true

strip_prefix-append : (pre s : Text) → strip_prefix pre (pre ++ s) ≡ some s
unfolding strip_prefix
strip_prefix-append [] s = refl
strip_prefix-append (c ∷ pre) s = ground (arith, strip_prefix-append pre s)

starts_with-append : (pre s : Text) → starts_with pre (pre ++ s) ≡ true
starts_with-append pre s = rw (starts_with, strip_prefix-append pre s) refl

starts_with-below :
    (path rest : Text) → starts_with (path ++ codes "/") (path ++ (codes "/" ++ rest)) ≡ true
starts_with-below path rest =
    subst (λ s. starts_with (path ++ codes "/") s ≡ true) (append_assoc path (codes "/") rest)
      (starts_with-append (path ++ codes "/") rest)

some-eq : {a b : Text} → ◌≡◌ {A = Option Text} (some a) (some b) → a ≡ b
some-eq e = cc

pub same-is_under : (path : Text) → is_under path path ≡ true
unfolding is_under
same-is_under path = rw (text_eq_refl path) refl

pub below-is_under : (path rest : Text) → is_under (path ++ (codes "/" ++ rest)) path ≡ true
unfolding is_under
below-is_under path rest = rw (starts_with-below path rest) (ground arith)

-- A folder is moved exactly if it is the renamed folder or below it, and is then the new folder or
-- below it.
pub remap-is_under :
    (current from to : Text)
    → (is_moved (remap current from to) ≡ is_under current from)
      × ((q : Text) → remap current from to ≡ some q → is_under q to ≡ true)
unfolding remap is_under
remap-is_under current from to = elim (Bool-cases (text_eq current from)) [
  | inl e ↦ (
    rw (remap, is_under, e) refl,
    λ q m. subst (λ q. is_under q to ≡ true) (some-eq (rw (remap, e) at m)) (same-is_under to),
  )
  | inr e ↦ elim (Option-cases (strip_prefix (from ++ codes "/") current)) [
    | inl n ↦
        (rw (remap, is_under, starts_with, e, n) refl, λ q m. absurd (cc (rw (remap, e, n) at m)))
    | inr (rest, y) ↦ (
      rw (remap, is_under, starts_with, e, y) refl,
      λ q m.
          subst (λ q. is_under q to ≡ true) (some-eq (rw (remap, e, y) at m))
            (below-is_under to rest),
    )
  ]
]
