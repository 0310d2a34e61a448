-- ===== src/Folders/Tests.antt =====
-- The theorems on the folders (crates/avash/src/folders.rs), applied to small registries.
use avash.Base.{true, false, ◌≡◌, ◌⊎◌, ◌↔◌, refl, List, [], ◌∷◌, is_nil}
use avash.Base.Text.{
  Text, codes, is_whitespace, is_control, trim_start_if, trim_end_if, split_if, keep_if, join,
}
use avash.Base.Equal.{has}
use avash.Folders.{normalize, tidy, listed, done, create_in, remove_in}
use avash.Folders.Ancestors.{Within}
use avash.Folders.Create.{create_in-has}
use avash.Folders.Remove.{remove_in-has}

named : is_nil (normalize (codes "lab/ x")) ≡ false
unfolding normalize split_if keep_if join is_control trim_start_if trim_end_if is_whitespace
named = refl

create_in-has_example :
    (w : List Text) × (r : List Text) × (create_in
        (listed (codes "site" ∷ codes "lab" ∷ []))
        (codes "lab/ x")
      ≡ done w r)
    × ((x : Text)
        → ((has x w ≡ true) ↔ (
            (has x (tidy (codes "site" ∷ codes "lab" ∷ [])) ≡ true)
            ⊎ Within (normalize (codes "lab/ x")) x))
          × ((has x r ≡ true) ↔ (
              (has x (tidy (codes "site" ∷ codes "lab" ∷ [])) ≡ true)
              ⊎ Within (normalize (codes "lab/ x")) x)))
create_in-has_example = create_in-has (codes "site" ∷ codes "lab" ∷ []) (codes "lab/ x") named

remove_in-has_example :
    (w : List Text) × (r : List Text) × (remove_in
        (listed (codes "lab/x" ∷ codes "lab" ∷ codes "labo" ∷ []))
        (codes "/lab")
      ≡ done w r)
    × ((x : Text)
        → ((has x w ≡ true) ↔ (
            (has x (tidy (codes "lab/x" ∷ codes "lab" ∷ codes "labo" ∷ [])) ≡ true)
            × ¬ Within x (normalize (codes "/lab"))))
          × ((has x r ≡ true) ↔ (
              (has x (tidy (codes "lab/x" ∷ codes "lab" ∷ codes "labo" ∷ [])) ≡ true)
              × ¬ Within x (normalize (codes "/lab")))))
remove_in-has_example =
    remove_in-has (codes "lab/x" ∷ codes "lab" ∷ codes "labo" ∷ []) (codes "/lab")
