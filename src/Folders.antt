-- ===== src/Folders.antt =====
-- crates/avash/src/folders.rs: the registry of the folders of the hosts. Its file is decoded and
-- encoded by `serde_yaml`, so that here it is a list of texts.
pub mod Normal
pub mod Moves
pub mod Ancestors
pub mod Ordered
pub mod Create
pub mod Remove
mod Tests
use avash.Base.{
  ℕ, Bool, true, false, not, ◌&&◌, ◌||◌, Option, none, some, List, [], ◌∷◌, ◌++◌, map, ltb, ◌==◌,
  if◌then◌else◌, is_nil, any,
}
use avash.Base.Text.{
  Text, codes, is_control, trim, text_eq, split_if, keep_if, join, strip_prefix, starts_with,
}

abbrev pub is_segment : Text → Bool
is_segment s =
    not (is_nil s)
    && not (text_eq s (codes "."))
    && not (text_eq s (codes ".."))
    && not (any is_control s)

unfoldable pub normalize : Text → Text
unfolding split_if keep_if join is_control
normalize path = join (codes "/") (keep_if is_segment (map trim (split_if (λ c. c == b'/') path)))

-- The loop of `with_ancestors`, with `acc`.
unfoldable pub ancestors_from : Text → List Text → List Text
ancestors_from acc [] = []
ancestors_from acc (s ∷ r) =
    let next = if is_nil acc then s else acc ++ (codes "/" ++ s) in next ∷ ancestors_from next r

unfoldable pub with_ancestors : Text → List Text
unfolding ancestors_from keep_if split_if
with_ancestors path =
    ancestors_from [] (keep_if (λ s. not (is_nil s)) (split_if (λ c. c == b'/') path))

-- `Ord` of `String`: the order of the bytes is that of the code points.
unfoldable pub text_lt : Text → Text → Bool
text_lt [] [] = false
text_lt [] (y ∷ b) = true
text_lt (x ∷ a) [] = false
text_lt (x ∷ a) (y ∷ b) = ltb x y || (x == y && text_lt a b)

unfoldable pub insert : Text → List Text → List Text
unfolding text_lt
insert a [] = a ∷ []
insert a (b ∷ r) = let later = b ∷ insert a r in if text_lt b a then later else a ∷ b ∷ r

-- `sort`
unfoldable pub sort : List Text → List Text
unfolding insert
sort [] = []
sort (a ∷ r) = insert a (sort r)

abbrev pub onto_run : Text → List Text → List Text
onto_run a [] = a ∷ []
onto_run a (b ∷ r) = if text_eq a b then b ∷ r else a ∷ b ∷ r

-- `dedup`
unfoldable pub dedup : List Text → List Text
dedup [] = []
dedup (a ∷ r) = onto_run a (dedup r)

-- What `load_from` and `save_to` make of the listed paths.
unfoldable pub tidy : List Text → List Text
unfolding normalize keep_if sort dedup
tidy paths = dedup (sort (keep_if (λ p. not (is_nil p)) (map normalize paths)))

-- `folders.yaml`: no file, a file that is not read or not decoded, or its list.
pub data Registry : Type 0 where
  absent unreadable : Registry
  listed : List Text → Registry

-- An operation refuses an empty name, fails on the file, or writes a list and returns one.
pub data Outcome : Type 0 where
  empty_name failed : Outcome
  done : List Text → List Text → Outcome

unfoldable pub load : Registry → Option (List Text)
unfolding tidy
load absent = some []
load unreadable = none
load (listed paths) = some (tidy paths)

-- `if !all.contains(&p) { all.push(p) }`, for each.
unfoldable pub add_missing : List Text → List Text → List Text
add_missing all [] = all
add_missing all (p ∷ r) = add_missing (if any (text_eq p) all then all else all ++ p ∷ []) r

-- The list that `save_to` writes is tidied once more.
abbrev pub saved : List Text → List Text → Outcome
saved all returned = done (tidy all) returned

unfoldable pub create_in : Registry → Text → Outcome
unfolding normalize load add_missing with_ancestors tidy sort
create_in file path =
    let norm = normalize path in
    if is_nil norm then empty_name else elim (load file) [
      | none ↦ failed
      | some all ↦ let all' = add_missing all (with_ancestors norm) in saved all' (sort all')
    ]

-- `current` is the folder `path` or below it.
unfoldable pub is_under : Text → Text → Bool
unfolding strip_prefix
is_under current path = text_eq current path || starts_with (path ++ codes "/") current

unfoldable pub remap : Text → Text → Text → Option Text
unfolding strip_prefix
remap current from to =
    if text_eq current from then some to else elim (strip_prefix (from ++ codes "/") current) [
      | none ↦ none
      | some rest ↦ some (to ++ (codes "/" ++ rest))
    ]

unfoldable pub remove_in : Registry → Text → Outcome
unfolding normalize load is_under keep_if tidy
remove_in file path =
    let norm = normalize path in
    elim (load file) [
      | none ↦ failed
      | some all ↦ let rest = keep_if (λ p. not (is_under p norm)) all in saved rest rest
    ]

-- The loop of `rename_in`, whose two branches are those of `remap`.
abbrev pub moved : Text → Text → Text → Text
moved from to p = elim (remap p from to) [ none ↦ p | some q ↦ q ]

unfoldable pub rename_in : Registry → Text → Text → Outcome
unfolding normalize load remap add_missing with_ancestors tidy sort dedup
rename_in file from to =
    let from' = normalize from in
    let to' = normalize to in
    if is_nil to' then empty_name else elim (load file) [
      | none ↦ failed
      | some all ↦
          let all' = add_missing (map (moved from' to') all) (with_ancestors to') in
          saved all' (dedup (sort all'))
    ]
