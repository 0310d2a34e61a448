-- ===== src/Drive/Resolve.antt =====
-- rdp-sidecar/src/disque.rs: `composant_normal` and `resoudre`.
use avash.Base.{
  Bool, true, false, not, ◌&&◌, ◌||◌, Option, none, some, List, [], ◌∷◌, ◌++◌, ◌==◌, if◌then◌else◌,
  is_nil, any,
}
use avash.Base.Text.{Text, codes, contains_char, ends_with, split_if, keep_if}
use avash.Files.Names.{FilePath, begins_with, is_one_normal}
use avash.Drive.Host.{
  access_denied, name_invalid, path_not_found, Call, done, failed, Result, ok, refused, link,
  directory, regular, special, Meta, Host,
}

-- `split_last`
abbrev pub split_last : List Text → Option (Text × List Text)
split_last [] = none
split_last (a ∷ []) = some (a, [])
split_last (a ∷ b ∷ r) = elim (split_last (b ∷ r)) [ none ↦ none | some (l, p) ↦ some (l, a ∷ p) ]

abbrev pub parts_of : Text → List Text
parts_of remote = keep_if (λ c. not (is_nil c)) (split_if (λ c. c == b'\\' || c == b'/') remote)

abbrev pub is_link : Call Meta → Bool
is_link (failed k) = false
is_link (done m) = elim m.node [
  | link ↦ true
  | directory ↦ false
  | regular ↦ false
  | special ↦ false
]

module _ (host : Host) where
  -- `composant_normal`: the components hold no separator.
  unfoldable pub is_normal : Text → Bool
  unfolding ends_with
  is_normal c =
      not (
        contains_char b':' c
        || contains_char 0 c
        || ends_with (codes ".") c
        || ends_with (codes " ") c
        || host.is_device_name c)
      && is_one_normal c

  -- The end of `resoudre`, from the parent as the system resolves it. `join` of one normal component extends the path
  -- by it, so that its parent is what it was.
  unfoldable pub resolve_in : host.World → FilePath → FilePath → Text → Result FilePath
  unfolding begins_with
  resolve_in w root parent name =
      let path = parent ++ name ∷ [] in
      if not (begins_with parent root)
      then refused access_denied
      else if not (begins_with path root)
      then refused access_denied
      else if is_link (host.symlink_metadata w path)
      then refused access_denied
      else ok path

  -- `resoudre`
  unfoldable pub resolve : host.World → FilePath → Text → Result FilePath
  unfolding is_normal split_if keep_if resolve_in
  resolve w root remote =
      let parts = parts_of remote in
      if any (λ c. not (is_normal c)) parts then refused name_invalid else elim (split_last parts) [
        | none ↦ ok root
        | some (name, parents) ↦ elim (host.canonicalize w (root ++ parents)) [
          | none ↦ refused path_not_found
          | some parent ↦ resolve_in w root parent name
        ]
      ]
