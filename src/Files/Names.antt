-- ===== src/Files/Names.antt =====
-- rdp-sidecar/src/fichiers.rs: the names that the server announces, and where a file is received. A path is the
-- list of its components; the base of the received paths is given.
use avash.Base.{
  ℕ, Bool, true, false, not, ◌&&◌, ◌||◌, Option, none, some, List, [], ◌∷◌, ◌++◌, map, leb, ◌==◌,
  if◌then◌else◌, is_nil, any,
}
use avash.Base.Text.{
  Text, codes, text_eq, split_if, keep_if, contains_char, ends_with, replace_char,
}

-- `FileDescriptor`, with the attribute of a directory alone.
pub record Descriptor : Type 0 where
  pub name : Text
  pub relative_path : Option Text
  pub file_size : Option ℕ
  pub directory : Bool

-- `caractere_trompeur`
unfoldable pub is_misleading : ℕ → Bool
is_misleading c =
    leb c 0x1f
    || (leb 0x7f c && leb c 0x9f)
    || c == 0xad
    || c == 0x61c
    || c == 0x115f
    || c == 0x1160
    || c == 0x180e
    || c == 0x200b
    || c == 0x200e
    || c == 0x200f
    || c == 0x2028
    || c == 0x2029
    || (leb 0x202a c && leb c 0x202e)
    || (leb 0x2060 c && leb c 0x2064)
    || (leb 0x2066 c && leb c 0x206f)
    || c == 0x3164
    || c == 0xfeff
    || c == 0xffa0
    || (leb 0xfff9 c && leb c 0xfffb)

-- `lisible`
unfoldable pub readable : Text → Text
unfolding is_misleading
readable name =
    if any is_misleading name then map (λ c. if is_misleading c then 0xfffd else c) name else name

-- `filter(|r| !r.is_empty())`
abbrev pub not_empty : Option Text → Option Text
not_empty none = none
not_empty (some t) = if is_nil t then none else some t

-- `chemin_relatif`
unfoldable pub shown_path : Descriptor → Text
unfolding readable replace_char
shown_path d = elim (not_empty d.relative_path) [
  | none ↦ readable d.name
  | some p ↦ readable (replace_char b'\\' (codes "/") p ++ (codes "/" ++ d.name))
]

abbrev pub or_zero : Option ℕ → ℕ
or_zero none = 0
or_zero (some n) = n

-- `FichierDistant`
pub record RemoteFile : Type 0 where
  pub path : Text
  pub size : ℕ
  pub directory : Bool

abbrev pub remote_file : Descriptor → RemoteFile
remote_file d = record {
  path = shown_path d;
  size = if d.directory then 0 else or_zero d.file_size;
  directory = d.directory;
}

-- `annonce`
unfoldable pub announced : List Descriptor → List RemoteFile
announced files = map remote_file files

-- A text without a separator is one normal component, unless it is empty or dots that lead.
abbrev pub is_one_normal : Text → Bool
is_one_normal c = not (is_nil c) && not (text_eq c (codes ".")) && not (text_eq c (codes ".."))

abbrev pub FilePath : Type 0
FilePath = List Text

-- Whether a path begins with another one, component by component.
unfoldable pub begins_with : FilePath → FilePath → Bool
begins_with p [] = true
begins_with [] (b ∷ base) = false
begins_with (a ∷ p) (b ∷ base) = text_eq a b && begins_with p base

-- What ironrdp says of a name: a reserved name of a Windows device.
module _ (is_device_name : Text → Bool) where
  -- `composant_sur`
  unfoldable pub is_safe : Text → Bool
  unfolding is_misleading ends_with
  is_safe c =
      not (
        contains_char b':' c
        || contains_char b'/' c
        || contains_char b'\\' c
        || contains_char 0 c
        || ends_with (codes ".") c
        || ends_with (codes " ") c
        || is_device_name c)
      && not (any is_misleading c)
      && is_one_normal c

  -- The loop of `chemin_local` over the components of the announced path.
  unfoldable pub push_all : FilePath → List Text → Option FilePath
  unfolding is_safe
  push_all p [] = some p
  push_all p (c ∷ r) = let rest = push_all (p ++ c ∷ []) r in if is_safe c then rest else none

  abbrev pub announced_parts : Option Text → List Text
  announced_parts none = []
  announced_parts (some rel) = keep_if is_one_normal (split_if (λ c. c == b'\\' || c == b'/') rel)

  -- `chemin_local`
  unfoldable pub local_path : FilePath → Descriptor → Option FilePath
  unfolding push_all split_if keep_if begins_with is_safe
  local_path folder d = elim (push_all folder (announced_parts (not_empty d.relative_path))) [
    | none ↦ none
    | some p ↦
        let target = p ++ d.name ∷ [] in
        if is_safe d.name then (if begins_with target folder then some target else none) else none
  ]
