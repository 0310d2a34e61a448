-- ===== src/Drive/Modify.antt =====
-- rdp-sidecar/src/disque.rs: `modifier_selon`.
use avash.Base.{
  ℕ, Bool, true, false, not, ◌&&◌, Option, none, some, [], ◌∷◌, ltb, if◌then◌else◌, is_nil,
}
use avash.Base.Text.{Text, text_eq}
use avash.Base.Int.{ℤ, pos, negsuc}
use avash.Base.Table.{find, put}
use avash.Files.Names.{FilePath}
use avash.Drive.Host.{
  Status, success, access_denied, name_collision, file_is_a_directory, directory_not_empty,
  name_invalid, invalid_handle, not_supported, io_status, Call, done, failed, ok, refused, Meta,
  Host,
}
use avash.Drive.Resolve.{resolve}
use avash.Drive.Open.{Opened, Drive}
use avash.Drive.Data.{bounded, status_after}
use avash.Drive.Directory.{kept_as}

-- `FileInformationClass`, of what can be set.
pub data Change : Type 0 where
  -- Whether there are attributes, and whether one is that of a read-only file.
  basic : Bool → Bool → Change
  end_of_file : ℤ → Change
  allocation : ℤ → Change
  disposition : Bool → Change
  -- The new name, and whether a file may be replaced.
  renamed : Text → Bool → Change
  other_class : Change

abbrev pub path_eq : FilePath → FilePath → Bool
path_eq [] [] = true
path_eq (a ∷ p) (b ∷ q) = text_eq a b && path_eq p q
path_eq _ _ = false

module _ (host : Host) where
  open host use {World, File}

  abbrev pub differs : Call Meta → Bool → Bool
  differs (failed k) readonly = false
  differs (done m) readonly = if m.readonly then not readonly else readonly

  -- `est_la_racine`
  unfoldable pub is_root : Drive host → ℕ → Bool
  unfolding find
  is_root d id = elim (find d.opened id) [ none ↦ false | some o ↦ path_eq o.path d.root ]

  -- A change of the file that is opened, if it is one.
  abbrev pub on_file :
      World → Drive host → ℕ → (File → World × Status) → World × Drive host × Status
  on_file w d id change = elim (find d.opened id) [
    | none ↦ (w, d, invalid_handle)
    | some o ↦ elim o.file [
      | none ↦ (w, d, file_is_a_directory)
      | some f ↦ let (w', s) = change f in (w', d, s)
    ]
  ]

  unfoldable pub set_basic : World → Drive host → ℕ → Bool → Bool → World × Drive host × Status
  unfolding find
  set_basic w d id some_attributes readonly = elim (find d.opened id) [
    | none ↦ (w, d, invalid_handle)
    | some o ↦
        if some_attributes && differs (host.metadata w o.path) readonly
        then (host.set_readonly w o.path readonly, d, success)
        else (w, d, success)
  ]

  abbrev pub end_at : World → Drive host → ℤ → File → World × Status
  end_at w d (negsuc n) f = (w, name_invalid)
  end_at w d (pos n) f = elim (bounded host w d f n) [
    | some s ↦ (w, s)
    | none ↦ status_after host (host.set_len w f n)
  ]

  abbrev pub allocate : World → ℤ → File → World × Status
  allocate w (negsuc n) f = (w, name_invalid)
  allocate w (pos n) f = elim (host.length_of w f) [
    | failed k ↦ (w, io_status k)
    | done now ↦ if ltb n now then status_after host (host.set_len w f n) else (w, success)
  ]

  -- Why a folder may not be deleted, if it may not.
  abbrev pub not_empty : World → Opened host → Bool → Option Status
  not_empty w o remove =
      if remove && o.is_folder
      then elim (host.read_dir w o.path) [
        | failed k ↦ some (io_status k)
        | done l ↦ if is_nil l then none else some directory_not_empty
      ]
      else none

  unfoldable pub set_disposition : World → Drive host → ℕ → Bool → Drive host × Status
  unfolding find put is_root io_status
  set_disposition w d id remove =
      if remove && is_root d id then (d, access_denied) else elim (find d.opened id) [
        | none ↦ (d, invalid_handle)
        | some o ↦ elim (not_empty w o remove) [
          | some s ↦ (d, s)
          | none ↦ (kept_as host d id (record o { to_delete = remove }), success)
        ]
      ]

  abbrev pub exists_at : Call Meta → Bool
  exists_at (done m) = true
  exists_at (failed k) = false

  unfoldable pub rename_at :
      World → Drive host → ℕ → Opened host → FilePath → World × Drive host × Status
  unfolding put io_status
  rename_at w d id o target =
      let (w', moved) = host.rename w o.path target in
      elim moved [
        | failed k ↦ (w', d, io_status k)
        | done _ ↦ (w', kept_as host d id (record o { path = target }), success)
      ]

  unfoldable pub rename_request : World → Drive host → ℕ → Text → Bool → World × Drive host × Status
  unfolding find resolve is_root rename_at
  rename_request w d id name replace =
      if is_root d id then (w, d, access_denied) else elim (resolve host w d.root name) [
        | refused s ↦ (w, d, s)
        | ok target ↦ elim (find d.opened id) [
          | none ↦ (w, d, invalid_handle)
          | some o ↦
              if exists_at (host.metadata w target) && not replace
              then (w, d, name_collision)
              else if path_eq target o.path
              then (w, d, success)
              else rename_at w d id o target
        ]
      ]

  -- `modifier_selon`
  unfoldable pub change_request : World → Drive host → ℕ → Change → World × Drive host × Status
  unfolding set_basic find bounded io_status set_disposition rename_request
  change_request w d id (basic some_attributes readonly) = set_basic w d id some_attributes readonly
  change_request w d id (end_of_file n) = on_file w d id (end_at w d n)
  change_request w d id (allocation n) = on_file w d id (allocate w n)
  change_request w d id (disposition remove) =
      let (d', s) = set_disposition w d id remove in (w, d', s)
  change_request w d id (renamed name replace) = rename_request w d id name replace
  change_request w d id other_class = (w, d, not_supported)
