-- ===== src/Drive/Open.antt =====
-- rdp-sidecar/src/disque.rs: `Lecteur`, `ouvrir`, `enregistrer` and `fermer`.
use avash.Base.{
  ℕ, zero, suc, ◌+◌, ◌%◌, ◌^◌, Bool, false, not, ◌&&◌, ◌||◌, Option, none, some, List, [], length,
  leb, ◌==◌, if◌then◌else◌,
}
use avash.Base.Table.{Table, find, put, delete, is_some}
use avash.Files.Names.{FilePath}
use avash.Drive.Host.{
  Status, success, no_such_file, access_denied, name_collision, not_a_directory,
  file_is_a_directory, invalid_handle, too_many_opened, io_status, Call, done, failed, Result, ok,
  refused, Meta, Options, Done, Host, Entry,
}
use avash.Drive.Resolve.{resolve}
use avash.Drive.Request.{
  supersede, open_existing, create, open_if, overwrite, overwrite_if, unknown, created, was_opened,
  CreateRequest, Disposition, Information, is_denied, is_directory_meta, is_other_meta, is_simple,
  meta_of, opened_max, opening,
}

module _ (host : Host) where
  open host use {World, File}

  -- `Ouvert`
  pub record Opened : Type 0 where
    pub path : FilePath
    pub file : Option File
    pub is_folder : Bool
    pub to_delete : Bool
    pub entries : List Entry
    pub position : ℕ

  -- `Lecteur`
  pub record Drive : Type 0 where
    pub root : FilePath
    pub opened : Table Opened
    pub next : ℕ

  abbrev pub opened_at : FilePath → Option File → Opened
  opened_at path file = record {
    path = path;
    file = file;
    is_folder = not (is_some file);
    to_delete = false;
    entries = [];
    position = 0;
  }

  -- The first number from `id` on that is neither zero nor taken, with `f` turns left; numbers have 32 bits.
  unfoldable pub free_id : ℕ → Table Opened → ℕ → Option ℕ
  unfolding find
  free_id zero opened id = none
  free_id (suc f) opened id =
      let rest = free_id f opened ((id + 1) % 2 ^ 32) in
      if id == 0 || is_some (find opened id) then rest else some id

  -- `enregistrer`: among as many numbers as there are files and two more, one is free.
  unfoldable pub register : Drive → Opened → Option (Drive × ℕ)
  unfolding free_id put
  register d o = elim (free_id (length d.opened + 2) d.opened d.next) [
    | none ↦ none
    | some id ↦ some (record d { opened = put d.opened id o; next = (id + 1) % 2 ^ 32 }, id)
  ]

  abbrev pub said : Information → World × Call Done → World × Result Information
  said i (w, done _) = (w, ok i)
  said i (w, failed k) = (w, refused (io_status k))

  -- A folder that is asked for, or that is there.
  unfoldable pub open_folder :
      World → FilePath → Disposition → Bool → Bool → World × Result Information
  unfolding io_status
  open_folder w path disposition exists is_folder =
      let found = if is_folder then ok was_opened else refused not_a_directory in
      let made = said created (host.create_dir w path) in
      elim disposition [
        | open_existing ↦ if exists then (w, found) else (w, refused no_such_file)
        | create ↦ if exists then (w, refused name_collision) else made
        | open_if ↦ if exists then (w, found) else made
        | supersede ↦ (w, refused file_is_a_directory)
        | overwrite ↦ (w, refused file_is_a_directory)
        | overwrite_if ↦ (w, refused file_is_a_directory)
        | unknown ↦ (w, refused file_is_a_directory)
      ]

  abbrev pub opened_as : Information → World × Call File → World × Result (File × Information)
  opened_as i (w, done f) = (w, ok (f, i))
  opened_as i (w, failed k) = (w, refused (io_status k))

  -- The call of `open`, and the second one without writing.
  unfoldable pub open_call :
      World → FilePath → Options → Information → Bool → World × Result (File × Information)
  unfolding io_status
  open_call w path options i again =
      let (w', file) = host.open_file w path options in
      let second = opened_as i (host.open_file w' path (record options { write = false })) in
      elim file [
        | done f ↦ (w', ok (f, i))
        | failed k ↦ if is_denied k && again then second else (w', refused (io_status k))
      ]

  -- A file that is no folder; a special one is refused before it is opened.
  unfoldable pub open_regular :
      World → FilePath → CreateRequest → Option Meta → World × Result (File × Information)
  unfolding opening open_call
  open_regular w path q found =
      let again = not q.wants_write && is_simple q.disposition (is_some found) in
      if is_other_meta found
      then (w, refused access_denied)
      else elim (opening q.disposition (is_some found) (q.wants_write || q.wants_maximum)) [
        | refused s ↦ (w, refused s)
        | ok (options, i) ↦ open_call w path options i again
      ]

  abbrev pub answer_at :
      FilePath
      → Option File
      → Drive
      → World
      → Information
      → Option (World × Drive × Result (ℕ × Information))
  answer_at path file d w i = elim (register d (opened_at path file)) [
    | none ↦ none
    | some (d', id) ↦ some (w, d', ok (id, i))
  ]

  abbrev pub answer_folder :
      FilePath
      → Drive
      → World × Result Information
      → Option (World × Drive × Result (ℕ × Information))
  answer_folder path d (w, refused s) = some (w, d, refused s)
  answer_folder path d (w, ok i) = answer_at path none d w i

  abbrev pub answer_file :
      FilePath
      → Drive
      → World × Result (File × Information)
      → Option (World × Drive × Result (ℕ × Information))
  answer_file path d (w, refused s) = some (w, d, refused s)
  answer_file path d (w, ok (f, i)) = answer_at path (some f) d w i

  -- `ouvrir`; `none` is a search of a number that does not end.
  unfoldable pub open_request :
      World → Drive → CreateRequest → Option (World × Drive × Result (ℕ × Information))
  unfolding resolve open_folder open_regular register
  open_request w d q =
      if leb opened_max (length d.opened)
      then some (w, d, refused too_many_opened)
      else elim (resolve host w d.root q.path) [
        | refused s ↦ some (w, d, refused s)
        | ok path ↦
            let found = meta_of (host.metadata w path) in
            if q.wants_directory || is_directory_meta found
            then answer_folder path d
                (open_folder w path q.disposition (is_some found) (is_directory_meta found))
            else answer_file path d (open_regular w path q found)
      ]

  abbrev pub status_of : World × Call Done → World × Status
  status_of (w, done _) = (w, success)
  status_of (w, failed k) = (w, io_status k)

  -- `fermer`
  unfoldable pub close_request : World → Drive → ℕ → World × Drive × Status
  unfolding find delete io_status
  close_request w d id = elim (find d.opened id) [
    | none ↦ (w, d, invalid_handle)
    | some o ↦
        let d' : Drive = record d { opened = delete d.opened id } in
        let (w', s) =
          status_of (if o.is_folder then host.remove_dir w o.path else host.remove_file w o.path) in
        if o.to_delete then (w', d', s) else (w, d', success)
  ]
