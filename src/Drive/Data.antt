-- ===== src/Drive/Data.antt =====
-- rdp-sidecar/src/disque.rs: `lire_bloc`, `ecrire_bloc` and `borne_par_l_espace_libre`.
use avash.Base.{
  ℕ, ◌+◌, ◌-◌, ◌*◌, ◌^◌, min, ◌&&◌, ◌||◌, Option, none, some, List, [], ◌∷◌, ◌++◌, length, take,
  ltb, leb, ◌==◌, if◌then◌else◌, is_nil,
}
use avash.Base.Text.{Bytes}
use avash.Base.Table.{find}
use avash.Drive.Host.{
  Status, success, file_is_a_directory, invalid_handle, disk_full, io_status, Call, done, failed,
  Result, ok, refused, Done, Read, got, interrupted, broken, Host,
}
use avash.Drive.Space.{free_octets}
use avash.Drive.Open.{Drive}

-- `LECTURE_MAX`
abbrev pub read_max : ℕ
read_max = 4 * 2 ^ 20

abbrev pub push_read : Bytes → Result Bytes → Result Bytes
push_read b (ok rest) = ok (b ++ rest)
push_read b (refused s) = refused s

-- The loop of `lire_bloc`, with `room` bytes left: no more than that is taken of what a read gives.
unfoldable pub read_loop : ℕ → List Read → Result Bytes
unfolding io_status
read_loop room [] = ok []
read_loop room (interrupted ∷ r) = if room == 0 then ok [] else read_loop room r
read_loop room (broken k ∷ r) = if room == 0 then ok [] else refused (io_status k)
read_loop room (got b ∷ r) =
    let part = take room b in
    let rest = push_read part (read_loop (room - length part) r) in
    if room == 0 || is_nil part then ok [] else rest

module _ (host : Host) where
  open host use {World, File}

  -- `lire_bloc`
  unfoldable pub read_block : World → Drive host → ℕ → ℕ → ℕ → World × Result Bytes
  unfolding find read_loop io_status
  read_block w d id offset len = elim (find d.opened id) [
    | none ↦ (w, refused invalid_handle)
    | some o ↦ elim o.file [
      | none ↦ (w, refused file_is_a_directory)
      | some f ↦
          let (w', moved) = host.seek w f offset in
          elim moved [
            | failed k ↦ (w', refused (io_status k))
            | done _ ↦ (w', read_loop (min len read_max) (host.reads w' f))
          ]
    ]
  ]

  -- `borne_par_l_espace_libre`
  unfoldable pub bounded : World → Drive host → File → ℕ → Option Status
  unfolding io_status
  bounded w d f end = elim (host.length_of w f) [
    | failed k ↦ some (io_status k)
    | done now ↦
        if ltb now end && ltb (free_octets (host.statvfs w d.root)) (end - now)
        then some disk_full
        else none
  ]

  abbrev pub status_after : World × Call Done → World × Status
  status_after (w, done _) = (w, success)
  status_after (w, failed k) = (w, io_status k)

  -- `ecrire_bloc`
  unfoldable pub write_block : World → Drive host → ℕ → ℕ → Bytes → World × Status
  unfolding find bounded io_status
  write_block w d id offset octets = elim (find d.opened id) [
    | none ↦ (w, invalid_handle)
    | some o ↦ elim o.file [
      | none ↦ (w, file_is_a_directory)
      | some f ↦
          if leb (2 ^ 64) (offset + length octets)
          then (w, disk_full)
          else elim (bounded w d f (offset + length octets)) [
            | some s ↦ (w, s)
            | none ↦
                let (w', moved) = host.seek w f offset in
                let (w'', s) = status_after (host.write_all w' f octets) in
                elim moved [ failed k ↦ (w', io_status k) | done _ ↦ (w'', s) ]
          ]
    ]
  ]
