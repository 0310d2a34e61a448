-- ===== src/Files/Receive.antt =====
-- rdp-sidecar/src/fichiers.rs: `recevoir`.
use avash.Base.{
  ℕ, ◌+◌, ◌%◌, ◌^◌, min, Bool, ◌&&◌, Option, none, some, [], ◌++◌, ltb, leb, ◌==◌, if◌then◌else◌,
  length, take, is_nil,
}
use avash.Base.Text.{Text, Bytes, codes}
use avash.Base.Table.{find, delete}
use avash.Drive.Space.{free_octets}
use avash.Files.Disk.{Disk, Done, finished, done, failed, Outcome, ok, error, context}
use avash.Files.Requests.{as_u64, is_stream, sat_add64, show_u64}
use avash.Files.Reception.{Flight, Reception, refill}
use avash.Files.Opening.{Step, abandon, promote_and_go}

module _ (disk : Disk) where
  open disk use {World, Handle}

  -- A size that comes after the announcement, in `recevoir`.
  unfoldable pub receive_size : World → Reception disk → Flight disk → Option Bytes → Step disk
  unfolding abandon promote_and_go refill
  receive_size w r e octets = elim (as_u64 octets) [
    | none ↦ abandon disk w r e (codes "taille inconnue")
    | some n ↦
        let free = free_octets (disk.statvfs w r.folder) in
        let e' : Flight disk = record e { size = n } in
        let r' : Reception disk = record r { total = sat_add64 r.total n } in
        let (r'', requests) = refill disk r' e' in
        if ltb free n
        then abandon disk w r e (too_large n free)
        else if n == 0
        then promote_and_go disk w r' e'
        else (w, r'', requests)
  ]
    where
      too_large : ℕ → ℕ → Text
      too_large n free =
          codes "taille annoncée après coup ("
          ++ (show_u64 n
              ++ (codes " octets) plus grande que l'espace libre du dossier ("
                  ++ (show_u64 free ++ codes " octets)")))

  -- A range that is written, in `recevoir`: `n` bytes at `position`, of `len` that were asked.
  abbrev pub written : Flight disk → ℕ → ℕ → ℕ → Flight disk
  written e position len n = record e {
    received = e.received + n;
    size = if ltb n len then min e.size (position + n) else e.size;
  }

  abbrev pub is_complete : Flight disk → Bool
  is_complete e = leb e.size e.received && is_nil e.flying

  -- The end of `recevoir`.
  unfoldable pub go_on : World → Reception disk → Flight disk → Step disk
  unfolding promote_and_go refill
  go_on w r e =
      let (r', requests) = refill disk r e in
      if is_complete e then promote_and_go disk w r e else (w, r', requests)

  -- The write of a range, in `recevoir`.
  unfoldable pub write_window : World → Handle → ℕ → Bytes → World × Outcome Done
  write_window w file position octets =
      let (w', moved) = disk.seek w file position in
      let (w'', wrote) = disk.write_all w' file octets in
      elim moved [
        | failed k t ↦ (w', context (codes "positionnement") t)
        | done _ ↦ elim wrote [
          | failed k t ↦ (w'', context (codes "écriture") t)
          | done _ ↦ (w'', ok finished)
        ]
      ]

  -- A range, in `recevoir`: no more is written than was asked.
  unfoldable pub receive_range :
      World → Reception disk → Flight disk → ℕ → ℕ → Option Bytes → Step disk
  unfolding abandon go_on write_window
  receive_range w r e position len none =
      abandon disk w r e (codes "le distant a refusé de servir le fichier")
  receive_range w r e position len (some octets) =
      let n = min (length octets) len in
      let (w', wrote) = write_window w e.file position (take n octets) in
      elim wrote [
        | error t full ↦ abandon disk w' r e full
        | ok _ ↦
            go_on w' (record r { done_octets = (r.done_octets + n) % 2 ^ 64 })
              (written e position len n)
      ]

  -- The cases of `recevoir`, by the file in reception.
  unfoldable pub receive_for :
      World → Reception disk → ℕ → Option Bytes → Option (Flight disk) → Step disk
  unfolding receive_size receive_range find delete
  receive_for w r id octets none = (w, r, [])
  receive_for w r id octets (some e) =
      if is_stream e.size_stream id
      then receive_size w r (record e { size_stream = none }) octets
      else elim (find e.flying id) [
        | none ↦ (w, r, [])
        | some (position, len) ↦
            receive_range w r (record e { flying = delete e.flying id }) position len octets
      ]

  -- `recevoir`
  unfoldable pub receive : World → Reception disk → ℕ → Option Bytes → Step disk
  unfolding receive_for
  receive w r id octets = receive_for w r id octets r.current
