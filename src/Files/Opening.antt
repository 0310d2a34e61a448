-- ===== src/Files/Opening.antt =====
-- rdp-sidecar/src/fichiers.rs: how the next file is opened. Its index is in range, for the files do not change.
use avash.Base.{
  ℕ, zero, suc, ◌+◌, ◌-◌, true, false, Option, none, some, List, [], ◌++◌, if◌then◌else◌, length,
  get_elem?,
}
use avash.Base.Text.{Text, codes}
use avash.Base.Table.{is_some}
use avash.Files.Names.{Descriptor, FilePath, shown_path, or_zero, local_path}
use avash.Files.Disk.{Disk, Done, done, failed, Outcome, ok, error, context, display, parent}
use avash.Files.Places.{create_under, free_name, open_work, create_empty, promote}
use avash.Files.Requests.{Request}
use avash.Files.Reception.{
  Flight, Reception, ask_size, count_finished, is_zero_size, push_error, refill, shown_name,
  work_path,
}

module _ (disk : Disk) where
  open disk use {World, Handle}

  -- What `ouvrir` gives: nothing for an empty file, which is written already.
  abbrev pub Opened : Type 0
  Opened = World × Reception disk × Outcome (Option (List Request))

  abbrev pub asked_of : Option ℕ → Reception disk → Flight disk → Reception disk × List Request
  asked_of none r e = ask_size disk r e
  asked_of (some n) r e = refill disk r e

  abbrev pub some_requests : World → Reception disk × List Request → Opened
  some_requests w (r, requests) = (w, r, ok (some requests))

  -- The end of `ouvrir`: the work file, and the first requests.
  unfoldable pub open_at : World → Reception disk → ℕ → Option ℕ → FilePath → Opened
  unfolding open_work ask_size refill
  open_at w r index file_size target =
      let base = work_path target in
      let (w', made) = open_work disk w base in
      elim made [
        | failed k t ↦ (w', r, context (codes "création de " ++ display base) t)
        | done (partial, file) ↦ some_requests w' (
            asked_of file_size r (record {
              index = index;
              file = file;
              partial = partial;
              target = target;
              size = or_zero file_size;
              asked = 0;
              received = 0;
              flying = [];
              size_stream = none;
            }))
      ]

  abbrev pub emptied : Reception disk → World × Outcome FilePath → Opened
  emptied r (w, error t full) = (w, r, error t full)
  emptied r (w, ok path) = (w, r, ok none)

  -- `ouvrir`, once the directories are made.
  unfoldable pub open_free : World → Reception disk → ℕ → Option ℕ → FilePath → Opened
  unfolding create_empty open_at
  open_free w r index file_size target =
      let made = emptied r (create_empty disk w target) in
      let opened = open_at w r index file_size target in
      if is_zero_size file_size then made else opened

  -- `ouvrir`
  unfoldable pub open_file : World → Reception disk → ℕ → Descriptor → FilePath → Opened
  unfolding create_under free_name open_free
  open_file w r index d target =
      let (w', below) = create_under disk w r.folder (parent target) in
      elim below [
        | error t full ↦ (w', r, error t full)
        | ok _ ↦ open_free w' r index d.file_size (free_name disk w' target)
      ]

  abbrev pub Step : Type 0
  Step = World × Reception disk × List Request

  -- What follows a directory and a file in the loop of `demarrer`; `go` is the rest of the loop.
  abbrev pub after_directory :
      (World → Reception disk → Step) → Reception disk → Descriptor → World × Outcome Done → Step
  after_directory go r d (w, ok _) = go w (count_finished disk r)
  after_directory go r d (w, error t full) =
      go w (count_finished disk (push_error disk r (shown_path d) t))

  abbrev pub after_file : (World → Reception disk → Step) → Descriptor → Opened → Step
  after_file go d (w, r, ok (some requests)) = (w, r, requests)
  after_file go d (w, r, ok none) = go w (count_finished disk r)
  after_file go d (w, r, error t full) =
      go w (count_finished disk (push_error disk r (shown_path d) full))

  -- The loop of `demarrer`, with `f` files left.
  unfoldable pub start_from : ℕ → World → Reception disk → Step
  unfolding local_path shown_path create_under open_file
  start_from zero w r = (w, r, [])
  start_from (suc f) w r = elim (get_elem? r.files r.next) [
    | none ↦ (w, r, [])
    | some d ↦
        let r' : Reception disk = record r { next = r.next + 1 } in
        elim (local_path disk.is_device_name r.folder d) [
          | none ↦ start_from f w (
              count_finished disk
                (push_error disk r' (shown_path d) (codes "nom de fichier refusé")))
          | some target ↦ elim d.directory [
            | true ↦ after_directory (start_from f) r' d (create_under disk w r.folder target)
            | false ↦ after_file (start_from f) d (open_file w r' r.next d target)
          ]
        ]
  ]

  -- `demarrer`
  unfoldable pub start : World → Reception disk → Step
  unfolding start_from
  start w r = if is_some r.current then (w, r, []) else start_from (length r.files - r.next) w r

  -- The end of a `Partiel`, once the next file is started.
  abbrev pub dropped : FilePath → Step → Step
  dropped partial (w, r, requests) = ((disk.remove_file w partial).0, r, requests)

  -- `abandonner_en_cours`
  unfoldable pub abandon : World → Reception disk → Flight disk → Text → Step
  unfolding shown_path start
  abandon w r e reason = dropped e.partial (
      start w (
        count_finished disk
          (push_error disk (record r { current = none }) (shown_name disk r e.index) reason)))

  -- `promouvoir_et_suivre`
  unfoldable pub promote_and_go : World → Reception disk → Flight disk → Step
  unfolding shown_path promote start
  promote_and_go w r e =
      let r' : Reception disk = record r { current = none } in
      let (w', flushed) = disk.flush w e.file in
      let (w'', moved) = promote disk w' e.partial e.target in
      elim flushed [
        | failed k t ↦ dropped e.partial (
            start w' (
              count_finished disk
                (push_error disk r' (shown_name disk r e.index) (codes "vidage: " ++ t))))
        | done _ ↦ elim moved [
          | done _ ↦ start w'' (count_finished disk r')
          | failed k t ↦ dropped e.partial (
              start w'' (
                count_finished disk (
                  push_error disk r' (shown_name disk r e.index)
                    (codes "promotion vers " ++ (display e.target ++ (codes ": " ++ t))))))
        ]
      ]
