-- ===== src/Files/Places.antt =====
-- rdp-sidecar/src/fichiers.rs: `creer_sous`, the free names, the work file and `promouvoir`.
use avash.Base.{ℕ, zero, suc, ◌+◌, Bool, List, [], ◌∷◌, ◌++◌, if◌then◌else◌, length, drop}
use avash.Base.Text.{Text, codes}
use avash.Files.Names.{FilePath, begins_with}
use avash.Files.Disk.{
  already_exists, not_found, other, directory, link, regular, Disk, Done, Io, Outcome, bail,
  context, display, done, failed, finished, is_directory, is_done, last, numbered, ok,
  stem_and_extension, with_file_name,
}

module _ (disk : Disk) where
  open disk use {World, Handle}

  -- `occupe`
  abbrev pub is_taken : World → FilePath → Bool
  is_taken w p = is_done (disk.symlink_metadata w p)

  -- The loop of `creer_sous`: `p` is made already, the components that follow are left.
  unfoldable pub create_below : World → FilePath → List Text → World × Outcome Done
  create_below w p [] = (w, ok finished)
  create_below w p (c ∷ r) =
      let q = p ++ c ∷ [] in
      let (w', made) = disk.create_dir w q in
      let rest = create_below w q r in
      let rest' = create_below w' q r in
      elim (disk.symlink_metadata w q) [
        | done directory ↦ rest
        | done link ↦ (w, bail (display q ++ codes " est un lien symbolique"))
        | done regular ↦ (w, bail (display q ++ codes " n'est pas un dossier"))
        | failed not_found t ↦ elim made [
          | done _ ↦ rest'
          | failed already_exists t ↦
              if is_directory (disk.symlink_metadata w' q)
              then rest'
              else (w', bail (display q ++ codes " n'est pas un dossier"))
          | failed not_found t ↦ (w', context (codes "création de " ++ display q) t)
          | failed other t ↦ (w', context (codes "création de " ++ display q) t)
        ]
        | failed already_exists t ↦ (w, context (codes "lecture de " ++ display q) t)
        | failed other t ↦ (w, context (codes "lecture de " ++ display q) t)
      ]

  -- `creer_sous`
  unfoldable pub create_under : World → FilePath → FilePath → World × Outcome Done
  unfolding create_below begins_with
  create_under w folder path =
      let (w', made) = disk.create_dir_all w folder in
      elim made [
        | failed k t ↦ (w', context (codes "création de " ++ display folder) t)
        | done _ ↦
            if begins_with path folder
            then create_below w' folder (drop (length folder) path)
            else (w', bail (display path ++ codes " n'est pas sous le dossier de réception"))
      ]

  -- The loop of `sans_collision`, from the number `n` on, with `f` numbers left.
  unfoldable pub free_name_from : World → FilePath → Text × Text → ℕ → ℕ → FilePath
  unfolding numbered
  free_name_from w p s n zero = p
  free_name_from w p s n (suc f) =
      let candidate = with_file_name p (numbered s n) in
      let rest = free_name_from w p s (n + 1) f in if is_taken w candidate then rest else candidate

  -- `sans_collision`
  unfoldable pub free_name : World → FilePath → FilePath
  unfolding free_name_from stem_and_extension
  free_name w p =
      if is_taken w p then free_name_from w p (stem_and_extension (last p)) 2 9998 else p

  -- The loop of `ouvrir_travail`, with `f` names left after `path`.
  unfoldable pub open_work_from :
      World → FilePath → Text → FilePath → ℕ → ℕ → World × Io (FilePath × Handle)
  unfolding numbered
  open_work_from w base stem path n zero =
      let (w', made) = disk.create_new w path in
      elim made [ done h ↦ (w', done (path, h)) | failed k t ↦ (w', failed k t) ]
  open_work_from w base stem path n (suc f) =
      let (w', made) = disk.create_new w path in
      elim made [
        | done h ↦ (w', done (path, h))
        | failed already_exists t ↦
            open_work_from w' base stem (with_file_name base (numbered (stem, codes ".part") n))
              (n + 1) f
        | failed not_found t ↦ (w', failed not_found t)
        | failed other t ↦ (w', failed other t)
      ]

  -- `ouvrir_travail`
  unfoldable pub open_work : World → FilePath → World × Io (FilePath × Handle)
  unfolding open_work_from stem_and_extension
  open_work w base = open_work_from w base (stem_and_extension (last base)).0 base 2 9998

  -- The loop of `creer_vide`, with `f` tries left.
  unfoldable pub create_empty_from : World → FilePath → FilePath → ℕ → World × Outcome FilePath
  unfolding free_name
  create_empty_from w target path zero =
      (w, bail (codes "création de " ++ (display target ++ codes " : le nom reste pris")))
  create_empty_from w target path (suc f) =
      let (w', made) = disk.create_new w path in
      elim made [
        | done h ↦ (w', ok path)
        | failed already_exists t ↦ create_empty_from w' target (free_name w' target) f
        | failed not_found t ↦ (w', context (codes "création de " ++ display path) t)
        | failed other t ↦ (w', context (codes "création de " ++ display path) t)
      ]

  -- `creer_vide`
  unfoldable pub create_empty : World → FilePath → World × Outcome FilePath
  unfolding create_empty_from
  create_empty w target = create_empty_from w target target 16

  -- The end of `promouvoir`: a call that fails is the failure of the whole.
  abbrev pub promoted : FilePath → World × Io Done → World × Io FilePath
  promoted path (w, done _) = (w, done path)
  promoted path (w, failed k t) = (w, failed k t)

  -- The loop of `promouvoir`, with `f` tries left.
  unfoldable pub promote_from : World → FilePath → FilePath → FilePath → ℕ → World × Io FilePath
  unfolding free_name
  promote_from w part target path zero =
      (w, failed already_exists (display target ++ codes " : le nom reste pris"))
  promote_from w part target path (suc f) =
      let (w', linked) = disk.hard_link w part path in
      elim linked [
        | done _ ↦ promoted path (disk.remove_file w' part)
        | failed k t ↦
            let rest = promote_from w' part target (free_name w' target) f in
            let renamed = promoted path (disk.rename w' part path) in
            elim k [
              | already_exists ↦ rest
              | not_found ↦ if is_taken w' path then rest else renamed
              | other ↦ if is_taken w' path then rest else renamed
            ]
      ]

  -- `promouvoir`
  unfoldable pub promote : World → FilePath → FilePath → World × Io FilePath
  unfolding promote_from
  promote w part target = promote_from w part target target 16
