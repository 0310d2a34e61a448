-- ===== src/Files/Disk.antt =====
-- rdp-sidecar/src/fichiers.rs: what it makes of the file system, whose calls are parameters.
use avash.Base.{ℕ, Bool, true, false, ◌≡◌, refl, ◌⊎◌, inl, inr, Option, none, some, [], ◌∷◌, ◌++◌}
use avash.Base.Text.{Text, Bytes, codes, rsplit_once, show_u16, join}
use avash.Drive.Space.{Volume}
use avash.Files.Names.{FilePath}

-- The kinds of an error that the code tells apart.
pub data Kind : Type 0 where
  not_found already_exists other : Kind

-- A `Result`: of `std::io`, with the kind of the error, and of `anyhow`, with its text alone and with the causes.
pub data Io (A : Type 0) : Type 0 where
  done : A → Io A
  failed : Kind → Text → Io A

pub data Outcome (A : Type 0) : Type 0 where
  ok : A → Outcome A
  error : Text → Text → Outcome A

abbrev pub bail : {A : Type 0} → Text → Outcome A
bail t = error t t

abbrev pub context : {A : Type 0} → Text → Text → Outcome A
context c t = error c (c ++ (codes ": " ++ t))

pub Io-cases :
    {A : Type 0} (m : Io A)
    → ((a : A) × (m ≡ done a)) ⊎ ((k : Kind) × (t : Text) × (m ≡ failed k t))
Io-cases (done a) = inl (a, refl)
Io-cases (failed k t) = inr (k, t, refl)

pub Outcome-cases :
    {A : Type 0} (m : Outcome A) → ((a : A) × (m ≡ ok a)) ⊎ ((t full : Text) × (m ≡ error t full))
Outcome-cases (ok a) = inl (a, refl)
Outcome-cases (error t full) = inr (t, full, refl)

pub data FileKind : Type 0 where
  directory link regular : FileKind

pub data Done : Type 0 where
  finished : Done

-- The calls of `std::fs` and `tokio::fs`, each of which may change the world, and `is_windows_device_name` of
-- ironrdp.
pub record Disk : Type 1 where
  pub World : Type 0
  pub Handle : Type 0
  pub create_dir_all : World → FilePath → World × Io Done
  pub symlink_metadata : World → FilePath → Io FileKind
  pub create_dir : World → FilePath → World × Io Done
  pub create_new : World → FilePath → World × Io Handle
  pub seek : World → Handle → ℕ → World × Io Done
  pub write_all : World → Handle → Bytes → World × Io Done
  pub flush : World → Handle → World × Io Done
  pub hard_link : World → FilePath → FilePath → World × Io Done
  pub rename : World → FilePath → FilePath → World × Io Done
  pub remove_file : World → FilePath → World × Io Done
  pub statvfs : World → FilePath → Option Volume
  pub is_device_name : Text → Bool

abbrev pub display : FilePath → Text
display p = codes "/" ++ join (codes "/") p

abbrev pub is_done : {A : Type 0} → Io A → Bool
is_done (done a) = true
is_done (failed k t) = false

abbrev pub is_directory : Io FileKind → Bool
is_directory (done directory) = true
is_directory _ = false

-- The last component, and what stands before it.
abbrev pub last : FilePath → Option Text
last [] = none
last (a ∷ []) = some a
last (a ∷ b ∷ p) = last (b ∷ p)

abbrev pub parent : FilePath → FilePath
parent [] = []
parent (a ∷ []) = []
parent (a ∷ b ∷ p) = a ∷ parent (b ∷ p)

abbrev pub with_file_name : FilePath → Text → FilePath
with_file_name p name = parent p ++ name ∷ []

-- `file_stem` and `extension` with its dot: a dot that leads a name begins no extension.
abbrev pub stem_of : Text → Option (Text × Text) → Text × Text
stem_of name none = (name, [])
stem_of name (some ([], ext)) = (name, [])
stem_of name (some (c ∷ stem, ext)) = (c ∷ stem, b'.' ∷ ext)

unfoldable pub stem_and_extension : Option Text → Text × Text
unfolding rsplit_once
stem_and_extension none = ([], [])
stem_and_extension (some name) = stem_of name (rsplit_once b'.' name)

-- The name `<stem> (<n>)<extension>`.
unfoldable pub numbered : Text × Text → ℕ → Text
unfolding show_u16
numbered s n = s.0 ++ (codes " (" ++ (show_u16 n ++ (codes ")" ++ s.1)))
