-- ===== src/Drive/Host.antt =====
-- rdp-sidecar/src/disque.rs: the states and the statuses of the shared folder; the calls of the file system are
-- parameters.
use avash.Base.{ℕ, Bool, Option, List}
use avash.Base.Text.{Text, Bytes}
use avash.Files.Names.{FilePath}
use avash.Drive.Space.{Volume}

-- The kinds of an error that `statut_io` tells apart.
pub data ErrorKind : Type 0 where
  absent denied present no_directory is_directory full_directory other : ErrorKind

-- `NtStatus`
pub data Status : Type 0 where
  success no_such_file access_denied name_collision not_a_directory file_is_a_directory
        directory_not_empty :
      Status
  unsuccessful name_invalid path_not_found invalid_handle too_many_opened disk_full not_supported
        no_more_files :
      Status

-- `statut_io`
unfoldable pub io_status : ErrorKind → Status
io_status absent = no_such_file
io_status denied = access_denied
io_status present = name_collision
io_status no_directory = not_a_directory
io_status is_directory = file_is_a_directory
io_status full_directory = directory_not_empty
io_status other = unsuccessful

-- A `std::io::Result`, and a `Result` with a status.
pub data Call (A : Type 0) : Type 0 where
  done : A → Call A
  failed : ErrorKind → Call A

pub data Result (A : Type 0) : Type 0 where
  ok : A → Result A
  refused : Status → Result A

-- `map_err(statut_io)`
abbrev pub checked : {A : Type 0} → Call A → Result A
checked (done a) = ok a
checked (failed k) = refused (io_status k)

pub data Node : Type 0 where
  directory regular link special : Node

-- `Metadata`: a time is in seconds and nanoseconds since 1970, when it is known and not before.
pub record Meta : Type 0 where
  pub node : Node
  pub size : ℕ
  pub readonly : Bool
  pub created : Option (ℕ × ℕ)
  pub modified : Option (ℕ × ℕ)
  pub accessed : Option (ℕ × ℕ)

-- `OpenOptions`
pub record Options : Type 0 where
  pub write : Bool
  pub create : Bool
  pub create_new : Bool
  pub truncate : Bool

pub data Done : Type 0 where
  finished : Done

-- One call of `read`: `Interrupted` is tried again.
pub data Read : Type 0 where
  got : Bytes → Read
  interrupted : Read
  broken : ErrorKind → Read

-- The calls of `std::fs`; `is_device_name` is ironrdp's, `statvfs` the system's, and `hash` the number of 64 bits that
-- `DefaultHasher` makes of a path.
pub record Host : Type 1 where
  pub World : Type 0
  pub File : Type 0
  pub canonicalize : World → FilePath → Option FilePath
  pub metadata : World → FilePath → Call Meta
  pub symlink_metadata : World → FilePath → Call Meta
  pub create_dir : World → FilePath → World × Call Done
  pub open_file : World → FilePath → Options → World × Call File
  pub remove_dir : World → FilePath → World × Call Done
  pub remove_file : World → FilePath → World × Call Done
  pub rename : World → FilePath → FilePath → World × Call Done
  pub set_readonly : World → FilePath → Bool → World
  pub seek : World → File → ℕ → World × Call Done
  pub reads : World → File → List Read
  pub write_all : World → File → Bytes → World × Call Done
  pub length_of : World → File → Call ℕ
  pub set_len : World → File → ℕ → World × Call Done
  pub read_dir : World → FilePath → Call (List (Text × Meta))
  pub statvfs : World → FilePath → Option Volume
  pub hash : FilePath → ℕ
  pub is_device_name : Text → Bool

-- `Entree`
pub record Entry : Type 0 where
  pub name : Text
  pub meta : Meta
