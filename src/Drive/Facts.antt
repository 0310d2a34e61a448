-- ===== src/Drive/Facts.antt =====
-- rdp-sidecar/src/disque.rs: what is said of a file and of the volume. A number of 64 bits with a sign is never negative here:
-- a time lies less than 2 ^ 63 - 11,644,473,600 seconds after 1970.
use avash.Base.{
  ℕ, ◌+◌, ◌*◌, ◌/◌, min, Bool, not, ◌&&◌, Option, none, some, [], leb, ◌==◌, if◌then◌else◌,
}
use avash.Base.Text.{Text, codes, text_eq, starts_with}
use avash.Files.Names.{FilePath}
use avash.Files.Disk.{last}
use avash.Drive.Space.{i64_max}
use avash.Drive.Host.{Meta}
use avash.Drive.Request.{is_directory_node}

-- `heure_windows`
unfoldable pub windows_time : Option (ℕ × ℕ) → ℕ
windows_time none = 0
windows_time (some (seconds, nanoseconds)) =
    let s = if leb seconds i64_max then seconds else i64_max / 10_000_000 in
    min (min ((s + 11_644_473_600) * 10_000_000) i64_max + nanoseconds / 100) i64_max

-- `modification`, `creation` and `acces`
abbrev pub modified_time : Meta → ℕ
modified_time m = windows_time m.modified

abbrev pub created_time : Meta → ℕ
created_time m = if windows_time m.created == 0 then modified_time m else windows_time m.created

abbrev pub accessed_time : Meta → ℕ
accessed_time m = windows_time m.accessed

-- `taille`
abbrev pub file_size : Meta → ℕ
file_size m = if is_directory_node m.node then 0 else min m.size i64_max

-- `allocation`
unfoldable pub allocated : Meta → ℕ
allocated m = min (file_size m + 4095) i64_max / 4096 * 4096

-- `FileAttributes`; what is no directory is an archive.
pub record Attributes : Type 0 where
  pub directory : Bool
  pub readonly : Bool
  pub hidden : Bool

-- `attributs`
unfoldable pub attributes : Meta → Text → Attributes
attributes m name = record {
  directory = is_directory_node m.node;
  readonly = m.readonly;
  hidden =
      starts_with (codes ".") name
      && not (text_eq name (codes "."))
      && not (text_eq name (codes ".."));
}

-- `nom_de`
abbrev pub name_of : FilePath → Text
name_of p = elim (last p) [ none ↦ [] | some n ↦ n ]
