-- ===== src/Drive/Query.antt =====
-- rdp-sidecar/src/disque.rs: `informations_de`, `volume_de` and the form of an entry in `entree_suivante`.
use avash.Base.{ℕ, ◌%◌, ◌^◌, Bool, none, some}
use avash.Base.Text.{Text, codes}
use avash.Base.Table.{find}
use avash.Drive.Host.{
  invalid_handle, not_supported, Result, ok, refused, io_status, done, failed, Host, Meta, Entry,
}
use avash.Drive.Request.{is_directory_node}
use avash.Drive.Space.{Space, space_of}
use avash.Drive.Facts.{
  created_time, modified_time, accessed_time, file_size, allocated, Attributes, attributes, name_of,
}
use avash.Drive.Open.{Drive}

-- `FileInformationClassLevel` of a query on a file, and on a directory.
pub data FileLevel : Type 0 where
  basic_level standard_level attribute_tag_level other_file_level : FileLevel

pub data EntryLevel : Type 0 where
  both_level full_level directory_level names_level other_entry_level : EntryLevel

-- `FileBasicInformation`, whose time of change is that of the last writing.
pub record Basic : Type 0 where
  pub created : ℕ
  pub accessed : ℕ
  pub written : ℕ
  pub changed : ℕ
  pub attributes : Attributes

-- `FileStandardInformation`
pub record Standard : Type 0 where
  pub allocation : ℕ
  pub end : ℕ
  pub links : ℕ
  pub delete_pending : Bool
  pub directory : Bool

-- `FileInformationClass`, of a file
pub data FileFacts : Type 0 where
  basic_facts : Basic → FileFacts
  standard_facts : Standard → FileFacts
  tag_facts : Attributes → ℕ → FileFacts

-- `basique`
abbrev pub basic_of : Meta → Text → Basic
basic_of m name = record {
  created = created_time m;
  accessed = accessed_time m;
  written = modified_time m;
  changed = modified_time m;
  attributes = attributes m name;
}

-- The three listings of an entry, which hold the same.
pub record Listed : Type 0 where
  pub created : ℕ
  pub accessed : ℕ
  pub written : ℕ
  pub changed : ℕ
  pub size : ℕ
  pub attributes : Attributes
  pub name : Text

-- `FileInformationClass`, of an entry
pub data EntryFacts : Type 0 where
  both full listed : Listed → EntryFacts
  named : Text → EntryFacts

abbrev pub listed_of : Entry → Listed
listed_of e = record {
  created = created_time e.meta;
  accessed = accessed_time e.meta;
  written = modified_time e.meta;
  changed = modified_time e.meta;
  size = file_size e.meta;
  attributes = attributes e.meta e.name;
  name = e.name;
}

-- The end of `entree_suivante`
unfoldable pub entry_facts : EntryLevel → Entry → Result EntryFacts
entry_facts both_level e = ok (both (listed_of e))
entry_facts full_level e = ok (full (listed_of e))
entry_facts directory_level e = ok (listed (listed_of e))
entry_facts names_level e = ok (named e.name)
entry_facts other_entry_level e = refused not_supported

-- `FileSystemInformationClassLevel`
pub data VolumeLevel : Type 0 where
  volume_level size_level full_size_level attribute_level device_level other_volume_level :
      VolumeLevel

-- `FileSystemInformationClass`: the time of creation, the serial number and the label; the space, once and with the
-- units that the caller may take; the length of a name and the name of the system, whose three flags are fixed; the
-- kind of the device.
pub data VolumeFacts : Type 0 where
  volume_facts : ℕ → ℕ → Text → VolumeFacts
  size_facts : Space → VolumeFacts
  full_size_facts : Space → ℕ → VolumeFacts
  attribute_facts : ℕ → Text → VolumeFacts
  device_facts : ℕ → VolumeFacts

module _ (host : Host) where
  open host use {World}

  -- `informations_de`
  unfoldable pub information_of : World → Drive host → ℕ → FileLevel → Result FileFacts
  unfolding find io_status
  information_of w d id level = elim (find d.opened id) [
    | none ↦ refused invalid_handle
    | some o ↦ elim (host.metadata w o.path) [
      | failed k ↦ refused (io_status k)
      | done m ↦ elim level [
        | basic_level ↦ ok (basic_facts (basic_of m (name_of o.path)))
        | standard_level ↦ ok (
            standard_facts (record {
              allocation = allocated m;
              end = file_size m;
              links = 1;
              delete_pending = o.to_delete;
              directory = is_directory_node m.node;
            }))
        | attribute_tag_level ↦ ok (tag_facts (attributes m (name_of o.path)) 0)
        | other_file_level ↦ refused not_supported
      ]
    ]
  ]

  -- What is said of the volume, once the number is that of an opened file; `serie_du_volume` has the low 32 bits.
  unfoldable pub facts_of_volume : World → Drive host → VolumeLevel → Result VolumeFacts
  unfolding io_status space_of
  facts_of_volume w d volume_level = elim (host.metadata w d.root) [
    | failed k ↦ refused (io_status k)
    | done m ↦ ok (volume_facts (created_time m) (host.hash d.root % 2 ^ 32) (codes "AVASH"))
  ]
  facts_of_volume w d size_level = ok (size_facts (space_of (host.statvfs w d.root)))
  facts_of_volume w d full_size_level =
      let s = space_of (host.statvfs w d.root) in ok (full_size_facts s s.free_units)
  facts_of_volume w d attribute_level = ok (attribute_facts 255 (codes "NTFS"))
  facts_of_volume w d device_level = ok (device_facts 7)
  facts_of_volume w d other_volume_level = refused not_supported

  -- `volume_de`
  unfoldable pub volume_of : World → Drive host → ℕ → VolumeLevel → Result VolumeFacts
  unfolding find facts_of_volume
  volume_of w d id level = elim (find d.opened id) [
    | none ↦ refused invalid_handle
    | some _ ↦ facts_of_volume w d level
  ]
