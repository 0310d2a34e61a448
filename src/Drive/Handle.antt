-- ===== src/Drive/Handle.antt =====
-- rdp-sidecar/src/disque.rs: `traiter`. The buffer of a change is below 4 GiB, so that ironrdp makes its reply.
use avash.Base.{ℕ, min, Bool, Option, none, some, [], length}
use avash.Base.Text.{Text, Bytes}
use avash.Drive.Host.{Status, success, not_supported, Result, ok, refused, Host, Entry}
use avash.Drive.Request.{was_opened, CreateRequest, Information}
use avash.Drive.Open.{Drive, open_request, close_request}
use avash.Drive.Data.{read_block, write_block}
use avash.Drive.Directory.{next_entry}
use avash.Drive.Query.{
  FileLevel, EntryLevel, VolumeLevel, FileFacts, EntryFacts, VolumeFacts, entry_facts,
  information_of, volume_of,
}
use avash.Drive.Modify.{Change, change_request}

-- `ServerDriveIoRequest`, with the number of the file.
pub data Request : Type 0 where
  create_drive : CreateRequest → Request
  close_file : ℕ → Request
  read_file : ℕ → ℕ → ℕ → Request
  write_file : ℕ → ℕ → Bytes → Request
  query_directory : ℕ → Bool → Text → EntryLevel → Request
  query_information : ℕ → FileLevel → Request
  query_volume : ℕ → VolumeLevel → Request
  set_information : ℕ → Change → Request
  notify_change lock_control device_control : Request

-- `RdpdrPdu`, with its status.
pub data Reply : Type 0 where
  created_reply : Status → ℕ → Information → Reply
  read_reply : Status → Bytes → Reply
  write_reply : Status → ℕ → Reply
  entry_reply : Status → Option EntryFacts → Reply
  information_reply : Status → Option FileFacts → Reply
  volume_reply : Status → Option VolumeFacts → Reply
  plain_reply : Status → Reply

abbrev pub reply_of_creation : Result (ℕ × Information) → Reply
reply_of_creation (ok (id, i)) = created_reply success id i
reply_of_creation (refused s) = created_reply s 0 was_opened

abbrev pub reply_of_read : Result Bytes → Reply
reply_of_read (ok b) = read_reply success b
reply_of_read (refused s) = read_reply s []

abbrev pub written_octets : Status → ℕ → ℕ
written_octets success n = min n 0xffff_ffff
written_octets _ n = 0

-- The status and the buffer of an answer.
abbrev pub answered : {A : Type 0} → (Status → Option A → Reply) → Result A → Reply
answered reply (ok a) = reply success (some a)
answered reply (refused s) = reply s none

abbrev pub formed : EntryLevel → Result Entry → Result EntryFacts
formed level (ok e) = entry_facts level e
formed level (refused s) = refused s

module _ (host : Host) where
  open host use {World}

  abbrev pub Handled : Type 0
  Handled = Option (World × Drive host × Reply)

  abbrev pub handled_creation : Option (World × Drive host × Result (ℕ × Information)) → Handled
  handled_creation none = none
  handled_creation (some (w, d, r)) = some (w, d, reply_of_creation r)

  -- `traiter`; `none` is a search of a number that does not end.
  unfoldable pub handle : World → Drive host → Request → Handled
  unfolding open_request close_request read_block write_block next_entry change_request
      information_of volume_of entry_facts
  handle w d (create_drive q) = handled_creation (open_request host w d q)
  handle w d (close_file id) =
      let (w', d', s) = close_request host w d id in some (w', d', plain_reply s)
  handle w d (read_file id offset len) =
      let (w', r) = read_block host w d id offset len in some (w', d, reply_of_read r)
  handle w d (write_file id offset octets) =
      let (w', s) = write_block host w d id offset octets in
      some (w', d, write_reply s (written_octets s (length octets)))
  handle w d (query_directory id initial path level) =
      let (d', r) = next_entry host w d id initial path in
      some (w, d', answered entry_reply (formed level r))
  handle w d (query_information id level) =
      some (w, d, answered information_reply (information_of host w d id level))
  handle w d (query_volume id level) =
      some (w, d, answered volume_reply (volume_of host w d id level))
  handle w d (set_information id change) =
      let (w', d', s) = change_request host w d id change in some (w', d', plain_reply s)
  handle w d notify_change = some (w, d, plain_reply not_supported)
  handle w d lock_control = some (w, d, plain_reply success)
  handle w d device_control = some (w, d, plain_reply success)
