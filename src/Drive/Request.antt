-- ===== src/Drive/Request.antt =====
-- rdp-sidecar/src/disque.rs: the request of an opening, and the options that it is opened with.
use avash.Base.{ℕ, Bool, true, false, not, Option, none, some, if◌then◌else◌}
use avash.Base.Text.{Text}
use avash.Drive.Host.{
  ErrorKind, denied, no_such_file, name_collision, name_invalid, Call, done, failed, Result, ok,
  refused, Node, directory, regular, link, special, Meta, Options,
}

-- `OUVERTS_MAX`
abbrev pub opened_max : ℕ
opened_max = 512

-- `CreateDisposition`
pub data Disposition : Type 0 where
  supersede open_existing create open_if overwrite overwrite_if unknown : Disposition

-- `Information`
pub data Information : Type 0 where
  superseded was_opened created overwritten : Information

-- `DeviceCreateRequest`: what is read of the access, whether it asks for a bit of writing and for `MAXIMUM_ALLOWED`.
pub record CreateRequest : Type 0 where
  pub path : Text
  pub wants_directory : Bool
  pub wants_write : Bool
  pub wants_maximum : Bool
  pub disposition : Disposition

abbrev pub meta_of : Call Meta → Option Meta
meta_of (done m) = some m
meta_of (failed k) = none

abbrev pub is_directory_node : Node → Bool
is_directory_node directory = true
is_directory_node regular = false
is_directory_node link = false
is_directory_node special = false

abbrev pub is_regular_node : Node → Bool
is_regular_node directory = false
is_regular_node regular = true
is_regular_node link = false
is_regular_node special = false

abbrev pub is_directory_meta : Option Meta → Bool
is_directory_meta none = false
is_directory_meta (some m) = is_directory_node m.node

-- `is_some_and(|m| !m.is_file())`
abbrev pub is_other_meta : Option Meta → Bool
is_other_meta none = false
is_other_meta (some m) = not (is_regular_node m.node)

abbrev pub is_denied : ErrorKind → Bool
is_denied denied = true
is_denied _ = false

abbrev pub read_or_write : Bool → Options
read_or_write write = record { write = write; create = false; create_new = false; truncate = false }

-- The options of a file that is opened and what is said of it, by the disposition and whether the file exists.
unfoldable pub opening : Disposition → Bool → Bool → Result (Options × Information)
opening open_existing exists write =
    if exists then ok (read_or_write write, was_opened) else refused no_such_file
opening create exists write =
    if exists
    then refused name_collision
    else ok (record { write = true; create = false; create_new = true; truncate = false }, created)
opening open_if exists write =
    if exists
    then ok (read_or_write write, was_opened)
    else ok (record { write = true; create = true; create_new = false; truncate = false }, created)
opening overwrite exists write =
    if exists
    then ok
        (record { write = true; create = false; create_new = false; truncate = true }, overwritten)
    else refused no_such_file
opening overwrite_if exists write = ok (
  record { write = true; create = true; create_new = false; truncate = true },
  if exists then overwritten else created,
)
opening supersede exists write =
    ok (record { write = true; create = true; create_new = false; truncate = true }, superseded)
opening unknown exists write = refused name_invalid

-- `ouverture_simple`
abbrev pub is_simple : Disposition → Bool → Bool
is_simple open_existing exists = true
is_simple open_if exists = exists
is_simple _ exists = false
