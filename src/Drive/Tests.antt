-- ===== src/Drive/Tests.antt =====
-- The theorem on the shared folder (rdp-sidecar/src/disque.rs), on a disk that keeps a list of the paths it is asked
-- to change.
use avash.Base.{none, inr, true, false, ◌≡◌, refl, some, List, [], ◌∷◌, arith, All, if◌then◌else◌}
use avash.Base.Text.{codes}
use avash.Files.Names.{FilePath}
use avash.Drive.Host.{Host, done, failed, finished, absent, denied}
use avash.Drive.Open.{Drive}
use avash.Drive.Request.{create}
use avash.Drive.Modify.{path_eq}
use avash.Drive.Handle.{create_drive, Reply, handle}
use avash.Drive.Below.{IsUnder}
use avash.Drive.Confined.{Allows, IsKept, IsSafe}
use avash.Drive.Changes.{KeepsRoot}
use avash.Drive.Whole.{handle-IsSafe}

abbrev root : FilePath
root = codes "shared" ∷ []

abbrev host : Host
host = record {
  World = List FilePath;
  File = Unit;
  canonicalize = λ w p. some p;
  metadata = λ w p. failed absent;
  symlink_metadata = λ w p. failed absent;
  create_dir = λ w p. (p ∷ w, done finished);
  open_file = λ w p o. (p ∷ w, done tt);
  remove_dir = λ w p. (p ∷ w, done finished);
  remove_file = λ w p. (p ∷ w, done finished);
  rename = λ w p q. (p ∷ q ∷ w, if path_eq q root then failed denied else done finished);
  set_readonly = λ w p b. p ∷ w;
  seek = λ w f n. (w, done finished);
  reads = λ w f. [];
  write_all = λ w f b. (w, done finished);
  length_of = λ w f. done 0;
  set_len = λ w f n. (w, done finished);
  read_dir = λ w p. done [];
  statvfs = λ w p. none;
  hash = λ p. 0;
  is_device_name = λ t. false;
}

-- All that is changed lies under the root.
abbrev Inside : List FilePath → List FilePath → Type 0
Inside w w' = All (IsUnder host root) w → All (IsUnder host root) w'

host-Allows : Allows host root Inside
host-Allows = record {
  still = λ w h. h;
  onward = λ f g h. g (f h);
  creates = λ w p u h. (u, h);
  opens = λ w p o u h. (u, h);
  removes_dir = λ w p b h. (inr b, h);
  removes_file = λ w p b h. (inr b, h);
  renames = λ w p q b u h. (inr b, (u, h));
  sets = λ w p b u h. (u, h);
  seeks = λ w f n h. h;
  writes = λ w f b h. h;
  cuts = λ w f n h. h;
}

abbrev drive : Drive host
drive = record { root = root; opened = []; next = 1 }

drive-IsKept : IsKept host drive
drive-IsKept = record { shared = tt; few = omega arith; small = omega arith }

host-KeepsRoot : KeepsRoot host root
host-KeepsRoot w p b = (denied, refl)

handle-IsSafe_example :
    (w' : List FilePath) × (d' : Drive host) × (reply : Reply) × (handle host [] drive (
        create_drive (record {
          path = codes "\\a\\b";
          wants_directory = false;
          wants_write = true;
          wants_maximum = false;
          disposition = create;
        }))
      ≡ some (w', d', reply))
    × IsSafe host Inside [] drive w' d'
handle-IsSafe_example =
    handle-IsSafe host Inside [] drive
      (create_drive (record {
        path = codes "\\a\\b";
        wants_directory = false;
        wants_write = true;
        wants_maximum = false;
        disposition = create;
      }))
      host-Allows host-KeepsRoot drive-IsKept
