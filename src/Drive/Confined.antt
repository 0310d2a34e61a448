-- ===== src/Drive/Confined.antt =====
-- The invariant of the shared folder (rdp-sidecar/src/disque.rs), and what a request may touch.
use avash.Base.{ℕ, ◌+◌, ◌%◌, ◌^◌, ◌≤◌, ◌<◌, Bool, true, ◌≡◌, refl, some, arith, length}
use avash.Base.Text.{Bytes}
use avash.Base.Table.{
  find, put, delete, AllValues, AllValues-put, AllValues-delete, AllValues-find, put-length,
  delete-length,
}
use avash.Files.Names.{FilePath}
use avash.Drive.Host.{Host, Options}
use avash.Drive.Open.{Opened, Drive}
use avash.Drive.Request.{opened_max}
use avash.Drive.Below.{IsUnder, IsBelow}

module _ (host : Host) where
  open host use {World, File}

  -- A relation of worlds that has what the calls of the file system do on paths under the root: no deletion and no
  -- renaming of the root itself.
  pub record Allows (root : FilePath) (R : World → World → Type 0) : Type 0 where
    pub still : (w : World) → R w w
    pub onward : {a b c : World} → R a b → R b c → R a c
    pub creates : (w : World) (p : FilePath) → IsUnder host root p → R w (host.create_dir w p).0
    pub opens :
        (w : World) (p : FilePath) (o : Options)
        → IsUnder host root p
        → R w (host.open_file w p o).0
    pub removes_dir : (w : World) (p : FilePath) → IsBelow host root p → R w (host.remove_dir w p).0
    pub removes_file :
        (w : World) (p : FilePath) → IsBelow host root p → R w (host.remove_file w p).0
    pub renames :
        (w : World) (p q : FilePath)
        → IsBelow host root p
        → IsUnder host root q
        → R w (host.rename w p q).0
    pub sets :
        (w : World) (p : FilePath) (b : Bool) → IsUnder host root p → R w (host.set_readonly w p b)
    pub seeks : (w : World) (f : File) (n : ℕ) → R w (host.seek w f n).0
    pub writes : (w : World) (f : File) (b : Bytes) → R w (host.write_all w f b).0
    pub cuts : (w : World) (f : File) (n : ℕ) → R w (host.set_len w f n).0

  -- An opened file lies under the root; the root is not to be deleted.
  pub record IsShared (root : FilePath) (o : Opened host) : Type 0 where
    pub under : IsUnder host root o.path
    pub kept : o.to_delete ≡ true → IsBelow host root o.path

  pub record IsKept (d : Drive host) : Type 0 where
    pub shared : AllValues (IsShared d.root) d.opened
    pub few : length d.opened ≤ opened_max
    pub small : d.next < 2 ^ 32

  -- What a request leaves: a world that the relation allows, and the invariant.
  pub record IsSafe (R : World → World → Type 0) (w : World) (d : Drive host) (w' : World)
      (d' : Drive host) : Type 0 where
    pub world : R w w'
    pub drive : IsKept d'
    pub root : d'.root ≡ d.root

  module _ (R : World → World → Type 0) (d : Drive host) (allows : Allows d.root R)
      (k : IsKept d) where
    pub unchanged : (w w' : World) → R w w' → IsSafe R w d w' d
    unchanged w w' r = record { world = r; drive = k; root = refl }

    -- An opened file that changes, but not its place.
    pub replaced :
        (w w' : World) (id : ℕ) (o o' : Opened host)
        → R w w'
        → find d.opened id ≡ some o
        → IsShared d.root o'
        → IsSafe R w d w' (record d { opened = put d.opened id o' })
    replaced w w' id o o' r f s = record {
      world = r;
      drive = record {
        shared = AllValues-put (IsShared d.root) d.opened id o' k.shared s;
        few = rw (put-length d.opened id o', f) k.few;
        small = k.small;
      };
      root = refl;
    }

    pub find-IsShared : (id : ℕ) (o : Opened host) → find d.opened id ≡ some o → IsShared d.root o
    find-IsShared id o f = AllValues-find (IsShared d.root) d.opened id o f k.shared

    pub added :
        (w w' : World) (id : ℕ) (o : Opened host)
        → R w w'
        → length d.opened < opened_max
        → IsShared d.root o
        → IsSafe R w d w' (record d { opened = put d.opened id o; next = (id + 1) % 2 ^ 32 })
    added w w' id o r room s = record {
      world = r;
      drive = record {
        shared = AllValues-put (IsShared d.root) d.opened id o k.shared s;
        few = ground (arith, put-length d.opened id o, room);
        small = omega arith;
      };
      root = refl;
    }

    pub removed :
        (w w' : World) (id : ℕ)
        → R w w'
        → IsSafe R w d w' (record d { opened = delete d.opened id })
    removed w w' id r = record {
      world = r;
      drive = record {
        shared = AllValues-delete (IsShared d.root) d.opened id k.shared;
        few = omega (arith, delete-length d.opened id, k.few);
        small = k.small;
      };
      root = refl;
    }
