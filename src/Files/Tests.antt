-- ===== src/Files/Tests.antt =====
-- The theorems on the files of the clipboard (rdp-sidecar/src/fichiers.rs), on a disk that accepts everything.
use avash.Base.{
  ℕ, zero, suc, ◌≤◌, ◌<◌, min, false, ◌≡◌, refl, ap, Option, none, some, List, [], ◌∷◌, ◌++◌, arith,
  length, take, drop, All,
}
use avash.Base.Text.{Text, Bytes, codes}
use avash.Base.Int.{pos}
use avash.Files.Names.{Descriptor, FilePath, local_path}
use avash.Files.Disk.{Disk, finished, done, failed, not_found}
use avash.Files.Reception.{Reception, new_reception}
use avash.Files.Opening.{start}
use avash.Files.Receive.{receive}
use avash.Files.Alive.{IsAlive}
use avash.Files.Nearer.{IsReceived}
use avash.Files.Live.{start-IsAlive, receive-IsReceived}
use avash.Files.Under.{IsHarmless, local_path-IsHarmless}
use avash.Files.Offer.{Offered, Wanted, data_response, serve, served_max}
use avash.Files.Served.{IsRead, serve-window}

abbrev accepting : Disk
accepting = record {
  World = Unit;
  Handle = Unit;
  create_dir_all = λ w p. (w, done finished);
  symlink_metadata = λ w p. failed not_found [];
  create_dir = λ w p. (w, done finished);
  create_new = λ w p. (w, done tt);
  seek = λ w h n. (w, done finished);
  write_all = λ w h b. (w, done finished);
  flush = λ w h. (w, done finished);
  hard_link = λ w p q. (w, done finished);
  rename = λ w p q. (w, done finished);
  remove_file = λ w p. (w, done finished);
  statvfs = λ w p. none;
  is_device_name = λ t. false;
}

-- A file of three bytes in a folder, and one without a size.
abbrev small : Descriptor
small = record {
  name = codes "b.txt";
  relative_path = some (codes "a");
  file_size = some 3;
  directory = false;
}

abbrev unsized : Descriptor
unsized = record { name = codes "c"; relative_path = none; file_size = none; directory = false }

abbrev home : FilePath
home = codes "home" ∷ []

abbrev begun : Reception accepting
begun = (start accepting tt (new_reception accepting home (small ∷ unsized ∷ []) none 1)).1

start-IsAlive_example : IsAlive accepting begun
start-IsAlive_example = start-IsAlive accepting tt home (small ∷ unsized ∷ []) none 1 (omega arith)

begun-next_stream : begun.next_stream ≡ 2
unfolding start new_reception
begun-next_stream = refl

receive-IsReceived_example :
    IsReceived accepting begun 1 (receive accepting tt begun 1 (some (1 ∷ 2 ∷ 3 ∷ []))).1
receive-IsReceived_example =
    receive-IsReceived accepting tt begun 1 (some (1 ∷ 2 ∷ 3 ∷ [])) start-IsAlive_example
      (omega (arith, begun-next_stream))

small-local_path :
    local_path (λ t. false) home small ≡ some (home ++ codes "a" ∷ codes "b.txt" ∷ [])
unfolding local_path
small-local_path = refl

local_path-IsHarmless_example :
    (rest : List Text) × (home ++ codes "a" ∷ codes "b.txt" ∷ [] ≡ home ++ rest)
    × (0 < length rest)
    × All (IsHarmless (λ t. false)) rest
local_path-IsHarmless_example =
    local_path-IsHarmless (λ t. false) home small (home ++ codes "a" ∷ codes "b.txt" ∷ [])
      small-local_path

-- A file of five bytes, two of which are read at once.
abbrev content : Bytes
content = 10 ∷ 11 ∷ 12 ∷ 13 ∷ 14 ∷ []

abbrev read : ℕ → ℕ → Option Bytes
read total room = some (take (min room 2) (drop total content))

take-fits : (n : ℕ) (l : Bytes) → length (take n l) ≤ n
take-fits zero l = omega arith
take-fits (suc n) [] = omega arith
take-fits (suc n) (x ∷ l) = omega (arith, take-fits n l)

take-length : (n : ℕ) (l : Bytes) → take n l ≡ take (length (take n l)) l
take-length zero l = refl
take-length (suc n) [] = refl
take-length (suc n) (x ∷ l) = ap (◌∷◌ x) (take-length n l)

take-drop-full : (n t : ℕ) (l : Bytes) → 0 < n → t < length l → 0 < length (take n (drop t l))
take-drop-full n t [] h k = absurd (omega (arith, k))
take-drop-full zero t (x ∷ l) h k = absurd (omega (arith, h))
take-drop-full (suc n) zero (x ∷ l) h k = omega arith
take-drop-full (suc n) (suc t) (x ∷ l) h k = take-drop-full (suc n) t l h (omega (arith, k))

read-IsRead : (total room : ℕ) → 0 < room → IsRead content read total room
read-IsRead total room h = record {
  octets = take (min room 2) (drop total content);
  reads = refl;
  fits = omega (arith, take-fits (min room 2) (drop total content));
  next = take-length (min room 2) (drop total content);
  some_octets = take-drop-full (min room 2) total content (omega (arith, h));
}

abbrev offered : Offered
offered = record { length_of = λ t. some 5; open_at = λ t n. some read }

abbrev wanted : Wanted
wanted = record {
  stream_id = 9;
  index = pos 0;
  wants_size = false;
  position = 0;
  requested_size = 4;
}

serve-window_example :
    serve offered ((codes "/b", small) ∷ []) wanted
    ≡ data_response 9 (take (min 4 served_max) content)
serve-window_example =
    serve-window offered ((codes "/b", small) ∷ []) wanted (codes "/b") small read content refl refl
      refl refl read-IsRead
