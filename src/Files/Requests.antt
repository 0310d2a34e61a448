-- ===== src/Files/Requests.antt =====
-- rdp-sidecar/src/fichiers.rs: what the reception of a file asks for.
use avash.Base.{
  ℕ, zero, suc, ◌+◌, ◌-◌, ◌*◌, ◌/◌, ◌%◌, ◌^◌, min, max, Bool, false, ◌||◌, Option, none, some, List,
  [], ◌∷◌, ◌++◌, ltb, ◌==◌, if◌then◌else◌, length,
}
use avash.Base.Text.{Text, Bytes}
use avash.Base.Table.{Table, find, put, is_some}
use avash.Files.Names.{Descriptor, or_zero}

-- `MORCEAU` and `EN_VOL`
abbrev pub chunk : ℕ
chunk = 2 ^ 20

abbrev pub in_flight_max : ℕ
in_flight_max = 4

pub data Flags : Type 0 where
  flag_size flag_range : Flags

-- `FileContentsRequest`
pub record Request : Type 0 where
  pub stream_id : ℕ
  pub index : ℕ
  pub flags : Flags
  pub position : ℕ
  pub requested_size : ℕ
  pub data_id : Option ℕ

-- `i32::try_from(index).unwrap_or(i32::MAX)`
abbrev pub index32 : ℕ → ℕ
index32 i = min i 0x7fff_ffff

-- The number after a stream's: `wrapping_add(1).max(1)` of a `u32`.
abbrev pub next_stream_id : ℕ → ℕ
next_stream_id n = max ((n + 1) % 2 ^ 32) 1

-- `saturating_add` of two `u64`.
abbrev pub sat_add64 : ℕ → ℕ → ℕ
sat_add64 a b = min (a + b) (2 ^ 64 - 1)

-- `u64::from_le_bytes` of eight bytes.
abbrev pub le_value : Bytes → ℕ
le_value [] = 0
le_value (b ∷ o) = b + 256 * le_value o

abbrev pub as_u64 : Option Bytes → Option ℕ
as_u64 none = none
as_u64 (some o) = if length o == 8 then some (le_value o) else none

-- The decimal digits of a number, the last `f` of them.
unfoldable digits_of : ℕ → ℕ → Text
digits_of zero n = []
digits_of (suc f) n =
    if ltb n 10 then (b'0' + n) ∷ [] else digits_of f (n / 10) ++ (b'0' + n % 10) ∷ []

-- `Display` of a `u64`, whose digits are twenty at most.
unfoldable pub show_u64 : ℕ → Text
unfolding digits_of
show_u64 n = digits_of 20 n

-- `is_some_and(|f| f == id)`
abbrev pub is_stream : Option ℕ → ℕ → Bool
is_stream none id = false
is_stream (some f) id = f == id

-- The positions and the lengths that the loop of `remplir` plans, with `n` places left in flight.
unfoldable pub plan : ℕ → ℕ → ℕ → List (ℕ × ℕ)
plan zero size asked = []
plan (suc n) size asked =
    let len = min (size - asked) chunk in
    let rest = plan n size (asked + len) in if ltb asked size then (asked, len) ∷ rest else []

-- Where the last range that is planned ends.
abbrev pub asked_after : ℕ → List (ℕ × ℕ) → ℕ
asked_after asked [] = asked
asked_after asked ((p, len) ∷ r) = asked_after (p + len) r

abbrev pub range_request : Option ℕ → ℕ → ℕ → ℕ × ℕ → Request
range_request data_id index id (position, len) = record {
  stream_id = id;
  index = index32 index;
  flags = flag_range;
  position = position;
  requested_size = len;
  data_id = data_id;
}

-- The second loop of `remplir`: a number for each range, which is in flight from then on.
unfoldable pub issue :
    Option ℕ → ℕ → List (ℕ × ℕ) → ℕ → Table (ℕ × ℕ) → ℕ × Table (ℕ × ℕ) × List Request
unfolding put
issue data_id index [] id flying = (id, flying, [])
issue data_id index (z ∷ r) id flying =
    let (id', flying', requests) = issue data_id index r (next_stream_id id) (put flying id z) in
    (id', flying', range_request data_id index id z ∷ requests)

-- `suit`: whether a request belongs to the file that is being received.
abbrev pub follows_flying : Option ℕ → Table (ℕ × ℕ) → ℕ → Bool
follows_flying size_stream flying id = is_stream size_stream id || is_some (find flying id)

-- What the announced sizes are together.
unfoldable pub sizes_from : ℕ → List Descriptor → ℕ
sizes_from n [] = n
sizes_from n (d ∷ r) = sizes_from (if d.directory then n else sat_add64 n (or_zero d.file_size)) r

-- `octets_annonces`
unfoldable pub announced_octets : ℕ → List Descriptor → ℕ
announced_octets n [] = n
announced_octets n (d ∷ r) = announced_octets (sat_add64 n (or_zero d.file_size)) r
