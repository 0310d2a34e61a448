-- ===== src/Files/Offer.antt =====
-- rdp-sidecar/src/fichiers.rs: the paths that the user designates, and how a range of an offered file is served.
use avash.Base.{
  ℕ, zero, suc, ◌+◌, ◌-◌, ◌*◌, ◌^◌, min, Bool, true, false, ◌||◌, Option, none, some, List, [], ◌∷◌,
  ◌++◌, ltb, ◌==◌, if◌then◌else◌, length, get_elem?, is_nil, any,
}
use avash.Base.Text.{Text, Bytes, codes, text_eq, strip_prefix, trim_end_if}
use avash.Base.Int.{ℤ, pos, negsuc}
use avash.Files.Names.{Descriptor}

-- `designer`
unfoldable pub designate : List Text → Text → List Text
designate l path = if any (text_eq path) l then l else l ++ path ∷ []

-- `est_designe`
unfoldable pub is_designated : List Text → Text → Bool
is_designated l path = any (text_eq path) l

abbrev pub some_path : Text → Option Text
some_path t = if is_nil t then none else some t

-- `designation_depuis_ligne`
unfoldable pub designation_of_line : Text → Option Text
unfolding trim_end_if strip_prefix
designation_of_line line =
    elim (strip_prefix (codes "AUTORISE ") (trim_end_if (λ c. c == 10 || c == 13) line)) [
      | none ↦ none
      | some path ↦ some_path path
    ]

-- `SERVI_MAX`
abbrev pub served_max : ℕ
served_max = 16 * 2 ^ 20

-- `FileContentsRequest`, with what is read of it.
pub record Wanted : Type 0 where
  pub stream_id : ℕ
  pub index : ℤ
  pub wants_size : Bool
  pub position : ℕ
  pub requested_size : ℕ

-- `FileContentsResponse`
pub data Response : Type 0 where
  error_response : ℕ → Response
  size_response : ℕ → ℕ → Response
  data_response : ℕ → Bytes → Response

-- `self.fichiers.get(i)` of an `i32`.
abbrev pub file_at : List (Text × Descriptor) → ℤ → Option (Text × Descriptor)
file_at l (negsuc n) = none
file_at l (pos i) = get_elem? l i

abbrev pub push_bytes : Bytes → Option Bytes → Option Bytes
push_bytes b none = none
push_bytes b (some rest) = some (b ++ rest)

-- The loop of reads in `servir`, with `f` reads left: `read` is given how much is read already and the room that is
-- left; what it gives is empty at the end of the file.
unfoldable pub read_all : ℕ → (ℕ → ℕ → Option Bytes) → ℕ → ℕ → Option Bytes
read_all zero read total room = some []
read_all (suc f) read total room = elim (ltb 0 room) [
  | false ↦ some []
  | true ↦ elim (read total room) [
    | none ↦ none
    | some b ↦ elim (is_nil b) [
      | true ↦ some []
      | false ↦ push_bytes b (read_all f read (total + length b) (room - length b))
    ]
  ]
]

-- The files of the user: the length of one, and the reads of one from a position on, if it can be opened.
pub record Offered : Type 0 where
  pub length_of : Text → Option ℕ
  pub open_at : Text → ℕ → Option (ℕ → ℕ → Option Bytes)

abbrev pub size_or_error : ℕ → Option ℕ → Response
size_or_error id none = error_response id
size_or_error id (some n) = size_response id n

abbrev pub data_or_error : ℕ → Option Bytes → Response
data_or_error id none = error_response id
data_or_error id (some b) = data_response id b

abbrev pub read_window : Option (ℕ → ℕ → Option Bytes) → ℕ → Option Bytes
unfolding read_all
read_window none n = none
read_window (some read) n = read_all n read 0 n

-- `servir`
unfoldable pub serve : Offered → List (Text × Descriptor) → Wanted → Response
unfolding read_all
serve disk files q = elim (file_at files q.index) [
  | none ↦ error_response q.stream_id
  | some (path, d) ↦
      if d.directory
      then error_response q.stream_id
      else if q.wants_size
      then size_or_error q.stream_id (disk.length_of path)
      else data_or_error q.stream_id
          (read_window (disk.open_at path q.position) (min q.requested_size served_max))
]
