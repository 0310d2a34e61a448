-- ===== src/Files/Reception.antt =====
-- rdp-sidecar/src/fichiers.rs: `Reception`, and how it asks for its file.
use avash.Base.{
  ℕ, ◌+◌, ◌-◌, Bool, false, not, ◌&&◌, Option, none, some, List, [], ◌∷◌, ◌++◌, leb, ◌==◌, length,
  get_elem?,
}
use avash.Base.Text.{Text, codes}
use avash.Base.Table.{Table, is_some}
use avash.Files.Names.{Descriptor, FilePath, shown_path}
use avash.Files.Disk.{Disk, last, with_file_name}
use avash.Files.Requests.{
  in_flight_max, flag_size, Request, index32, next_stream_id, plan, asked_after, issue,
  follows_flying, sizes_from,
}

-- The path of the work file of a target: its name, with `.part` after it.
abbrev pub work_path : FilePath → FilePath
work_path target =
    with_file_name target
      (elim (last target) [ none ↦ codes ".part" | some n ↦ n ++ codes ".part" ])

abbrev pub is_zero_size : Option ℕ → Bool
is_zero_size none = false
is_zero_size (some n) = n == 0

module _ (disk : Disk) where
  open disk use {World, Handle}

  -- `EnCours`; `partial` is the path of its `Partiel`.
  pub record Flight : Type 0 where
    pub index : ℕ
    pub file : Handle
    pub partial : FilePath
    pub target : FilePath
    pub size : ℕ
    pub asked : ℕ
    pub received : ℕ
    pub flying : Table (ℕ × ℕ)
    pub size_stream : Option ℕ

  pub record Reception : Type 0 where
    pub folder : FilePath
    pub files : List Descriptor
    pub data_id : Option ℕ
    pub next : ℕ
    pub current : Option Flight
    pub next_stream : ℕ
    pub done_octets : ℕ
    pub total : ℕ
    pub counted : ℕ
    pub errors : List Text

  -- `nouvelle`
  unfoldable pub new_reception : FilePath → List Descriptor → Option ℕ → ℕ → Reception
  unfolding sizes_from
  new_reception folder files data_id first_stream = record {
    folder = folder;
    files = files;
    data_id = data_id;
    next = 0;
    current = none;
    next_stream = first_stream;
    done_octets = 0;
    total = sizes_from 0 files;
    counted = 0;
    errors = [];
  }

  -- `terminee`
  abbrev pub is_finished : Reception → Bool
  is_finished r = not (is_some r.current) && leb (length r.files) r.next

  -- `suit`
  abbrev pub follows : Reception → ℕ → Bool
  follows r id = elim r.current [ none ↦ false | some e ↦ follows_flying e.size_stream e.flying id ]

  abbrev pub shown_name : Reception → ℕ → Text
  shown_name r i = elim (get_elem? r.files i) [ none ↦ [] | some d ↦ shown_path d ]

  abbrev pub push_error : Reception → Text → Text → Reception
  push_error r name reason = record r {
    errors = r.errors ++ (name ++ (codes " : " ++ reason)) ∷ [];
  }

  abbrev pub count_finished : Reception → Reception
  count_finished r = record r { counted = r.counted + 1 }

  -- `demander_taille`, of the file in reception.
  unfoldable pub ask_size : Reception → Flight → Reception × List Request
  ask_size r e = (
    record r {
      next_stream = next_stream_id r.next_stream;
      current = some (record e { size_stream = some r.next_stream });
    },
    record {
      stream_id = r.next_stream;
      index = index32 e.index;
      flags = flag_size;
      position = 0;
      requested_size = 8;
      data_id = r.data_id;
    }
        ∷ [],
  )

  -- `remplir`, of the file in reception.
  unfoldable pub refill : Reception → Flight → Reception × List Request
  unfolding plan issue
  refill r e =
      let ranges = plan (in_flight_max - length e.flying) e.size e.asked in
      let (id, flying, requests) = issue r.data_id e.index ranges r.next_stream e.flying in
      (
        record r {
          next_stream = id;
          current = some (record e { asked = asked_after e.asked ranges; flying = flying });
        },
        requests,
      )
