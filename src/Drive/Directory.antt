-- ===== src/Drive/Directory.antt =====
-- rdp-sidecar/src/disque.rs: `correspond` and `entree_suivante`, up to the form of an entry.
use avash.Base.{
  ℕ, ◌+◌, Bool, not, ◌&&◌, ◌||◌, none, some, List, [], ◌∷◌, ◌++◌, length, get_elem?, ltb, ◌==◌,
  if◌then◌else◌, is_nil,
}
use avash.Base.Text.{Text, codes, to_lowercase, split_if}
use avash.Base.Table.{find, put}
use avash.Config.Glob.{scan_all, is_yes}
use avash.Folders.{text_lt}
use avash.Drive.Host.{
  no_such_file, not_a_directory, name_invalid, invalid_handle, no_more_files, io_status, done,
  failed, Result, ok, refused, Meta, Host, Entry,
}
use avash.Drive.Open.{Opened, Drive}
use avash.Drive.Request.{is_directory_node, is_regular_node}

-- `correspond_en_minuscules`: its loop is that of `glob_match`, on characters; in lower case, two characters that are
-- equal but for the case are equal.
unfoldable pub matches_lower : Text → Text → Bool
unfolding scan_all
matches_lower pattern name = is_yes (scan_all pattern (to_lowercase name))

-- `correspond`
unfoldable pub matches : Text → Text → Bool
unfolding matches_lower
matches pattern name = matches_lower (to_lowercase pattern) name

-- `MOTIF_MAX`
abbrev pub pattern_max : ℕ
pattern_max = 260

abbrev pub last_part : List Text → Text
last_part [] = []
last_part (a ∷ []) = a
last_part (a ∷ b ∷ r) = last_part (b ∷ r)

abbrev pub or_star : Text → Text
or_star t = if is_nil t then codes "*" else t

-- What follows the last separator, or `*`.
unfoldable pub pattern_of : Text → Text
unfolding split_if
pattern_of path = or_star (last_part (split_if (λ c. c == b'\\' || c == b'/') path))

-- The entries that are shown: regular files and folders that the pattern takes.
unfoldable pub shown : Text → List (Text × Meta) → List Entry
unfolding matches_lower
shown pattern [] = []
shown pattern ((name, m) ∷ r) =
    let rest = shown pattern r in
    if (is_regular_node m.node || is_directory_node m.node) && matches_lower pattern name
    then record { name = name; meta = m } ∷ rest
    else rest

unfoldable pub insert_entry : Entry → List Entry → List Entry
unfolding text_lt
insert_entry e [] = e ∷ []
insert_entry e (f ∷ r) =
    let later = f ∷ insert_entry e r in if text_lt f.name e.name then later else e ∷ f ∷ r

-- `sort_by` of the names
unfoldable pub sort_entries : List Entry → List Entry
unfolding insert_entry
sort_entries [] = []
sort_entries (e ∷ r) = insert_entry e (sort_entries r)

-- `.` and `..`, which the pattern may take.
abbrev pub special_entries : Text → Meta → List Entry
special_entries pattern m =
    (if matches_lower pattern (codes ".") then record { name = codes "."; meta = m } ∷ [] else [])
    ++ (if matches_lower pattern (codes "..")
        then record { name = codes ".."; meta = m } ∷ []
        else [])

module _ (host : Host) where
  open host use {World}

  -- The listing that an initial query makes.
  unfoldable pub listing : World → Opened host → Text → Result (List Entry)
  unfolding pattern_of shown sort_entries io_status
  listing w o path =
      let pattern = to_lowercase (pattern_of path) in
      if ltb pattern_max (length (pattern_of path))
      then refused name_invalid
      else elim (host.metadata w o.path) [
        | failed k ↦ refused (io_status k)
        | done m ↦ elim (host.read_dir w o.path) [
          | failed k ↦ refused (io_status k)
          | done l ↦
              let all = special_entries pattern m ++ sort_entries (shown pattern l) in
              if is_nil all then refused no_such_file else ok all
        ]
      ]

  abbrev pub kept_as : Drive host → ℕ → Opened host → Drive host
  kept_as d id o = record d { opened = put d.opened id o }

  -- The entry at the position, or the end of the listing.
  unfoldable pub next_of : Drive host → ℕ → Opened host → Drive host × Result Entry
  unfolding put
  next_of d id o = elim (get_elem? o.entries o.position) [
    | none ↦ (kept_as d id (record o { entries = [] }), refused no_more_files)
    | some e ↦ (kept_as d id (record o { position = o.position + 1 }), ok e)
  ]

  -- `entree_suivante`
  unfoldable pub next_entry : World → Drive host → ℕ → Bool → Text → Drive host × Result Entry
  unfolding find listing next_of
  next_entry w d id initial path = elim (find d.opened id) [
    | none ↦ (d, refused invalid_handle)
    | some o ↦
        if not o.is_folder
        then (d, refused not_a_directory)
        else if not initial
        then next_of d id o
        else elim (listing w o path) [
          | refused s ↦ (d, refused s)
          | ok l ↦ next_of d id (record o { entries = l; position = 0 })
        ]
  ]
