-- ===== src/Rdp/Cache.antt =====
-- rdp-sidecar/src/surface.rs: `Cache`, the pieces of image that the server stores and asks for again.
-- The map is the list of its entries, of which no two have one slot.
pub mod Budget
pub mod Lookup
use avash.Base.{
  ℕ, ◌+◌, ◌-◌, ◌*◌, Bool, true, false, not, ◌&&◌, Option, none, some, List, [], ◌∷◌, length, ltb,
  leb, ◌==◌, if◌then◌else◌,
}
use avash.Base.Text.{Bytes}

pub record Entry : Type 0 where
  pub width : ℕ
  pub height : ℕ
  pub pixels : Bytes

abbrev pub Entries : Type 0
Entries = List (ℕ × Entry)

unfoldable pub find : Entries → ℕ → Option Entry
find [] slot = none
find ((k, e) ∷ r) slot = if k == slot then some e else find r slot

-- `BTreeMap::insert`
unfoldable pub insert : Entries → ℕ → Entry → Entries
insert [] slot new = (slot, new) ∷ []
insert ((k, e) ∷ r) slot new =
    let later = (k, e) ∷ insert r slot new in if k == slot then (slot, new) ∷ r else later

-- `BTreeMap::remove`
unfoldable pub delete : Entries → ℕ → Entries
delete [] slot = []
delete ((k, e) ∷ r) slot = let later = (k, e) ∷ delete r slot in if k == slot then r else later

pub record Cache : Type 0 where
  pub entries : Entries
  pub octets : ℕ

abbrev pub empty : Cache
empty = record { entries = []; octets = 0 }

abbrev pub slots_max : ℕ
slots_max = 4096

abbrev pub octets_max : ℕ
octets_max = 16 * 1024 * 1024

abbrev pub weight : Option Entry → ℕ
weight none = 0
weight (some e) = length e.pixels

abbrev pub is_taken : Option Entry → Bool
is_taken none = false
is_taken (some e) = true

-- `deposer`
unfoldable pub deposit : Cache → ℕ → ℕ → ℕ → Bytes → Cache
unfolding find insert
deposit c slot width height pixels =
    let old = weight (find c.entries slot) in
    if leb slots_max (length c.entries) && not (is_taken (find c.entries slot))
    then c
    else if ltb octets_max (c.octets - old + length pixels)
    then c
    else record {
      entries = insert c.entries slot (record { width = width; height = height; pixels = pixels });
      octets = c.octets - old + length pixels;
    }

-- `lire`
unfoldable pub read : Cache → ℕ → Option Entry
unfolding find
read c slot = find c.entries slot

-- `oublier`
unfoldable pub forget : Cache → ℕ → Cache
unfolding find delete
forget c slot = elim (find c.entries slot) [
  | none ↦ c
  | some e ↦ record { entries = delete c.entries slot; octets = c.octets - length e.pixels }
]
