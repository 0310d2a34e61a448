-- ===== src/Drive/Space.antt =====
-- rdp-sidecar/src/disque.rs: the space of the volume, as `statvfs` tells it on Unix.
use avash.Base.{ℕ, ◌*◌, ◌/◌, ◌^◌, ◌-◌, min, Option, none, some, ltb, ◌==◌, if◌then◌else◌}

abbrev pub i64_max : ℕ
i64_max = 0x7fff_ffff_ffff_ffff

-- What `statvfs` says: the size of a fragment, and the blocks that there are and that are available.
pub record Volume : Type 0 where
  pub fragment : ℕ
  pub blocks : ℕ
  pub available : ℕ

-- `Espace`
pub record Space : Type 0 where
  pub total_units : ℕ
  pub free_units : ℕ
  pub sectors_per_unit : ℕ
  pub octets_per_sector : ℕ

-- `espace_inconnu`
abbrev pub unknown_space : Space
unknown_space = record {
  total_units = 2 ^ 28;
  free_units = 2 ^ 27;
  sectors_per_unit = 8;
  octets_per_sector = 512;
}

abbrev pub some_sector : ℕ → ℕ
some_sector n = if n == 0 then 1 else n

-- `espace_disque` on Unix
unfoldable pub space_of : Option Volume → Space
space_of none = unknown_space
space_of (some v) = if v.fragment == 0 then unknown_space else record {
  total_units = min v.blocks i64_max;
  free_units = min v.available i64_max;
  sectors_per_unit = some_sector (if ltb (v.fragment / 512) (2 ^ 32) then v.fragment / 512 else 8);
  octets_per_sector = 512;
}

abbrev pub sat_mul64 : ℕ → ℕ → ℕ
sat_mul64 a b = min (a * b) (2 ^ 64 - 1)

-- `octets_libres`
unfoldable pub free_octets : Option Volume → ℕ
unfolding space_of
free_octets v =
    let s = space_of v in sat_mul64 (sat_mul64 s.free_units s.sectors_per_unit) s.octets_per_sector
