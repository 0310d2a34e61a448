-- ===== src/Rdp/Progressive/Decoder.antt =====
-- rdp-sidecar/src/progressif.rs: `Decodeur` and `reporter`. What ironrdp does is a parameter, with its
-- panics among its failures: `decoder` catches them. On a failure, what was changed before stays.
use avash.Base.{
  ℕ, zero, suc, ◌+◌, ◌-◌, ◌*◌, ◌/◌, ◌%◌, ◌^◌, min, Bool, true, false, ◌&&◌, ◌||◌, Option, none,
  some, List, [], ◌∷◌, ◌++◌, length, replicate, ltb, leb, ◌==◌, if◌then◌else◌,
}
use avash.Base.Text.{Bytes}
use avash.Base.Int.{ℤ, pos}
use avash.Rdp.Frame.{slice}
use avash.Rdp.Surface.{Surface, Zone, splice}
use avash.Rdp.Progressive.Refine.{Component, coeffs, new_component, Quant, Band}

pub record Tile : Type 0 where
  pub luma : Component
  pub blue : Component
  pub red : Component

abbrev pub new_tile : Tile
new_tile = record { luma = new_component; blue = new_component; red = new_component }

-- `Tuiles`: the tiles of a surface, by their place in the grid.
abbrev pub Tiles : Type 0
Tiles = List ((ℕ × ℕ) × Tile)

abbrev pub same_key : ℕ × ℕ → ℕ × ℕ → Bool
same_key a b = a.0 == b.0 && a.1 == b.1

unfoldable pub find_tile : Tiles → ℕ × ℕ → Option Tile
find_tile [] key = none
find_tile ((k, t) ∷ r) key = if same_key k key then some t else find_tile r key

unfoldable pub put_tile : Tiles → ℕ × ℕ → Tile → Tiles
put_tile [] key new = (key, new) ∷ []
put_tile ((k, t) ∷ r) key new =
    if same_key k key then (key, new) ∷ r else (k, t) ∷ put_tile r key new

-- A surface with its tiles.
pub record Canvas : Type 0 where
  pub surface : Surface
  pub tiles : Tiles

-- The buffers of `Decodeur`.
pub record Work : Type 0 where
  pub luma : List ℤ
  pub blue : List ℤ
  pub red : List ℤ
  pub tile : Bytes

abbrev pub new_work : Work
new_work = record {
  luma = replicate coeffs (pos 0);
  blue = replicate coeffs (pos 0);
  red = replicate coeffs (pos 0);
  tile = replicate (64 * 64 * 4) 0;
}

-- A tile `simple`, without its quality, or `first`.
pub record Pass : Type 0 where
  pub x : ℕ
  pub y : ℕ
  pub quant_luma : ℕ
  pub quant_blue : ℕ
  pub quant_red : ℕ
  pub flags : ℕ
  pub quality : ℕ
  pub luma : Bytes
  pub blue : Bytes
  pub red : Bytes

pub record Upgrade : Type 0 where
  pub x : ℕ
  pub y : ℕ
  pub quant_luma : ℕ
  pub quant_blue : ℕ
  pub quant_red : ℕ
  pub quality : ℕ
  pub luma_srl : Bytes
  pub blue_srl : Bytes
  pub red_srl : Bytes
  pub luma_raw : Bytes
  pub blue_raw : Bytes
  pub red_raw : Bytes

pub data TileMessage : Type 0 where
  simple first : Pass → TileMessage
  upgrade : Upgrade → TileMessage

pub record Quants : Type 0 where
  pub luma : Quant
  pub blue : Quant
  pub red : Quant

pub record Region : Type 0 where
  pub extrapolate : Bool
  pub quant_vals : List Quant
  pub quant_prog_vals : List Quants
  pub tiles : List TileMessage

pub data Block : Type 0 where
  region : Region → Block
  other_block : Block

-- What ironrdp does.
pub record Codec : Type 0 where
  pub parse : Bytes → Option (List Block)
  pub layout : List Band
  pub lossless : Quant
  pub first_pass : Bytes → Quant → Quant → Bool → List ℤ → List ℤ → List ℤ × List ℤ × Bool
  pub wavelets : Bool → List ℤ → Option (List ℤ)
  pub to_rgba : List ℤ → List ℤ → List ℤ → Bytes → Bytes × Bool

-- What a step leaves, and whether it succeeded.
pub record Decoded : Type 0 where
  pub canvas : Canvas
  pub work : Work
  pub zones : List Zone
  pub succeeded : Bool

abbrev pub tiles_max : ℕ
tiles_max = 8192 / 64 * (8192 / 64)

-- The rows of `reporter`, from the row `row` on, of which `n` are left.
unfoldable pub copy_rows : Bytes → ℕ → ℕ → ℕ → ℕ → ℕ → ℕ → Bytes → Bytes × Bool
unfolding slice splice
copy_rows tile wide sl x0 y0 zero row buf = (buf, true)
copy_rows tile wide sl x0 y0 (suc n) row buf =
    let dst = ((y0 + row) * sl + x0) * 4 in
    elim (slice tile (row * 64 * 4) (wide * 4)) [
      | none ↦ (buf, false)
      | some b ↦
          let rest = copy_rows tile wide sl x0 y0 n (row + 1) (splice buf dst b) in
          if ltb (length buf) (dst + wide * 4) then (buf, false) else rest
    ]

-- The tile lies outside of the surface.
abbrev pub is_outside : Surface → ℕ → ℕ → Bool
is_outside s x y = leb s.width (x * 64) || leb s.height (y * 64)

abbrev pub with_pixels : Canvas → Bytes → Canvas
with_pixels c pixels = record c { surface = record c.surface { pixels = pixels } }

-- `reporter`
unfoldable pub paste : ℕ → ℕ → Decoded → Decoded
unfolding copy_rows
paste x y d =
    let s = d.canvas.surface in
    let wide = min 64 (s.width - x * 64) in
    let high = min 64 (s.height - y * 64) in
    let (pixels, whole) = copy_rows d.work.tile wide s.width (x * 64) (y * 64) high 0 s.pixels in
    if is_outside s x y then d else record d {
      canvas = with_pixels d.canvas pixels;
      succeeded = whole;
      zones =
          d.zones
          ++ record {
            x = x * 64 % 2 ^ 16;
            y = y * 64 % 2 ^ 16;
            width = min wide 65535;
            height = min high 65535;
          }
            ∷ [];
    }
