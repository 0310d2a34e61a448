-- ===== src/Rdp/Surface.antt =====
-- rdp-sidecar/src/surface.rs: `Zone` and `Surface`. The field `tuiles` of a surface, which these
-- operations do not touch, is left out. A panic of `remplir` is `none` at the outer level.
pub mod Crop
pub mod Rows
pub mod RoundTrip
pub mod Fill
use avash.Base.{
  ℕ, zero, suc, ◌+◌, ◌-◌, ◌*◌, min, Bool, true, false, ◌&&◌, ◌||◌, Option, none, some, List, [],
  ◌∷◌, ◌++◌, length, get_elem?, replicate, ltb, leb, ◌==◌, if◌then◌else◌,
}
use avash.Base.Text.{Bytes}
use avash.Rdp.Frame.{slice, append_both}

pub record Surface : Type 0 where
  pub width : ℕ
  pub height : ℕ
  pub pixels : Bytes

pub record Zone : Type 0 where
  pub x : ℕ
  pub y : ℕ
  pub width : ℕ
  pub height : ℕ

-- `rognee`
unfoldable pub crop : Zone → ℕ → ℕ → Option Zone
crop z width height =
    if leb width z.x || leb height z.y || z.width == 0 || z.height == 0
    then none
    else some (record {
      x = z.x;
      y = z.y;
      width = min z.width (width - z.x);
      height = min z.height (height - z.y);
    })

abbrev pub u16_of : ℕ → ℕ → ℕ
u16_of low high = low + 256 * high

-- `depuis_bords`: left, top, right and bottom, in little-endian order, behind which more may come.
unfoldable pub of_edges : Bytes → Option Zone
of_edges (a ∷ b ∷ c ∷ d ∷ e ∷ f ∷ g ∷ h ∷ rest) =
    if ltb (u16_of a b) (u16_of e f) && ltb (u16_of c d) (u16_of g h)
    then some (record {
      x = u16_of a b;
      y = u16_of c d;
      width = u16_of e f - u16_of a b;
      height = u16_of g h - u16_of c d;
    })
    else none
of_edges _ = none

-- `nouvelle`
unfoldable pub new_surface : ℕ → ℕ → Surface
new_surface width height = record {
  width = width;
  height = height;
  pixels = replicate (width * height * 4) 0;
}

-- `decalage`
unfoldable pub offset : Surface → ℕ → ℕ → ℕ
offset s x y = (y * s.width + x) * 4

-- `copy_from_slice` onto the place that begins at an index.
unfoldable pub splice : Bytes → ℕ → Bytes → Bytes
splice [] i new = []
splice (b ∷ buf) (suc i) new = b ∷ splice buf i new
splice (b ∷ buf) zero [] = b ∷ buf
splice (b ∷ buf) zero (c ∷ new) = c ∷ splice buf zero new

-- Where row `row` of a zone begins in the surface.
abbrev pub row_start : Surface → Zone → ℕ → ℕ
row_start s z row = offset s z.x z.y + row * s.width * 4

abbrev pub or_stop : Option Bytes → Bytes → (Bytes → Bytes) → Bytes
or_stop none buf copy = buf
or_stop (some b) buf copy = copy b

-- The loop of `ecrire`, from the row `row` on, of which `n` are left; `buf` is `self.pixels`.
unfoldable pub write_rows : Surface → Zone → Bytes → ℕ → ℕ → ℕ → Bytes → Bytes
unfolding offset splice slice
write_rows s z source stride zero row buf = buf
write_rows s z source stride (suc n) row buf =
    let wide = z.width * 4 in
    let dst = row_start s z row in
    or_stop (slice source (row * stride) wide) buf (λ b.
      if ltb (length buf) (dst + wide)
      then buf
      else write_rows s z source stride n (row + 1) (splice buf dst b))

-- `ecrire`
unfoldable pub write : Surface → Zone → Bytes → ℕ → Option (Zone × Surface)
unfolding crop write_rows
write s zone source stride = elim (crop zone s.width s.height) [
  | none ↦ none
  | some z ↦ some (z, record s { pixels = write_rows s z source stride z.height 0 s.pixels })
]

-- The loop of `extraire`.
unfoldable pub extract_rows : Surface → Zone → ℕ → ℕ → Option Bytes
unfolding offset slice
extract_rows s z zero row = some []
extract_rows s z (suc n) row =
    append_both (slice s.pixels (row_start s z row) (z.width * 4)) (extract_rows s z n (row + 1))

abbrev pub with_zone : Zone → Option Bytes → Option (Zone × Bytes)
with_zone z none = none
with_zone z (some v) = some (z, v)

-- `extraire`
unfoldable pub extract : Surface → Zone → Option (Zone × Bytes)
unfolding crop extract_rows
extract s zone = elim (crop zone s.width s.height) [
  | none ↦ none
  | some z ↦ with_zone z (extract_rows s z z.height 0)
]

abbrev pub colour_row : ℕ → Bytes → Bytes
colour_row zero colour = []
colour_row (suc n) colour = colour ++ colour_row n colour

-- The loop of `remplir`; a row of the zone is `width` times the colour.
unfoldable pub fill_rows : Surface → Zone → Bytes → ℕ → ℕ → Bytes → Option Bytes
unfolding offset splice
fill_rows s z colour zero row buf = some buf
fill_rows s z colour (suc n) row buf =
    let filled =
      fill_rows s z colour n (row + 1)
        (splice buf (row_start s z row) (colour_row z.width colour)) in
    if ltb (length buf) (row_start s z row + z.width * 4) then none else filled

-- `remplir`, with the four bytes of the colour.
unfoldable pub fill : Surface → Zone → Bytes → Option (Option (Zone × Surface))
unfolding crop fill_rows
fill s zone colour = elim (crop zone s.width s.height) [
  | none ↦ some none
  | some z ↦ elim (fill_rows s z colour z.height 0 s.pixels) [
    | none ↦ none
    | some pixels ↦ some (some (z, record s { pixels = pixels }))
  ]
]
