-- ===== src/Rdp/Egfx/State.antt =====
-- rdp-sidecar/src/egfx.rs: `Egfx`, `boite_englobante` and `publier`. The shared channel number, the
-- counters of messages and the traces are left out.
use avash.Base.{
  ℕ, ◌+◌, ◌-◌, ◌*◌, min, max, true, false, Option, none, some, List, [], ◌∷◌, ◌++◌, length, ltb,
  leb, if◌then◌else◌,
}
use avash.Base.Text.{Bytes}
use avash.Base.Table.{Table, find}
use avash.Rdp.Dirty.{rects_max}
use avash.Rdp.Surface.{Surface, Zone, extract}
use avash.Rdp.Cache.{Cache}
use avash.Rdp.Progressive.Decoder.{Canvas, Work, Codec}

-- The decoders of ironrdp, with what they keep from one image to the next; `none` is a failure or a
-- panic, which the code catches.
pub record Codecs : Type 1 where
  pub Clear : Type 0
  pub Planar : Type 0
  pub clear_decode : Clear → Bytes → ℕ → ℕ → Clear × Option Bytes
  pub planar_decode : Planar → Bytes → ℕ → ℕ → Planar × Option Bytes
  pub progressive : Codec

-- `Trame`
pub record Frame : Type 0 where
  pub x : ℕ
  pub y : ℕ
  pub width : ℕ
  pub height : ℕ
  pub pixels : Bytes

abbrev pub size_max : ℕ
size_max = 8192

abbrev pub surfaces_max : ℕ
surfaces_max = 64

abbrev pub surface_octets_max : ℕ
surface_octets_max = 512 * 1024 * 1024

abbrev pub published_max : ℕ
published_max = 64 * 1024 * 1024

-- `octets_surface`
abbrev pub octets_of : ℕ → ℕ → ℕ
octets_of width height = width * height * 4

abbrev pub weight : Canvas → ℕ
weight c = octets_of c.surface.width c.surface.height

-- `saturating_add` of two `u16` and of two `usize`.
abbrev pub sat16 : ℕ → ℕ → ℕ
sat16 a b = min (a + b) 0xffff

abbrev pub sat64 : ℕ → ℕ → ℕ
sat64 a b = min (a + b) 0xffff_ffff_ffff_ffff

-- The left, upper, right and lower edges of a box.
pub record Edges : Type 0 where
  pub left : ℕ
  pub top : ℕ
  pub right : ℕ
  pub bottom : ℕ

abbrev pub edges_of : Zone → Edges
edges_of z = record {
  left = z.x;
  top = z.y;
  right = sat16 z.x z.width;
  bottom = sat16 z.y z.height;
}

-- The loop of `boite_englobante`.
unfoldable pub widened : Edges → List Zone → Edges
widened e [] = e
widened e (z ∷ zs) =
    widened
      (record {
        left = min e.left z.x;
        top = min e.top z.y;
        right = max e.right (sat16 z.x z.width);
        bottom = max e.bottom (sat16 z.y z.height);
      })
      zs

abbrev pub zone_of : Edges → Zone
zone_of e = record { x = e.left; y = e.top; width = e.right - e.left; height = e.bottom - e.top }

-- `boite_englobante`
unfoldable pub bounding_box : List Zone → Option Zone
unfolding widened
bounding_box [] = none
bounding_box (z ∷ zs) = some (zone_of (widened (edges_of z) zs))

-- What `publier` adds: the frames, and the bytes published so far.
pub record Output : Type 0 where
  pub frames : List Frame
  pub published : ℕ

-- The loop of `publier`.
unfoldable pub publish_all : Surface → ℕ → ℕ → List Zone → Output → Output
unfolding extract
publish_all s ox oy [] out = out
publish_all s ox oy (z ∷ zs) out = elim (leb published_max out.published) [
  | true ↦ out
  | false ↦ elim (extract s z) [
    | none ↦ publish_all s ox oy zs out
    | some (c, pixels) ↦ publish_all s ox oy zs (record {
      frames =
          out.frames
          ++ record {
            x = sat16 ox c.x;
            y = sat16 oy c.y;
            width = c.width;
            height = c.height;
            pixels = pixels;
          }
            ∷ [];
      published = sat64 out.published (length pixels);
    })
  ]
]

-- Above `rects_max` zones, their box alone.
unfoldable pub chosen : List Zone → List Zone
unfolding bounding_box
chosen zones =
    if ltb rects_max (length zones)
    then elim (bounding_box zones) [ none ↦ zones | some z ↦ z ∷ [] ]
    else zones

module _ (codecs : Codecs) where
  open codecs use {Clear, Planar}

  pub record Egfx : Type 0 where
    pub surfaces : Table Canvas
    pub surface_octets : ℕ
    pub output : Output
    pub size : Option (ℕ × ℕ)
    pub cache : Cache
    pub clear : Clear
    pub clear_decodings : ℕ
    pub planar : Planar
    pub origins : Table (ℕ × ℕ)
    pub work : Work
    pub frames_decoded : ℕ

  abbrev pub origin_of : Option (ℕ × ℕ) → ℕ × ℕ
  origin_of none = (0, 0)
  origin_of (some o) = o

  -- `publier`
  unfoldable pub publish : Egfx → ℕ → List Zone → Egfx
  unfolding find publish_all chosen
  publish e id zones = elim (find e.surfaces id) [
    | none ↦ e
    | some c ↦
        let (ox, oy) = origin_of (find e.origins id) in
        record e { output = publish_all c.surface ox oy (chosen zones) e.output }
  ]
