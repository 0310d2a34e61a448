-- ===== src/Rdp/Egfx/Commands.antt =====
-- rdp-sidecar/src/egfx.rs: the commands that draw. A panic is `none`.
use avash.Base.{
  ℕ, zero, suc, ◌+◌, ◌*◌, true, false, ◌||◌, Option, none, some, List, [], ◌∷◌, ◌++◌, length, take,
  drop, get_or, ltb, leb, ◌==◌, if◌then◌else◌,
}
use avash.Base.Text.{Bytes}
use avash.Base.Table.{find, put}
use avash.Rdp.Frame.{slice}
use avash.Rdp.Surface.{Surface, Zone, of_edges, write, extract, fill}
use avash.Rdp.Cache.{deposit, read}
use avash.Rdp.Progressive.Decoder.{Canvas, Decoded}
use avash.Rdp.Progressive.Region.{decode}
use avash.Rdp.Egfx.Pdu.{indexed, u16_at, u32_at, bgra_to_rgba, bgra_to_rgba_in_place, opaque}
use avash.Rdp.Egfx.State.{Codecs, Egfx, publish}

abbrev pub codec_clear : ℕ
codec_clear = 8

abbrev pub codec_planar : ℕ
codec_planar = 10

abbrev pub codec_raw : ℕ
codec_raw = 0

abbrev pub codec_progressive : ℕ
codec_progressive = 9

abbrev pub with_surface : Canvas → Surface → Canvas
with_surface c s = record c { surface = s }

-- A surface and the zones that were drawn on it.
pub record Drawn : Type 0 where
  pub surface : Surface
  pub zones : List Zone

-- The loop of `solid_fill` over the rectangles that follow, `n` of which are announced.
unfoldable pub fill_zones : ℕ → Bytes → Bytes → Drawn → Option Drawn
unfolding of_edges fill
fill_zones zero rest colour d = some d
fill_zones (suc n) rest colour d = elim (leb 8 (length rest)) [
  | false ↦ some d
  | true ↦ elim (of_edges rest) [
    | none ↦ fill_zones n (drop 8 rest) colour d
    | some zone ↦ elim (fill d.surface zone colour) [
      | none ↦ none
      | some none ↦ fill_zones n (drop 8 rest) colour d
      | some (some (z, s)) ↦
          fill_zones n (drop 8 rest) colour (record { surface = s; zones = d.zones ++ z ∷ [] })
    ]
  ]
]

abbrev pub target_at : Bytes → ℕ → ℕ → Zone
target_at p width height = record { x = u16_at p 0; y = u16_at p 2; width = width; height = height }

-- The loops of `surface_vers_surface` and `cache_vers_surface` over the points that follow.
unfoldable pub paste_all : ℕ → Bytes → ℕ → ℕ → Bytes → Drawn → Drawn
unfolding write
paste_all zero rest width height pixels d = d
paste_all (suc n) rest width height pixels d = elim (leb 4 (length rest)) [
  | false ↦ d
  | true ↦ elim (write d.surface (target_at rest width height) pixels (width * 4)) [
    | none ↦ paste_all n (drop 4 rest) width height pixels d
    | some (z, s) ↦
        paste_all n (drop 4 rest) width height pixels
          (record { surface = s; zones = d.zones ++ z ∷ [] })
  ]
]

module _ (codecs : Codecs) where
  open codecs use {clear_decode, planar_decode, progressive}

  -- The surface `id`, redrawn, and what is published of it.
  unfoldable pub redrawn : Egfx codecs → ℕ → Canvas → Drawn → Egfx codecs
  unfolding put publish
  redrawn e id c d =
      publish codecs (record e { surfaces = put e.surfaces id (with_surface c d.surface) }) id
        d.zones

  abbrev pub redrawn_if : Egfx codecs → ℕ → Canvas → Option Drawn → Option (Egfx codecs)
  redrawn_if e id c none = none
  redrawn_if e id c (some d) = some (redrawn e id c d)

  -- `solid_fill`
  unfoldable pub solid_fill : Egfx codecs → Bytes → Option (Egfx codecs)
  unfolding find fill_zones redrawn
  solid_fill e c =
      let id = u16_at c 0 in
      let colour : Bytes = get_or c 4 0 ∷ get_or c 3 0 ∷ get_or c 2 0 ∷ 0xff ∷ [] in
      indexed 8 c (elim (find e.surfaces id) [
        | none ↦ some e
        | some canvas ↦ redrawn_if e id canvas (
            fill_zones (u16_at c 6) (drop 8 c) colour
              (record { surface = canvas.surface; zones = [] }))
      ])

  -- `surface_vers_surface`
  unfoldable pub surface_to_surface : Egfx codecs → Bytes → Option (Egfx codecs)
  unfolding of_edges find extract paste_all redrawn
  surface_to_surface e c = indexed 12 c (elim (of_edges (take 8 (drop 4 c))) [
    | none ↦ some e
    | some zone ↦ elim (find e.surfaces (u16_at c 0)) [
      | none ↦ some e
      | some src ↦ elim (extract src.surface zone) [
        | none ↦ some e
        | some (z, pixels) ↦ indexed 14 c (elim (find e.surfaces (u16_at c 2)) [
          | none ↦ some e
          | some canvas ↦ some (
              redrawn e (u16_at c 2) canvas (
                paste_all (u16_at c 12) (drop 14 c) z.width z.height pixels
                  (record { surface = canvas.surface; zones = [] })))
        ])
      ]
    ]
  ])

  -- `surface_vers_cache`
  unfoldable pub surface_to_cache : Egfx codecs → Bytes → Option (Egfx codecs)
  unfolding of_edges find extract deposit
  surface_to_cache e c = indexed 20 c (elim (of_edges (take 8 (drop 12 c))) [
    | none ↦ some e
    | some zone ↦ elim (find e.surfaces (u16_at c 0)) [
      | none ↦ some e
      | some src ↦ elim (extract src.surface zone) [
        | none ↦ some e
        | some (z, pixels) ↦
            some (record e { cache = deposit e.cache (u16_at c 10) z.width z.height pixels })
      ]
    ]
  ])

  -- `cache_vers_surface`
  unfoldable pub cache_to_surface : Egfx codecs → Bytes → Option (Egfx codecs)
  unfolding read find paste_all redrawn
  cache_to_surface e c = indexed 6 c (elim (read e.cache (u16_at c 0)) [
    | none ↦ some e
    | some entry ↦ elim (find e.surfaces (u16_at c 2)) [
      | none ↦ some e
      | some canvas ↦ some (
          redrawn e (u16_at c 2) canvas (
            paste_all (u16_at c 4) (drop 6 c) entry.width entry.height entry.pixels
              (record { surface = canvas.surface; zones = [] })))
    ]
  ])

  -- The end of `decoder_surface`: the zones are published if the stream is read to its end.
  abbrev pub decoded : Egfx codecs → ℕ → Decoded → Egfx codecs
  decoded e id d =
      let e' : Egfx codecs = record e { surfaces = put e.surfaces id d.canvas; work = d.work } in
      if d.succeeded then publish codecs e' id d.zones else e'

  -- `decoder_surface`
  unfoldable pub decode_surface : Egfx codecs → Bytes → Option (Egfx codecs)
  unfolding find put decode publish
  decode_surface e c = indexed 4 c (
      if u16_at c 2 == codec_progressive
      then elim (find e.surfaces (u16_at c 0)) [
        | none ↦ some e
        | some canvas ↦
            indexed 13 c
              (some (decoded e (u16_at c 0) (decode progressive (drop 13 c) canvas e.work)))
      ]
      else some e)

  -- What a codec makes of an image: the state after it, and its pixels in RGBA.
  unfoldable pub image_of : Egfx codecs → ℕ → Bytes → ℕ → ℕ → Egfx codecs × Option Bytes
  unfolding bgra_to_rgba bgra_to_rgba_in_place opaque
  image_of e codec octets l h =
      let (clear, v) = clear_decode e.clear octets l h in
      let (planar, rgb) = planar_decode e.planar octets l h in
      if codec == codec_clear
      then (
        record e { clear = clear; clear_decodings = e.clear_decodings + 1 },
        elim v [
          | none ↦ none
          | some bgra ↦
              if leb (l * h * 4) (length bgra)
              then some (bgra_to_rgba_in_place bgra (l * h * 4))
              else none
        ],
      )
      else if codec == codec_planar
      then (
        record e { planar = planar },
        elim rgb [
          | none ↦ none
          | some o ↦ if leb (l * h * 3) (length o) then some (opaque o (l * h)) else none
        ],
      )
      else if codec == codec_raw
      then (
        e,
        if leb (l * h * 4) (length octets)
            then some (bgra_to_rgba (take (l * h * 4) octets))
            else none,
      )
      else (e, none)

  abbrev pub drawn_image : Egfx codecs → ℕ → Canvas → Zone → Option Bytes → Egfx codecs
  drawn_image e id canvas zone none = e
  drawn_image e id canvas zone (some rgba) =
      elim (write canvas.surface zone rgba (zone.width * 4)) [
        | none ↦ e
        | some (z, s) ↦ redrawn e id canvas (record { surface = s; zones = z ∷ [] })
      ]

  -- `wire_to_surface_1`: an image that does not fit is refused before it is decoded.
  unfoldable pub wire_to_surface : Egfx codecs → Bytes → Option (Egfx codecs)
  unfolding of_edges slice find image_of write redrawn
  wire_to_surface e c = indexed 13 c (elim (of_edges (take 8 (drop 5 c))) [
    | none ↦ some e
    | some zone ↦ indexed 17 c (elim (slice c 17 (u32_at c 13)) [
      | none ↦ some e
      | some octets ↦ elim (find e.surfaces (u16_at c 0)) [
        | none ↦ some e
        | some canvas ↦
            let (e', rgba) = image_of e (u16_at c 2) octets zone.width zone.height in
            if ltb canvas.surface.width (zone.x + zone.width)
              || ltb canvas.surface.height (zone.y + zone.height)
            then some e
            else some (drawn_image e' (u16_at c 0) canvas zone rgba)
      ]
    ])
  ])
