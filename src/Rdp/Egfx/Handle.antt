-- ===== src/Rdp/Egfx/Handle.antt =====
-- rdp-sidecar/src/egfx.rs: `traiter`, and `process` on a segment. The decompression is ironrdp's.
use avash.Base.{
  ℕ, ◌+◌, ◌-◌, ◌%◌, ◌^◌, Bool, not, ◌&&◌, Option, none, some, List, [], ◌∷◌, length, ltb, leb, ◌==◌,
  if◌then◌else◌,
}
use avash.Base.Text.{Bytes}
use avash.Base.Table.{find, put, delete, map_values, is_some, weight_of}
use avash.Rdp.Surface.{new_surface}
use avash.Rdp.Cache.{empty, forget}
use avash.Rdp.Progressive.Decoder.{Canvas, new_work}
use avash.Rdp.Egfx.Pdu.{indexed, u16_at, u32_at, Pdu, split, frame_acknowledge}
use avash.Rdp.Egfx.State.{
  Codecs, Egfx, size_max, surfaces_max, surface_octets_max, octets_of, weight,
}
use avash.Rdp.Egfx.Commands.{
  solid_fill, surface_to_surface, surface_to_cache, cache_to_surface, decode_surface,
  wire_to_surface,
}

abbrev pub is_size : ℕ → ℕ → Bool
is_size l h = ltb 0 l && ltb 0 h && leb l size_max && leb h size_max

abbrev pub new_canvas : ℕ → ℕ → Canvas
new_canvas l h = record { surface = new_surface l h; tiles = [] }

abbrev pub without_tiles : Canvas → Canvas
without_tiles c = record c { tiles = [] }

module _ (codecs : Codecs) where
  -- `nouveau`, with the states that ironrdp's decoders begin with.
  unfoldable pub new_egfx : codecs.Clear → codecs.Planar → Egfx codecs
  new_egfx clear planar = record {
    surfaces = [];
    surface_octets = 0;
    output = record { frames = []; published = 0 };
    size = none;
    cache = empty;
    clear = clear;
    clear_decodings = 0;
    planar = planar;
    origins = [];
    work = new_work;
    frames_decoded = 0;
  }

  -- `CMD_CREATE_SURFACE`
  unfoldable pub create_surface : Egfx codecs → Bytes → Option (Egfx codecs)
  unfolding find put new_surface
  create_surface e c =
      let id = u16_at c 0 in
      let l = u16_at c 2 in
      let h = u16_at c 4 in
      let old = weight_of weight (find e.surfaces id) in
      let after = e.surface_octets - old + octets_of l h in
      indexed 6 c (
        if not (is_size l h)
        then some e
        else if ltb e.surface_octets old
        then none
        else if not (is_some (find e.surfaces id)) && leb surfaces_max (length e.surfaces)
        then some e
        else if ltb surface_octets_max after
        then some e
        else some
            (record e { surface_octets = after; surfaces = put e.surfaces id (new_canvas l h) }))

  -- `CMD_DELETE_SURFACE`
  unfoldable pub delete_surface : Egfx codecs → Bytes → Option (Egfx codecs)
  unfolding find delete
  delete_surface e c =
      let id = u16_at c 0 in
      let old = weight_of weight (find e.surfaces id) in
      indexed 2 c (
        if ltb e.surface_octets old
        then none
        else some (record e {
          surfaces = delete e.surfaces id;
          surface_octets = e.surface_octets - old;
          origins = delete e.origins id;
        }))

  -- `CMD_MAP_SURFACE_TO_OUTPUT`
  unfoldable pub map_surface : Egfx codecs → Bytes → Option (Egfx codecs)
  unfolding put
  map_surface e c = indexed 12 c (
      if ltb (u32_at c 4) 65536 && ltb (u32_at c 8) 65536
      then some (record e { origins = put e.origins (u16_at c 0) (u32_at c 4, u32_at c 8) })
      else some e)

  -- `CMD_RESET_GRAPHICS`
  unfoldable pub reset_graphics : Egfx codecs → Bytes → Option (Egfx codecs)
  unfolding map_values
  reset_graphics e c =
      let e' : Egfx codecs =
        if is_size (u32_at c 0) (u32_at c 4)
        then record e { size = some (u32_at c 0, u32_at c 4) }
        else e in
      indexed 8 c (some (record e' { surfaces = map_values without_tiles e'.surfaces }))

  -- `CMD_EVICT_CACHE_ENTRY`
  unfoldable pub evict : Egfx codecs → Bytes → Option (Egfx codecs)
  unfolding forget
  evict e c = indexed 2 c (some (record e { cache = forget e.cache (u16_at c 0) }))

  abbrev pub quiet : Option (Egfx codecs) → Option (Egfx codecs × Option Bytes)
  quiet none = none
  quiet (some e) = some (e, none)

  -- `CMD_END_FRAME`
  unfoldable pub end_frame : Egfx codecs → Bytes → Option (Egfx codecs × Option Bytes)
  unfolding frame_acknowledge
  end_frame e c =
      let n = (e.frames_decoded + 1) % 2 ^ 32 in
      indexed 4 c (some (record e { frames_decoded = n }, some (frame_acknowledge (u32_at c 0) n)))

  -- `traiter`: the state and the answer; a message that is too short does nothing.
  unfoldable pub handle : Egfx codecs → Pdu → Option (Egfx codecs × Option Bytes)
  unfolding create_surface delete_surface map_surface reset_graphics end_frame solid_fill
      surface_to_surface surface_to_cache cache_to_surface decode_surface wire_to_surface evict
  handle e p =
      let c = p.charge in
      let has = λ (n : ℕ). leb n (length c) in
      if p.id == 0x09 && has 7
      then quiet (create_surface e c)
      else if p.id == 0x0a && has 2
      then quiet (delete_surface e c)
      else if p.id == 0x0f && has 12
      then quiet (map_surface e c)
      else if p.id == 0x0e && has 8
      then quiet (reset_graphics e c)
      else if p.id == 0x01 && has 18
      then quiet (wire_to_surface codecs e c)
      else if p.id == 0x02 && has 14
      then quiet (decode_surface codecs e c)
      else if p.id == 0x04 && has 8
      then quiet (solid_fill codecs e c)
      else if p.id == 0x05 && has 14
      then quiet (surface_to_surface codecs e c)
      else if p.id == 0x06 && has 20
      then quiet (surface_to_cache codecs e c)
      else if p.id == 0x07 && has 6
      then quiet (cache_to_surface codecs e c)
      else if p.id == 0x08 && has 2
      then quiet (evict e c)
      else if p.id == 0x0c && has 4
      then end_frame e c
      else some (e, none)

  abbrev pub answered : Option Bytes → List Bytes → List Bytes
  answered none rest = rest
  answered (some b) rest = b ∷ rest

  -- The loop of `process` over the messages of a segment.
  unfoldable pub handle_all : Egfx codecs → List Pdu → Option (Egfx codecs × List Bytes)
  unfolding handle
  handle_all e [] = some (e, [])
  handle_all e (p ∷ ps) = elim (handle e p) [
    | none ↦ none
    | some (e', answer) ↦ elim (handle_all e' ps) as (λ _. Option (Egfx codecs × List Bytes)) [
      | none ↦ none
      | some (e'', answers) ↦ some (e'', answered answer answers)
    ]
  ]

  abbrev pub handle_some : Egfx codecs → Option (List Pdu) → Option (Egfx codecs × List Bytes)
  handle_some e none = none
  handle_some e (some ps) = handle_all e ps

  -- `process`, from what the decompression of the segment gives; `none` there is a failure or a panic.
  unfoldable pub process : Egfx codecs → Option Bytes → Option (Egfx codecs × List Bytes)
  unfolding split handle_all
  process e segment =
      let e' : Egfx codecs = record e { output = record e.output { published = 0 } } in
      elim segment [ none ↦ some (e', []) | some clear ↦ handle_some e' (split clear) ]
