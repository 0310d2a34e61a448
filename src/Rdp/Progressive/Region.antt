-- ===== src/Rdp/Progressive/Region.antt =====
-- rdp-sidecar/src/progressif.rs: `premier_palier`, `decoder_region` and `decoder`.
use avash.Base.{
  ℕ, ◌%◌, Bool, true, false, not, ◌&&◌, Option, none, some, List, [], ◌∷◌, length, get_elem?,
  replicate, leb, ◌==◌, if◌then◌else◌,
}
use avash.Base.Text.{Bytes}
use avash.Base.Int.{ℤ, pos, sat_add16}
use avash.Rdp.Progressive.Refine.{Component, coeffs, Quant, positions, bands, refine}
use avash.Rdp.Progressive.Decoder.{
  Tile, new_tile, find_tile, put_tile, Canvas, Work, Pass, Upgrade, TileMessage, simple, first,
  upgrade, Quants, Region, Block, region, other_block, Codec, Decoded, tiles_max, is_outside, paste,
}

-- `saturating_add` of each pair; what has no partner stays.
unfoldable pub add_all : List ℤ → List ℤ → List ℤ
unfolding sat_add16
add_all [] ds = []
add_all (c ∷ cs) [] = c ∷ cs
add_all (c ∷ cs) (d ∷ ds) = sat_add16 c d ∷ add_all cs ds

-- One component: the state that is kept, the buffer, and whether it succeeded.
pub record Part : Type 0 where
  pub kept : Component
  pub buffer : List ℤ
  pub succeeded : Bool

abbrev pub blank : List ℤ
blank = replicate coeffs (pos 0)

abbrev pub take_first : Component → List ℤ → List ℤ → Bool → List ℕ → Part
take_first k coefficients signs difference reached =
    let sum = if difference then add_all k.coefficients coefficients else coefficients in
    record {
      kept = record { coefficients = sum; signs = signs; positions = reached };
      buffer = sum;
      succeeded = true;
    }

abbrev pub fallback : Option Tile → Tile
fallback none = new_tile
fallback (some t) = t

abbrev pub is_some {ℓ} : {A : Type ℓ} → Option A → Bool
is_some none = false
is_some (some a) = true

abbrev pub with_tile : Decoded → ℕ × ℕ → Tile → Work → Bool → Decoded
with_tile d key t w ok = record d {
  canvas = record d.canvas { tiles = put_tile d.canvas.tiles key t };
  work = w;
  succeeded = ok;
}

abbrev pub failed : Decoded → Decoded
failed d = record d { succeeded = false }

module _ (codec : Codec) where
  -- The body of the loop of `premier_palier`.
  unfoldable pub first_part : Bytes → Quant → Quant → Bool → Bool → Component → Part
  unfolding positions add_all
  first_part octets base prog difference extrapolate k =
      let (coefficients, signs, read) =
        codec.first_pass octets base prog extrapolate blank k.signs in
      if read
      then take_first k coefficients signs difference (positions base prog)
      else record { kept = record k { signs = signs }; buffer = coefficients; succeeded = false }

  -- The three components in order: a failure leaves the later ones as they are.
  unfoldable pub three_parts : Part → Part → Part → Tile → ℕ × ℕ → Decoded → Decoded
  unfolding put_tile
  three_parts luma blue red t key d =
      if not luma.succeeded
      then with_tile d key (record t { luma = luma.kept }) (record d.work { luma = luma.buffer })
          false
      else if not blue.succeeded
      then with_tile d key (record t { luma = luma.kept; blue = blue.kept })
          (record d.work { luma = luma.buffer; blue = blue.buffer }) false
      else with_tile d key (record { luma = luma.kept; blue = blue.kept; red = red.kept })
          (record d.work { luma = luma.buffer; blue = blue.buffer; red = red.buffer }) red.succeeded

  -- `premier_palier`
  unfoldable pub first_tile : Pass → Quants → Quants → Bool → Decoded → Decoded
  unfolding find_tile first_part three_parts
  first_tile p base prog extrapolate d =
      let key : ℕ × ℕ = (p.x, p.y) in
      let old = find_tile d.canvas.tiles key in
      let t = fallback old in
      let difference = p.flags % 2 == 1 in
      if is_outside d.canvas.surface p.x p.y
      then d
      else if leb tiles_max (length d.canvas.tiles) && not (is_some old)
      then failed d
      else three_parts (first_part p.luma base.luma prog.luma difference extrapolate t.luma)
          (first_part p.blue base.blue prog.blue difference extrapolate t.blue)
          (first_part p.red base.red prog.red difference extrapolate t.red) t key d

  -- A refined component; a failure does not reach the buffer.
  abbrev pub refined_part : List ℤ → Component × Bool → Part
  refined_part old (k, true) = record { kept = k; buffer = k.coefficients; succeeded = true }
  refined_part old (k, false) = record { kept = k; buffer = old; succeeded = false }

  -- The refinement of a tile that is kept.
  unfoldable pub upgrade_tile : Upgrade → Quants → Quants → Bool → Tile → Decoded → Decoded
  unfolding refine bands three_parts
  upgrade_tile u base prog extrapolate t d =
      let layout = bands codec.layout extrapolate in
      three_parts
        (refined_part d.work.luma (refine layout u.luma_srl u.luma_raw base.luma prog.luma t.luma))
        (refined_part d.work.blue (refine layout u.blue_srl u.blue_raw base.blue prog.blue t.blue))
        (refined_part d.work.red (refine layout u.red_srl u.red_raw base.red prog.red t.red)) t
        (u.x, u.y) d

  -- `quant` of the three components.
  unfoldable pub quants_of : Region → ℕ → ℕ → ℕ → Option Quants
  quants_of r a b c = elim (get_elem? r.quant_vals a) [
    | none ↦ none
    | some y ↦ elim (get_elem? r.quant_vals b) [
      | none ↦ none
      | some cb ↦ elim (get_elem? r.quant_vals c) [
        | none ↦ none
        | some cr ↦ some (record { luma = y; blue = cb; red = cr })
      ]
    ]
  ]

  abbrev pub lossless : Quants
  lossless = record { luma = codec.lossless; blue = codec.lossless; red = codec.lossless }

  -- `palier`
  unfoldable pub level : Region → ℕ → Quants
  level r q = elim (get_elem? r.quant_prog_vals q) [ none ↦ lossless | some p ↦ p ]

  -- The wavelets of the three buffers, the colours, and the tile in the surface.
  unfoldable pub draw : ℕ → ℕ → Bool → Decoded → Decoded
  unfolding paste
  draw x y extrapolate d = elim (codec.wavelets extrapolate d.work.luma) [
    | none ↦ failed d
    | some a ↦ elim (codec.wavelets extrapolate d.work.blue) [
      | none ↦ failed (record d { work = record d.work { luma = a } })
      | some b ↦ elim (codec.wavelets extrapolate d.work.red) [
        | none ↦ failed (record d { work = record d.work { luma = a; blue = b } })
        | some c ↦
            let (tile, drawn) = codec.to_rgba a b c d.work.tile in
            let d' : Decoded = record d {
              work = record { luma = a; blue = b; red = c; tile = tile };
            } in
            if drawn then paste x y d' else failed d'
      ]
    ]
  ]

  abbrev pub drawn_after : ℕ → ℕ → Bool → Decoded → Decoded
  drawn_after x y extrapolate d = if d.succeeded then draw x y extrapolate d else d

  -- The body of the loop over the tiles.
  unfoldable pub decode_tile : Region → TileMessage → Decoded → Decoded
  unfolding find_tile first_tile upgrade_tile quants_of level draw
  decode_tile r (simple p) d = elim (quants_of r p.quant_luma p.quant_blue p.quant_red) [
    | none ↦ failed d
    | some base ↦ drawn_after p.x p.y r.extrapolate (first_tile p base lossless r.extrapolate d)
  ]
  decode_tile r (first p) d = elim (quants_of r p.quant_luma p.quant_blue p.quant_red) [
    | none ↦ failed d
    | some base ↦
        drawn_after p.x p.y r.extrapolate (first_tile p base (level r p.quality) r.extrapolate d)
  ]
  decode_tile r (upgrade u) d = elim (find_tile d.canvas.tiles (u.x, u.y)) [
    | none ↦ d
    | some t ↦ elim (quants_of r u.quant_luma u.quant_blue u.quant_red) [
      | none ↦ failed d
      | some base ↦
          drawn_after u.x u.y r.extrapolate
            (upgrade_tile u base (level r u.quality) r.extrapolate t d)
    ]
  ]

  -- The loop over the tiles of `decoder_region`.
  unfoldable pub decode_tiles : Region → List TileMessage → Decoded → Decoded
  unfolding decode_tile
  decode_tiles r [] d = d
  decode_tiles r (m ∷ ms) d = elim (decode_tile r m d).succeeded [
    | true ↦ decode_tiles r ms (decode_tile r m d)
    | false ↦ decode_tile r m d
  ]

  -- The loop over the blocks of `decoder_interne`.
  unfoldable pub decode_blocks : List Block → Decoded → Decoded
  unfolding decode_tiles
  decode_blocks [] d = d
  decode_blocks (other_block ∷ bs) d = decode_blocks bs d
  decode_blocks (region r ∷ bs) d = elim (decode_tiles r r.tiles d).succeeded [
    | true ↦ decode_blocks bs (decode_tiles r r.tiles d)
    | false ↦ decode_tiles r r.tiles d
  ]

  -- `decoder`; the zones count only if it succeeds.
  unfoldable pub decode : Bytes → Canvas → Work → Decoded
  unfolding decode_blocks
  decode flux canvas work =
      let d : Decoded = record { canvas = canvas; work = work; zones = []; succeeded = true } in
      elim (codec.parse flux) [ none ↦ failed d | some blocks ↦ decode_blocks blocks d ]
