-- ===== src/Rdp/Progressive/Sound.antt =====
-- What the decoder of rdp-sidecar/src/progressif.rs leaves of a surface and of its tiles.
use avash.Base.{
  ℕ, ◌-◌, ◌*◌, ◌%◌, ◌^◌, ◌≤◌, min, Bool, true, false, ◌≡◌, ◌∙◌, inl, inr, List, [], ◌∷◌, arith,
  All-append, if◌then◌else◌, Bool-cases, Option-cases,
}
use avash.Base.Text.{Bytes}
use avash.Rdp.Surface.Crop.{FitsIn}
use avash.Rdp.Progressive.Decoder.{
  find_tile, Canvas, Work, TileMessage, simple, first, upgrade, Region, Block, region, other_block,
  Codec, Decoded, is_outside, paste,
}
use avash.Rdp.Progressive.Region.{
  first_tile, upgrade_tile, quants_of, lossless, level, draw, drawn_after, decode_tile,
  decode_tiles, decode_blocks, decode,
}
use avash.Rdp.Progressive.Kept.{
  copy_rows-length, InGrid, IsSound, failed-IsSound, first_tile-IsSound, upgrade_tile-IsSound,
  inside,
}

module _ (width height : ℕ) (small : width ≤ 65535) (low : height ≤ 65535) where
  corner-FitsIn :
      (x y w h : ℕ)
      → InGrid width height (x, y)
      → w ≡ width
      → h ≡ height
      → FitsIn width height (record {
        x = x * 64 % 2 ^ 16;
        y = y * 64 % 2 ^ 16;
        width = min (min 64 (w - x * 64)) 65535;
        height = min (min 64 (h - y * 64)) 65535;
      })
  corner-FitsIn x y w h g e f = record {
    some_width = omega (arith, g.0);
    some_height = omega (arith, g.1);
    to_right = omega (arith, g.0);
    to_bottom = omega (arith, g.1);
  }

  paste-IsSound :
      (x y : ℕ) (d : Decoded) → IsSound width height d → IsSound width height (paste x y d)
  unfolding paste
  paste-IsSound x y d s = elim (Bool-cases (is_outside d.canvas.surface x y)) [
    | inl e ↦ rw (paste, e) s
    | inr n ↦
        rw (paste, n)
          (record {
            wide = s.wide;
            high = s.high;
            whole = copy_rows-length d.work.tile _ _ _ _ _ 0 d.canvas.surface.pixels ∙ s.whole;
            few = s.few;
            placed = s.placed;
            shown = All-append (FitsIn width height) d.zones _ s.shown (
              corner-FitsIn x y d.canvas.surface.width d.canvas.surface.height
                  (inside width height d x y s n) s.wide s.high,
              tt,
            );
          })
  ]

  worked-IsSound :
      (d : Decoded) (w : Work)
      → IsSound width height d
      → IsSound width height (record d { work = w })
  worked-IsSound d w s = record {
    wide = s.wide;
    high = s.high;
    whole = s.whole;
    few = s.few;
    placed = s.placed;
    shown = s.shown;
  }

  draw-IsSound :
      (codec : Codec) (x y : ℕ) (extrapolate : Bool) (d : Decoded)
      → IsSound width height d
      → IsSound width height (draw codec x y extrapolate d)
  unfolding draw
  draw-IsSound codec x y extrapolate d s =
      elim (Option-cases (codec.wavelets extrapolate d.work.luma)) [
        | inl e ↦ rw (draw, e) (failed-IsSound width height d s)
        | inr (a, e) ↦ elim (Option-cases (codec.wavelets extrapolate d.work.blue)) [
          | inl f ↦
              rw (draw, e, f)
                (failed-IsSound width height _ (worked-IsSound d (record d.work { luma = a }) s))
          | inr (b, f) ↦ elim (Option-cases (codec.wavelets extrapolate d.work.red)) [
            | inl g ↦
                rw (draw, e, f, g)
                  (failed-IsSound width height _
                    (worked-IsSound d (record d.work { luma = a; blue = b }) s))
            | inr (c, g) ↦
                let w : Work = record {
                  luma = a;
                  blue = b;
                  red = c;
                  tile = (codec.to_rgba a b c d.work.tile).0;
                } in
                elim (Bool-cases (codec.to_rgba a b c d.work.tile).1) [
                  | inl y' ↦ rw (draw, e, f, g, y') (paste-IsSound x y _ (worked-IsSound d w s))
                  | inr n ↦
                      rw (draw, e, f, g, n) (failed-IsSound width height _ (worked-IsSound d w s))
                ]
          ]
        ]
      ]

  drawn_after-IsSound :
      (codec : Codec) (x y : ℕ) (extrapolate : Bool) (d : Decoded)
      → IsSound width height d
      → IsSound width height (drawn_after codec x y extrapolate d)
  drawn_after-IsSound codec x y extrapolate d s =
      if-IsSound d.succeeded (draw codec x y extrapolate d) d
        (draw-IsSound codec x y extrapolate d s) s
    where
      if-IsSound :
          (b : Bool) (c d : Decoded)
          → IsSound width height c
          → IsSound width height d
          → IsSound width height (if b then c else d)
      if-IsSound true c d h k = h
      if-IsSound false c d h k = k

  decode_tile-IsSound :
      (codec : Codec) (r : Region) (m : TileMessage) (d : Decoded)
      → IsSound width height d
      → IsSound width height (decode_tile codec r m d)
  unfolding decode_tile
  decode_tile-IsSound codec r (simple p) d s =
      elim (Option-cases (quants_of codec r p.quant_luma p.quant_blue p.quant_red)) [
        | inl e ↦ rw (decode_tile, e) (failed-IsSound width height d s)
        | inr (base, e) ↦
            rw (decode_tile, e)
              (drawn_after-IsSound codec p.x p.y r.extrapolate
                (first_tile codec p base (lossless codec) r.extrapolate d)
                (first_tile-IsSound width height codec p base (lossless codec) r.extrapolate d s))
      ]
  decode_tile-IsSound codec r (first p) d s =
      elim (Option-cases (quants_of codec r p.quant_luma p.quant_blue p.quant_red)) [
        | inl e ↦ rw (decode_tile, e) (failed-IsSound width height d s)
        | inr (base, e) ↦
            rw (decode_tile, e)
              (drawn_after-IsSound codec p.x p.y r.extrapolate
                (first_tile codec p base (level codec r p.quality) r.extrapolate d)
                (first_tile-IsSound width height codec p base (level codec r p.quality)
                  r.extrapolate d s))
      ]
  decode_tile-IsSound codec r (upgrade u) d s =
      elim (Option-cases (find_tile d.canvas.tiles (u.x, u.y))) [
        | inl e ↦ rw (decode_tile, e) s
        | inr (t, f) ↦
            elim (Option-cases (quants_of codec r u.quant_luma u.quant_blue u.quant_red)) [
              | inl e ↦ rw (decode_tile, f, e) (failed-IsSound width height d s)
              | inr (base, e) ↦
                  rw (decode_tile, f, e)
                    (drawn_after-IsSound codec u.x u.y r.extrapolate
                      (upgrade_tile codec u base (level codec r u.quality) r.extrapolate t d)
                      (upgrade_tile-IsSound width height codec u base (level codec r u.quality)
                        r.extrapolate t d s f))
            ]
      ]

  decode_tiles-IsSound :
      (codec : Codec) (r : Region) (ms : List TileMessage) (d : Decoded)
      → IsSound width height d
      → IsSound width height (decode_tiles codec r ms d)
  unfolding decode_tiles
  decode_tiles-IsSound codec r [] d s = s
  decode_tiles-IsSound codec r (m ∷ ms) d s =
      elim (Bool-cases (decode_tile codec r m d).succeeded) [
        | inl y ↦
            rw (decode_tiles, y)
              (decode_tiles-IsSound codec r ms (decode_tile codec r m d)
                (decode_tile-IsSound codec r m d s))
        | inr n ↦ rw (decode_tiles, n) (decode_tile-IsSound codec r m d s)
      ]

  decode_blocks-IsSound :
      (codec : Codec) (bs : List Block) (d : Decoded)
      → IsSound width height d
      → IsSound width height (decode_blocks codec bs d)
  unfolding decode_blocks
  decode_blocks-IsSound codec [] d s = s
  decode_blocks-IsSound codec (other_block ∷ bs) d s = decode_blocks-IsSound codec bs d s
  decode_blocks-IsSound codec (region r ∷ bs) d s =
      elim (Bool-cases (decode_tiles codec r r.tiles d).succeeded) [
        | inl y ↦
            rw (decode_blocks, y)
              (decode_blocks-IsSound codec bs (decode_tiles codec r r.tiles d)
                (decode_tiles-IsSound codec r r.tiles d s))
        | inr n ↦ rw (decode_blocks, n) (decode_tiles-IsSound codec r r.tiles d s)
      ]

-- Whatever the stream and whatever ironrdp makes of it, decoding leaves a surface of 16-bit sides with its size and
-- its buffer, its tiles inside its grid and no more than 16384, and it reports zones inside the surface only.
pub decode-IsSound :
    (codec : Codec) (flux : Bytes) (canvas : Canvas) (work : Work) (width height : ℕ)
    → width ≤ 65535
    → height ≤ 65535
    → IsSound width height (record { canvas = canvas; work = work; zones = []; succeeded = true })
    → IsSound width height (decode codec flux canvas work)
unfolding decode
decode-IsSound codec flux canvas work width height small low s =
    elim (Option-cases (codec.parse flux)) [
      | inl e ↦ rw (decode, e) (failed-IsSound width height _ s)
      | inr (bs, e) ↦ rw (decode, e) (decode_blocks-IsSound width height small low codec bs _ s)
    ]
