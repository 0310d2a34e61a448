-- ===== src/Rdp/Egfx/Tests.antt =====
-- The theorems on the graphics channel (rdp-sidecar/src/egfx.rs and progressif.rs), on a small surface.
use avash.Base.{◌*◌, true, ◌≡◌, refl, none, some, List, [], ◌∷◌, ◌++◌, arith, replicate}
use avash.Base.Text.{Bytes}
use avash.Rdp.Frame.{le16}
use avash.Rdp.Surface.{new_surface}
use avash.Rdp.Progressive.Refine.{Quant}
use avash.Rdp.Progressive.Decoder.{Canvas, Codec, simple, region, new_work}
use avash.Rdp.Progressive.Region.{decode}
use avash.Rdp.Progressive.Kept.{IsSound}
use avash.Rdp.Progressive.Sound.{decode-IsSound}
use avash.Rdp.Egfx.Pdu.{le32}
use avash.Rdp.Egfx.State.{Codecs, Egfx}
use avash.Rdp.Egfx.Handle.{new_egfx, process}
use avash.Rdp.Egfx.Sane.{IsSane}
use avash.Rdp.Egfx.Sound.{new_egfx-IsSane, process-IsSane}

-- A decoder that paints every tile with one colour.
abbrev no_quant : Quant
no_quant = replicate 10 0

abbrev white : Codec
white = record {
  parse = λ flux. some (
      region (record {
        extrapolate = true;
        quant_vals = no_quant ∷ [];
        quant_prog_vals = [];
        tiles =
            simple (record {
              x = 0;
              y = 0;
              quant_luma = 0;
              quant_blue = 0;
              quant_red = 0;
              flags = 0;
              quality = 0;
              luma = [];
              blue = [];
              red = [];
            })
            ∷ [];
      })
      ∷ []);
  layout = [];
  lossless = no_quant;
  first_pass = λ octets base prog extrapolate coeffs signs. (coeffs, signs, true);
  wavelets = λ extrapolate work. some work;
  to_rgba = λ luma blue red tile. (replicate (64 * 64 * 4) 255, true);
}

abbrev blank : Canvas
blank = record { surface = new_surface 2 1; tiles = [] }

decode-IsSound_example : IsSound 2 1 (decode white [] blank new_work)
unfolding new_surface
decode-IsSound_example =
    decode-IsSound white [] blank new_work 2 1 (omega arith) (omega arith) (record {
      wide = refl;
      high = refl;
      whole = refl;
      few = omega arith;
      placed = tt;
      shown = tt;
    })

abbrev codecs : Codecs
codecs = record {
  Clear = Unit;
  Planar = Unit;
  clear_decode = λ c octets l h. (c, none);
  planar_decode = λ p octets l h. (p, none);
  progressive = white;
}

-- A surface of two pixels, a fill of it, and the end of the frame.
abbrev segment : Bytes
segment =
    (le16 0x09 ++ (le16 0 ++ (le32 15 ++ (le16 1 ++ (le16 2 ++ (le16 1 ++ (0x20 ∷ [])))))))
    ++ ((le16 0x04
          ++ (le16 0
              ++ (le32 24
                  ++ (le16 1
                      ++ (1
                          ∷ 2
                          ∷ 3
                          ∷ 0
                          ∷ (le16 1 ++ (le16 0 ++ (le16 0 ++ (le16 2 ++ le16 1)))))))))
        ++ (le16 0x0c ++ (le16 0 ++ (le32 12 ++ le32 7))))

abbrev begun : Egfx codecs
begun = new_egfx codecs tt tt

process-IsSane_example :
    (e' : Egfx codecs) × (answers : List Bytes) × (process codecs begun (some segment)
      ≡ some (e', answers))
    × IsSane codecs e'
process-IsSane_example = process-IsSane codecs begun (some segment) (new_egfx-IsSane codecs tt tt)
