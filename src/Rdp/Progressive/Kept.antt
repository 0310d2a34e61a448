-- ===== src/Rdp/Progressive/Kept.antt =====
-- What a tile of rdp-sidecar/src/progressif.rs leaves of those that are kept.
use avash.Base.{
  ℕ, zero, suc, ◌+◌, ◌*◌, ◌%◌, ◌≤◌, ◌<◌, Bool, false, not, ◌&&◌, ◌≡◌, refl, ◌∙◌, inl, inr, some, [],
  ◌∷◌, arith, length, All, ltb, leb, ◌==◌, if◌then◌else◌, Bool-cases, Option-cases,
}
use avash.Base.Text.{Bytes}
use avash.Rdp.Frame.{slice}
use avash.Rdp.Surface.{splice}
use avash.Rdp.Surface.Crop.{FitsIn}
use avash.Rdp.Surface.Rows.{length-splice}
use avash.Rdp.Progressive.Refine.{bands, refine}
use avash.Rdp.Progressive.Decoder.{
  Tile, Tiles, same_key, find_tile, put_tile, Work, Pass, Upgrade, Quants, Codec, Decoded,
  tiles_max, copy_rows, is_outside,
}
use avash.Rdp.Progressive.Region.{
  Part, is_some, fallback, with_tile, failed, first_part, three_parts, first_tile, refined_part,
  upgrade_tile,
}

pub copy_rows-length :
    (tile : Bytes) (wide sl x0 y0 n row : ℕ) (buf : Bytes)
    → length (copy_rows tile wide sl x0 y0 n row buf).0 ≡ length buf
unfolding copy_rows
copy_rows-length tile wide sl x0 y0 zero row buf = refl
copy_rows-length tile wide sl x0 y0 (suc n) row buf =
    elim (Option-cases (slice tile (row * 64 * 4) (wide * 4))) [
      | inl e ↦ rw (copy_rows, e) refl
      | inr (b, e) ↦ elim (Bool-cases (ltb (length buf) (((y0 + row) * sl + x0) * 4 + wide * 4))) [
        | inl t ↦ rw (copy_rows, e, t) refl
        | inr t ↦
            rw (copy_rows, e, t)
              (copy_rows-length tile wide sl x0 y0 n (row + 1)
                  (splice buf (((y0 + row) * sl + x0) * 4) b)
                ∙ length-splice buf (((y0 + row) * sl + x0) * 4) b)
      ]
    ]

-- A place in the grid of a surface.
abbrev pub InGrid : ℕ → ℕ → ℕ × ℕ → Type 0
InGrid width height key = (key.0 * 64 < width) × (key.1 * 64 < height)

module _ (width height : ℕ) where
  abbrev pub AllInGrid : Tiles → Type 0
  AllInGrid = All (λ (kt : (ℕ × ℕ) × Tile). InGrid width height kt.0)

  -- The surface has its size and its buffer, the tiles are in it and not too many, and so are the zones.
  pub record IsSound (d : Decoded) : Type 0 where
    pub wide : d.canvas.surface.width ≡ width
    pub high : d.canvas.surface.height ≡ height
    pub whole : length d.canvas.surface.pixels ≡ width * height * 4
    pub few : length d.canvas.tiles ≤ tiles_max
    pub placed : AllInGrid d.canvas.tiles
    pub shown : All (FitsIn width height) d.zones

  find_tile-InGrid :
      (l : Tiles) (key : ℕ × ℕ) (t : Tile)
      → find_tile l key ≡ some t
      → AllInGrid l
      → InGrid width height key
  unfolding find_tile
  find_tile-InGrid [] key t e h = cc
  find_tile-InGrid ((k, u) ∷ r) key t e h = ground (arith, find_tile-InGrid r key t)

  put_tile-AllInGrid :
      (l : Tiles) (key : ℕ × ℕ) (t : Tile)
      → AllInGrid l
      → InGrid width height key
      → AllInGrid (put_tile l key t)
  unfolding put_tile
  put_tile-AllInGrid [] key t h k = (k, tt)
  put_tile-AllInGrid ((j, u) ∷ r) key t h k = elim (Bool-cases (same_key j key)) [
    | inl y ↦ rw (put_tile, y) (k, h.1)
    | inr n ↦ rw (put_tile, n) (h.0, put_tile-AllInGrid r key t h.1 k)
  ]

  put_tile-length :
      (l : Tiles) (key : ℕ × ℕ) (t : Tile)
      → length (put_tile l key t) ≡ (if is_some (find_tile l key) then length l else length l + 1)
  unfolding put_tile find_tile
  put_tile-length [] key t = refl
  put_tile-length ((j, u) ∷ r) key t = ground (arith, put_tile-length r key t)

  -- A tile has room: it is kept already, or fewer than the most are.
  abbrev HasRoom : Tiles → ℕ × ℕ → Type 0
  HasRoom l key = is_some (find_tile l key) ≡ false → length l < tiles_max

  with_tile-IsSound :
      (d : Decoded) (key : ℕ × ℕ) (t : Tile) (w : Work) (b : Bool)
      → IsSound d
      → InGrid width height key
      → HasRoom d.canvas.tiles key
      → IsSound (with_tile d key t w b)
  with_tile-IsSound d key t w b s k room = record {
    wide = s.wide;
    high = s.high;
    whole = s.whole;
    few = elim (Bool-cases (is_some (find_tile d.canvas.tiles key))) [
      | inl y ↦ rw (put_tile-length d.canvas.tiles key t, y) s.few
      | inr n ↦ rw (put_tile-length d.canvas.tiles key t, n) (omega (arith, room n))
    ];
    placed = put_tile-AllInGrid d.canvas.tiles key t s.placed k;
    shown = s.shown;
  }

  pub failed-IsSound : (d : Decoded) → IsSound d → IsSound (failed d)
  failed-IsSound d s = record {
    wide = s.wide;
    high = s.high;
    whole = s.whole;
    few = s.few;
    placed = s.placed;
    shown = s.shown;
  }

  three_parts-IsSound :
      (codec : Codec) (luma blue red : Part) (t : Tile) (key : ℕ × ℕ) (d : Decoded)
      → IsSound d
      → InGrid width height key
      → HasRoom d.canvas.tiles key
      → IsSound (three_parts codec luma blue red t key d)
  unfolding three_parts
  three_parts-IsSound codec luma blue red t key d s k room = elim (Bool-cases luma.succeeded) [
    | inr n ↦ rw (three_parts, n) (with_tile-IsSound d key _ _ false s k room)
    | inl y ↦ elim (Bool-cases blue.succeeded) [
      | inr n ↦ rw (three_parts, y, n) (with_tile-IsSound d key _ _ false s k room)
      | inl z ↦ rw (three_parts, y, z) (with_tile-IsSound d key _ _ red.succeeded s k room)
    ]
  ]

  pub inside :
      (d : Decoded) (x y : ℕ)
      → IsSound d
      → is_outside d.canvas.surface x y ≡ false
      → InGrid width height (x, y)
  inside d x y s e = ground (arith, s.wide, s.high)

  pub first_tile-IsSound :
      (codec : Codec) (p : Pass) (base prog : Quants) (extrapolate : Bool) (d : Decoded)
      → IsSound d
      → IsSound (first_tile codec p base prog extrapolate d)
  unfolding first_tile
  first_tile-IsSound codec p base prog extrapolate d s =
      elim (Bool-cases (is_outside d.canvas.surface p.x p.y)) [
        | inl y ↦ rw (first_tile, y) s
        | inr n ↦
            elim (Bool-cases (
              leb tiles_max (length d.canvas.tiles)
              && not (is_some (find_tile d.canvas.tiles (p.x, p.y))))) [
                | inl y ↦ rw (first_tile, n, y) (failed-IsSound d s)
                | inr m ↦
                    rw (first_tile, n, m)
                      (let t = fallback (find_tile d.canvas.tiles (p.x, p.y)) in
                        let difference = p.flags % 2 == 1 in
                        three_parts-IsSound codec
                          (first_part codec p.luma base.luma prog.luma difference extrapolate
                            t.luma)
                          (first_part codec p.blue base.blue prog.blue difference extrapolate
                            t.blue)
                          (first_part codec p.red base.red prog.red difference extrapolate t.red) t
                          (p.x, p.y) d s (inside d p.x p.y s n) (λ e. ground arith))
              ]
      ]

  pub upgrade_tile-IsSound :
      (codec : Codec) (u : Upgrade) (base prog : Quants) (extrapolate : Bool) (t : Tile)
      (d : Decoded)
      → IsSound d
      → find_tile d.canvas.tiles (u.x, u.y) ≡ some t
      → IsSound (upgrade_tile codec u base prog extrapolate t d)
  unfolding upgrade_tile
  upgrade_tile-IsSound codec u base prog extrapolate t d s e =
      three_parts-IsSound codec
        (refined_part codec d.work.luma (
          refine (bands codec.layout extrapolate) u.luma_srl u.luma_raw base.luma prog.luma t.luma))
        (refined_part codec d.work.blue (
          refine (bands codec.layout extrapolate) u.blue_srl u.blue_raw base.blue prog.blue t.blue))
        (refined_part codec d.work.red
          (refine (bands codec.layout extrapolate) u.red_srl u.red_raw base.red prog.red t.red))
        t (u.x, u.y) d s (find_tile-InGrid d.canvas.tiles (u.x, u.y) t e s.placed)
        (λ f. cc (rw e at f))
