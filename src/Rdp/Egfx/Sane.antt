-- ===== src/Rdp/Egfx/Sane.antt =====
-- The invariant of the graphics channel (rdp-sidecar/src/egfx.rs), and the drawing commands.
use avash.Base.{
  ℕ, true, leb, Option, ◌≤◌, ◌≡◌, refl, ap, inl, inr, some, List, [], ◌∷◌, arith, length, drop,
  get_or, Option-cases,
}
use avash.Base.Text.{Bytes}
use avash.Base.Table.{
  Table, find, put, AllValues, AllValues-put, AllValues-find, total, weight_of, put-total,
  put-length,
}
use avash.Rdp.Surface.{Surface, Zone}
use avash.Rdp.Surface.RoundTrip.{IsWhole}
use avash.Rdp.Cache.{Cache}
use avash.Rdp.Cache.Budget.{IsWithin}
use avash.Rdp.Progressive.Decoder.{Canvas, tiles_max}
use avash.Rdp.Progressive.Kept.{AllInGrid}
use avash.Rdp.Egfx.Pdu.{u16_at}
use avash.Rdp.Egfx.State.{Codecs, Egfx, size_max, surfaces_max, surface_octets_max, weight, publish}
use avash.Rdp.Egfx.Commands.{Drawn, with_surface, redrawn, solid_fill}
use avash.Rdp.Egfx.Redrawn.{IsRedrawn, IsRedrawn-IsWhole, start-IsDrawn, fill_zones-some}

-- A surface in its bounds, with the tiles that it can show.
pub record IsCanvas (c : Canvas) : Type 0 where
  pub wide : c.surface.width ≤ size_max
  pub high : c.surface.height ≤ size_max
  pub whole : IsWhole c.surface
  pub few : length c.tiles ≤ tiles_max
  pub placed : AllInGrid c.surface.width c.surface.height c.tiles

-- The surfaces are counted, few, and light together; so is what the cache holds.
pub record IsHeld (surfaces : Table Canvas) (octets : ℕ) (cache : Cache) : Type 0 where
  pub counted : octets ≡ total weight surfaces
  pub light : octets ≤ surface_octets_max
  pub few : length surfaces ≤ surfaces_max
  pub sound : AllValues IsCanvas surfaces
  pub cached : IsWithin cache

pub put-IsHeld :
    (surfaces : Table Canvas) (octets : ℕ) (cache : Cache) (id : ℕ) (old new : Canvas)
    → IsHeld surfaces octets cache
    → find surfaces id ≡ some old
    → weight new ≡ weight old
    → IsCanvas new
    → IsHeld (put surfaces id new) octets cache
put-IsHeld surfaces octets cache id old new h f w k = record {
  counted = omega (arith, h.counted, put-total weight surfaces id new, ap (weight_of weight) f, w);
  light = h.light;
  few = rw (put-length surfaces id new, f) h.few;
  sound = AllValues-put IsCanvas surfaces id new h.sound k;
  cached = h.cached;
}

-- A message long enough for the test of `traiter` is long enough for what is read of it.
pub indexes : (m n : ℕ) (c : Bytes) → leb n (length c) ≡ true → m ≤ n → leb m (length c) ≡ true
indexes m n c h le = ground (arith, h, le)

module _ (codecs : Codecs) where
  abbrev pub IsSane : Egfx codecs → Type 0
  IsSane e = IsHeld e.surfaces e.surface_octets e.cache

  -- What a step that may panic gives on a sane channel: no panic, and a sane channel.
  abbrev pub Kept : Option (Egfx codecs) → Type 0
  Kept r = (e : Egfx codecs) × (r ≡ some e) × IsSane e

  pub publish-IsSane :
      (e : Egfx codecs) (id : ℕ) (zones : List Zone) → IsSane e → IsSane (publish codecs e id zones)
  unfolding publish
  publish-IsSane e id zones h = elim (Option-cases (find e.surfaces id)) [
    | inl f ↦ rw (publish, f) h
    | inr (c, f) ↦ rw (publish, f) h
  ]

  redrawn-IsCanvas :
      (c : Canvas) (s : Surface) → IsCanvas c → IsRedrawn c.surface s → IsCanvas (with_surface c s)
  redrawn-IsCanvas c s k r = record {
    wide = omega (arith, r.wide, k.wide);
    high = omega (arith, r.high, k.high);
    whole = IsRedrawn-IsWhole r k.whole;
    few = k.few;
    placed = rw (r.wide, r.high) k.placed;
  }

  pub redrawn-IsSane :
      (e : Egfx codecs) (id : ℕ) (c : Canvas) (d : Drawn)
      → IsSane e
      → find e.surfaces id ≡ some c
      → IsRedrawn c.surface d.surface
      → IsSane (redrawn codecs e id c d)
  unfolding redrawn
  redrawn-IsSane e id c d h f r =
      publish-IsSane (record e { surfaces = put e.surfaces id (with_surface c d.surface) }) id
        d.zones
        (put-IsHeld e.surfaces e.surface_octets e.cache id c (with_surface c d.surface) h f
          (rw (r.wide, r.high) refl)
          (redrawn-IsCanvas c d.surface (AllValues-find IsCanvas e.surfaces id c f h.sound) r))

  -- A fill never panics.
  pub solid_fill-some :
      (e : Egfx codecs) (c : Bytes)
      → leb 8 (length c) ≡ true
      → IsSane e
      → Kept (solid_fill codecs e c)
  unfolding solid_fill
  solid_fill-some e c long h = elim (Option-cases (find e.surfaces (u16_at c 0))) [
    | inl f ↦ (e, rw (long, f) refl, h)
    | inr (canvas, f) ↦
        let s = canvas.surface in
        let (d, run, k) =
          fill_zones-some s (u16_at c 6) (drop 8 c)
            (get_or c 4 0 ∷ get_or c 3 0 ∷ get_or c 2 0 ∷ 0xff ∷ [])
            (record { surface = s; zones = [] })
            (AllValues-find IsCanvas e.surfaces (u16_at c 0) canvas f h.sound).whole refl
            (start-IsDrawn s) in
        (
          redrawn codecs e (u16_at c 0) canvas d,
          rw (long, f, run) refl,
          redrawn-IsSane e (u16_at c 0) canvas d h f k.redrawn,
        )
  ]
