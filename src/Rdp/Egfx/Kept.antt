-- ===== src/Rdp/Egfx/Kept.antt =====
-- The steps of rdp-sidecar/src/egfx.rs that make, drop and resize surfaces, on a sane channel.
use avash.Base.{
  ℕ, ◌+◌, ◌-◌, ◌*◌, true, false, not, ◌&&◌, ◌≡◌, refl, sym, ◌∙◌, inl, inr, arith, length,
  length-replicate, ltb, leb, Bool-cases,
}
use avash.Base.Text.{Bytes}
use avash.Base.Table.{
  Table, find, put, delete, map_values, is_some, AllValues-put, AllValues-delete,
  AllValues-map_values, weight_of, put-total, put-length, weight-le-total, delete-total,
  delete-length, map_values-total, map_values-length,
}
use avash.Rdp.Surface.{new_surface}
use avash.Rdp.Cache.{Cache, forget}
use avash.Rdp.Cache.Budget.{forget-IsWithin}
use avash.Rdp.Progressive.Decoder.{Canvas}
use avash.Rdp.Egfx.Pdu.{u16_at, u32_at}
use avash.Rdp.Egfx.State.{Codecs, Egfx, surfaces_max, surface_octets_max, octets_of, weight}
use avash.Rdp.Egfx.Handle.{
  is_size, new_canvas, without_tiles, create_surface, delete_surface, map_surface, reset_graphics,
  evict,
}
use avash.Rdp.Egfx.Sane.{IsCanvas, IsHeld, IsSane, Kept, indexes}

new_canvas-IsCanvas : (l h : ℕ) → is_size l h ≡ true → IsCanvas (new_canvas l h)
unfolding new_surface
new_canvas-IsCanvas l h e = record {
  wide = grind arith;
  high = grind arith;
  whole = length-replicate (l * h * 4) 0;
  few = omega arith;
  placed = tt;
}

without_tiles-IsCanvas : (c : Canvas) → IsCanvas c → IsCanvas (without_tiles c)
without_tiles-IsCanvas c k = record {
  wide = k.wide;
  high = k.high;
  whole = k.whole;
  few = omega arith;
  placed = tt;
}

module _ (codecs : Codecs) where
  pub create_surface-some :
      (e : Egfx codecs) (c : Bytes)
      → leb 7 (length c) ≡ true
      → IsSane codecs e
      → Kept codecs (create_surface codecs e c)
  unfolding create_surface
  create_surface-some e c long k =
      let has = indexes 6 7 c long (omega arith) in
      let id = u16_at c 0 in
      let l = u16_at c 2 in
      let h = u16_at c 4 in
      let old = weight_of weight (find e.surfaces id) in
      elim (Bool-cases (is_size l h)) [
        | inr a ↦ (e, rw (has, a) refl, k)
        | inl a ↦
            let enough : ltb e.surface_octets old ≡ false =
              ground (arith, k.counted, weight-le-total weight e.surfaces id) in
            elim (Bool-cases
              (not (is_some (find e.surfaces id)) && leb surfaces_max (length e.surfaces))) [
                | inl b ↦ (e, rw (has, a, enough, b) refl, k)
                | inr b ↦
                    elim (Bool-cases
                      (ltb surface_octets_max (e.surface_octets - old + octets_of l h))) [
                        | inl t ↦ (e, rw (has, a, enough, b, t) refl, k)
                        | inr t ↦ (
                          record e {
                            surface_octets = e.surface_octets - old + octets_of l h;
                            surfaces = put e.surfaces id (new_canvas l h);
                          },
                          rw (has, a, enough, b, t) refl,
                          record {
                            counted = grind (
                              arith,
                              k.counted,
                              enough,
                              put-total weight e.surfaces id (new_canvas l h),
                            );
                            light = grind (arith, t);
                            few =
                                ground (arith, k.few, b, put-length e.surfaces id (new_canvas l h));
                            sound =
                                AllValues-put IsCanvas e.surfaces id (new_canvas l h) k.sound
                                  (new_canvas-IsCanvas l h a);
                            cached = k.cached;
                          },
                        )
                      ]
              ]
      ]

  pub delete_surface-some :
      (e : Egfx codecs) (c : Bytes)
      → leb 2 (length c) ≡ true
      → IsSane codecs e
      → Kept codecs (delete_surface codecs e c)
  unfolding delete_surface
  delete_surface-some e c long k =
      let id = u16_at c 0 in
      let old = weight_of weight (find e.surfaces id) in
      let enough : ltb e.surface_octets old ≡ false =
        ground (arith, k.counted, weight-le-total weight e.surfaces id) in
      (
        record e {
          surfaces = delete e.surfaces id;
          surface_octets = e.surface_octets - old;
          origins = delete e.origins id;
        },
        rw (long, enough) refl,
        record {
          counted = omega (arith, k.counted, delete-total weight e.surfaces id);
          light = omega (arith, k.light);
          few = omega (arith, k.few, delete-length e.surfaces id);
          sound = AllValues-delete IsCanvas e.surfaces id k.sound;
          cached = k.cached;
        },
      )

  pub map_surface-some :
      (e : Egfx codecs) (c : Bytes)
      → leb 12 (length c) ≡ true
      → IsSane codecs e
      → Kept codecs (map_surface codecs e c)
  unfolding map_surface
  map_surface-some e c long k =
      elim (Bool-cases (ltb (u32_at c 4) 65536 && ltb (u32_at c 8) 65536)) [
        | inl a ↦ rw (map_surface, long, a) (_, refl, k)
        | inr a ↦ rw (map_surface, long, a) (_, refl, k)
      ]

  emptied-IsHeld :
      (surfaces : Table Canvas) (octets : ℕ) (cache : Cache)
      → IsHeld surfaces octets cache
      → IsHeld (map_values without_tiles surfaces) octets cache
  emptied-IsHeld surfaces octets cache k = record {
    counted = k.counted ∙ sym (map_values-total weight without_tiles surfaces (λ c. refl));
    light = k.light;
    few = rw (map_values-length without_tiles surfaces) k.few;
    sound = AllValues-map_values IsCanvas without_tiles surfaces without_tiles-IsCanvas k.sound;
    cached = k.cached;
  }

  pub reset_graphics-some :
      (e : Egfx codecs) (c : Bytes)
      → leb 8 (length c) ≡ true
      → IsSane codecs e
      → Kept codecs (reset_graphics codecs e c)
  unfolding reset_graphics
  reset_graphics-some e c long k = elim (Bool-cases (is_size (u32_at c 0) (u32_at c 4))) [
    | inl a ↦
        rw (reset_graphics, long, a) (_, refl, emptied-IsHeld e.surfaces e.surface_octets e.cache k)
    | inr a ↦
        rw (reset_graphics, long, a) (_, refl, emptied-IsHeld e.surfaces e.surface_octets e.cache k)
  ]

  forgotten-IsSane :
      (e : Egfx codecs) (slot : ℕ)
      → IsSane codecs e
      → IsSane codecs (record e { cache = forget e.cache slot })
  forgotten-IsSane e slot k = record {
    counted = k.counted;
    light = k.light;
    few = k.few;
    sound = k.sound;
    cached = forget-IsWithin e.cache slot k.cached;
  }

  pub evict-some :
      (e : Egfx codecs) (c : Bytes)
      → leb 2 (length c) ≡ true
      → IsSane codecs e
      → Kept codecs (evict codecs e c)
  unfolding evict
  evict-some e c long k = rw (evict, long) (_, refl, forgotten-IsSane e (u16_at c 0) k)
