-- ===== src/Rdp/Egfx/Safe.antt =====
-- The commands of rdp-sidecar/src/egfx.rs that draw, on a sane channel.
use avash.Base.{
  true, leb, length, ℕ, ◌+◌, ◌*◌, ◌||◌, ◌≡◌, refl, ap, ◌∙◌, inl, inr, Option, none, some, [], arith,
  take, drop, ltb, ◌==◌, Bool-cases, Option-cases,
}
use avash.Base.Text.{Bytes}
use avash.Base.Table.{Table, find, put, AllValues-find}
use avash.Rdp.Frame.{slice}
use avash.Rdp.Surface.{Zone, of_edges, write, extract}
use avash.Rdp.Cache.{Cache, read}
use avash.Rdp.Cache.Budget.{IsWithin, deposit-IsWithin}
use avash.Rdp.Progressive.Decoder.{Canvas, Decoded}
use avash.Rdp.Progressive.Region.{decode}
use avash.Rdp.Progressive.Kept.{IsSound}
use avash.Rdp.Progressive.Sound.{decode-IsSound}
use avash.Rdp.Egfx.Pdu.{u16_at, u32_at}
use avash.Rdp.Egfx.State.{Codecs, Egfx}
use avash.Rdp.Egfx.Commands.{
  paste_all, redrawn, surface_to_surface, surface_to_cache, cache_to_surface, decoded,
  decode_surface, image_of, drawn_image, wire_to_surface, codec_progressive, codec_clear,
  codec_planar, codec_raw,
}
use avash.Rdp.Egfx.Redrawn.{write-IsRedrawn, start-IsDrawn, paste_all-IsDrawn}
use avash.Rdp.Egfx.Sane.{
  Kept, indexes, IsCanvas, put-IsHeld, IsSane, publish-IsSane, redrawn-IsSane,
}

decoded-IsCanvas :
    (c : Canvas) (d : Decoded)
    → IsCanvas c
    → IsSound c.surface.width c.surface.height d
    → IsCanvas d.canvas
decoded-IsCanvas c d k s = record {
  wide = omega (arith, s.wide, k.wide);
  high = omega (arith, s.high, k.high);
  whole = rw (s.wide, s.high) s.whole;
  few = s.few;
  placed = rw (s.wide, s.high) s.placed;
}

module _ (codecs : Codecs) where
  -- Pixels pasted at the points that follow.
  pasted-IsSane :
      (e : Egfx codecs) (id n : ℕ) (rest : Bytes) (width height : ℕ) (pixels : Bytes) (c : Canvas)
      → IsSane codecs e
      → find e.surfaces id ≡ some c
      → IsSane codecs (
          redrawn codecs e id c
            (paste_all n rest width height pixels (record { surface = c.surface; zones = [] })))
  pasted-IsSane e id n rest width height pixels c h f =
      redrawn-IsSane codecs e id c _ h f
        (paste_all-IsDrawn c.surface n rest width height pixels _ (start-IsDrawn c.surface)).redrawn

  pub surface_to_surface-some :
      (e : Egfx codecs) (c : Bytes)
      → leb 14 (length c) ≡ true
      → IsSane codecs e
      → Kept codecs (surface_to_surface codecs e c)
  unfolding surface_to_surface
  surface_to_surface-some e c long h =
      let has = indexes 12 14 c long (omega arith) in
      elim (Option-cases (of_edges (take 8 (drop 4 c)))) [
        | inl a ↦ rw (surface_to_surface, has, a) (e, refl, h)
        | inr (zone, a) ↦ elim (Option-cases (find e.surfaces (u16_at c 0))) [
          | inl b ↦ rw (surface_to_surface, has, a, b) (e, refl, h)
          | inr (src, b) ↦ elim (Option-cases (extract src.surface zone)) [
            | inl x ↦ rw (surface_to_surface, has, a, b, x) (e, refl, h)
            | inr ((z, pixels), x) ↦ elim (Option-cases (find e.surfaces (u16_at c 2))) [
              | inl f ↦ rw (surface_to_surface, has, a, b, x, long, f) (e, refl, h)
              | inr (canvas, f) ↦
                  rw (surface_to_surface, has, a, b, x, long, f)
                    (
                      _,
                      refl,
                      pasted-IsSane e (u16_at c 2) (u16_at c 12) (drop 14 c) z.width z.height pixels
                          canvas h f,
                    )
            ]
          ]
        ]
      ]

  pub cache_to_surface-some :
      (e : Egfx codecs) (c : Bytes)
      → leb 6 (length c) ≡ true
      → IsSane codecs e
      → Kept codecs (cache_to_surface codecs e c)
  unfolding cache_to_surface
  cache_to_surface-some e c long h = elim (Option-cases (read e.cache (u16_at c 0))) [
    | inl a ↦ rw (cache_to_surface, long, a) (e, refl, h)
    | inr (entry, a) ↦ elim (Option-cases (find e.surfaces (u16_at c 2))) [
      | inl f ↦ rw (cache_to_surface, long, a, f) (e, refl, h)
      | inr (canvas, f) ↦
          rw (cache_to_surface, long, a, f)
            (
              _,
              refl,
              pasted-IsSane e (u16_at c 2) (u16_at c 4) (drop 6 c) entry.width entry.height
                  entry.pixels canvas h f,
            )
    ]
  ]

  cached-IsSane :
      (e : Egfx codecs) (cache : Cache)
      → IsSane codecs e
      → IsWithin cache
      → IsSane codecs (record e { cache = cache })
  cached-IsSane e cache h k = record {
    counted = h.counted;
    light = h.light;
    few = h.few;
    sound = h.sound;
    cached = k;
  }

  pub surface_to_cache-some :
      (e : Egfx codecs) (c : Bytes)
      → leb 20 (length c) ≡ true
      → IsSane codecs e
      → Kept codecs (surface_to_cache codecs e c)
  unfolding surface_to_cache
  surface_to_cache-some e c long h = elim (Option-cases (of_edges (take 8 (drop 12 c)))) [
    | inl a ↦ rw (surface_to_cache, long, a) (e, refl, h)
    | inr (zone, a) ↦ elim (Option-cases (find e.surfaces (u16_at c 0))) [
      | inl b ↦ rw (surface_to_cache, long, a, b) (e, refl, h)
      | inr (src, b) ↦ elim (Option-cases (extract src.surface zone)) [
        | inl x ↦ rw (surface_to_cache, long, a, b, x) (e, refl, h)
        | inr ((z, pixels), x) ↦
            rw (surface_to_cache, long, a, b, x)
              (
                _,
                refl,
                cached-IsSane e _ h
                    (deposit-IsWithin e.cache (u16_at c 10) z.width z.height pixels h.cached),
              )
      ]
    ]
  ]

  pub decode_surface-some :
      (e : Egfx codecs) (c : Bytes)
      → leb 14 (length c) ≡ true
      → IsSane codecs e
      → Kept codecs (decode_surface codecs e c)
  unfolding decode_surface
  decode_surface-some e c long h =
      let has = indexes 4 14 c long (omega arith) in
      elim (Bool-cases (u16_at c 2 == codec_progressive)) [
        | inr a ↦ rw (decode_surface, has, a) (e, refl, h)
        | inl a ↦ elim (Option-cases (find e.surfaces (u16_at c 0))) [
          | inl f ↦ rw (decode_surface, has, a, f) (e, refl, h)
          | inr (canvas, f) ↦
              rw (decode_surface, has, a, f, indexes 13 14 c long (omega arith))
                (
                  _,
                  refl,
                  decoded-IsSane canvas (decode codecs.progressive (drop 13 c) canvas e.work) f (
                      let k = AllValues-find IsCanvas e.surfaces (u16_at c 0) canvas f h.sound in
                      decode-IsSound codecs.progressive (drop 13 c) canvas e.work
                        canvas.surface.width canvas.surface.height (omega (arith, k.wide))
                        (omega (arith, k.high))
                        (record {
                          wide = refl;
                          high = refl;
                          whole = k.whole;
                          few = k.few;
                          placed = k.placed;
                          shown = tt;
                        })),
                )
        ]
      ]
    where
      decoded-IsSane :
          (canvas : Canvas) (d : Decoded)
          → find e.surfaces (u16_at c 0) ≡ some canvas
          → IsSound canvas.surface.width canvas.surface.height d
          → IsSane codecs (decoded codecs e (u16_at c 0) d)
      decoded-IsSane canvas d f s =
          let k = AllValues-find IsCanvas e.surfaces (u16_at c 0) canvas f h.sound in
          let held : IsSane codecs
              (record e { surfaces = put e.surfaces (u16_at c 0) d.canvas; work = d.work }) =
            put-IsHeld e.surfaces e.surface_octets e.cache (u16_at c 0) canvas d.canvas h f
              (rw (s.wide, s.high) refl) (decoded-IsCanvas canvas d k s) in
          elim (Bool-cases d.succeeded) [
            | inl y ↦ rw y (publish-IsSane codecs _ (u16_at c 0) d.zones held)
            | inr n ↦ rw n held
          ]

  -- What a codec of ironrdp keeps to itself is not of the surfaces.
  image_of-IsSane :
      (e : Egfx codecs) (codec : ℕ) (octets : Bytes) (l h : ℕ)
      → IsSane codecs e
      → ((image_of codecs e codec octets l h).0.surfaces ≡ e.surfaces)
        × IsSane codecs (image_of codecs e codec octets l h).0
  unfolding image_of
  image_of-IsSane e codec octets l h k = elim (Bool-cases (codec == codec_clear)) [
    | inl a ↦ rw (image_of, a) (refl, k)
    | inr a ↦ elim (Bool-cases (codec == codec_planar)) [
      | inl b ↦ rw (image_of, a, b) (refl, k)
      | inr b ↦ elim (Bool-cases (codec == codec_raw)) [
        | inl r ↦ rw (image_of, a, b, r) (refl, k)
        | inr r ↦ rw (image_of, a, b, r) (refl, k)
      ]
    ]
  ]

  drawn_image-IsSane :
      (e : Egfx codecs) (id : ℕ) (c : Canvas) (zone : Zone) (image : Option Bytes)
      → IsSane codecs e
      → find e.surfaces id ≡ some c
      → IsSane codecs (drawn_image codecs e id c zone image)
  drawn_image-IsSane e id c zone none h f = h
  drawn_image-IsSane e id c zone (some rgba) h f =
      elim (Option-cases (write c.surface zone rgba (zone.width * 4))) [
        | inl w ↦ rw (drawn_image, w) h
        | inr ((z, s), w) ↦
            rw (drawn_image, w)
              (redrawn-IsSane codecs e id c _ h f
                (write-IsRedrawn c.surface zone rgba (zone.width * 4) (z, s) w).0)
      ]

  pub wire_to_surface-some :
      (e : Egfx codecs) (c : Bytes)
      → leb 18 (length c) ≡ true
      → IsSane codecs e
      → Kept codecs (wire_to_surface codecs e c)
  unfolding wire_to_surface
  wire_to_surface-some e c long h =
      let has = indexes 13 18 c long (omega arith) in
      let more = indexes 17 18 c long (omega arith) in
      elim (Option-cases (of_edges (take 8 (drop 5 c)))) [
        | inl a ↦ rw (wire_to_surface, has, a) (e, refl, h)
        | inr (zone, a) ↦ elim (Option-cases (slice c 17 (u32_at c 13))) [
          | inl b ↦ rw (wire_to_surface, has, a, more, b) (e, refl, h)
          | inr (octets, b) ↦ elim (Option-cases (find e.surfaces (u16_at c 0))) [
            | inl f ↦ rw (wire_to_surface, has, a, more, b, f) (e, refl, h)
            | inr (canvas, f) ↦
                let fits =
                  ltb canvas.surface.width (zone.x + zone.width)
                  || ltb canvas.surface.height (zone.y + zone.height) in
                elim (Bool-cases fits) [
                  | inl o ↦ rw (wire_to_surface, has, a, more, b, f, o) (e, refl, h)
                  | inr o ↦
                      let (same, k) =
                        image_of-IsSane e (u16_at c 2) octets zone.width zone.height h in
                      rw (wire_to_surface, has, a, more, b, f, o)
                        (
                          _,
                          refl,
                          drawn_image-IsSane
                              (image_of codecs e (u16_at c 2) octets zone.width zone.height).0
                              (u16_at c 0) canvas zone
                              (image_of codecs e (u16_at c 2) octets zone.width zone.height).1 k
                              (ap (λ (t : Table Canvas). find t (u16_at c 0)) same ∙ f),
                        )
                ]
          ]
        ]
      ]
