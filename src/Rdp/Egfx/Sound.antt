-- ===== src/Rdp/Egfx/Sound.antt =====
-- `traiter` and `process` of rdp-sidecar/src/egfx.rs, on a sane channel.
use avash.Base.{
  ℕ, zero, suc, ◌+◌, ◌-◌, ◌<◌, ◌&&◌, ◌||◌, inl, inr, ltb, leb, length, length-drop, take, drop,
  Bool-cases, Bool, true, false, ◌≡◌, refl, Option, none, some, List, [], ◌∷◌, arith, if◌then◌else◌,
}
use avash.Base.Text.{Bytes}
use avash.Rdp.Cache.Budget.{empty-IsWithin}
use avash.Rdp.Egfx.Pdu.{u16_at, u32_at, Pdu, split_from, split}
use avash.Rdp.Egfx.State.{Codecs, Egfx}
use avash.Rdp.Egfx.Handle.{new_egfx, quiet, end_frame, handle, answered, handle_all, process}
use avash.Rdp.Egfx.Sane.{IsSane, Kept, solid_fill-some}
use avash.Rdp.Egfx.Safe.{
  surface_to_surface-some, surface_to_cache-some, cache_to_surface-some, decode_surface-some,
  wire_to_surface-some,
}
use avash.Rdp.Egfx.Kept.{
  create_surface-some, delete_surface-some, map_surface-some, reset_graphics-some, evict-some,
}

module _ (codecs : Codecs) where
  -- What a step with an answer gives: no panic, and a sane channel.
  abbrev Answered : Option (Egfx codecs × Option Bytes) → Type 0
  Answered r =
      (e : Egfx codecs) × (answer : Option Bytes) × (r ≡ some (e, answer)) × IsSane codecs e

  Answered-quiet : (r : Option (Egfx codecs)) → Kept codecs r → Answered (quiet codecs r)
  Answered-quiet r (e, q, k) = (e, none, rw q refl, k)

  Answered-if :
      (a h : Bool) (x y : Option (Egfx codecs × Option Bytes))
      → (h ≡ true → Answered x)
      → Answered y
      → Answered (if a && h then x else y)
  Answered-if true true x y f k = f refl
  Answered-if true false x y f k = k
  Answered-if false h x y f k = k

  -- One command, or what follows.
  Answered-step :
      (a h : Bool) (r : Option (Egfx codecs)) (y : Option (Egfx codecs × Option Bytes))
      → (h ≡ true → Kept codecs r)
      → Answered y
      → Answered (if a && h then quiet codecs r else y)
  Answered-step a h r y f k =
      Answered-if a h (quiet codecs r) y (λ long. Answered-quiet r (f long)) k

  end_frame-Answered :
      (e : Egfx codecs) (c : Bytes)
      → leb 4 (length c) ≡ true
      → IsSane codecs e
      → Answered (end_frame codecs e c)
  unfolding end_frame
  end_frame-Answered e c long k = rw (end_frame, long) (_, _, refl, k)

  handle-some : (e : Egfx codecs) (p : Pdu) → IsSane codecs e → Answered (handle codecs e p)
  unfolding handle
  handle-some e p k =
      let c = p.charge in
      Answered-step _ _ _ _ (λ l. create_surface-some codecs e c l k)
        (Answered-step _ _ _ _ (λ l. delete_surface-some codecs e c l k)
          (Answered-step _ _ _ _ (λ l. map_surface-some codecs e c l k)
            (Answered-step _ _ _ _ (λ l. reset_graphics-some codecs e c l k)
              (Answered-step _ _ _ _ (λ l. wire_to_surface-some codecs e c l k)
                (Answered-step _ _ _ _ (λ l. decode_surface-some codecs e c l k)
                  (Answered-step _ _ _ _ (λ l. solid_fill-some codecs e c l k)
                    (Answered-step _ _ _ _ (λ l. surface_to_surface-some codecs e c l k)
                      (Answered-step _ _ _ _ (λ l. surface_to_cache-some codecs e c l k)
                        (Answered-step _ _ _ _ (λ l. cache_to_surface-some codecs e c l k)
                          (Answered-step _ _ _ _ (λ l. evict-some codecs e c l k)
                            (Answered-if _ _ _ _ (λ l. end_frame-Answered e c l k)
                              (e, none, refl, k))))))))))))

  handle_all-some :
      (e : Egfx codecs) (ps : List Pdu)
      → IsSane codecs e
      → (e' : Egfx codecs) × (answers : List Bytes) × (handle_all codecs e ps ≡ some (e', answers))
        × IsSane codecs e'
  unfolding handle_all
  handle_all-some e [] k = (e, [], refl, k)
  handle_all-some e (p ∷ ps) k =
      let (e', answer, run, k') = handle-some e p k in
      let (e'', answers, rest, k'') = handle_all-some e' ps k' in
      (e'', answered codecs answer answers, rw (handle_all, run, rest) refl, k'')

-- The bytes of a segment are cut without a panic, and the loop ends.
split_from-some : (f : ℕ) (o : Bytes) → length o < f → (ps : List Pdu) × (split_from f o ≡ some ps)
unfolding split_from
split_from-some zero o h = absurd (omega (arith, h))
split_from-some (suc f) o h = elim (Bool-cases (leb 8 (length o))) [
  | inr a ↦ ([], rw a refl)
  | inl a ↦
      let n = u32_at o 4 in
      elim (Bool-cases (ltb n 8 || ltb (length o) n)) [
        | inl b ↦ ([], rw (a, b) refl)
        | inr b ↦
            let within : (leb 8 n && leb n (length o)) ≡ true = ground (arith, b) in
            let (ps, rest) =
              split_from-some f (drop n o) (ground (arith, length-drop n o, h, b, a)) in
            (
              record { id = u16_at o 0; charge = take (n - 8) (drop 8 o) } ∷ ps,
              rw (a, b, within, rest) refl,
            )
      ]
]

split-some : (o : Bytes) → (ps : List Pdu) × (split o ≡ some ps)
unfolding split
split-some o = split_from-some (length o + 1) o (omega arith)

-- A new channel is sane.
pub new_egfx-IsSane :
    (codecs : Codecs) (clear : codecs.Clear) (planar : codecs.Planar)
    → IsSane codecs (new_egfx codecs clear planar)
unfolding new_egfx
new_egfx-IsSane codecs clear planar = record {
  counted = refl;
  light = omega arith;
  few = omega arith;
  sound = tt;
  cached = empty-IsWithin;
}

-- From a sane channel, `process` never panics, whatever the segment and whatever ironrdp makes of it, and it leaves a
-- sane channel: at most 64 surfaces of at most 8192 by 8192 pixels and 512 MiB together, counted exactly, their
-- buffers whole, their tiles in their grids and no more than 16384 each, and a cache within its own bounds.
pub process-IsSane :
    (codecs : Codecs) (e : Egfx codecs) (segment : Option Bytes)
    → IsSane codecs e
    → (e' : Egfx codecs) × (answers : List Bytes) × (process codecs e segment ≡ some (e', answers))
      × IsSane codecs e'
unfolding process
process-IsSane codecs e none k = (_, [], refl, k)
process-IsSane codecs e (some clear) k =
    let (ps, cut) = split-some clear in rw (process, cut) (handle_all-some codecs _ ps k)
