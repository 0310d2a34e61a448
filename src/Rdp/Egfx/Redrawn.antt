-- ===== src/Rdp/Egfx/Redrawn.antt =====
-- What the drawing commands of rdp-sidecar/src/egfx.rs leave of a surface.
use avash.Base.{
  ℕ, zero, suc, ◌*◌, ◌≡◌, refl, subst, ◌∙◌, inl, inr, some, [], ◌∷◌, ◌++◌, length, drop, All,
  All-append, leb, Bool-cases, Option-cases, some-eq,
}
use avash.Base.Text.{Bytes}
use avash.Rdp.Surface.{Surface, Zone, crop, write, of_edges, colour_row}
use avash.Rdp.Surface.Crop.{FitsIn}
use avash.Rdp.Surface.Rows.{write_rows-length}
use avash.Rdp.Surface.RoundTrip.{IsWhole, crop-FitsIn}
use avash.Rdp.Surface.Fill.{fill-write}
use avash.Rdp.Egfx.Commands.{Drawn, fill_zones, target_at, paste_all}

-- A surface drawn anew: its size is kept, its buffer is whole.
pub record IsRedrawn (s s' : Surface) : Type 0 where
  pub wide : s'.width ≡ s.width
  pub high : s'.height ≡ s.height
  pub whole : length s'.pixels ≡ length s.pixels

abbrev pub IsRedrawn-refl : (s : Surface) → IsRedrawn s s
IsRedrawn-refl s = record { wide = refl; high = refl; whole = refl }

pub IsRedrawn-trans : {a b c : Surface} → IsRedrawn a b → IsRedrawn b c → IsRedrawn a c
IsRedrawn-trans h k = record {
  wide = k.wide ∙ h.wide;
  high = k.high ∙ h.high;
  whole = k.whole ∙ h.whole;
}

pub IsRedrawn-IsWhole : {s s' : Surface} → IsRedrawn s s' → IsWhole s → IsWhole s'
IsRedrawn-IsWhole h k = rw (h.whole, h.wide, h.high) k

-- What a write leaves: the surface redrawn, and a zone in it.
pub write-IsRedrawn :
    (s : Surface) (zone : Zone) (source : Bytes) (stride : ℕ) (p : Zone × Surface)
    → write s zone source stride ≡ some p
    → IsRedrawn s p.1 × FitsIn s.width s.height p.0
unfolding write
write-IsRedrawn s zone source stride p e = elim (Option-cases (crop zone s.width s.height)) [
  | inl c ↦ absurd (cc (rw (write, c) at e))
  | inr (z, c) ↦
      subst (λ (p : Zone × Surface). IsRedrawn s p.1 × FitsIn s.width s.height p.0)
        (some-eq (rw (write, c) at e))
        (
          record {
            wide = refl;
            high = refl;
            whole = write_rows-length s z source stride z.height 0 s.pixels;
          },
          crop-FitsIn zone z s.width s.height c,
        )
]

-- The surface is redrawn, and the zones lie in it.
pub record IsDrawn (s : Surface) (d : Drawn) : Type 0 where
  pub redrawn : IsRedrawn s d.surface
  pub placed : All (FitsIn s.width s.height) d.zones

pub start-IsDrawn : (s : Surface) → IsDrawn s (record { surface = s; zones = [] })
start-IsDrawn s = record { redrawn = IsRedrawn-refl s; placed = tt }

module _ (s : Surface) where
  -- One more write.
  IsDrawn-next :
      (d : Drawn) (z : Zone) (s' : Surface)
      → IsDrawn s d
      → IsRedrawn d.surface s'
      → FitsIn d.surface.width d.surface.height z
      → IsDrawn s (record { surface = s'; zones = d.zones ++ z ∷ [] })
  IsDrawn-next d z s' h r f = record {
    redrawn = IsRedrawn-trans h.redrawn r;
    placed = All-append (FitsIn s.width s.height) d.zones (z ∷ []) h.placed (
      subst (λ w. FitsIn w s.height z) h.redrawn.wide
          (subst (λ k. FitsIn d.surface.width k z) h.redrawn.high f),
      tt,
    );
  }

  pub paste_all-IsDrawn :
      (n : ℕ) (rest : Bytes) (width height : ℕ) (pixels : Bytes) (d : Drawn)
      → IsDrawn s d
      → IsDrawn s (paste_all n rest width height pixels d)
  unfolding paste_all
  paste_all-IsDrawn zero rest width height pixels d h = h
  paste_all-IsDrawn (suc n) rest width height pixels d h = elim (Bool-cases (leb 4 (length rest))) [
    | inr e ↦ rw (paste_all, e) h
    | inl e ↦
        elim (Option-cases (write d.surface (target_at rest width height) pixels (width * 4))) [
          | inl w ↦ rw (paste_all, e, w) (paste_all-IsDrawn n (drop 4 rest) width height pixels d h)
          | inr ((z, s'), w) ↦
              let (r, f) =
                write-IsRedrawn d.surface (target_at rest width height) pixels (width * 4) (z, s')
                  w in
              rw (paste_all, e, w)
                (paste_all-IsDrawn n (drop 4 rest) width height pixels
                  (record { surface = s'; zones = d.zones ++ z ∷ [] }) (IsDrawn-next d z s' h r f))
        ]
  ]

  pub fill_zones-some :
      (n : ℕ) (rest colour : Bytes) (d : Drawn)
      → IsWhole s
      → length colour ≡ 4
      → IsDrawn s d
      → (d' : Drawn) × (fill_zones n rest colour d ≡ some d') × IsDrawn s d'
  unfolding fill_zones
  fill_zones-some zero rest colour d whole four h = (d, refl, h)
  fill_zones-some (suc n) rest colour d whole four h = elim (Bool-cases (leb 8 (length rest))) [
    | inr e ↦ (d, rw (fill_zones, e) refl, h)
    | inl e ↦ elim (Option-cases (of_edges rest)) [
      | inl o ↦
          let (d', run, k) = fill_zones-some n (drop 8 rest) colour d whole four h in
          (d', rw (fill_zones, e, o) run, k)
      | inr (zone, o) ↦
          let filled = fill-write colour four d.surface zone (IsRedrawn-IsWhole h.redrawn whole) in
          elim (Option-cases (write d.surface zone (colour_row zone.width colour) 0)) [
            | inl w ↦
                let (d', run, k) = fill_zones-some n (drop 8 rest) colour d whole four h in
                (d', rw (fill_zones, e, o, filled, w) run, k)
            | inr ((z, s'), w) ↦
                let (r, f) =
                  write-IsRedrawn d.surface zone (colour_row zone.width colour) 0 (z, s') w in
                let (d', run, k) =
                  fill_zones-some n (drop 8 rest) colour
                    (record { surface = s'; zones = d.zones ++ z ∷ [] }) whole four
                    (IsDrawn-next d z s' h r f) in
                (d', rw (fill_zones, e, o, filled, w) run, k)
          ]
    ]
  ]
