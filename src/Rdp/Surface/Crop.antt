-- ===== src/Rdp/Surface/Crop.antt =====
-- What `rognee` and `depuis_bords` (rdp-sidecar/src/surface.rs) give.
use avash.Base.{
  ℕ, ◌+◌, ◌-◌, ◌≤◌, ◌<◌, min, Bool, true, false, ◌||◌, ◌≡◌, subst, ◌↔◌, inl, inr, Option, none,
  some, arith, leb, ◌==◌, Bool-cases,
}
use avash.Rdp.Surface.{Zone, crop}

-- The pixel lies in the zone; its upper bounds are excluded.
abbrev pub In : ℕ → ℕ → Zone → Type 0
In px py z = (z.x ≤ px) × (px < z.x + z.width) × (z.y ≤ py) × (py < z.y + z.height)

pub record FitsIn (width height : ℕ) (z : Zone) : Type 0 where
  pub some_width : 0 < z.width
  pub some_height : 0 < z.height
  pub to_right : z.x + z.width ≤ width
  pub to_bottom : z.y + z.height ≤ height

abbrev pub IsCropped : Zone → ℕ → ℕ → Option Zone → Type 0
IsCropped z width height none = (px py : ℕ) → px < width → py < height → ¬ In px py z
IsCropped z width height (some c) =
    FitsIn width height c × ((px py : ℕ) → (In px py z × (px < width) × (py < height)) ↔ In px py c)

abbrev is_off : Zone → ℕ → ℕ → Bool
is_off z width height = leb width z.x || leb height z.y || z.width == 0 || z.height == 0

is_off-In :
    (z : Zone) (width height : ℕ)
    → is_off z width height ≡ true
    → (px py : ℕ) → px < width
    → py < height
    → ¬ In px py z
is_off-In z width height e px py w h p = ground (arith, p)

module _ (z : Zone) (width height : ℕ) (e : is_off z width height ≡ false) where
  abbrev cut : Zone
  cut = record {
    x = z.x;
    y = z.y;
    width = min z.width (width - z.x);
    height = min z.height (height - z.y);
  }

  on : (z.x < width) × (z.y < height) × (0 < z.width) × (0 < z.height)
  on = ground arith

  cut-FitsIn : FitsIn width height cut
  cut-FitsIn = record {
    some_width = omega (arith, on);
    some_height = omega (arith, on);
    to_right = omega (arith, on);
    to_bottom = omega (arith, on);
  }

  cut-In : (px py : ℕ) → (In px py z × (px < width) × (py < height)) ↔ In px py cut
  cut-In px py = (
    λ h. (omega (arith, h), omega (arith, h), omega (arith, h), omega (arith, h)),
    λ h. (
      (omega (arith, h), omega (arith, h), omega (arith, h), omega (arith, h)),
      omega (arith, h, on),
      omega (arith, h, on),
    ),
  )

-- Whatever the zone, `rognee` drops it only if no pixel of the surface is in it; else it gives the
-- zone, not empty and inside the surface, of the pixels of the surface that are in it.
pub crop-IsCropped : (z : Zone) (width height : ℕ) → IsCropped z width height (crop z width height)
unfolding crop
crop-IsCropped z width height = elim (Bool-cases (is_off z width height)) [
  | inl e ↦ rw (crop, e) (is_off-In z width height e)
  | inr e ↦ rw (crop, e) (cut-FitsIn z width height e, cut-In z width height e)
]

some-eq : {a b : Zone} → ◌≡◌ {A = Option Zone} (some a) (some b) → a ≡ b
some-eq e = cc

pub crop-narrow :
    (zone z : Zone) (width height : ℕ) → crop zone width height ≡ some z → z.width ≤ zone.width
unfolding crop
crop-narrow zone z width height c = elim (Bool-cases (is_off zone width height)) [
  | inl e ↦ absurd (cc (rw (crop, e) at c))
  | inr e ↦ subst (λ (z : Zone). z.width ≤ zone.width) (some-eq (rw (crop, e) at c)) (omega arith)
]
