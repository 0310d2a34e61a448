-- ===== src/Rdp/Frame/Inside.antt =====
-- What `clamp_a_l_image` (rdp-sidecar/src/trames.rs) leaves of a rectangle.
use avash.Base.{
  ℕ, ◌-◌, ◌≤◌, ◌<◌, min, true, false, ◌≡◌, ◌↔◌, inl, inr, Option, none, some, arith, Bool-cases,
}
use avash.Rdp.Dirty.{Rect}
use avash.Rdp.Dirty.Pixels.{Holds}
use avash.Rdp.Frame.{Image, is_outside, clamp}

pub record IsInside (image : Image) (r : Rect) : Type 0 where
  pub across : r.left ≤ r.right
  pub down : r.top ≤ r.bottom
  pub in_width : r.right < image.width
  pub in_height : r.bottom < image.height

-- What is left is inside the image, and is exactly the pixels of the image in the rectangle.
abbrev pub IsClamped : Image → Rect → Option Rect → Type 0
IsClamped image r none = (x y : ℕ) → x < image.width → y < image.height → ¬ Holds x y r
IsClamped image r (some c) =
    IsInside image c
    × ((x y : ℕ) → (Holds x y r × (x < image.width) × (y < image.height)) ↔ Holds x y c)

is_outside-Holds :
    (r : Rect) (image : Image)
    → is_outside r image ≡ true
    → (x y : ℕ) → x < image.width
    → y < image.height
    → ¬ Holds x y r
is_outside-Holds r image e x y w h p = ground (arith, p)

module _ (r : Rect) (image : Image) (e : is_outside r image ≡ false) where
  abbrev cut : Rect
  cut = record {
    left = r.left;
    top = r.top;
    right = min r.right (image.width - 1);
    bottom = min r.bottom (image.height - 1);
  }

  wide_enough : (0 < image.width) × (r.left < image.width) × (r.left ≤ r.right)
  wide_enough = ground arith

  high_enough : (0 < image.height) × (r.top < image.height) × (r.top ≤ r.bottom)
  high_enough = ground arith

  cut-IsInside : IsInside image cut
  cut-IsInside = record {
    across = omega (arith, wide_enough);
    down = omega (arith, high_enough);
    in_width = omega (arith, wide_enough);
    in_height = omega (arith, high_enough);
  }

  cut-Holds : (x y : ℕ) → (Holds x y r × (x < image.width) × (y < image.height)) ↔ Holds x y cut
  cut-Holds x y = (
    λ h. (omega (arith, h), omega (arith, h), omega (arith, h), omega (arith, h)),
    λ h. (
      (omega (arith, h), omega (arith, h), omega (arith, h), omega (arith, h)),
      omega (arith, h, wide_enough),
      omega (arith, h, high_enough),
    ),
  )

-- Whatever the rectangle, `clamp_a_l_image` drops it only if no pixel of the image is in it; else
-- it gives the rectangle, inside the image, of the pixels of the image that are in it.
pub clamp-IsClamped : (r : Rect) (image : Image) → IsClamped image r (clamp r image)
unfolding clamp
clamp-IsClamped r image = elim (Bool-cases (is_outside r image)) [
  | inl e ↦ rw (clamp, e) (is_outside-Holds r image e)
  | inr e ↦ rw (clamp, e) (cut-IsInside r image e, cut-Holds r image e)
]
