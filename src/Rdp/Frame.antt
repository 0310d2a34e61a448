-- ===== src/Rdp/Frame.antt =====
-- rdp-sidecar/src/trames.rs: `clamp_a_l_image`, `frame_msg` and `frames_msg`. An `Image` is what
-- `width`, `height` and `data` of a `DecodedImage` give; that type is third-party code. `none` is
-- the panic of a slice out of bounds.
pub mod Inside
pub mod Sizes
use avash.Base.{
  ℕ, zero, suc, ◌+◌, ◌-◌, ◌*◌, ◌/◌, ◌%◌, min, Bool, true, false, ◌||◌, Option, none, some, List, [],
  ◌∷◌, ◌++◌, length, take, drop, ltb, leb, ◌==◌, if◌then◌else◌,
}
use avash.Base.Text.{Bytes}
use avash.Rdp.Dirty.{Rect}

pub record Image : Type 0 where
  pub width : ℕ
  pub height : ℕ
  pub pixels : Bytes

abbrev pub is_outside : Rect → Image → Bool
is_outside r image =
    image.width == 0
    || image.height == 0
    || leb image.width r.left
    || leb image.height r.top
    || ltb r.right r.left
    || ltb r.bottom r.top

unfoldable pub clamp : Rect → Image → Option Rect
clamp r image =
    if is_outside r image
    then none
    else some (record {
      left = r.left;
      top = r.top;
      right = min r.right (image.width - 1);
      bottom = min r.bottom (image.height - 1);
    })

-- `to_le_bytes` of a `u16`.
abbrev pub le16 : ℕ → Bytes
le16 n = n % 256 ∷ n / 256 % 256 ∷ []

abbrev pub wide : Rect → ℕ
wide r = r.right - r.left + 1

abbrev pub high : Rect → ℕ
high r = r.bottom - r.top + 1

-- `&data[start..start + len]`
unfoldable pub slice : Bytes → ℕ → ℕ → Option Bytes
slice buf start len =
    if leb (start + len) (length buf) then some (take len (drop start buf)) else none

abbrev pub append_both : Option Bytes → Option Bytes → Option Bytes
append_both (some a) (some b) = some (a ++ b)
append_both _ _ = none

-- The loop over the rows, from the row `row` on, of which `n` are left.
unfoldable pub rows : Image → Rect → ℕ → ℕ → Option Bytes
unfolding slice
rows image r zero row = some []
rows image r (suc n) row =
    append_both (slice image.pixels (((r.top + row) * image.width + r.left) * 4) (wide r * 4))
      (rows image r n (row + 1))

-- The geometry of a rectangle, and its pixels.
unfoldable pub rect_bytes : Image → Rect → Option Bytes
unfolding rows
rect_bytes image r =
    append_both (some (le16 r.left ++ (le16 r.top ++ (le16 (wide r) ++ le16 (high r)))))
      (rows image r (high r) 0)

abbrev pub push_front : Bytes → Option Bytes → Option Bytes
push_front a none = none
push_front a (some b) = some (a ++ b)

unfoldable pub frame_msg : Image → Rect → Option Bytes
unfolding clamp rect_bytes
frame_msg image r = elim (clamp r image) [
  | none ↦ some (2 ∷ 0 ∷ 0 ∷ 0 ∷ 0 ∷ 0 ∷ 0 ∷ 0 ∷ 0 ∷ [])
  | some r ↦ push_front (2 ∷ []) (rect_bytes image r)
]

-- `filter_map(|r| clamp_a_l_image(r, image))`
unfoldable pub clamp_all : Image → List Rect → List Rect
unfolding clamp
clamp_all image [] = []
clamp_all image (r ∷ zone) =
    let rest = clamp_all image zone in elim (clamp r image) [ none ↦ rest | some c ↦ c ∷ rest ]

unfoldable pub all_bytes : Image → List Rect → Option Bytes
unfolding rect_bytes
all_bytes image [] = some []
all_bytes image (r ∷ rects) = append_both (rect_bytes image r) (all_bytes image rects)

abbrev pub to_u8 : ℕ → ℕ
to_u8 n = if leb n 255 then n else 255

-- One rectangle keeps the message `[2]`; any other number takes `[13]`, with the number.
abbrev pub message_of : Image → List Rect → Option Bytes
message_of image (r ∷ []) = frame_msg image r
message_of image rects = push_front (13 ∷ to_u8 (length rects) ∷ []) (all_bytes image rects)

unfoldable pub frames_msg : Image → List Rect → Option Bytes
unfolding clamp_all frame_msg all_bytes
frames_msg image zone = message_of image (clamp_all image zone)
