-- ===== src/Rdp/Frame/Sizes.antt =====
-- The sizes of the messages of rdp-sidecar/src/trames.rs.
use avash.Base.{
  ℕ, zero, suc, ◌+◌, ◌-◌, ◌*◌, ◌≤◌, ◌<◌, true, false, ◌≡◌, refl, subst, min, ◌∙◌, inl, inr, some,
  List, [], ◌∷◌, ◌++◌, arith, length, take, drop, length-append, length-take, length-drop, All, leb,
  Option-cases,
}
use avash.Base.Text.{Bytes}
use avash.Rdp.Dirty.{Rect}
use avash.Rdp.Frame.{
  Image, is_outside, clamp, le16, to_u8, wide, high, slice, rows, rect_bytes, frame_msg, clamp_all,
  all_bytes, message_of, frames_msg,
}
use avash.Rdp.Frame.Inside.{IsInside, IsClamped, clamp-IsClamped}

-- Four bytes a pixel.
abbrev pub IsFull : Image → Type 0
IsFull image = length image.pixels ≡ image.width * image.height * 4

pub row-fits : (a h w : ℕ) → a < h → a * w + w ≤ w * h
row-fits a zero w l = elim l [ ]
row-fits zero (suc h) w l = omega arith
row-fits (suc a) (suc h) w l = omega (arith, row-fits a h w (omega arith))

pub slice-some :
    (buf : Bytes) (start len : ℕ)
    → start + len ≤ length buf
    → (b : Bytes) × (slice buf start len ≡ some b) × (length b ≡ len)
unfolding slice
slice-some buf start len h = (
  take len (drop start buf),
  rw (leb-true (start + len) (length buf) h) refl,
  length-take len (drop start buf) (omega (arith, length-drop start buf)),
)
  where
    leb-true : (a b : ℕ) → a ≤ b → leb a b ≡ true
    leb-true a b l = ground arith

module _ (image : Image) (full : IsFull image) (r : Rect) (inside : IsInside image r) where
  row-some :
      (row : ℕ)
      → row < high r
      → (b : Bytes) × (slice image.pixels (((r.top + row) * image.width + r.left) * 4) (wide r * 4)
          ≡ some b)
        × (length b ≡ wide r * 4)
  row-some row h = slice-some image.pixels _ (wide r * 4) (
      omega (
        arith,
        full,
        row-fits (r.top + row) image.height image.width
            (omega (arith, h, inside.down, inside.in_height)),
        inside.across,
        inside.in_width,
      ))

  rows-some :
      (n row : ℕ)
      → row + n ≤ high r
      → (b : Bytes) × (rows image r n row ≡ some b) × (length b ≡ n * (wide r * 4))
  unfolding rows
  rows-some zero row h = ([], refl, omega arith)
  rows-some (suc n) row h =
      let (a, ea, la) = row-some row (omega arith) in
      let (b, eb, lb) = rows-some n (row + 1) (omega arith) in
      (a ++ b, rw (ea, eb) refl, length-append a b ∙ omega (arith, la, lb))

-- The bytes of a rectangle: eight of geometry, and its pixels.
abbrev pub size_of : Rect → ℕ
size_of r = 8 + high r * (wide r * 4)

abbrev pub sizes : List Rect → ℕ
sizes [] = 0
sizes (r ∷ rects) = size_of r + sizes rects

-- One rectangle has a header of one byte, any other number of them a header of two.
abbrev pub message_size : List Rect → ℕ
message_size (r ∷ []) = 1 + size_of r
message_size rects = 2 + sizes rects

abbrev header : Rect → Bytes
header r = le16 r.left ++ (le16 r.top ++ (le16 (wide r) ++ le16 (high r)))

rect_bytes-some :
    (image : Image) (r : Rect)
    → IsFull image
    → IsInside image r
    → (b : Bytes) × (rect_bytes image r ≡ some b) × (length b ≡ size_of r)
unfolding rect_bytes
rect_bytes-some image r full inside =
    let (b, e, l) = rows-some image full r inside (high r) 0 (omega arith) in
    (header r ++ b, rw e refl, omega (arith, l))

all_bytes-some :
    (image : Image) (rects : List Rect)
    → IsFull image
    → All (IsInside image) rects
    → (b : Bytes) × (all_bytes image rects ≡ some b) × (length b ≡ sizes rects)
unfolding all_bytes
all_bytes-some image [] full inside = ([], refl, refl)
all_bytes-some image (r ∷ rects) full inside =
    let (a, ea, la) = rect_bytes-some image r full inside.0 in
    let (b, eb, lb) = all_bytes-some image rects full inside.1 in
    (a ++ b, rw (ea, eb) refl, length-append a b ∙ omega (arith, la, lb))

is_outside-inside : (image : Image) (r : Rect) → IsInside image r → is_outside r image ≡ false
is_outside-inside image r inside =
    ground (arith, inside.across, inside.down, inside.in_width, inside.in_height)

min-left : (a b : ℕ) → a ≤ b → min a b ≡ a
min-left a b h = omega arith

-- A rectangle inside the image is not changed by `clamp`.
clamp-inside : (image : Image) (r : Rect) → IsInside image r → clamp r image ≡ some r
unfolding clamp
clamp-inside image r inside =
    rw
      (
        clamp,
        is_outside-inside image r inside,
        min-left r.right (image.width - 1) (omega (arith, inside.in_width)),
        min-left r.bottom (image.height - 1) (omega (arith, inside.in_height)),
      )
      refl

clamp_all-IsInside :
    (image : Image) (zone : List Rect) → All (IsInside image) (clamp_all image zone)
unfolding clamp_all
clamp_all-IsInside image [] = tt
clamp_all-IsInside image (r ∷ zone) = elim (Option-cases (clamp r image)) [
  | inl e ↦ rw (clamp_all, e) (clamp_all-IsInside image zone)
  | inr (c, e) ↦ rw (clamp_all, e) (inside-of r c e, clamp_all-IsInside image zone)
]
  where
    inside-of : (r c : Rect) → clamp r image ≡ some c → IsInside image c
    inside-of r c e = (subst (IsClamped image r) e (clamp-IsClamped r image)).0

message_of-some :
    (image : Image) (rects : List Rect)
    → IsFull image
    → All (IsInside image) rects
    → (m : Bytes) × (message_of image rects ≡ some m) × (length m ≡ message_size rects)
unfolding frame_msg all_bytes
message_of-some image [] full inside = (13 ∷ 0 ∷ [], refl, refl)
message_of-some image (r ∷ []) full inside =
    let (b, e, l) = rect_bytes-some image r full inside.0 in
    (2 ∷ b, rw (frame_msg, clamp-inside image r inside.0) (rw e refl), omega (arith, l))
message_of-some image (r ∷ s ∷ rects) full inside =
    let (b, e, l) = all_bytes-some image (r ∷ s ∷ rects) full inside in
    (13 ∷ to_u8 (length (r ∷ s ∷ rects)) ∷ b, rw e refl, omega (arith, l))

-- On an image whose buffer holds four bytes a pixel, every zone gives a message, with no slice out
-- of bounds, whatever its rectangles. The message has the length that the rectangles inside the
-- image announce.
pub frames_msg-some :
    (image : Image) (zone : List Rect)
    → IsFull image
    → (m : Bytes) × (frames_msg image zone ≡ some m)
      × (length m ≡ message_size (clamp_all image zone))
unfolding frames_msg
frames_msg-some image zone full =
    message_of-some image (clamp_all image zone) full (clamp_all-IsInside image zone)
