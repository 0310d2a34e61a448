-- ===== src/Rdp/Tests.antt =====
-- The theorems on the remote desktop process (rdp-sidecar/src), applied to small images.
use avash.Base.{
  ℕ, ◌*◌, ◌≤◌, ◌<◌, get_elem?, true, false, ◌≡◌, refl, some, List, [], ◌∷◌, arith, length, ◌==◌,
  if◌then◌else◌,
}
use avash.Base.Text.{Bytes, Text, codes}
use avash.Rdp.Dirty.{Rect, rects_max, add_rect, loss_of, best_pair}
use avash.Rdp.Dirty.Least.{best_pair-least}
use avash.Rdp.Dirty.Covers.{Keeps, add_rect-Keeps}
use avash.Rdp.Frame.{Image, clamp, clamp_all, frames_msg}
use avash.Rdp.Frame.Inside.{IsClamped, clamp-IsClamped}
use avash.Rdp.Frame.Sizes.{message_size, frames_msg-some}
use avash.Rdp.Screen.{Screen, new_size}
use avash.Rdp.Screen.Resized.{IsStretched, new_size-IsStretched}
use avash.Rdp.Cache.{empty, deposit, read}
use avash.Rdp.Cache.Budget.{fits}
use avash.Rdp.Cache.Lookup.{read-deposit}
use avash.Rdp.Surface.{Surface, Zone, crop, write, extract, colour_row, fill}
use avash.Rdp.Surface.Crop.{IsCropped, crop-IsCropped}
use avash.Rdp.Surface.RoundTrip.{source_rows, extract-write}
use avash.Rdp.Trust.{content}
use avash.Rdp.Trust.Remembered.{IsNoted, remember-IsNoted}
use avash.Rdp.Surface.Fill.{fill-write}

abbrev corner : Rect
corner = record { left = 0; top = 0; right = 1; bottom = 0 }

abbrev far : Rect
far = record { left = 1; top = 1; right = 70; bottom = 3 }

add_rect-Keeps_example :
    (z : List Rect) × (add_rect (corner ∷ []) far ≡ some z)
    × (length z ≤ rects_max)
    × Keeps (far ∷ corner ∷ []) z
add_rect-Keeps_example = add_rect-Keeps (corner ∷ []) far (omega arith)

best_pair-least_example :
    (a b : Rect) × (get_elem?
        (corner ∷ far ∷ corner ∷ [])
        (best_pair (corner ∷ far ∷ corner ∷ [])).first
      ≡ some a)
    × (get_elem? (corner ∷ far ∷ corner ∷ []) (best_pair (corner ∷ far ∷ corner ∷ [])).second
        ≡ some b)
    × ((best_pair (corner ∷ far ∷ corner ∷ [])).first
        < (best_pair (corner ∷ far ∷ corner ∷ [])).second)
    × ((i j : ℕ) (c d : Rect)
        → i < j
        → get_elem? (corner ∷ far ∷ corner ∷ []) i ≡ some c
        → get_elem? (corner ∷ far ∷ corner ∷ []) j ≡ some d
        → loss_of a b ≤ loss_of c d)
best_pair-least_example =
    best_pair-least (corner ∷ far ∷ corner ∷ [])
      ((omega arith, omega arith), ((omega arith, omega arith), ((omega arith, omega arith), tt)))
      (omega arith)

abbrev two_by_two : Image
two_by_two = record {
  width = 2;
  height = 2;
  pixels = 1 ∷ 1 ∷ 1 ∷ 255 ∷ 2 ∷ 2 ∷ 2 ∷ 255 ∷ 3 ∷ 3 ∷ 3 ∷ 255 ∷ 4 ∷ 4 ∷ 4 ∷ 255 ∷ [];
}

clamp-IsClamped_example : IsClamped two_by_two far (clamp far two_by_two)
clamp-IsClamped_example = clamp-IsClamped far two_by_two

frames_msg-some_example :
    (m : Bytes) × (frames_msg two_by_two (corner ∷ far ∷ []) ≡ some m)
    × (length m ≡ message_size (clamp_all two_by_two (corner ∷ far ∷ [])))
frames_msg-some_example = frames_msg-some two_by_two (corner ∷ far ∷ []) refl

-- The image that `DecodedImage::new` makes is black; painting over all of it replaces its pixels.
abbrev black : ℕ → ℕ → Image
black width height = record { width = width; height = height; pixels = [] }

abbrev paint_all : Image → ℕ → ℕ → ℕ → ℕ → Bytes → Image
paint_all image x y width height pixels = record image { pixels = pixels }

abbrev screen : Screen
screen = record { image = two_by_two; dirty = corner ∷ []; awaiting_ack = true }

new_size-IsStretched_example :
    (image : Image) × (new_size black paint_all screen 4 3
      ≡ some (true, record { image = image; dirty = []; awaiting_ack = false }))
    × IsStretched black paint_all two_by_two 4 3 image
new_size-IsStretched_example = new_size-IsStretched black paint_all screen 4 3 refl

abbrev pixel : Bytes
pixel = 9 ∷ 9 ∷ 9 ∷ 255 ∷ []

read-deposit_example : read (deposit empty 7 1 1 pixel) 7 ≡ (
    if fits empty 7 pixel
    then (if 7 == 7 then some (record { width = 1; height = 1; pixels = pixel }) else read empty 7)
    else read empty 7)
read-deposit_example = read-deposit empty 7 7 1 1 pixel

abbrev small : Surface
small = record { width = 2; height = 2; pixels = two_by_two.pixels }

abbrev over : Zone
over = record { x = 1; y = 1; width = 5; height = 1 }

abbrev one : Zone
one = record { x = 1; y = 1; width = 1; height = 1 }

crop-IsCropped_example : IsCropped over 2 2 (crop over 2 2)
crop-IsCropped_example = crop-IsCropped over 2 2

over-crop : crop over 2 2 ≡ some one
unfolding crop
over-crop = refl

extract-write_example :
    (s' : Surface) × (v : Bytes) × (write small over pixel 4 ≡ some (one, s'))
    × (source_rows pixel 4 (1 * 4) 1 0 ≡ some v)
    × (extract s' over ≡ some (one, v))
    × (length s'.pixels ≡ s'.width * s'.height * 4)
extract-write_example =
    extract-write small over one pixel 4 refl over-crop (λ k h. omega (arith, h))

fill-write_example : fill small over pixel ≡ some (write small over (colour_row 5 pixel) 0)
fill-write_example = fill-write pixel refl small over refl

-- The last line of the file lacks its line feed.
abbrev known_hosts : Text
known_hosts = codes "srv-a:3389 aaaa\nsrv-b:3389 bbbb"

remember-IsNoted_example :
    IsNoted
      (content known_hosts)
      (codes "srv-c:3389")
      (codes "cccc")
      (codes "srv-b:3389")
      (codes "dddd")
      (some known_hosts)
remember-IsNoted_example =
    remember-IsNoted (content known_hosts) (codes "srv-c:3389") (codes "cccc") (codes "srv-b:3389")
      (codes "dddd") refl refl refl
