-- ===== src/Rdp/Screen/Resized.antt =====
-- What `nouvelle_taille` (rdp-sidecar/src/trames.rs) does with a size that the server announces.
use native.Mathlib.Nat.{mul-lt-mul_of_pos_right, div-lt_iff_lt-mul}
use avash.Base.{
  take, drop, leb, ◌∷◌, Option, none, sym, ap, ℕ, zero, suc, ◌+◌, ◌*◌, ◌/◌, ◌≤◌, ◌<◌, Bool, true,
  false, not, ◌&&◌, ◌||◌, ◌≡◌, refl, ◌∙◌, inl, inr, some, [], ◌++◌, arith, length, length-append,
  ltb, ◌==◌, if◌then◌else◌, Bool-cases,
}
use avash.Base.Text.{Bytes}
use avash.Rdp.Frame.{Image, slice}
use avash.Rdp.Frame.Sizes.{IsFull, row-fits, slice-some}
use avash.Rdp.Screen.{size_max, stretched_row, stretched_rows, Screen, stretch, new_size}

-- The nearest neighbour of a place of the new image is a place of the old one.
scaled : (y old next : ℕ) → y < next → 0 < old → y * old / next < old
scaled y old next h p =
    (div-lt_iff_lt-mul {k = next} (omega arith)).1
      (omega (arith, mul-lt-mul_of_pos_right {m = y} {n = next} {k = old} h p))

-- The four bytes of the pixel `n`.
abbrev pub pixel_at : Bytes → ℕ → Bytes
pixel_at pixels n = take 4 (drop (n * 4) pixels)

take-drop-left :
    (n t : ℕ) (a b : Bytes) → t + n ≤ length a → take n (drop t (a ++ b)) ≡ take n (drop t a)
take-drop-left zero t a b h = refl
take-drop-left (suc n) t [] b h = absurd (omega (arith, h))
take-drop-left (suc n) zero (x ∷ a) b h = ap (◌∷◌ x) (take-drop-left n zero a b (omega (arith, h)))
take-drop-left (suc n) (suc t) (x ∷ a) b h = take-drop-left (suc n) t a b (omega (arith, h))

drop-right : (a b : Bytes) (t : ℕ) → drop (length a + t) (a ++ b) ≡ drop t b
drop-right [] b t = let e : 0 + t ≡ t = omega arith in ap (λ m. drop m b) e
drop-right (x ∷ a) b t =
    let e : length (x ∷ a) + t ≡ suc (length a + t) = omega arith in
    ap (λ m. drop m (x ∷ (a ++ b))) e ∙ drop-right a b t

take-take : (n : ℕ) (s : Bytes) → take n (take n s) ≡ take n s
take-take zero s = refl
take-take (suc n) [] = refl
take-take (suc n) (x ∷ s) = ap (◌∷◌ x) (take-take n s)

bytes_or : Bytes → Option Bytes → Bytes
bytes_or d none = d
bytes_or d (some b) = b

some-bytes : {a b : Bytes} → ◌≡◌ {A = Option Bytes} (some a) (some b) → a ≡ b
unfolding bytes_or
some-bytes e = ap (bytes_or []) e

slice-take :
    (buf : Bytes) (start len : ℕ) (b : Bytes)
    → slice buf start len ≡ some b
    → b ≡ take len (drop start buf)
unfolding slice
slice-take buf start len b e = elim (Bool-cases (leb (start + len) (length buf))) [
  | inl y ↦ sym (some-bytes (rw y at e))
  | inr n ↦ absurd (cc (rw n at e))
]

-- A pixel that is put in front of a row.
front-pixel :
    (a b : Bytes) (n : ℕ) (s : Bytes)
    → length a ≡ 4
    → a ≡ pixel_at s n
    → pixel_at (a ++ b) 0 ≡ pixel_at s n
front-pixel a b n s l e =
    take-drop-left 4 0 a b (omega (arith, l)) ∙ (ap (take 4) e ∙ take-take 4 (drop (n * 4) s))

-- A pixel of what follows a part of `m` pixels.
later-pixel :
    (a b : Bytes) (m n k : ℕ) → length a ≡ m * 4 → n ≡ m + k → pixel_at (a ++ b) n ≡ pixel_at b k
later-pixel a b m n k l e =
    let place : n * 4 ≡ length a + k * 4 = omega (arith, l, e) in
    ap (λ m. take 4 (drop m (a ++ b))) place ∙ ap (take 4) (drop-right a b (k * 4))

module _ (image : Image) (full : IsFull image) (width height : ℕ)
    (filled : (0 < image.width) × (0 < image.height)) where
  -- The pixels of a row that is read from the row `sy`, from the place `x` on.
  abbrev FromRow : ℕ → ℕ → Bytes → ℕ → Type 0
  FromRow sy x b k =
      pixel_at b k ≡ pixel_at image.pixels (sy * image.width + (x + k) * image.width / width)

  row-pixels :
      (sy n x : ℕ) (a b : Bytes)
      → length a ≡ 4
      → a ≡ pixel_at image.pixels (sy * image.width + x * image.width / width)
      → ((k : ℕ) → k < n → FromRow sy (x + 1) b k)
      → (k : ℕ) → k < suc n
      → FromRow sy x (a ++ b) k
  row-pixels sy n x a b l e pb zero h =
      let same : x ≡ x + 0 = omega arith in
      front-pixel a b _ image.pixels l e
      ∙ ap (λ m. pixel_at image.pixels (sy * image.width + m * image.width / width)) same
  row-pixels sy n x a b l e pb (suc k) h =
      let next : x + 1 + k ≡ x + suc k = omega arith in
      later-pixel a b 1 (suc k) k (omega (arith, l)) (omega arith)
      ∙ (pb k (omega (arith, h))
          ∙ ap (λ m. pixel_at image.pixels (sy * image.width + m * image.width / width)) next)

  -- The pixels of rows from the row `y` on.
  abbrev FromImage : ℕ → Bytes → ℕ → ℕ → Type 0
  FromImage y b j i =
      pixel_at b (j * width + i)
      ≡ pixel_at image.pixels
          ((y + j) * image.height / height * image.width + i * image.width / width)

  rows-pixels :
      (n y : ℕ) (a b : Bytes)
      → length a ≡ width * 4
      → ((k : ℕ) → k < width → FromRow (y * image.height / height) 0 a k)
      → ((j i : ℕ) → j < n → i < width → FromImage (y + 1) b j i)
      → (j i : ℕ) → j < suc n
      → i < width
      → FromImage y (a ++ b) j i
  rows-pixels n y a b l pa pb zero i h w =
      let first : zero * width + i ≡ i = omega arith in
      let column : 0 + i ≡ i = omega arith in
      let row : y ≡ y + 0 = omega arith in
      ap (pixel_at (a ++ b)) first
      ∙ (take-drop-left 4 (i * 4) a b (omega (arith, l, w))
          ∙ (pa i w
              ∙ (ap
                    (λ m.
                      pixel_at image.pixels
                        (y * image.height / height * image.width + m * image.width / width))
                    column
                  ∙ ap
                      (λ m.
                        pixel_at image.pixels
                          (m * image.height / height * image.width + i * image.width / width))
                      row)))
  rows-pixels n y a b l pa pb (suc j) i h w =
      let next : y + 1 + j ≡ y + suc j = omega arith in
      later-pixel a b width (suc j * width + i) (j * width + i) l (omega arith)
      ∙ (pb j i (omega (arith, h)) w
          ∙ ap
              (λ m.
                pixel_at image.pixels
                  (m * image.height / height * image.width + i * image.width / width))
              next)

  stretched_row-some :
      (sy n x : ℕ)
      → sy < image.height
      → x + n ≤ width
      → (b : Bytes) × (stretched_row image width sy n x ≡ some b)
        × (length b ≡ n * 4)
        × ((k : ℕ) → k < n → FromRow sy x b k)
  unfolding stretched_row
  stretched_row-some sy zero x h w = ([], refl, refl, λ k l. absurd (omega (arith, l)))
  stretched_row-some sy (suc n) x h w =
      let (a, ea, la) =
        slice-some image.pixels ((sy * image.width + x * image.width / width) * 4) 4 (
          omega (
            arith,
            full,
            row-fits sy image.height image.width h,
            scaled x image.width width (omega arith) filled.0,
          )) in
      let (b, eb, lb, pb) = stretched_row-some sy n (x + 1) h (omega arith) in
      (
        a ++ b,
        rw (ea, eb) refl,
        length-append a b ∙ omega (arith, la, lb),
        row-pixels sy n x a b la (slice-take image.pixels _ 4 a ea) pb,
      )

  stretched_rows-some :
      (n y : ℕ)
      → y + n ≤ height
      → (b : Bytes) × (stretched_rows image width height n y ≡ some b)
        × (length b ≡ n * (width * 4))
        × ((j i : ℕ) → j < n → i < width → FromImage y b j i)
  unfolding stretched_rows
  stretched_rows-some zero y w = ([], refl, omega arith, λ j i l m. absurd (omega (arith, l)))
  stretched_rows-some (suc n) y w =
      let (a, ea, la, pa) =
        stretched_row-some (y * image.height / height) width 0
          (scaled y image.height height (omega arith) filled.1) (omega arith) in
      let (b, eb, lb, pb) = stretched_rows-some n (y + 1) (omega arith) in
      (
        a ++ b,
        rw (ea, eb) refl,
        length-append a b ∙ omega (arith, la, lb),
        rows-pixels n y a b la pa pb,
      )

-- The size is in range, and is not the size of the image.
abbrev pub is_new : Image → ℕ → ℕ → Bool
is_new image width height =
    not (width == image.width && height == image.height)
    && not (width == 0 || height == 0 || ltb size_max width || ltb size_max height)

all_false :
    (old : Image) (width height : ℕ)
    → (old.width == 0 || old.height == 0) ≡ false
    → (width == 0 || height == 0) ≡ false
    → (old.width == 0 || old.height == 0 || width == 0 || height == 0) ≡ false
all_false old width height e f = ground arith

both_positive :
    (old : Image) → (old.width == 0 || old.height == 0) ≡ false → (0 < old.width) × (0 < old.height)
both_positive old e = ground arith

some_size :
    (width height : ℕ)
    → (width == 0 || height == 0 || ltb size_max width || ltb size_max height) ≡ false
    → (width == 0 || height == 0) ≡ false
some_size width height e = ground arith

module _ (blank : ℕ → ℕ → Image) (paint : Image → ℕ → ℕ → ℕ → ℕ → Bytes → Image) where
  -- The image that takes the place of the old one: painted over whole, or new if there was none.
  pub data IsStretched (old : Image) (width height : ℕ) : Image → Type 0 where
    no_old :
        (old.width == 0 || old.height == 0) ≡ true
        → IsStretched old width height (blank width height)
    painted :
        (pixels : Bytes)
        → length pixels ≡ width * height * 4
        → ((x y : ℕ)
            → x < width
            → y < height
            → pixel_at pixels (y * width + x)
              ≡ pixel_at old.pixels (y * old.height / height * old.width + x * old.width / width))
        → IsStretched old width height (paint (blank width height) 0 0 width height pixels)

  stretch-painted :
      (old : Image) (width height : ℕ) (pixels : Bytes)
      → (old.width == 0 || old.height == 0) ≡ false
      → (width == 0 || height == 0) ≡ false
      → stretched_rows old width height height 0 ≡ some pixels
      → stretch blank paint old width height
        ≡ some (paint (blank width height) 0 0 width height pixels)
  unfolding stretch
  stretch-painted old width height pixels e f run =
      rw (stretch, all_false old width height e f, run) refl

  stretch-IsStretched :
      (old : Image) (width height : ℕ)
      → IsFull old
      → (width == 0 || height == 0) ≡ false
      → (image : Image) × (stretch blank paint old width height ≡ some image)
        × IsStretched old width height image
  unfolding stretch
  stretch-IsStretched old width height full nonzero =
      elim (Bool-cases (old.width == 0 || old.height == 0)) [
        | inl e ↦ (blank width height, ground arith, no_old e)
        | inr e ↦
            let (b, run, l, p) =
              stretched_rows-some old full width height (both_positive old e) height 0
                (omega arith) in
            (
              paint (blank width height) 0 0 width height b,
              stretch-painted old width height b e nonzero run,
              painted b (omega (arith, l)) (λ x y h k. p y x k h ∙ from_start y x),
            )
      ]
    where
      from_start :
          (y x : ℕ)
          → pixel_at old.pixels ((0 + y) * old.height / height * old.width + x * old.width / width)
            ≡ pixel_at old.pixels (y * old.height / height * old.width + x * old.width / width)
      from_start y x =
          let same : 0 + y ≡ y = omega arith in
          ap
            (λ m. pixel_at old.pixels (m * old.height / height * old.width + x * old.width / width))
            same

  -- On an image whose buffer holds four bytes a pixel, a size is taken exactly if it is in range
  -- and new, with no slice out of bounds; else nothing changes. A new size leaves no dirty
  -- rectangle and no frame in flight, and an image that is painted with a pixel of the old one at
  -- every place: the one at the same share of the width and of the height, rounded down.
  pub new_size-IsStretched :
      (s : Screen) (width height : ℕ)
      → IsFull s.image
      → if is_new s.image width height
        then ((image : Image) × (new_size blank paint s width height
              ≡ some (true, record { image = image; dirty = []; awaiting_ack = false }))
            × IsStretched s.image width height image)
        else (new_size blank paint s width height ≡ some (false, s))
  unfolding new_size
  new_size-IsStretched s width height full =
      elim (Bool-cases (width == s.image.width && height == s.image.height)) [
        | inl same ↦ rw (new_size, same) refl
        | inr other ↦
            elim (Bool-cases
              (width == 0 || height == 0 || ltb size_max width || ltb size_max height)) [
                | inl out ↦ rw (new_size, other, out) refl
                | inr within ↦
                    let (image, run, st) =
                      stretch-IsStretched s.image width height full
                        (some_size width height within) in
                    rw (new_size, other, within) (image, rw run refl, st)
              ]
      ]
