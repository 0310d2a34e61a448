-- ===== src/Rdp/Surface/RoundTrip.antt =====
-- `ecrire` and then `extraire` (rdp-sidecar/src/surface.rs).
use avash.Base.{
  ℕ, zero, suc, ◌+◌, ◌*◌, ◌≤◌, ◌<◌, true, false, ◌≡◌, refl, ap, sym, subst, ◌∙◌, inl, inr, Option,
  some, [], ◌++◌, arith, length, length-append, length-drop, take, drop, ltb, leb, Bool-cases,
  Option-cases,
}
use avash.Base.Text.{Bytes}
use avash.Rdp.Frame.{slice, append_both}
use avash.Rdp.Frame.Sizes.{row-fits, slice-some}
use avash.Rdp.Surface.{
  Surface, Zone, crop, with_zone, offset, splice, row_start, write_rows, write, extract_rows,
  extract,
}
use avash.Rdp.Surface.Crop.{FitsIn, IsCropped, crop-IsCropped}
use avash.Rdp.Surface.Rows.{
  length-splice, write_rows-length, take-splice, drop-splice, window-before,
}

pub leb-true : (a b : ℕ) → a ≤ b → leb a b ≡ true
leb-true a b h = ground arith

pub ltb-false : (a b : ℕ) → b ≤ a → ltb a b ≡ false
ltb-false a b h = ground arith

pub slice-splice :
    (buf : Bytes) (i : ℕ) (b : Bytes)
    → i + length b ≤ length buf
    → slice (splice buf i b) i (length b) ≡ some b
unfolding slice
slice-splice buf i b h =
    rw
      (
        slice,
        leb-true (i + length b) (length (splice buf i b)) (omega (arith, length-splice buf i b)),
      )
      (ap some (
        ap (take (length b)) (drop-splice buf i b)
        ∙ take-splice (drop i buf) b (omega (arith, length-drop i buf))))

pub slice-before :
    (buf : Bytes) (i : ℕ) (b : Bytes) (start len : ℕ)
    → start + len ≤ i
    → slice (splice buf i b) start len ≡ slice buf start len
unfolding slice
slice-before buf i b start len h =
    rw (length-splice buf i b) (rw (window-before buf start len i b h) refl)

-- The rows of the source that a zone takes, one behind the other.
unfoldable pub source_rows : Bytes → ℕ → ℕ → ℕ → ℕ → Option Bytes
unfolding slice
source_rows source stride wide zero row = some []
source_rows source stride wide (suc n) row =
    append_both (slice source (row * stride) wide) (source_rows source stride wide n (row + 1))

-- The buffer holds four bytes a pixel.
abbrev pub IsWhole : Surface → Type 0
IsWhole s = length s.pixels ≡ s.width * s.height * 4

module _ (s : Surface) (z : Zone) (source : Bytes) (stride : ℕ)
    (fits : FitsIn s.width s.height z) where
  row_start-next : (row : ℕ) → row_start s z row + z.width * 4 ≤ row_start s z (row + 1)
  unfolding offset
  row_start-next row = omega (arith, fits.to_right)

  pub row_start-within :
      (row : ℕ) → row < z.height → row_start s z row + z.width * 4 ≤ s.width * s.height * 4
  unfolding offset
  row_start-within row h = omega (
    arith,
    row-fits (z.y + row) s.height s.width (omega (arith, h, fits.to_bottom)),
    fits.to_right,
  )

  write_rows-before :
      (n row : ℕ) (buf : Bytes) (start len : ℕ)
      → start + len ≤ row_start s z row
      → slice (write_rows s z source stride n row buf) start len ≡ slice buf start len
  unfolding write_rows
  write_rows-before zero row buf start len h = refl
  write_rows-before (suc n) row buf start len h =
      elim (Option-cases (slice source (row * stride) (z.width * 4))) [
        | inl e ↦ rw (write_rows, e) refl
        | inr (b, e) ↦ elim (Bool-cases (ltb (length buf) (row_start s z row + z.width * 4))) [
          | inl t ↦ rw (write_rows, e, t) refl
          | inr t ↦
              rw (write_rows, e, t)
                (write_rows-before n (row + 1) (splice buf (row_start s z row) b) start len
                    (omega (arith, row_start-next row))
                  ∙ slice-before buf (row_start s z row) b start len h)
        ]
      ]

  pub write_rows-step :
      (n row : ℕ) (buf b : Bytes)
      → slice source (row * stride) (z.width * 4) ≡ some b
      → ltb (length buf) (row_start s z row + z.width * 4) ≡ false
      → write_rows s z source stride (suc n) row buf
        ≡ write_rows s z source stride n (row + 1) (splice buf (row_start s z row) b)
  unfolding write_rows
  write_rows-step n row buf b e t = rw (write_rows, e, t) refl

  extract_rows-write_rows :
      ((k : ℕ) → k < z.height → k * stride + z.width * 4 ≤ length source)
      → (n row : ℕ) (buf : Bytes) → row + n ≤ z.height
      → length buf ≡ s.width * s.height * 4
      → extract_rows (record s { pixels = write_rows s z source stride n row buf }) z n row
        ≡ source_rows source stride (z.width * 4) n row
  unfolding extract_rows source_rows offset
  extract_rows-write_rows enough zero row buf h whole = refl
  extract_rows-write_rows enough (suc n) row buf h whole =
      let (b, e, l) = slice-some source (row * stride) (z.width * 4) (enough row (omega arith)) in
      let again = splice buf (row_start s z row) b in
      let t =
        ltb-false (length buf) (row_start s z row + z.width * 4)
          (omega (arith, whole, row_start-within row (omega arith))) in
      let step = write_rows-step n row buf b e t in
      let here =
        subst (λ m. slice again (row_start s z row) m ≡ some b) l
          (slice-splice buf (row_start s z row) b
            (omega (arith, l, whole, row_start-within row (omega arith)))) in
      let front =
        ap (λ w. slice w (row_start s z row) (z.width * 4)) step
        ∙ (write_rows-before n (row + 1) again (row_start s z row) (z.width * 4)
              (row_start-next row)
            ∙ (here ∙ sym e)) in
      let back =
        ap (λ w. extract_rows (record s { pixels = w }) z n (row + 1)) step
        ∙ extract_rows-write_rows enough n (row + 1) again (omega arith)
            (length-splice buf (row_start s z row) b ∙ whole) in
      ap
        (λ x. append_both x (
          extract_rows (record s { pixels = write_rows s z source stride (suc n) row buf }) z n
            (row + 1)))
        front
      ∙ ap (append_both (slice source (row * stride) (z.width * 4))) back

-- A surface stays whole under a write.
write-IsWhole :
    (s : Surface) (z : Zone) (source : Bytes) (stride : ℕ) (n row : ℕ)
    → FitsIn s.width s.height z
    → IsWhole s
    → IsWhole (record s { pixels = write_rows s z source stride n row s.pixels })
write-IsWhole s z source stride n row fits whole =
    write_rows-length s z source stride n row s.pixels ∙ whole

source_rows-some :
    (source : Bytes) (stride wide height : ℕ)
    → ((k : ℕ) → k < height → k * stride + wide ≤ length source)
    → (n row : ℕ) → row + n ≤ height
    → (v : Bytes) × (source_rows source stride wide n row ≡ some v) × (length v ≡ n * wide)
unfolding source_rows
source_rows-some source stride wide height enough zero row h = ([], refl, omega arith)
source_rows-some source stride wide height enough (suc n) row h =
    let (a, ea, la) = slice-some source (row * stride) wide (enough row (omega arith)) in
    let (b, eb, lb) = source_rows-some source stride wide height enough n (row + 1) (omega arith) in
    (a ++ b, rw (ea, eb) refl, length-append a b ∙ omega (arith, la, lb))

pub crop-FitsIn :
    (zone z : Zone) (width height : ℕ) → crop zone width height ≡ some z → FitsIn width height z
crop-FitsIn zone z width height c =
    (subst (IsCropped zone width height) c (crop-IsCropped zone width height)).0

-- A zone of which `z` is left on a whole surface is written from a source that holds its rows, and
-- leaves the surface whole. `extraire` then gives back those rows of the source, one behind the
-- other.
pub extract-write :
    (s : Surface) (zone z : Zone) (source : Bytes) (stride : ℕ)
    → IsWhole s
    → crop zone s.width s.height ≡ some z
    → ((k : ℕ) → k < z.height → k * stride + z.width * 4 ≤ length source)
    → (s' : Surface) × (v : Bytes) × (write s zone source stride ≡ some (z, s'))
      × (source_rows source stride (z.width * 4) z.height 0 ≡ some v)
      × (extract s' zone ≡ some (z, v))
      × IsWhole s'
unfolding write extract
extract-write s zone z source stride whole c enough =
    let fits = crop-FitsIn zone z s.width s.height c in
    let (v, ev, lv) =
      source_rows-some source stride (z.width * 4) z.height enough z.height 0 (omega arith) in
    (
      record s { pixels = write_rows s z source stride z.height 0 s.pixels },
      v,
      rw (write, c) refl,
      ev,
      rw (extract, c)
          (ap (with_zone z) (
            extract_rows-write_rows s z source stride fits enough z.height 0 s.pixels (omega arith)
              whole
            ∙ ev)),
      write-IsWhole s z source stride z.height 0 fits whole,
    )
