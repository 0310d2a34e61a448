-- ===== src/Rdp/Screen.antt =====
-- rdp-sidecar/src/trames.rs: `nouvelle_taille` and `etirer`, which resize the displayed image.
-- `DecodedImage::new` and `peindre_rgba` are third-party code, and parameters here. `none` is the
-- panic of a slice out of bounds.
pub mod Resized
use avash.Base.{
  ℕ, zero, suc, ◌+◌, ◌*◌, ◌/◌, Bool, true, false, not, ◌&&◌, ◌||◌, Option, none, some, List, [],
  ltb, leb, ◌==◌, if◌then◌else◌,
}
use avash.Base.Text.{Bytes}
use avash.Rdp.Dirty.{Rect}
use avash.Rdp.Frame.{Image, slice, append_both}

-- `TAILLE_MAX` (rdp-sidecar/src/args.rs)
abbrev pub size_max : ℕ
size_max = 8192

-- The loop over `x`, from `x` on, of which `n` are left; `sy` is the row that is read.
unfoldable pub stretched_row : Image → ℕ → ℕ → ℕ → ℕ → Option Bytes
unfolding slice
stretched_row image width sy zero x = some []
stretched_row image width sy (suc n) x =
    append_both (slice image.pixels ((sy * image.width + x * image.width / width) * 4) 4)
      (stretched_row image width sy n (x + 1))

-- The loop over `y`.
unfoldable pub stretched_rows : Image → ℕ → ℕ → ℕ → ℕ → Option Bytes
unfolding stretched_row
stretched_rows image width height zero y = some []
stretched_rows image width height (suc n) y =
    append_both (stretched_row image width (y * image.height / height) width 0)
      (stretched_rows image width height n (y + 1))

pub record Screen : Type 0 where
  pub image : Image
  pub dirty : List Rect
  pub awaiting_ack : Bool

module _ (blank : ℕ → ℕ → Image) (paint : Image → ℕ → ℕ → ℕ → ℕ → Bytes → Image) where
  unfoldable pub stretch : Image → ℕ → ℕ → Option Image
  unfolding stretched_rows
  stretch image width height =
      if image.width == 0 || image.height == 0 || width == 0 || height == 0
      then some (blank width height)
      else elim (stretched_rows image width height height 0) [
        | none ↦ none
        | some pixels ↦ some (paint (blank width height) 0 0 width height pixels)
      ]

  -- Whether the size is new, and the screen it leaves.
  unfoldable pub new_size : Screen → ℕ → ℕ → Option (Bool × Screen)
  unfolding stretch
  new_size s width height =
      if width == s.image.width && height == s.image.height
      then some (false, s)
      else if width == 0 || height == 0 || ltb size_max width || ltb size_max height
      then some (false, s)
      else elim (stretch s.image width height) [
        | none ↦ none
        | some image ↦ some (true, record { image = image; dirty = []; awaiting_ack = false })
      ]
