-- ===== src/Rdp/Surface/Fill.antt =====
-- `remplir` of rdp-sidecar/src/surface.rs against `ecrire`.
use avash.Base.{
  ℕ, zero, suc, ◌+◌, ◌*◌, ◌≤◌, ◌≡◌, refl, ap, sym, ◌∙◌, inl, inr, some, [], ◌∷◌, ◌++◌, arith,
  length, length-append, take, Option-cases,
}
use avash.Base.Text.{Bytes}
use avash.Rdp.Frame.{slice}
use avash.Rdp.Surface.{
  Surface, Zone, crop, splice, row_start, write_rows, write, colour_row, fill_rows, fill,
}
use avash.Rdp.Surface.Crop.{FitsIn, crop-narrow}
use avash.Rdp.Surface.Rows.{length-splice}
use avash.Rdp.Surface.RoundTrip.{
  IsWhole, leb-true, ltb-false, row_start-within, write_rows-step, crop-FitsIn,
}

take-append : (a b : Bytes) (n : ℕ) → take (length a + n) (a ++ b) ≡ a ++ take n b
take-append [] b n = let e : 0 + n ≡ n = omega arith in ap (λ m. take m b) e
take-append (c ∷ a) b n =
    let e : suc (length a) + n ≡ suc (length a + n) = omega arith in
    ap (λ m. take m (c ∷ (a ++ b))) e ∙ ap (◌∷◌ c) (take-append a b n)

module _ (colour : Bytes) (four : length colour ≡ 4) where
  colour_row-length : (n : ℕ) → length (colour_row n colour) ≡ n * 4
  colour_row-length zero = refl
  colour_row-length (suc n) =
      length-append colour (colour_row n colour) ∙ omega (arith, four, colour_row-length n)

  colour_row-take : (n m : ℕ) → n ≤ m → take (n * 4) (colour_row m colour) ≡ colour_row n colour
  colour_row-take zero m h = refl
  colour_row-take (suc n) zero h = elim h [ ]
  colour_row-take (suc n) (suc m) h =
      let e : suc n * 4 ≡ length colour + n * 4 = omega (arith, four) in
      ap (λ k. take k (colour ++ colour_row m colour)) e
      ∙ (take-append colour (colour_row m colour) (n * 4)
          ∙ ap (◌++◌ colour) (colour_row-take n m (omega arith)))

  slice-colour_row :
      (n m at : ℕ)
      → n ≤ m
      → at ≡ 0
      → slice (colour_row m colour) at (n * 4) ≡ some (colour_row n colour)
  unfolding slice
  slice-colour_row n m at h z = rw z (
      rw
        (
          slice,
          leb-true (0 + n * 4) (length (colour_row m colour))
              (omega (arith, h, colour_row-length m)),
        )
        (ap some (colour_row-take n m h)))

  fill_rows-write_rows :
      (s : Surface) (z : Zone) (m : ℕ)
      → FitsIn s.width s.height z
      → z.width ≤ m
      → (n row : ℕ) (buf : Bytes) → row + n ≤ z.height
      → length buf ≡ s.width * s.height * 4
      → fill_rows s z colour n row buf ≡ some (write_rows s z (colour_row m colour) 0 n row buf)
  unfolding fill_rows
  fill_rows-write_rows s z m fits narrow zero row buf h whole = unfold write_rows in refl
  fill_rows-write_rows s z m fits narrow (suc n) row buf h whole =
      let t = ltb-false (length buf) (row_start s z row + z.width * 4) (
        omega
          (arith, whole, row_start-within s z (colour_row m colour) 0 fits row (omega arith))) in
      rw (fill_rows, t)
        (fill_rows-write_rows s z m fits narrow n (row + 1)
            (splice buf (row_start s z row) (colour_row z.width colour)) (omega arith)
            (length-splice buf (row_start s z row) (colour_row z.width colour) ∙ whole)
          ∙ ap some (
              sym (
                write_rows-step s z (colour_row m colour) 0 fits n row buf
                  (colour_row z.width colour)
                  (slice-colour_row z.width m (row * 0) narrow (omega arith)) t)))

  -- On a whole surface, filling a zone with a colour of four bytes does not panic, and is writing
  -- one row of that colour over and over.
  pub fill-write :
      (s : Surface) (zone : Zone)
      → IsWhole s
      → fill s zone colour ≡ some (write s zone (colour_row zone.width colour) 0)
  unfolding fill write
  fill-write s zone whole = elim (Option-cases (crop zone s.width s.height)) [
    | inl e ↦ rw (fill, write, e) refl
    | inr (z, e) ↦
        rw (fill, write, e)
          (rw
            (fill_rows-write_rows s z zone.width (crop-FitsIn zone z s.width s.height e)
              (crop-narrow zone z s.width s.height e) z.height 0 s.pixels (omega arith) whole)
            refl)
  ]
