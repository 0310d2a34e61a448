-- ===== src/Rdp/Surface/Rows.antt =====
-- A write over a part of the buffer of a surface (rdp-sidecar/src/surface.rs), and what is read behind it.
use avash.Base.{
  ℕ, zero, suc, ◌+◌, ◌*◌, ◌≤◌, ◌≡◌, refl, ap, ◌∙◌, inl, inr, [], ◌∷◌, arith, length, take, drop,
  ltb, Bool-cases, Option-cases,
}
use avash.Base.Text.{Bytes}
use avash.Rdp.Frame.{slice}
use avash.Rdp.Surface.{Surface, Zone, splice, row_start, write_rows}

pub length-splice : (buf : Bytes) (i : ℕ) (b : Bytes) → length (splice buf i b) ≡ length buf
unfolding splice
length-splice [] i b = refl
length-splice (c ∷ buf) (suc i) b = ap suc (length-splice buf i b)
length-splice (c ∷ buf) zero [] = refl
length-splice (c ∷ buf) zero (d ∷ b) = ap suc (length-splice buf zero b)

pub take-splice : (buf b : Bytes) → length b ≤ length buf → take (length b) (splice buf 0 b) ≡ b
unfolding splice
take-splice [] [] h = refl
take-splice [] (d ∷ b) h = elim h [ ]
take-splice (c ∷ buf) [] h = refl
take-splice (c ∷ buf) (d ∷ b) h = ap (◌∷◌ d) (take-splice buf b (omega arith))

pub drop-splice :
    (buf : Bytes) (i : ℕ) (b : Bytes) → drop i (splice buf i b) ≡ splice (drop i buf) 0 b
unfolding splice
drop-splice buf zero b = refl
drop-splice [] (suc i) b = refl
drop-splice (c ∷ buf) (suc i) b = drop-splice buf i b

take-before : (buf : Bytes) (n i : ℕ) (b : Bytes) → n ≤ i → take n (splice buf i b) ≡ take n buf
unfolding splice
take-before buf zero i b h = refl
take-before [] (suc n) i b h = refl
take-before (c ∷ buf) (suc n) zero b h = elim h [ ]
take-before (c ∷ buf) (suc n) (suc i) b h = ap (◌∷◌ c) (take-before buf n i b (omega arith))

pub window-before :
    (buf : Bytes) (at n i : ℕ) (b : Bytes)
    → at + n ≤ i
    → take n (drop at (splice buf i b)) ≡ take n (drop at buf)
unfolding splice
window-before buf zero n i b h = take-before buf n i b (omega arith)
window-before [] (suc at) n i b h = refl
window-before (c ∷ buf) (suc at) n zero b h = absurd (omega arith)
window-before (c ∷ buf) (suc at) n (suc i) b h = window-before buf at n i b (omega arith)

pub write_rows-length :
    (s : Surface) (z : Zone) (source : Bytes) (stride n row : ℕ) (buf : Bytes)
    → length (write_rows s z source stride n row buf) ≡ length buf
unfolding write_rows
write_rows-length s z source stride zero row buf = refl
write_rows-length s z source stride (suc n) row buf =
    elim (Option-cases (slice source (row * stride) (z.width * 4))) [
      | inl e ↦ rw (write_rows, e) refl
      | inr (b, e) ↦ elim (Bool-cases (ltb (length buf) (row_start s z row + z.width * 4))) [
        | inl t ↦ rw (write_rows, e, t) refl
        | inr t ↦
            rw (write_rows, e, t)
              (write_rows-length s z source stride n (row + 1) (splice buf (row_start s z row) b)
                ∙ length-splice buf (row_start s z row) b)
      ]
    ]
