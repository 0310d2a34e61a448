-- ===== src/Folders/Normal.antt =====
-- The normal form of a path (crates/avash/src/folders.rs).
use avash.Base.{
  ℕ, Bool, true, false, ◌≡◌, refl, ap, ◌∙◌, inl, inr, List, [], ◌∷◌, map, arith, ◌==◌, any, All,
  Bool-cases,
}
use avash.Base.Text.{
  Text, codes, trim, trim_start_if, trim_end_if, onto_part, split_if, keep_if, join,
}
use avash.Base.Trim.{trim-trim}
use avash.Base.Any.{any-trim, AnyFree}
use avash.Config.Render.Comments.{split_if-append, split_if-free}
use avash.Folders.{is_segment, normalize}

pub record IsSegment (s : Text) : Type 0 where
  pub trimmed : trim s ≡ s
  pub kept : is_segment s ≡ true
  pub flat : any (λ c. c == b'/') s ≡ false

abbrev pub slash : ℕ → Bool
slash c = c == b'/'

onto_part-AnyFree :
    (c : ℕ) (l : List Text) → (c == b'/') ≡ false → AnyFree slash l → AnyFree slash (onto_part c l)
onto_part-AnyFree c [] n h = (ground arith, tt)
onto_part-AnyFree c (a ∷ l) n h = (ground (arith, h.0), h.1)

split_if-AnyFree : (s : Text) → AnyFree slash (split_if slash s)
unfolding split_if
split_if-AnyFree [] = (refl, tt)
split_if-AnyFree (c ∷ s) = elim (Bool-cases (c == b'/')) [
  | inl y ↦ rw (split_if, y) (refl, split_if-AnyFree s)
  | inr n ↦ rw (split_if, n) (onto_part-AnyFree c (split_if slash s) n (split_if-AnyFree s))
]

clean : (l : List Text) → AnyFree slash l → All IsSegment (keep_if is_segment (map trim l))
unfolding keep_if
clean [] h = tt
clean (s ∷ l) h = elim (Bool-cases (is_segment (trim s))) [
  | inl y ↦
      rw y (record { trimmed = trim-trim s; kept = y; flat = any-trim slash s h.0 }, clean l h.1)
  | inr n ↦ rw n (clean l h.1)
]

abbrev pub segments : Text → List Text
segments path = keep_if is_segment (map trim (split_if slash path))

pub segments-IsSegment : (path : Text) → All IsSegment (segments path)
segments-IsSegment path = clean (split_if slash path) (split_if-AnyFree path)

pub split_if-join :
    (s : Text) (l : List Text)
    → All IsSegment (s ∷ l)
    → split_if slash (join (codes "/") (s ∷ l)) ≡ s ∷ l
unfolding join
split_if-join s [] h = split_if-free b'/' s h.0.flat
split_if-join s (u ∷ l) h =
    split_if-append b'/' s (join (codes "/") (u ∷ l)) h.0.flat ∙ ap (◌∷◌ s) (split_if-join u l h.1)

keep-segments : (l : List Text) → All IsSegment l → keep_if is_segment (map trim l) ≡ l
unfolding keep_if
keep-segments [] h = refl
keep-segments (s ∷ l) h = rw (h.0.trimmed, h.0.kept) (ap (◌∷◌ s) (keep-segments l h.1))

-- A path of segments is in normal form.
pub normalize-join :
    (l : List Text) → All IsSegment l → normalize (join (codes "/") l) ≡ join (codes "/") l
unfolding normalize join keep_if split_if trim_start_if trim_end_if
normalize-join [] h = refl
normalize-join (s ∷ l) h =
    ap (λ x. join (codes "/") (keep_if is_segment (map trim x))) (split_if-join s l h)
    ∙ ap (join (codes "/")) (keep-segments (s ∷ l) h)

-- The normal form of a normal form is itself.
pub normalize_idem : (path : Text) → normalize (normalize path) ≡ normalize path
unfolding normalize
normalize_idem path = normalize-join (segments path) (segments-IsSegment path)
