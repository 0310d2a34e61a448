-- ===== src/Rdp/Dirty.antt =====
-- rdp-sidecar/src/trames.rs: the dirty zone, and `ajouter_rect`, which adds a rectangle to it. The
-- bounds of a rectangle are inclusive. `none` is a panic of an index out of bounds, or the end of
-- the fuel.
pub mod Pairs
pub mod Pixels
pub mod Covers
pub mod Least
use avash.Base.{
  ℕ, zero, suc, ◌+◌, ◌-◌, ◌*◌, min, max, Bool, true, false, Option, none, some, List, [], ◌∷◌, ◌++◌,
  length, get_elem?, set, remove_at, ltb, leb, if◌then◌else◌,
}

pub record Rect : Type 0 where
  pub left : ℕ
  pub top : ℕ
  pub right : ℕ
  pub bottom : ℕ

abbrev pub rects_max : ℕ
rects_max = 8

-- `saturating_sub` is the subtraction of ℕ; with bounds of 16 bits the 64 bits never overflow.
unfoldable pub area : Rect → ℕ
area a = ((a.right + 1) - a.left) * ((a.bottom + 1) - a.top)

abbrev pub union : Rect → Rect → Rect
union a b = record {
  left = min a.left b.left;
  top = min a.top b.top;
  right = max a.right b.right;
  bottom = max a.bottom b.bottom;
}

-- Four bytes a pixel, and the header of eight.
unfoldable pub cost : Rect → ℕ
unfolding area
cost a = area a * 4 + 8

abbrev pub onto_zone : Rect → Option (List Rect) → Option (List Rect)
onto_zone e none = none
onto_zone e (some z) = some (e ∷ z)

-- The first loop: the first rectangle whose union with `r` costs no more than the two.
unfoldable pub merge_first : List Rect → Rect → Option (List Rect)
unfolding cost
merge_first [] r = none
merge_first (e ∷ zone) r =
    let later = onto_zone e (merge_first zone r) in
    if leb (cost (union e r)) (cost e + cost r) then some (union e r ∷ zone) else later

pub record Choice : Type 0 where
  pub loss : ℕ
  pub first : ℕ
  pub second : ℕ

-- What the union of the two wastes.
unfoldable pub loss_of : Rect → Rect → ℕ
unfolding area
loss_of a b = area (union a b) - (area a + area b)

-- The loop over `j`: `rest` holds the rectangles from `j` on.
unfoldable pub best_with : Rect → ℕ → ℕ → List Rect → Choice → Choice
unfolding loss_of
best_with a i j [] c = c
best_with a i j (b ∷ rest) c =
    best_with a i (j + 1) rest
      (if ltb (loss_of a b) c.loss then record { loss = loss_of a b; first = i; second = j } else c)

-- The loop over `i`.
unfoldable pub best_from : ℕ → List Rect → Choice → Choice
unfolding best_with
best_from i [] c = c
best_from i (a ∷ rest) c = best_from (i + 1) rest (best_with a i (i + 1) rest c)

unfoldable pub best_pair : List Rect → Choice
unfolding best_from
best_pair zone = best_from 0 zone (record { loss = 0xffff_ffff_ffff_ffff; first = 0; second = 1 })

-- `zone[i] = union(&zone[i], &zone[j]); zone.remove(j);`
unfoldable pub fuse : List Rect → ℕ → ℕ → Option (List Rect)
fuse zone i j = elim (get_elem? zone i) [
  | none ↦ none
  | some a ↦ elim (get_elem? zone j) [
    | none ↦ none
    | some b ↦ some (remove_at (set zone i (union a b)) j)
  ]
]

abbrev pub and_then : Option (List Rect) → (List Rect → Option (List Rect)) → Option (List Rect)
and_then none k = none
and_then (some z) k = k z

-- `while zone.len() > RECTS_MAX`
unfoldable pub reduce : ℕ → List Rect → Option (List Rect)
unfolding best_pair fuse
reduce zero zone = if ltb rects_max (length zone) then none else some zone
reduce (suc f) zone =
    let again = and_then (fuse zone (best_pair zone).first (best_pair zone).second) (reduce f) in
    if ltb rects_max (length zone) then again else some zone

unfoldable pub add_rect : List Rect → Rect → Option (List Rect)
unfolding merge_first reduce
add_rect zone r = elim (merge_first zone r) [
  | some z ↦ some z
  | none ↦ reduce (length zone + 1) (zone ++ r ∷ [])
]
