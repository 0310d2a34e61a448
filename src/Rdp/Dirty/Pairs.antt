-- ===== src/Rdp/Dirty/Pairs.antt =====
-- Which pair of rectangles `ajouter_rect` (rdp-sidecar/src/trames.rs) fuses.
use avash.Base.{ℕ, ◌+◌, ◌≤◌, ◌<◌, inl, inr, List, [], ◌∷◌, arith, length, ltb, Bool-cases}
use avash.Rdp.Dirty.{Rect, Choice, loss_of, best_with, best_from, best_pair}

-- Two places of a list of `n`, in order.
pub record IsPair (n : ℕ) (c : Choice) : Type 0 where
  pub ordered : c.first < c.second
  pub within : c.second < n

best_with-IsPair :
    (n : ℕ) (a : Rect) (i j : ℕ) (rest : List Rect) (c : Choice)
    → i < j
    → j + length rest ≤ n
    → IsPair n c
    → IsPair n (best_with a i j rest c)
unfolding best_with
best_with-IsPair n a i j [] c o w p = p
best_with-IsPair n a i j (b ∷ rest) c o w p =
    best_with-IsPair n a i (j + 1) rest _ (omega arith) (omega arith)
      (elim (Bool-cases (ltb (loss_of a b) c.loss)) [
        | inl e ↦ rw e (record { ordered = o; within = omega arith })
        | inr e ↦ rw e p
      ])

best_from-IsPair :
    (n i : ℕ) (zone : List Rect) (c : Choice)
    → i + length zone ≤ n
    → IsPair n c
    → IsPair n (best_from i zone c)
unfolding best_from
best_from-IsPair n i [] c w p = p
best_from-IsPair n i (a ∷ rest) c w p =
    best_from-IsPair n (i + 1) rest (best_with a i (i + 1) rest c) (omega arith)
      (best_with-IsPair n a i (i + 1) rest c (omega arith) (omega arith) p)

pub best_pair-IsPair : (zone : List Rect) → 1 < length zone → IsPair (length zone) (best_pair zone)
unfolding best_pair
best_pair-IsPair zone h =
    best_from-IsPair (length zone) 0 zone _ (omega arith)
      (record { ordered = omega arith; within = h })
