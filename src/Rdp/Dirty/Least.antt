-- ===== src/Rdp/Dirty/Least.antt =====
-- What the fusion of `ajouter_rect` (rdp-sidecar/src/trames.rs) wastes.
use avash.Base.{
  ℕ, zero, suc, ◌+◌, ◌*◌, ◌≤◌, ◌<◌, ◌≡◌, refl, ap, subst, ◌∙◌, inl, inr, ◌⊎◌, some, List, [], ◌∷◌,
  arith, length, get_elem?, ltb, ltb→lt, ltb-false→le, Bool-cases, All, if◌then◌else◌,
}
use native.Mathlib.Nat.{mul-le-mul_left}
use avash.Rdp.Dirty.Pixels.{some-eq}
use avash.Rdp.Dirty.{Rect, Choice, loss_of, best_with, best_from, best_pair, area, union}

le_trans : (l m n : ℕ) → l ≤ m → m ≤ n → l ≤ n
le_trans l m n h k = omega arith

-- The choice after the pair of `a` at `i` and `b` at `j` is tried.
abbrev tried : Rect → ℕ → ℕ → Rect → Choice → Choice
tried a i j b c =
    if ltb (loss_of a b) c.loss then record { loss = loss_of a b; first = i; second = j } else c

tried-le :
    (a : Rect) (i j : ℕ) (b : Rect) (c : Choice)
    → ((tried a i j b c).loss ≤ c.loss) × ((tried a i j b c).loss ≤ loss_of a b)
tried-le a i j b c = elim (Bool-cases (ltb (loss_of a b) c.loss)) [
  | inl y ↦ rw y (omega (arith, ltb→lt (loss_of a b) c.loss y), omega arith)
  | inr n ↦ rw n (omega arith, ltb-false→le (loss_of a b) c.loss n)
]

best_with-le :
    (a : Rect) (i j : ℕ) (rest : List Rect) (c : Choice) → (best_with a i j rest c).loss ≤ c.loss
unfolding best_with
best_with-le a i j [] c = omega arith
best_with-le a i j (b ∷ rest) c =
    le_trans _ _ _ (best_with-le a i (j + 1) rest (tried a i j b c)) (tried-le a i j b c).0

best_with-le-loss_of :
    (a : Rect) (i j : ℕ) (rest : List Rect) (c : Choice) (k : ℕ) (b : Rect)
    → get_elem? rest k ≡ some b
    → (best_with a i j rest c).loss ≤ loss_of a b
unfolding best_with
best_with-le-loss_of a i j [] c k b e = absurd (cc e)
best_with-le-loss_of a i j (d ∷ rest) c zero b e =
    subst (λ b. (best_with a i j (d ∷ rest) c).loss ≤ loss_of a b) (some-eq e)
      (le_trans _ _ _ (best_with-le a i (j + 1) rest (tried a i j d c)) (tried-le a i j d c).1)
best_with-le-loss_of a i j (d ∷ rest) c (suc k) b e =
    best_with-le-loss_of a i (j + 1) rest (tried a i j d c) k b e

best_from-le : (i : ℕ) (zone : List Rect) (c : Choice) → (best_from i zone c).loss ≤ c.loss
unfolding best_from
best_from-le i [] c = omega arith
best_from-le i (a ∷ rest) c =
    le_trans _ _ _ (best_from-le (i + 1) rest (best_with a i (i + 1) rest c))
      (best_with-le a i (i + 1) rest c)

best_from-le-loss_of :
    (i : ℕ) (zone : List Rect) (c : Choice) (m n : ℕ) (a b : Rect)
    → m < n
    → get_elem? zone m ≡ some a
    → get_elem? zone n ≡ some b
    → (best_from i zone c).loss ≤ loss_of a b
unfolding best_from
best_from-le-loss_of i [] c m n a b o e f = absurd (cc e)
best_from-le-loss_of i (d ∷ rest) c zero zero a b o e f = elim o [ ]
best_from-le-loss_of i (d ∷ rest) c zero (suc n) a b o e f =
    subst (λ a. (best_from i (d ∷ rest) c).loss ≤ loss_of a b) (some-eq e)
      (le_trans _ _ _ (best_from-le (i + 1) rest (best_with d i (i + 1) rest c))
        (best_with-le-loss_of d i (i + 1) rest c n b f))
best_from-le-loss_of i (d ∷ rest) c (suc m) zero a b o e f = elim o [ ]
best_from-le-loss_of i (d ∷ rest) c (suc m) (suc n) a b o e f =
    best_from-le-loss_of (i + 1) rest (best_with d i (i + 1) rest c) m n a b (omega arith) e f

-- The loss of the choice is that of its two places.
pub record IsChosen (zone : List Rect) (c : Choice) : Type 0 where
  pub one : Rect
  pub other : Rect
  pub first_place : get_elem? zone c.first ≡ some one
  pub second_place : get_elem? zone c.second ≡ some other
  pub ordered : c.first < c.second
  pub losing : c.loss ≡ loss_of one other

module _ (zone : List Rect) (c0 : Choice) where
  -- The start of the search, or a pair of the zone.
  abbrev Sound : Choice → Type 0
  Sound c = (c ≡ c0) ⊎ IsChosen zone c

  tried-Sound :
      (a : Rect) (i j : ℕ) (b : Rect) (c : Choice)
      → get_elem? zone i ≡ some a
      → get_elem? zone j ≡ some b
      → i < j
      → Sound c
      → Sound (tried a i j b c)
  tried-Sound a i j b c e f o s = elim (Bool-cases (ltb (loss_of a b) c.loss)) [
    | inl y ↦ rw y (
        inr (record {
          one = a;
          other = b;
          first_place = e;
          second_place = f;
          ordered = o;
          losing = refl;
        }))
    | inr n ↦ rw n s
  ]

  -- The rectangles of the zone from a place on.
  abbrev Behind : ℕ → List Rect → Type 0
  Behind j rest = (k : ℕ) → get_elem? zone (k + j) ≡ get_elem? rest k

  Behind-head :
      (j : ℕ) (b : Rect) (rest : List Rect) → Behind j (b ∷ rest) → get_elem? zone j ≡ some b
  Behind-head j b rest at = ap (get_elem? zone) here ∙ at 0
    where
      here : j ≡ 0 + j
      here = omega arith

  Behind-tail : (j : ℕ) (b : Rect) (rest : List Rect) → Behind j (b ∷ rest) → Behind (j + 1) rest
  Behind-tail j b rest at k = ap (get_elem? zone) shift ∙ at (suc k)
    where
      shift : k + (j + 1) ≡ suc k + j
      shift = omega arith

  best_with-Sound :
      (a : Rect) (i j : ℕ) (rest : List Rect) (c : Choice)
      → get_elem? zone i ≡ some a
      → Behind j rest
      → i < j
      → Sound c
      → Sound (best_with a i j rest c)
  unfolding best_with
  best_with-Sound a i j [] c e at o s = s
  best_with-Sound a i j (b ∷ rest) c e at o s =
      best_with-Sound a i (j + 1) rest (tried a i j b c) e (Behind-tail j b rest at)
        (omega (arith, o)) (tried-Sound a i j b c e (Behind-head j b rest at) o s)

  best_from-Sound :
      (i : ℕ) (rest : List Rect) (c : Choice) → Behind i rest → Sound c → Sound (best_from i rest c)
  unfolding best_from
  best_from-Sound i [] c at s = s
  best_from-Sound i (a ∷ rest) c at s =
      best_from-Sound (i + 1) rest (best_with a i (i + 1) rest c) (Behind-tail i a rest at) (
        best_with-Sound a i (i + 1) rest c (Behind-head i a rest at) (Behind-tail i a rest at)
          (omega arith) s)

-- Its right and bottom bounds have 16 bits.
abbrev pub Is16 : Rect → Type 0
Is16 r = (r.right ≤ 65535) × (r.bottom ≤ 65535)

product-le : (m n : ℕ) → m ≤ 65536 → n ≤ 65536 → m * n ≤ 4294967296
product-le m n h k = omega (arith, mul-le-mul_left m k, h)

loss-le : (a b : Rect) → Is16 a → Is16 b → loss_of a b ≤ 4294967296
unfolding loss_of area
loss-le a b h k =
    le_trans _ (area (union a b)) _ (omega arith)
      (product-le _ _ (omega (arith, h.0, k.0)) (omega (arith, h.1, k.1)))

abbrev start : Choice
start = record { loss = 0xffff_ffff_ffff_ffff; first = 0; second = 1 }

best_pair-le-loss_of :
    (zone : List Rect) (i j : ℕ) (c d : Rect)
    → i < j
    → get_elem? zone i ≡ some c
    → get_elem? zone j ≡ some d
    → (best_pair zone).loss ≤ loss_of c d
unfolding best_pair
best_pair-le-loss_of zone = best_from-le-loss_of 0 zone start

best_pair-Sound : (zone : List Rect) → Sound zone start (best_pair zone)
unfolding best_pair
best_pair-Sound zone = best_from-Sound zone start 0 zone start here (inl refl)
  where
    here : Behind zone start 0 zone
    here k = ap (get_elem? zone) same
      where
        same : k + 0 ≡ k
        same = omega arith

-- Where the first two rectangles waste less than the start of the search, the choice is a pair.
Sound-IsChosen :
    (zone : List Rect) (c : Choice) → Sound zone start c → c.loss ≤ 4294967296 → IsChosen zone c
Sound-IsChosen zone c (inl e) h = absurd (omega (arith, subst (λ c. c.loss ≤ 4294967296) e h))
Sound-IsChosen zone c (inr s) h = s

best_pair-IsChosen :
    (a b : Rect) (zone : List Rect)
    → Is16 a
    → Is16 b
    → IsChosen (a ∷ b ∷ zone) (best_pair (a ∷ b ∷ zone))
best_pair-IsChosen a b zone h k =
    Sound-IsChosen (a ∷ b ∷ zone) (best_pair (a ∷ b ∷ zone)) (best_pair-Sound (a ∷ b ∷ zone)) (
      le_trans _ (loss_of a b) _
        (best_pair-le-loss_of (a ∷ b ∷ zone) 0 1 a b (omega arith) refl refl) (loss-le a b h k))

-- In a zone of two rectangles or more, whose bounds have 16 bits, the pair that is chosen for the fusion is of two
-- places of the zone, the first before the second, and the union of no other pair wastes less.
pub best_pair-least :
    (zone : List Rect)
    → All Is16 zone
    → 1 < length zone
    → (a b : Rect) × (get_elem? zone (best_pair zone).first ≡ some a)
      × (get_elem? zone (best_pair zone).second ≡ some b)
      × ((best_pair zone).first < (best_pair zone).second)
      × ((i j : ℕ) (c d : Rect)
          → i < j
          → get_elem? zone i ≡ some c
          → get_elem? zone j ≡ some d
          → loss_of a b ≤ loss_of c d)
best_pair-least [] h w = elim w [ ]
best_pair-least (a ∷ []) h w = absurd (omega (arith, w))
best_pair-least (a ∷ b ∷ zone) h w =
    let chosen = best_pair-IsChosen a b zone h.0 h.1.0 in
    (
      chosen.one,
      chosen.other,
      chosen.first_place,
      chosen.second_place,
      chosen.ordered,
      λ i j c d o e f.
          subst (λ n. n ≤ loss_of c d) chosen.losing
            (best_pair-le-loss_of (a ∷ b ∷ zone) i j c d o e f),
    )
