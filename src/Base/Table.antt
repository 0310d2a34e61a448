-- ===== src/Base/Table.antt =====
-- A `BTreeMap` with numbers for keys, as the list of its entries.
use Prim.Native.Nat.{ℕ, suc, ◌+◌, ◌≤◌}
use mathlib.Core.Bool.{Bool, true, false}
use mathlib.Core.List.{List, [], ◌∷◌}
use mathlib.Core.Logic.{inl, inr}
use mathlib.Core.Option.{Option, none, some}
use mathlib.Core.Path.{◌≡◌, refl, ap, subst}
use native.Mathlib.Omega.{arith}
use avash.Base.Tests.{◌==◌, if◌then◌else◌, Bool-cases, some-eq}
use avash.Base.Lists.{length, All}

abbrev pub Table : Type 0 → Type 0
Table A = List (ℕ × A)

module _ {A : Type 0} where
  abbrev pub is_some : Option A → Bool
  is_some none = false
  is_some (some a) = true

  unfoldable pub find : Table A → ℕ → Option A
  find [] k = none
  find ((j, a) ∷ r) k = if j == k then some a else find r k

  -- `insert`
  unfoldable pub put : Table A → ℕ → A → Table A
  put [] k new = (k, new) ∷ []
  put ((j, a) ∷ r) k new = if j == k then (k, new) ∷ r else (j, a) ∷ put r k new

  -- `remove`
  unfoldable pub delete : Table A → ℕ → Table A
  delete [] k = []
  delete ((j, a) ∷ r) k = if j == k then r else (j, a) ∷ delete r k

  -- A change of every value.
  unfoldable pub map_values : (A → A) → Table A → Table A
  map_values f [] = []
  map_values f ((j, a) ∷ r) = (j, f a) ∷ map_values f r

  pub find-put :
      (l : Table A) (k j : ℕ) (a : A) → find (put l k a) j ≡ (if j == k then some a else find l j)
  unfolding find put
  find-put [] k j a = ground arith
  find-put ((i, b) ∷ r) k j a = ground (arith, find-put r k j a)

  pub put-length :
      (l : Table A) (k : ℕ) (a : A)
      → length (put l k a) ≡ (if is_some (find l k) then length l else length l + 1)
  unfolding find put
  put-length [] k a = refl
  put-length ((i, b) ∷ r) k a = ground (arith, put-length r k a)

  -- Every value of the table, whatever its key.
  abbrev pub AllValues {κ} : (A → Type κ) → Table A → Type κ
  AllValues P = All (λ (e : ℕ × A). P e.1)

  pub AllValues-put {κ} :
      (P : A → Type κ) (l : Table A) (k : ℕ) (a : A) → AllValues P l → P a → AllValues P (put l k a)
  unfolding put
  AllValues-put P [] k a h p = (p, tt)
  AllValues-put P ((j, b) ∷ r) k a h p = elim (Bool-cases (j == k)) [
    | inl y ↦ rw (put, y) (p, h.1)
    | inr n ↦ rw (put, n) (h.0, AllValues-put P r k a h.1 p)
  ]

  pub AllValues-delete {κ} :
      (P : A → Type κ) (l : Table A) (k : ℕ) → AllValues P l → AllValues P (delete l k)
  unfolding delete
  AllValues-delete P [] k h = tt
  AllValues-delete P ((j, b) ∷ r) k h = elim (Bool-cases (j == k)) [
    | inl y ↦ rw (delete, y) h.1
    | inr n ↦ rw (delete, n) (h.0, AllValues-delete P r k h.1)
  ]

  pub AllValues-find {κ} :
      (P : A → Type κ) (l : Table A) (k : ℕ) (a : A) → find l k ≡ some a → AllValues P l → P a
  unfolding find
  AllValues-find P [] k a e h = absurd (cc e)
  AllValues-find P ((j, b) ∷ r) k a e h = elim (Bool-cases (j == k)) [
    | inl y ↦ subst P (some-eq (rw (find, y) at e)) h.0
    | inr n ↦ AllValues-find P r k a (rw (find, n) at e) h.1
  ]

  pub AllValues-map_values {κ} :
      (P : A → Type κ) (f : A → A) (l : Table A)
      → ((a : A) → P a → P (f a))
      → AllValues P l
      → AllValues P (map_values f l)
  unfolding map_values
  AllValues-map_values P f [] g h = tt
  AllValues-map_values P f ((j, a) ∷ r) g h = (g a h.0, AllValues-map_values P f r g h.1)

  pub map_values-length : (f : A → A) (l : Table A) → length (map_values f l) ≡ length l
  unfolding map_values
  map_values-length f [] = refl
  map_values-length f ((j, a) ∷ r) = ap suc (map_values-length f r)

  -- What the values weigh together, and one entry.
  module _ (weight : A → ℕ) where
    abbrev pub total : Table A → ℕ
    total [] = 0
    total ((j, a) ∷ r) = weight a + total r

    abbrev pub weight_of : Option A → ℕ
    weight_of none = 0
    weight_of (some a) = weight a

    pub weight-le-total : (l : Table A) (k : ℕ) → weight_of (find l k) ≤ total l
    unfolding find
    weight-le-total [] k = omega arith
    weight-le-total ((j, a) ∷ r) k = ground (arith, weight-le-total r k)

    pub put-total :
        (l : Table A) (k : ℕ) (a : A)
        → total (put l k a) + weight_of (find l k) ≡ total l + weight a
    unfolding find put
    put-total [] k a = omega arith
    put-total ((j, b) ∷ r) k a = ground (arith, put-total r k a)

    pub delete-total : (l : Table A) (k : ℕ) → total (delete l k) + weight_of (find l k) ≡ total l
    unfolding find delete
    delete-total [] k = omega arith
    delete-total ((j, b) ∷ r) k = ground (arith, delete-total r k)

    pub map_values-total :
        (f : A → A) (l : Table A)
        → ((a : A) → weight (f a) ≡ weight a)
        → total (map_values f l) ≡ total l
    unfolding map_values
    map_values-total f [] h = refl
    map_values-total f ((j, a) ∷ r) h = omega (arith, h a, map_values-total f r h)

  pub delete-length : (l : Table A) (k : ℕ) → length (delete l k) ≤ length l
  unfolding delete
  delete-length [] k = omega arith
  delete-length ((j, b) ∷ r) k = ground (arith, delete-length r k)

  pub delete-some-length :
      (l : Table A) (k : ℕ) (a : A) → find l k ≡ some a → length l ≡ length (delete l k) + 1
  unfolding find delete
  delete-some-length [] k a e = absurd (cc e)
  delete-some-length ((j, b) ∷ r) k a e = elim (Bool-cases (j == k)) [
    | inl y ↦ rw (delete, y) (omega arith)
    | inr n ↦ rw (delete, n) (omega (arith, delete-some-length r k a (rw (find, n) at e)))
  ]

  pub find-delete : (l : Table A) (k j : ℕ) → (j == k) ≡ false → find (delete l k) j ≡ find l j
  unfolding find delete
  find-delete [] k j h = refl
  find-delete ((i, b) ∷ r) k j h = ground (arith, h, find-delete r k j h)
