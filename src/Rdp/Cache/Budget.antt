-- ===== src/Rdp/Cache/Budget.antt =====
-- The bounds of the cache of rdp-sidecar/src/surface.rs.
use avash.Base.{
  ℕ, ◌+◌, ◌-◌, ◌≤◌, Bool, true, not, ◌&&◌, ◌≡◌, refl, subst, ◌∙◌, inl, inr, none, some, [], ◌∷◌,
  arith, length, ltb, leb, ◌==◌, ==_iff, if◌then◌else◌, Bool-cases, Option-cases,
}
use avash.Base.Text.{Bytes}
use avash.Rdp.Cache.{
  Entry, Entries, find, insert, delete, Cache, empty, slots_max, octets_max, weight, is_taken,
  deposit, forget,
}

-- The bytes of all entries.
abbrev pub total : Entries → ℕ
total [] = 0
total ((k, e) ∷ r) = length e.pixels + total r

-- No two entries have one slot.
abbrev pub OneEach : Entries → Type 0
OneEach [] = Unit
OneEach ((k, e) ∷ r) = (find r k ≡ none) × OneEach r

pub record IsWithin (c : Cache) : Type 0 where
  pub counted : c.octets ≡ total c.entries
  pub light : c.octets ≤ octets_max
  pub few : length c.entries ≤ slots_max
  pub one_each : OneEach c.entries

weight-total : (l : Entries) (k : ℕ) → weight (find l k) ≤ total l
unfolding find
weight-total [] k = omega arith
weight-total ((j, e) ∷ r) k = ground (arith, weight-total r k)

insert-total :
    (l : Entries) (k : ℕ) (e : Entry)
    → total (insert l k e) + weight (find l k) ≡ total l + length e.pixels
unfolding find insert
insert-total [] k e = omega arith
insert-total ((j, d) ∷ r) k e = ground (arith, insert-total r k e)

insert-length :
    (l : Entries) (k : ℕ) (e : Entry)
    → length (insert l k e) ≡ (if is_taken (find l k) then length l else length l + 1)
unfolding find insert
insert-length [] k e = refl
insert-length ((j, d) ∷ r) k e = ground (arith, insert-length r k e)

pub find-insert :
    (l : Entries) (k j : ℕ) (e : Entry)
    → find (insert l k e) j ≡ (if j == k then some e else find l j)
unfolding find insert
find-insert [] k j e = ground arith
find-insert ((i, d) ∷ r) k j e = ground (arith, find-insert r k j e)

insert-OneEach : (l : Entries) (k : ℕ) (e : Entry) → OneEach l → OneEach (insert l k e)
unfolding insert
insert-OneEach [] k e h = (unfold find in refl, tt)
insert-OneEach ((j, d) ∷ r) k e h = elim (Bool-cases (j == k)) [
  | inl y ↦ rw (insert, y) (subst (λ i. find r i ≡ none) ((==_iff j k).0 y) h.0, h.1)
  | inr n ↦ rw (insert, n) (find-insert r k j e ∙ rw n h.0, insert-OneEach r k e h.1)
]

delete-total : (l : Entries) (k : ℕ) → total (delete l k) + weight (find l k) ≡ total l
unfolding find delete
delete-total [] k = refl
delete-total ((j, d) ∷ r) k = ground (arith, delete-total r k)

delete-length : (l : Entries) (k : ℕ) → length (delete l k) ≤ length l
unfolding delete
delete-length [] k = omega arith
delete-length ((j, d) ∷ r) k = ground (arith, delete-length r k)

pub find-delete :
    (l : Entries) (k j : ℕ) → OneEach l → find (delete l k) j ≡ (if j == k then none else find l j)
unfolding find delete
find-delete [] k j h = ground arith
find-delete ((i, d) ∷ r) k j h = ground (arith, find-delete r k j h.1)

delete-OneEach : (l : Entries) (k : ℕ) → OneEach l → OneEach (delete l k)
unfolding delete
delete-OneEach [] k h = tt
delete-OneEach ((j, d) ∷ r) k h = elim (Bool-cases (j == k)) [
  | inl y ↦ rw (delete, y) h.1
  | inr n ↦ rw (delete, n) (find-delete r k j h.1 ∙ rw n h.0, delete-OneEach r k h.1)
]

pub empty-IsWithin : IsWithin empty
empty-IsWithin = record { counted = refl; light = omega arith; few = omega arith; one_each = tt }

-- The cache has a slot for it, and the bytes of the other entries leave room for it.
abbrev pub fits : Cache → ℕ → Bytes → Bool
fits c k pixels =
    not (leb slots_max (length c.entries) && not (is_taken (find c.entries k)))
    && not (ltb octets_max (c.octets - weight (find c.entries k) + length pixels))

pub deposit-fits :
    (c : Cache) (k w h : ℕ) (pixels : Bytes)
    → deposit c k w h pixels ≡ (
        if fits c k pixels
        then record {
          entries = insert c.entries k (record { width = w; height = h; pixels = pixels });
          octets = c.octets - weight (find c.entries k) + length pixels;
        }
        else c)
unfolding deposit
deposit-fits c k w h pixels = ground arith

fits-light :
    (c : Cache) (k : ℕ) (pixels : Bytes)
    → fits c k pixels ≡ true
    → c.octets - weight (find c.entries k) + length pixels ≤ octets_max
fits-light c k pixels y = ground arith

fits-few :
    (c : Cache) (k w h : ℕ) (pixels : Bytes)
    → length c.entries ≤ slots_max
    → fits c k pixels ≡ true
    → length (insert c.entries k (record { width = w; height = h; pixels = pixels })) ≤ slots_max
fits-few c k w h pixels few y =
    ground (arith, insert-length c.entries k (record { width = w; height = h; pixels = pixels }))

-- Storing an image keeps a cache that is within its bounds within them: its counter is the sum of its
-- bytes, at most sixteen mebibytes in at most 4096 slots, each of which has one entry.
pub deposit-IsWithin :
    (c : Cache) (k w h : ℕ) (pixels : Bytes) → IsWithin c → IsWithin (deposit c k w h pixels)
deposit-IsWithin c k w h pixels i = elim (Bool-cases (fits c k pixels)) [
  | inr n ↦ rw (deposit-fits c k w h pixels, n) i
  | inl y ↦
      rw (deposit-fits c k w h pixels, y)
        (record {
          counted = omega (
            arith,
            i.counted,
            insert-total c.entries k (record { width = w; height = h; pixels = pixels }),
            weight-total c.entries k,
          );
          light = fits-light c k pixels y;
          few = fits-few c k w h pixels i.few y;
          one_each =
              insert-OneEach c.entries k (record { width = w; height = h; pixels = pixels })
                i.one_each;
        })
]

-- Forgetting a slot keeps a cache that is within its bounds within them.
pub forget-IsWithin : (c : Cache) (k : ℕ) → IsWithin c → IsWithin (forget c k)
unfolding forget
forget-IsWithin c k i = elim (Option-cases (find c.entries k)) [
  | inl n ↦ rw (forget, n) i
  | inr (e, y) ↦
      rw (forget, y)
        (record {
          counted = omega (arith, i.counted, weight-of e y, delete-total c.entries k);
          light = omega (arith, i.light);
          few = omega (arith, i.few, delete-length c.entries k);
          one_each = delete-OneEach c.entries k i.one_each;
        })
]
  where
    weight-of :
        (e : Entry) → find c.entries k ≡ some e → weight (find c.entries k) ≡ length e.pixels
    weight-of e y = rw y refl
