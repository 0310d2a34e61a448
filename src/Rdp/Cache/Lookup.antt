-- ===== src/Rdp/Cache/Lookup.antt =====
-- What the cache of rdp-sidecar/src/surface.rs gives back.
use avash.Base.{
  ℕ, ◌≡◌, refl, sym, subst, inl, inr, none, some, ◌==◌, ==_iff, if◌then◌else◌, Bool-cases,
  Option-cases,
}
use avash.Base.Text.{Bytes}
use avash.Rdp.Cache.{Cache, find, deposit, read, forget}
use avash.Rdp.Cache.Budget.{IsWithin, fits, deposit-fits, find-insert, find-delete}

-- An image that fits is what its slot gives; one that does not fit, and any other slot, leave what
-- was stored.
pub read-deposit :
    (c : Cache) (k j w h : ℕ) (pixels : Bytes)
    → read (deposit c k w h pixels) j ≡ (
        if fits c k pixels
        then (if j == k then some (record { width = w; height = h; pixels = pixels }) else read c j)
        else read c j)
unfolding read
read-deposit c k j w h pixels = elim (Bool-cases (fits c k pixels)) [
  | inr n ↦ rw (deposit-fits c k w h pixels, n) refl
  | inl y ↦
      rw (deposit-fits c k w h pixels, y)
        (find-insert c.entries k j (record { width = w; height = h; pixels = pixels }))
]

-- In a cache within its bounds, a slot that is forgotten gives nothing; the other slots keep theirs.
pub read-forget :
    (c : Cache) (k j : ℕ) → IsWithin c → read (forget c k) j ≡ (if j == k then none else read c j)
unfolding read forget
read-forget c k j i = elim (Option-cases (find c.entries k)) [
  | inl n ↦
      rw (forget, n)
        (elim (Bool-cases (j == k)) [
          | inl y ↦ rw y (subst (λ i. find c.entries i ≡ none) (sym ((==_iff j k).0 y)) n)
          | inr m ↦ rw m refl
        ])
  | inr (e, y) ↦ rw (forget, y) (find-delete c.entries k j i.one_each)
]
