-- ===== src/Files/Window.antt =====
-- The requests in flight of rdp-sidecar/src/fichiers.rs: what they hold of a file.
use avash.Base.{
  ℕ, ◌+◌, ◌-◌, ◌≤◌, ◌<◌, min, ◌≡◌, refl, ap, inl, inr, none, some, [], ◌∷◌, arith, length, All, ltb,
  ◌==◌, if◌then◌else◌, Bool-cases, ltb-false→le, ltb→lt,
}
use avash.Base.Table.{
  Table, find, put, delete, AllValues, AllValues-put, AllValues-delete, AllValues-find, total,
  weight_of, put-total, put-length, delete-total, delete-length,
}
use avash.Files.Requests.{in_flight_max}

-- What a range holds of the first `t` bytes of a file; so together.
abbrev pub portion : ℕ → ℕ × ℕ → ℕ
portion t z = min (z.0 + z.1) t - z.0

abbrev pub held : ℕ → Table (ℕ × ℕ) → ℕ
held t = total (portion t)

abbrev pub lengths : Table (ℕ × ℕ) → ℕ
lengths = total (λ (z : ℕ × ℕ). z.1)

-- The state of a file whose size is known.
pub record IsFlowing (size asked received next : ℕ) (flying : Table (ℕ × ℕ)) : Type 0 where
  pub window : length flying ≤ in_flight_max
  pub within : AllValues (λ (z : ℕ × ℕ). z.0 + z.1 ≤ asked) flying
  pub spread : (a b : ℕ) → a ≤ b → held b flying ≤ held a flying + (min b asked - a)
  pub enough : min size asked ≤ received + held size flying
  pub fits : received + lengths flying ≤ asked
  pub numbered : All (λ (e : ℕ × (ℕ × ℕ)). e.0 < next) flying

pub numbered-fresh :
    (l : Table (ℕ × ℕ)) (next id : ℕ)
    → All (λ (e : ℕ × (ℕ × ℕ)). e.0 < next) l
    → next ≤ id
    → find l id ≡ none
unfolding find
numbered-fresh [] next id h k = refl
numbered-fresh ((j, z) ∷ l) next id h k = ground (arith, h.0, numbered-fresh l next id h.1 k)

numbered-put :
    (l : Table (ℕ × ℕ)) (next next' id : ℕ) (z : ℕ × ℕ)
    → All (λ (e : ℕ × (ℕ × ℕ)). e.0 < next) l
    → next ≤ next'
    → id < next'
    → All (λ (e : ℕ × (ℕ × ℕ)). e.0 < next') (put l id z)
unfolding put
numbered-put [] next next' id z h k i = (i, tt)
numbered-put ((j, y) ∷ l) next next' id z h k i = elim (Bool-cases (j == id)) [
  | inl e ↦ rw (put, e) (i, weaker l h.1)
  | inr e ↦ rw (put, e) (omega (arith, h.0), numbered-put l next next' id z h.1 k i)
]
  where
    weaker :
        (l : Table (ℕ × ℕ))
        → All (λ (e : ℕ × (ℕ × ℕ)). e.0 < next) l
        → All (λ (e : ℕ × (ℕ × ℕ)). e.0 < next') l
    weaker [] h = tt
    weaker (e ∷ l) h = (omega (arith, h.0), weaker l h.1)

numbered-delete :
    (l : Table (ℕ × ℕ)) (next id : ℕ)
    → All (λ (e : ℕ × (ℕ × ℕ)). e.0 < next) l
    → All (λ (e : ℕ × (ℕ × ℕ)). e.0 < next) (delete l id)
unfolding delete
numbered-delete [] next id h = tt
numbered-delete ((j, y) ∷ l) next id h = elim (Bool-cases (j == id)) [
  | inl e ↦ rw (delete, e) h.1
  | inr e ↦ rw (delete, e) (h.0, numbered-delete l next id h.1)
]

within-weaker :
    (l : Table (ℕ × ℕ)) (a b : ℕ)
    → a ≤ b
    → AllValues (λ (z : ℕ × ℕ). z.0 + z.1 ≤ a) l
    → AllValues (λ (z : ℕ × ℕ). z.0 + z.1 ≤ b) l
within-weaker [] a b k h = tt
within-weaker (e ∷ l) a b k h = (omega (arith, h.0), within-weaker l a b k h.1)

-- One more range in flight, under a fresh number.
pub IsFlowing-put :
    (size asked received next len : ℕ) (flying : Table (ℕ × ℕ))
    → IsFlowing size asked received next flying
    → asked + len ≤ size
    → 0 < len
    → length flying < in_flight_max
    → IsFlowing size (asked + len) received (next + 1) (put flying next (asked, len))
IsFlowing-put size asked received next len flying h k some_len room =
    let fresh : find flying next ≡ none =
      numbered-fresh flying next next h.numbered (omega arith) in
    let heavier : (w : ℕ × ℕ → ℕ)
        → total w (put flying next (asked, len)) ≡ total w flying + w (asked, len) =
      λ w. omega (arith, put-total w flying next (asked, len), ap (weight_of w) fresh) in
    record {
      window = rw (put-length flying next (asked, len), fresh) (omega (arith, room));
      within =
          AllValues-put (λ (z : ℕ × ℕ). z.0 + z.1 ≤ asked + len) flying next (asked, len)
            (within-weaker flying asked (asked + len) (omega arith) h.within) (omega arith);
      spread =
          λ a b le. omega (arith, heavier (portion a), heavier (portion b), h.spread a b le, le);
      enough = omega (arith, heavier (portion size), h.enough, k);
      fits = omega (arith, heavier (λ (z : ℕ × ℕ). z.1), h.fits);
      numbered =
          numbered-put flying next (next + 1) next (asked, len) h.numbered (omega arith)
            (omega arith);
    }

-- A range that is answered by `n` bytes of it.
pub IsFlowing-written :
    (size asked received next id p len n : ℕ) (flying : Table (ℕ × ℕ))
    → IsFlowing size asked received next flying
    → find flying id ≡ some (p, len)
    → n ≤ len
    → IsFlowing
        (if ltb n len then min size (p + n) else size)
        asked
        (received + n)
        next
        (delete flying id)
IsFlowing-written size asked received next id p len n flying h f k =
    let lighter : (w : ℕ × ℕ → ℕ) → total w (delete flying id) + w (p, len) ≡ total w flying =
      λ w. omega (arith, delete-total w flying id, ap (weight_of w) f) in
    let inside : p + len ≤ asked =
      AllValues-find (λ (z : ℕ × ℕ). z.0 + z.1 ≤ asked) flying id (p, len) f h.within in
    record {
      window = omega (arith, delete-length flying id, h.window);
      within = AllValues-delete (λ (z : ℕ × ℕ). z.0 + z.1 ≤ asked) flying id h.within;
      spread =
          λ a b le. omega (arith, lighter (portion a), lighter (portion b), h.spread a b le, le);
      enough = elim (Bool-cases (ltb n len)) [
        | inr e ↦ rw e (omega (arith, lighter (portion size), h.enough, ltb-false→le n len e))
        | inl e ↦ rw e (elim (Bool-cases (ltb (p + n) size)) [
          | inr g ↦
              let whole : min size (p + n) ≡ size = omega (arith, ltb-false→le (p + n) size g) in
              rw whole
                (omega (arith, lighter (portion size), h.enough, ltb-false→le (p + n) size g))
          | inl g ↦
              let less : p + n < size = ltb→lt (p + n) size g in
              let cut : min size (p + n) ≡ p + n = omega (arith, less) in
              rw cut (
                omega (
                  arith,
                  lighter (portion (p + n)),
                  h.enough,
                  h.spread (p + n) size (omega (arith, less)),
                  less,
                  k,
                  inside,
                ))
        ])
      ];
      fits = omega (arith, lighter (λ (z : ℕ × ℕ). z.1), h.fits, k);
      numbered = numbered-delete flying next id h.numbered;
    }
