-- ===== src/Files/Nearer.antt =====
-- When a reception of rdp-sidecar/src/fichiers.rs is nearer to its end, and the end of one file.
use avash.Base.{
  ℕ, ◌+◌, ◌-◌, ◌^◌, ◌≤◌, ◌<◌, min, true, false, ◌&&◌, ◌≡◌, refl, ap, ◌⊎◌, inl, inr, none, some,
  List, [], ◌∷◌, arith, length, ltb, leb, if◌then◌else◌, is_nil,
}
use avash.Base.Text.{Text}
use avash.Base.Table.{Table, is_some}
use avash.Files.Disk.{Disk, Io-cases}
use avash.Files.Places.{promote}
use avash.Files.Requests.{in_flight_max}
use avash.Files.Window.{IsFlowing}
use avash.Files.Reception.{Flight, Reception, push_error, count_finished, follows, shown_name}
use avash.Files.Opening.{start, abandon, promote_and_go}
use avash.Files.Alive.{IsAlive, IsStarted}
use avash.Files.Started.{IsStarted-later, start_from-IsStarted}

-- A file that is not complete has something in flight, or to ask for.
pub more :
    (size asked received next : ℕ) (flying : Table (ℕ × ℕ))
    → leb size received && is_nil flying ≡ false
    → IsFlowing size asked received next flying
    → (0 < length flying) ⊎ (asked < size)
more size asked received next [] n h = inr (ground (arith, n, h.enough))
more size asked received next (z ∷ flying) n h = inl (omega arith)

pub fewer :
    (size asked p n len a b : ℕ)
    → a ≡ b + 1
    → ((if ltb n len then min size (p + n) else size) - asked) + b < (size - asked) + a
fewer size asked p n len a b h = ground (arith, h)

-- A file of which nothing is asked yet.
pub first :
    (size asked received next : ℕ) (flying : Table (ℕ × ℕ))
    → asked ≡ 0
    → received ≡ 0
    → flying ≡ []
    → IsFlowing size asked received next flying
first size asked received next flying a b c =
    rw (a, b, c)
      (record {
        window = omega arith;
        within = tt;
        spread = λ a b le. omega arith;
        enough = omega arith;
        fits = omega arith;
        numbered = tt;
      })

module _ (disk : Disk) where
  open disk use {World, Handle}

  -- What is left of a file in reception: bytes to ask for, and answers to come.
  abbrev pub left : Flight disk → ℕ
  left e = (e.size - e.asked) + length e.flying

  -- A reception nearer to its end: it is over, or another file is in reception, or the size is known, or less is left.
  pub data IsNearer (r r' : Reception disk) : Type 0 where
    over : r'.current ≡ none → IsNearer r r'
    opened : r.next < r'.next → IsNearer r r'
    sized :
        (e e' : Flight disk)
        → r.current ≡ some e
        → r'.current ≡ some e'
        → r'.next ≡ r.next
        → is_some e.size_stream ≡ true
        → e'.size_stream ≡ none
        → IsNearer r r'
    answered :
        (e e' : Flight disk)
        → r.current ≡ some e
        → r'.current ≡ some e'
        → r'.next ≡ r.next
        → e'.size_stream ≡ e.size_stream
        → left e' < left e
        → IsNearer r r'

  pub record IsReceived (r : Reception disk) (id : ℕ) (r' : Reception disk) : Type 0 where
    pub alive : IsAlive disk r'
    pub numbers : r'.next_stream ≤ r.next_stream + in_flight_max
    pub files : r'.files ≡ r.files
    pub nearer : follows disk r id ≡ true → IsNearer r r'

  -- The next file is started, after one that is over.
  pub ended : (r r' : Reception disk) (id : ℕ) → IsStarted disk r r' → IsReceived r id r'
  ended r r' id h = record {
    alive = h.alive;
    numbers = h.numbers;
    files = h.files;
    nearer = λ f. elim h.moved [ inl e ↦ IsNearer.over e | inr l ↦ IsNearer.opened l ];
  }

  pub start-IsStarted :
      (w : World) (r : Reception disk)
      → r.current ≡ none
      → r.next_stream + in_flight_max < 2 ^ 32
      → IsStarted disk r (start disk w r).1
  unfolding start
  start-IsStarted w r c few =
      let empty : is_some r.current ≡ false = ap is_some c in
      rw (start, empty)
        (start_from-IsStarted disk (length r.files - r.next) w r c (omega arith) few)

  -- A state that differs by the file in reception and by the accounts only.
  pub record IsBeside (r a : Reception disk) : Type 0 where
    pub next : a.next ≡ r.next
    pub next_stream : a.next_stream ≡ r.next_stream
    pub files : a.files ≡ r.files

  started : (r a r' : Reception disk) → IsBeside r a → IsStarted disk a r' → IsStarted disk r r'
  started r a r' b h = IsStarted-later disk r a r' b.next_stream b.files (omega (arith, b.next)) h

  module _ (r : Reception disk) (few : r.next_stream + in_flight_max < 2 ^ 32) where
    pub abandon-IsStarted :
        (w : World) (a : Reception disk) (e : Flight disk) (reason : Text)
        → IsBeside r a
        → IsStarted disk r (abandon disk w a e reason).1
    unfolding abandon
    abandon-IsStarted w a e reason b =
        started r _ _ (record { next = b.next; next_stream = b.next_stream; files = b.files })
          (start-IsStarted w
            (count_finished disk
              (push_error disk (record a { current = none }) (shown_name disk a e.index) reason))
            refl (omega (arith, few, b.next_stream)))

    restarted :
        (w : World) (a : Reception disk)
        → IsBeside r a
        → a.current ≡ none
        → IsStarted disk r (start disk w a).1
    restarted w a b c = started r a _ b (start-IsStarted w a c (omega (arith, few, b.next_stream)))

    pub promote_and_go-IsStarted :
        (w : World) (a : Reception disk) (e : Flight disk)
        → IsBeside r a
        → IsStarted disk r (promote_and_go disk w a e).1
    unfolding promote_and_go
    promote_and_go-IsStarted w a e b =
        let beside : (errors : List Text)
            → IsBeside r (record a { current = none; errors = errors; counted = a.counted + 1 }) =
          λ errors. record { next = b.next; next_stream = b.next_stream; files = b.files } in
        elim (Io-cases (disk.flush w e.file).1) [
          | inr (k, t, m) ↦ rw (promote_and_go, m) (restarted _ _ (beside _) refl)
          | inl (x, m) ↦
              elim (Io-cases (promote disk (disk.flush w e.file).0 e.partial e.target).1) [
                | inl (p, q) ↦ rw (promote_and_go, m, q) (restarted _ _ (beside _) refl)
                | inr (k, t, q) ↦ rw (promote_and_go, m, q) (restarted _ _ (beside _) refl)
              ]
        ]
