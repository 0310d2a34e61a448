-- ===== src/Files/Alive.antt =====
-- The invariant of `Reception` (rdp-sidecar/src/fichiers.rs), and `remplir` under it.
use avash.Base.{
  ℕ, zero, suc, ◌+◌, ◌-◌, ◌^◌, ◌≤◌, ◌<◌, true, ◌≡◌, refl, ◌⊎◌, inl, inr, Option, none, some, List,
  [], ◌∷◌, arith, length, get_elem?, ltb, Bool-cases,
}
use avash.Base.Table.{is_some}
use avash.Files.Names.{Descriptor}
use avash.Files.Disk.{Disk}
use avash.Files.Requests.{in_flight_max, plan, asked_after, issue}
use avash.Files.Window.{IsFlowing}
use avash.Files.Filled.{issue-IsFilled}
use avash.Files.Reception.{Flight, Reception, refill}

pub get_elem?-none : (l : List Descriptor) (i : ℕ) → get_elem? l i ≡ none → length l ≤ i
get_elem?-none [] i e = omega arith
get_elem?-none (d ∷ l) zero e = absurd (cc e)
get_elem?-none (d ∷ l) (suc i) e = omega (arith, get_elem?-none l i e)

pub get_elem?-some :
    (l : List Descriptor) (i : ℕ) (d : Descriptor) → get_elem? l i ≡ some d → i < length l
get_elem?-some [] i d e = absurd (cc e)
get_elem?-some (x ∷ l) zero d e = omega arith
get_elem?-some (x ∷ l) (suc i) d e = omega (arith, get_elem?-some l i d e)

module _ (disk : Disk) where
  open disk use {World, Handle}

  -- A file in reception waits for its size, or for ranges.
  pub record IsUnsized (e : Flight disk) : Type 0 where
    pub waits : is_some e.size_stream ≡ true
    pub asked : e.asked ≡ 0
    pub received : e.received ≡ 0
    pub flying : e.flying ≡ []

  pub record IsSized (next_stream : ℕ) (e : Flight disk) : Type 0 where
    pub sized : e.size_stream ≡ none
    pub flowing : IsFlowing e.size e.asked e.received next_stream e.flying
    pub some_flying : 0 < length e.flying

  abbrev pub IsGoing : ℕ → ℕ → Flight disk → Type 0
  IsGoing files next_stream e = (e.index < files) × (IsUnsized e ⊎ IsSized next_stream e)

  -- Nothing is left to receive, or something is in flight.
  abbrev pub IsWaiting : ℕ → ℕ → ℕ → Option (Flight disk) → Type 0
  IsWaiting files next next_stream none = files ≤ next
  IsWaiting files next next_stream (some e) = IsGoing files next_stream e

  abbrev pub IsAlive : Reception disk → Type 0
  IsAlive r = IsWaiting (length r.files) r.next r.next_stream r.current

  -- What a step leaves, that begins with no file in reception.
  pub record IsStarted (r r' : Reception disk) : Type 0 where
    pub alive : IsAlive r'
    pub numbers : r'.next_stream ≤ r.next_stream + in_flight_max
    pub files : r'.files ≡ r.files
    pub moved : (r'.current ≡ none) ⊎ (r.next < r'.next)

  -- What `remplir` leaves of a file in reception.
  pub record IsRefilled (r : Reception disk) (e : Flight disk) (r' : Reception disk)
      (e' : Flight disk) : Type 0 where
    pub current : r'.current ≡ some e'
    pub going : IsSized r'.next_stream e'
    pub numbers : r'.next_stream ≤ r.next_stream + in_flight_max
    pub files : r'.files ≡ r.files
    pub next : r'.next ≡ r.next
    pub index : e'.index ≡ e.index
    pub less : (e'.size - e'.asked) + length e'.flying ≤ (e.size - e.asked) + length e.flying

  pub refill-IsRefilled :
      (r : Reception disk) (e : Flight disk)
      → e.size_stream ≡ none
      → IsFlowing e.size e.asked e.received r.next_stream e.flying
      → (0 < length e.flying) ⊎ (e.asked < e.size)
      → r.next_stream + in_flight_max < 2 ^ 32
      → (e' : Flight disk) × IsRefilled r e (refill disk r e).0 e'
  unfolding refill
  refill-IsRefilled r e sized flowing some_left few =
      let n = in_flight_max - length e.flying in
      let k =
        issue-IsFilled r.data_id e.index e.size e.asked e.received r.next_stream n e.flying flowing
          (omega (arith, flowing.window)) (omega (arith, few)) in
      (
        record e {
          asked = asked_after e.asked (plan n e.size e.asked);
          flying = (issue r.data_id e.index (plan n e.size e.asked) r.next_stream e.flying).1;
        },
        record {
          current = refl;
          going = record {
            sized = sized;
            flowing = k.flowing;
            some_flying = elim some_left [
              | inl a ↦ omega (arith, a, k.kept)
              | inr b ↦ elim (Bool-cases (ltb 0 (length e.flying))) [
                | inl y ↦ grind (arith, y, k.kept)
                | inr z ↦ k.asks (grind (arith, z)) b
              ]
            ];
          };
          numbers = omega (arith, k.numbers);
          files = refl;
          next = refl;
          index = refl;
          less = k.less;
        },
      )
