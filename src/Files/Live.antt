-- ===== src/Files/Live.antt =====
-- `recevoir` of rdp-sidecar/src/fichiers.rs: every answer brings the reception nearer to its end.
use avash.Base.{
  ℕ, ◌+◌, ◌%◌, ◌^◌, ◌<◌, min, true, false, ◌≡◌, refl, sym, ap, subst, ◌∙◌, ◌⊎◌, inl, inr, Option,
  none, some, List, arith, length, take, ltb, ◌==◌, Bool-cases, Option-cases,
}
use avash.Base.Text.{Bytes}
use avash.Base.Table.{find, delete, delete-some-length, is_some}
use avash.Drive.Space.{free_octets}
use avash.Files.Names.{Descriptor, FilePath}
use avash.Files.Disk.{Disk, Outcome-cases}
use avash.Files.Requests.{in_flight_max, as_u64, is_stream, sat_add64}
use avash.Files.Window.{IsFlowing, IsFlowing-written}
use avash.Files.Reception.{Flight, Reception, new_reception, refill, follows}
use avash.Files.Opening.{start}
use avash.Files.Receive.{
  receive_size, written, is_complete, go_on, write_window, receive_range, receive_for, receive,
}
use avash.Files.Alive.{IsUnsized, IsSized, IsWaiting, IsAlive, refill-IsRefilled}
use avash.Files.Nearer.{
  more, fewer, first, left, IsNearer, IsReceived, ended, start-IsStarted, IsBeside,
  abandon-IsStarted, promote_and_go-IsStarted,
}

module _ (disk : Disk) where
  open disk use {World, Handle}

  module _ (r : Reception disk) (few : r.next_stream + in_flight_max < 2 ^ 32) where
    refilled :
        (e e0 : Flight disk) (a : Reception disk) (id : ℕ)
        → r.current ≡ some e0
        → e0.index < length r.files
        → IsBeside disk r a
        → e.index ≡ e0.index
        → e.size_stream ≡ none
        → IsFlowing e.size e.asked e.received r.next_stream e.flying
        → (0 < length e.flying) ⊎ (e.asked < e.size)
        → (is_some e0.size_stream ≡ true) ⊎ ((e0.size_stream ≡ none) × (left disk e < left disk e0))
        → IsReceived disk r id (refill disk a e).0
    refilled e e0 a id current i b same known flowing some_left progress =
        let (e', k) =
          refill-IsRefilled disk a e known (rw b.next_stream flowing) some_left
            (omega (arith, few, b.next_stream)) in
        record {
          alive =
              subst
                (IsWaiting disk (length (refill disk a e).0.files) (refill disk a e).0.next
                  (refill disk a e).0.next_stream)
                (sym k.current)
                (
                  omega (arith, k.index, same, i, ap length k.files, ap length b.files),
                  inr k.going,
                );
          numbers = omega (arith, k.numbers, b.next_stream);
          files = k.files ∙ b.files;
          nearer = λ f. elim progress [
            | inl waits ↦
                IsNearer.sized e0 e' current k.current (k.next ∙ b.next) waits k.going.sized
            | inr (was, less) ↦
                IsNearer.answered e0 e' current k.current (k.next ∙ b.next)
                  (k.going.sized ∙ sym was) (omega (arith, k.less, less))
          ];
        }

    go_on-IsReceived :
        (w : World) (e e0 : Flight disk) (a : Reception disk) (id : ℕ)
        → r.current ≡ some e0
        → e0.index < length r.files
        → IsBeside disk r a
        → e.index ≡ e0.index
        → e.size_stream ≡ none
        → IsFlowing e.size e.asked e.received r.next_stream e.flying
        → (e0.size_stream ≡ none) × (left disk e < left disk e0)
        → IsReceived disk r id (go_on disk w a e).1
    unfolding go_on
    go_on-IsReceived w e e0 a id current i b same known flowing progress =
        elim (Bool-cases (is_complete disk e)) [
          | inl y ↦ rw (go_on, y) (ended disk r _ id (promote_and_go-IsStarted disk r few w a e b))
          | inr n ↦
              rw (go_on, n)
                (refilled e e0 a id current i b same known flowing
                  (more e.size e.asked e.received r.next_stream e.flying n flowing) (inr progress))
        ]

    receive_range-IsReceived :
        (w : World) (e : Flight disk) (id p len : ℕ) (octets : Option Bytes)
        → r.current ≡ some e
        → e.index < length r.files
        → IsSized disk r.next_stream e
        → find e.flying id ≡ some (p, len)
        → IsReceived disk r id
            (receive_range disk w r (record e { flying = delete e.flying id }) p len octets).1
    unfolding receive_range
    receive_range-IsReceived w e id p len none current i h f = ended disk r _ id (
        abandon-IsStarted disk r few w r (record e { flying = delete e.flying id }) _
          (record { next = refl; next_stream = refl; files = refl }))
    receive_range-IsReceived w e id p len (some octets) current i h f =
        let n = min (length octets) len in
        let e1 : Flight disk = record e { flying = delete e.flying id } in
        let (w', wrote) = write_window disk w e.file p (take n octets) in
        elim (Outcome-cases wrote) [
          | inr (t, full, m) ↦
              rw (receive_range, m)
                (ended disk r _ id (
                  abandon-IsStarted disk r few w' r e1 full
                    (record { next = refl; next_stream = refl; files = refl })))
          | inl (x, m) ↦
              rw (receive_range, m)
                (go_on-IsReceived w' (written disk e1 p len n) e
                  (record r { done_octets = (r.done_octets + n) % 2 ^ 64 }) id current i
                  (record { next = refl; next_stream = refl; files = refl }) refl h.sized
                  (IsFlowing-written e.size e.asked e.received r.next_stream id p len n e.flying
                    h.flowing f (omega arith))
                  (
                    h.sized,
                    fewer e.size e.asked p n len (length e.flying) (length (delete e.flying id))
                        (delete-some-length e.flying id (p, len) f),
                  ))
        ]

    receive_size-IsReceived :
        (w : World) (e : Flight disk) (id : ℕ) (octets : Option Bytes)
        → r.current ≡ some e
        → e.index < length r.files
        → IsUnsized disk e
        → IsReceived disk r id (receive_size disk w r (record e { size_stream = none }) octets).1
    unfolding receive_size
    receive_size-IsReceived w e id octets current i h =
        let e1 : Flight disk = record e { size_stream = none } in
        elim (Option-cases (as_u64 octets)) [
          | inl m ↦
              rw (receive_size, m)
                (ended disk r _ id (
                  abandon-IsStarted disk r few w r e1 _
                    (record { next = refl; next_stream = refl; files = refl })))
          | inr (n, m) ↦ elim (Bool-cases (ltb (free_octets (disk.statvfs w r.folder)) n)) [
            | inl y ↦
                rw (receive_size, m, y)
                  (ended disk r _ id (
                    abandon-IsStarted disk r few w r e1 _
                      (record { next = refl; next_stream = refl; files = refl })))
            | inr y ↦
                let a : Reception disk = record r { total = sat_add64 r.total n } in
                let e2 : Flight disk = record e1 { size = n } in
                elim (Bool-cases (n == 0)) [
                  | inl z ↦
                      rw (receive_size, m, y, z)
                        (ended disk r _ id (
                          promote_and_go-IsStarted disk r few w a e2
                            (record { next = refl; next_stream = refl; files = refl })))
                  | inr z ↦
                      rw (receive_size, m, y, z)
                        (refilled e2 e a id current i
                          (record { next = refl; next_stream = refl; files = refl }) refl refl
                          (first n e.asked e.received r.next_stream e.flying h.asked h.received
                            h.flying)
                          (inr (grind (arith, h.asked, z))) (inl h.waits))
                ]
          ]
        ]

-- `demarrer` on a new reception leaves nothing to receive, or something in flight, if the numbers of
-- its first requests do not wrap.
pub start-IsAlive :
    (disk : Disk) (w : disk.World) (folder : FilePath) (files : List Descriptor)
    (data_id : Option ℕ) (first_stream : ℕ)
    → first_stream + in_flight_max < 2 ^ 32
    → IsAlive disk (start disk w (new_reception disk folder files data_id first_stream)).1
unfolding new_reception
start-IsAlive disk w folder files data_id first_stream few =
    (start-IsStarted disk w (new_reception disk folder files data_id first_stream) refl few).alive

receive_for-IsReceived :
    (disk : Disk) (w : disk.World) (r : Reception disk) (id : ℕ) (octets : Option Bytes)
    (m : Option (Flight disk))
    → r.current ≡ m
    → IsWaiting disk (length r.files) r.next r.next_stream m
    → r.next_stream + in_flight_max < 2 ^ 32
    → IsReceived disk r id (receive_for disk w r id octets m).1
unfolding receive_for find
receive_for-IsReceived disk w r id octets none c alive few = record {
  alive = subst (IsWaiting disk (length r.files) r.next r.next_stream) (sym c) alive;
  numbers = omega arith;
  files = refl;
  nearer = λ g. IsNearer.over c;
}
receive_for-IsReceived disk w r id octets (some e) c (i, state) few =
    elim (Bool-cases (is_stream e.size_stream id)) [
      | inl y ↦
          rw (receive_for, y)
            (receive_size-IsReceived disk r few w e id octets c i (unsized y state))
      | inr n ↦ elim (Option-cases (find e.flying id)) [
        | inl f ↦
            rw (receive_for, n, f)
              (record {
                alive =
                    subst (IsWaiting disk (length r.files) r.next r.next_stream) (sym c) (i, state);
                numbers = omega arith;
                files = refl;
                nearer = λ g. absurd (false-true (sym (follows-none n f) ∙ g));
              })
        | inr ((p, len), f) ↦
            rw (receive_for, n, f)
              (receive_range-IsReceived disk r few w e id p len octets c i (sized_of f state) f)
      ]
    ]
  where
    false-true : ¬ (false ≡ true)
    false-true h = cc

    follows-none :
        is_stream e.size_stream id ≡ false → find e.flying id ≡ none → follows disk r id ≡ false
    follows-none n f = rw (c, n, f) refl

    unsized :
        is_stream e.size_stream id ≡ true
        → IsUnsized disk e ⊎ IsSized disk r.next_stream e
        → IsUnsized disk e
    unsized y (inl u) = u
    unsized y (inr s) = absurd (cc (rw s.sized at y))

    sized_of :
        {z : ℕ × ℕ}
        → find e.flying id ≡ some z
        → IsUnsized disk e ⊎ IsSized disk r.next_stream e
        → IsSized disk r.next_stream e
    sized_of f (inl u) = absurd (cc (rw u.flying at f))
    sized_of f (inr s) = s

-- An answer to a reception in which nothing is left to receive or something is in flight leaves it so, whatever the
-- disk does; if it answers a request in flight, the reception is nearer to its end. The numbers of the streams may not
-- wrap in the step.
pub receive-IsReceived :
    (disk : Disk) (w : disk.World) (r : Reception disk) (id : ℕ) (octets : Option Bytes)
    → IsAlive disk r
    → r.next_stream + in_flight_max < 2 ^ 32
    → IsReceived disk r id (receive disk w r id octets).1
unfolding receive
receive-IsReceived disk w r id octets alive few =
    receive_for-IsReceived disk w r id octets r.current refl alive few
