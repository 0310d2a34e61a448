-- ===== src/Drive/Safe.antt =====
-- The requests of rdp-sidecar/src/disque.rs that close, read, write and list, under the invariant.
use avash.Base.{
  ℕ, ◌+◌, ◌^◌, Bool, not, ◌≡◌, ◌⊎◌, refl, sym, subst, inl, inr, some, [], length, get_elem?, leb,
  Bool-cases, Option-cases,
}
use avash.Base.Text.{Text, Bytes}
use avash.Base.Table.{find}
use avash.Drive.Host.{Host, Call, Done, done, failed, Result, ok, refused, Status, ErrorKind}
use avash.Drive.Open.{Opened, Drive, status_of, close_request}
use avash.Drive.Data.{read_block, bounded, status_after, write_block}
use avash.Drive.Directory.{listing, next_of, next_entry}
use avash.Drive.Confined.{
  Allows, IsShared, IsKept, IsSafe, unchanged, replaced, find-IsShared, removed,
}

pub Call-cases :
    {A : Type 0} (m : Call A) → ((a : A) × (m ≡ done a)) ⊎ ((k : ErrorKind) × (m ≡ failed k))
Call-cases (done a) = inl (a, refl)
Call-cases (failed k) = inr (k, refl)

pub Result-cases :
    {A : Type 0} (m : Result A) → ((a : A) × (m ≡ ok a)) ⊎ ((s : Status) × (m ≡ refused s))
Result-cases (ok a) = inl (a, refl)
Result-cases (refused s) = inr (s, refl)

module _ (host : Host) (R : host.World → host.World → Type 0) (d : Drive host)
    (allows : Allows host d.root R) (k : IsKept host d) where
  open host use {World, File}

  abbrev pub Safe : World → World → Drive host → Type 0
  Safe w w' d' = IsSafe host R w d w' d'

  pub same : (w : World) → Safe w w d
  same w = unchanged host R d allows k w w (allows.still w)

  status_of-world : (m : World × Call Done) → (status_of host m).0 ≡ m.0
  status_of-world (w, done x) = refl
  status_of-world (w, failed e) = refl

  pub status_after-world : (m : World × Call Done) → (status_after host m).0 ≡ m.0
  status_after-world (w, done x) = refl
  status_after-world (w, failed e) = refl

  pub close_request-Safe :
      (w : World) (id : ℕ) → Safe w (close_request host w d id).0 (close_request host w d id).1
  unfolding close_request
  close_request-Safe w id = elim (Option-cases (find d.opened id)) [
    | inl f ↦ rw (close_request, f) (same w)
    | inr (o, f) ↦ elim (Bool-cases o.to_delete) [
      | inr n ↦ rw (close_request, f, n) (removed host R d allows k w w id (allows.still w))
      | inl y ↦
          let below = (find-IsShared host R d allows k id o f).kept y in
          elim (Bool-cases o.is_folder) [
            | inl z ↦
                rw (close_request, f, y, z)
                  (removed host R d allows k w _ id (
                    subst (R w) (sym (status_of-world (host.remove_dir w o.path)))
                      (allows.removes_dir w o.path below)))
            | inr z ↦
                rw (close_request, f, y, z)
                  (removed host R d allows k w _ id (
                    subst (R w) (sym (status_of-world (host.remove_file w o.path)))
                      (allows.removes_file w o.path below)))
          ]
    ]
  ]

  pub read_block-Safe :
      (w : World) (id offset len : ℕ) → Safe w (read_block host w d id offset len).0 d
  unfolding read_block
  read_block-Safe w id offset len = elim (Option-cases (find d.opened id)) [
    | inl f ↦ rw (read_block, f) (same w)
    | inr (o, f) ↦ elim (Option-cases o.file) [
      | inl g ↦ rw (read_block, f, g) (same w)
      | inr (file, g) ↦ elim (Call-cases (host.seek w file offset).1) [
        | inl (x, m) ↦
            rw (read_block, f, g, m) (unchanged host R d allows k w _ (allows.seeks w file offset))
        | inr (e, m) ↦
            rw (read_block, f, g, m) (unchanged host R d allows k w _ (allows.seeks w file offset))
      ]
    ]
  ]

  pub write_block-Safe :
      (w : World) (id offset : ℕ) (octets : Bytes)
      → Safe w (write_block host w d id offset octets).0 d
  unfolding write_block
  write_block-Safe w id offset octets = elim (Option-cases (find d.opened id)) [
    | inl f ↦ rw (write_block, f) (same w)
    | inr (o, f) ↦ elim (Option-cases o.file) [
      | inl g ↦ rw (write_block, f, g) (same w)
      | inr (file, g) ↦ elim (Bool-cases (leb (2 ^ 64) (offset + length octets))) [
        | inl l ↦ rw (write_block, f, g, l) (same w)
        | inr l ↦ elim (Option-cases (bounded host w d file (offset + length octets))) [
          | inr (s, b) ↦ rw (write_block, f, g, l, b) (same w)
          | inl b ↦ elim (Call-cases (host.seek w file offset).1) [
            | inr (e, m) ↦
                rw (write_block, f, g, l, b, m)
                  (unchanged host R d allows k w _ (allows.seeks w file offset))
            | inl (x, m) ↦
                let w' = (host.seek w file offset).0 in
                rw (write_block, f, g, l, b, m)
                  (unchanged host R d allows k w _ (
                    subst (R w) (sym (status_after-world (host.write_all w' file octets)))
                      (allows.onward (allows.seeks w file offset) (allows.writes w' file octets))))
          ]
        ]
      ]
    ]
  ]

  next_of-Safe :
      (w : World) (id : ℕ) (o o0 : Opened host)
      → find d.opened id ≡ some o0
      → IsShared host d.root o
      → Safe w w (next_of host d id o).0
  unfolding next_of
  next_of-Safe w id o o0 f s = elim (Option-cases (get_elem? o.entries o.position)) [
    | inl g ↦
        rw (next_of, g)
          (replaced host R d allows k w w id o0 (record o { entries = [] }) (allows.still w) f
            (record { under = s.under; kept = s.kept }))
    | inr (e, g) ↦
        rw (next_of, g)
          (replaced host R d allows k w w id o0 (record o { position = o.position + 1 })
            (allows.still w) f (record { under = s.under; kept = s.kept }))
  ]

  pub next_entry-Safe :
      (w : World) (id : ℕ) (initial : Bool) (path : Text)
      → Safe w w (next_entry host w d id initial path).0
  unfolding next_entry
  next_entry-Safe w id initial path = elim (Option-cases (find d.opened id)) [
    | inl f ↦ rw (next_entry, f) (same w)
    | inr (o, f) ↦
        let s = find-IsShared host R d allows k id o f in
        elim (Bool-cases (not o.is_folder)) [
          | inl n ↦ rw (next_entry, f, n) (same w)
          | inr y ↦ elim (Bool-cases initial) [
            | inr n ↦ rw (next_entry, f, y, n) (next_of-Safe w id o o f s)
            | inl i ↦ elim (Result-cases (listing host w o path)) [
              | inr (t, l) ↦ rw (next_entry, f, y, i, l) (same w)
              | inl (entries, l) ↦
                  rw (next_entry, f, y, i, l)
                    (next_of-Safe w id (record o { entries = entries; position = 0 }) o f
                      (record { under = s.under; kept = s.kept }))
            ]
          ]
        ]
  ]
