-- ===== src/Drive/Whole.antt =====
-- `ouvrir` and `traiter` of rdp-sidecar/src/disque.rs, under the invariant.
use avash.Base.{
  ℕ, ◌+◌, ◌%◌, ◌^◌, ◌<◌, Bool, true, false, ◌&&◌, ◌||◌, ◌≡◌, refl, sym, ap, subst, inl, inr, Option,
  none, some, arith, length, leb, Bool-cases,
}
use avash.Base.Table.{put, is_some}
use avash.Files.Names.{FilePath}
use avash.Drive.Host.{
  Host, Call, Done, done, failed, Result, ok, refused, too_many_opened, Meta, Options,
}
use avash.Drive.Request.{
  supersede, open_existing, create, open_if, overwrite, overwrite_if, unknown, opened_max,
  CreateRequest, Disposition, Information, meta_of, is_directory_meta, is_other_meta, opening,
  is_denied,
}
use avash.Drive.Resolve.{resolve}
use avash.Drive.Open.{
  Drive, opened_at, said, open_folder, opened_as, open_call, open_regular, answer_at, answer_folder,
  answer_file, open_request,
}
use avash.Drive.Handle.{
  Request, create_drive, close_file, read_file, write_file, query_directory, query_information,
  query_volume, set_information, notify_change, lock_control, device_control, Reply,
  reply_of_creation, handled_creation, handle,
}
use avash.Drive.Numbers.{register-some}
use avash.Drive.Below.{IsUnder, resolve-IsUnder}
use avash.Drive.Confined.{Allows, IsKept, IsSafe, unchanged, added}
use avash.Drive.Safe.{
  Call-cases, Result-cases, same, close_request-Safe, read_block-Safe, write_block-Safe,
  next_entry-Safe,
}
use avash.Drive.Changes.{KeepsRoot, change_request-Safe}

module _ (host : Host) (R : host.World → host.World → Type 0) (d : Drive host)
    (allows : Allows host d.root R) (k : IsKept host d) where
  open host use {World, File}

  said-world : (i : Information) (m : World × Call Done) → (said host i m).0 ≡ m.0
  said-world i (w, done x) = refl
  said-world i (w, failed e) = refl

  opened_as-world : (i : Information) (m : World × Call File) → (opened_as host i m).0 ≡ m.0
  opened_as-world i (w, done x) = refl
  opened_as-world i (w, failed e) = refl

  made-allowed :
      (w : World) (p : FilePath) (i : Information)
      → IsUnder host d.root p
      → R w (said host i (host.create_dir w p)).0
  made-allowed w p i u =
      subst (R w) (sym (said-world i (host.create_dir w p))) (allows.creates w p u)

  open_folder-allowed :
      (w : World) (p : FilePath) (q : Disposition) (exists is_folder : Bool)
      → IsUnder host d.root p
      → R w (open_folder host w p q exists is_folder).0
  unfolding open_folder
  open_folder-allowed w p open_existing true is_folder u = allows.still w
  open_folder-allowed w p open_existing false is_folder u = allows.still w
  open_folder-allowed w p create true is_folder u = allows.still w
  open_folder-allowed w p create false is_folder u = made-allowed w p _ u
  open_folder-allowed w p open_if true is_folder u = allows.still w
  open_folder-allowed w p open_if false is_folder u = made-allowed w p _ u
  open_folder-allowed w p supersede exists is_folder u = allows.still w
  open_folder-allowed w p overwrite exists is_folder u = allows.still w
  open_folder-allowed w p overwrite_if exists is_folder u = allows.still w
  open_folder-allowed w p unknown exists is_folder u = allows.still w

  open_call-allowed :
      (w : World) (p : FilePath) (o : Options) (i : Information) (again : Bool)
      → IsUnder host d.root p
      → R w (open_call host w p o i again).0
  unfolding open_call
  open_call-allowed w p o i again u = elim (Call-cases (host.open_file w p o).1) [
    | inl (f, m) ↦ rw (open_call, m) (allows.opens w p o u)
    | inr (e, m) ↦ elim (Bool-cases (is_denied e && again)) [
      | inr n ↦ rw (open_call, m, n) (allows.opens w p o u)
      | inl y ↦
          let w' = (host.open_file w p o).0 in
          rw (open_call, m, y)
            (subst (R w)
              (sym (opened_as-world i (host.open_file w' p (record o { write = false }))))
              (allows.onward (allows.opens w p o u)
                (allows.opens w' p (record o { write = false }) u)))
    ]
  ]

  open_regular-allowed :
      (w : World) (p : FilePath) (q : CreateRequest) (found : Option Meta)
      → IsUnder host d.root p
      → R w (open_regular host w p q found).0
  unfolding open_regular
  open_regular-allowed w p q found u = elim (Bool-cases (is_other_meta found)) [
    | inl y ↦ rw (open_regular, y) (allows.still w)
    | inr n ↦
        elim (Result-cases
          (opening q.disposition (is_some found) (q.wants_write || q.wants_maximum))) [
            | inr (s, e) ↦ rw (open_regular, n, e) (allows.still w)
            | inl ((o, i), e) ↦ rw (open_regular, n, e) (open_call-allowed w p o i _ u)
          ]
  ]

  -- What an opening gives: a result, with a world that is allowed and the invariant.
  abbrev Opens : World → Option (World × Drive host × Result (ℕ × Information)) → Type 0
  Opens w m =
      (w' : World) × (d' : Drive host) × (r : Result (ℕ × Information)) × (m ≡ some (w', d', r))
      × IsSafe host R w d w' d'

  answer_at-Opens :
      (w w' : World) (p : FilePath) (f : Option File) (i : Information)
      → length d.opened < opened_max
      → R w w'
      → IsUnder host d.root p
      → Opens w (answer_at host p f d w' i)
  answer_at-Opens w w' p f i room r u =
      let o = opened_at host p f in
      let (id, e) = register-some host d o k.small (omega (arith, room)) in
      (
        w',
        record d { opened = put d.opened id o; next = (id + 1) % 2 ^ 32 },
        ok (id, i),
        rw (answer_at, e) refl,
        added host R d allows k w w' id o r room (record { under = u; kept = λ t. absurd (cc t) }),
      )

  answer_folder-Opens :
      (w : World) (p : FilePath) (m : World × Result Information)
      → length d.opened < opened_max
      → R w m.0
      → IsUnder host d.root p
      → Opens w (answer_folder host p d m)
  answer_folder-Opens w p (w', refused s) room r u =
      (w', d, refused s, refl, unchanged host R d allows k w w' r)
  answer_folder-Opens w p (w', ok i) room r u = answer_at-Opens w w' p none i room r u

  answer_file-Opens :
      (w : World) (p : FilePath) (m : World × Result (File × Information))
      → length d.opened < opened_max
      → R w m.0
      → IsUnder host d.root p
      → Opens w (answer_file host p d m)
  answer_file-Opens w p (w', refused s) room r u =
      (w', d, refused s, refl, unchanged host R d allows k w w' r)
  answer_file-Opens w p (w', ok (f, i)) room r u = answer_at-Opens w w' p (some f) i room r u

  open_request-Opens : (w : World) (q : CreateRequest) → Opens w (open_request host w d q)
  unfolding open_request
  open_request-Opens w q = elim (Bool-cases (leb opened_max (length d.opened))) [
    | inl y ↦ (w, d, refused too_many_opened, rw (open_request, y) refl, same host R d allows k w)
    | inr n ↦ elim (Result-cases (resolve host w d.root q.path)) [
      | inr (s, e) ↦ (w, d, refused s, rw (open_request, n, e) refl, same host R d allows k w)
      | inl (p, e) ↦
          let found = meta_of (host.metadata w p) in
          let u = resolve-IsUnder host w d.root q.path p e in
          let room : length d.opened < opened_max = ground (arith, n) in
          elim (Bool-cases (q.wants_directory || is_directory_meta found)) [
            | inl z ↦
                rw (open_request, n, e, z)
                  (answer_folder-Opens w p
                    (open_folder host w p q.disposition (is_some found) (is_directory_meta found))
                    room
                    (open_folder-allowed w p q.disposition (is_some found) (is_directory_meta found)
                      u)
                    u)
            | inr z ↦
                rw (open_request, n, e, z)
                  (answer_file-Opens w p (open_regular host w p q found) room
                    (open_regular-allowed w p q found u) u)
          ]
    ]
  ]

-- A request of the server always has an answer, and it stays in the shared folder: whatever relation of worlds allows
-- the calls of the file system at the root and at places below it, but neither the deletion nor the renaming of the
-- root, allows what the request does. A place below the root is a plain name, no link and neither `.` nor `..`, in a
-- folder that begins with the root once the system has resolved it, links included; when it was resolved is not kept.
-- The opened files stay at such places and no more than 512. The system is taken to refuse to rename what is below a
-- folder to that folder.
pub handle-IsSafe :
    (host : Host) (R : host.World → host.World → Type 0) (w : host.World) (d : Drive host)
    (q : Request)
    → Allows host d.root R
    → KeepsRoot host d.root
    → IsKept host d
    → (w' : host.World) × (d' : Drive host) × (reply : Reply) × (handle host w d q
        ≡ some (w', d', reply))
      × IsSafe host R w d w' d'
unfolding handle
handle-IsSafe host R w d (create_drive q) allows keeps k =
    let (w', d', r, e, s) = open_request-Opens host R d allows k w q in
    (w', d', reply_of_creation r, ap (handled_creation host) e, s)
handle-IsSafe host R w d (close_file id) allows keeps k =
    (_, _, _, refl, close_request-Safe host R d allows k w id)
handle-IsSafe host R w d (read_file id offset len) allows keeps k =
    (_, _, _, refl, read_block-Safe host R d allows k w id offset len)
handle-IsSafe host R w d (write_file id offset octets) allows keeps k =
    (_, _, _, refl, write_block-Safe host R d allows k w id offset octets)
handle-IsSafe host R w d (query_directory id initial path level) allows keeps k =
    (_, _, _, refl, next_entry-Safe host R d allows k w id initial path)
handle-IsSafe host R w d (query_information id level) allows keeps k =
    (_, _, _, refl, same host R d allows k w)
handle-IsSafe host R w d (query_volume id level) allows keeps k =
    (_, _, _, refl, same host R d allows k w)
handle-IsSafe host R w d (set_information id change) allows keeps k =
    (_, _, _, refl, change_request-Safe host R d allows k keeps w id change)
handle-IsSafe host R w d notify_change allows keeps k = (_, _, _, refl, same host R d allows k w)
handle-IsSafe host R w d lock_control allows keeps k = (_, _, _, refl, same host R d allows k w)
handle-IsSafe host R w d device_control allows keeps k = (_, _, _, refl, same host R d allows k w)
