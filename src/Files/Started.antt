-- ===== src/Files/Started.antt =====
-- How the next file is opened in rdp-sidecar/src/fichiers.rs, under the invariant of `Reception`.
use avash.Base.{
  ℕ, zero, suc, ◌+◌, ◌^◌, ◌≤◌, ◌<◌, Bool, true, false, ◌≡◌, refl, sym, ap, subst, ◌∙◌, inl, inr,
  Option, none, some, List, [], arith, length, get_elem?, if◌then◌else◌, Bool-cases, Option-cases,
}
use avash.Files.Names.{Descriptor, FilePath, local_path, shown_path}
use avash.Files.Disk.{Disk, Done, Io-cases, Outcome, ok, error, Outcome-cases, parent}
use avash.Files.Places.{create_under, free_name, create_empty, open_work}
use avash.Files.Requests.{in_flight_max, Request}
use avash.Files.Window.{IsFlowing}
use avash.Files.Reception.{
  Flight, Reception, ask_size, is_zero_size, work_path, push_error, count_finished,
}
use avash.Files.Opening.{
  open_at, emptied, open_free, open_file, start_from, Step, Opened, after_directory, after_file,
}
use avash.Files.Alive.{
  IsGoing, IsStarted, IsWaiting, get_elem?-none, get_elem?-some, refill-IsRefilled,
}

module _ (disk : Disk) where
  open disk use {World, Handle}

  -- What `ouvrir` leaves: a file in reception, or what was.
  abbrev Opens : Reception disk → Reception disk → Outcome (Option (List Request)) → Type 0
  Opens r r' (ok (some requests)) =
      (e : Flight disk) × (r'.current ≡ some e)
      × IsGoing disk (length r.files) r'.next_stream e
      × (r'.next_stream ≤ r.next_stream + in_flight_max)
      × (r'.files ≡ r.files)
      × (r'.next ≡ r.next)
  Opens r r' (ok none) = r' ≡ r
  Opens r r' (error t full) = r' ≡ r

  open_at-Opens :
      (w : World) (r : Reception disk) (index : ℕ) (file_size : Option ℕ) (target : FilePath)
      → index < length r.files
      → is_zero_size file_size ≡ false
      → r.next_stream + in_flight_max < 2 ^ 32
      → Opens r
          (open_at disk w r index file_size target).1
          (open_at disk w r index file_size target).2
  unfolding open_at ask_size
  open_at-Opens w r index none target i z few =
      elim (Io-cases (open_work disk w (work_path target)).1) [
        | inl ((partial, file), m) ↦
            rw (open_at, m)
              (
                _,
                refl,
                (i, inl (record { waits = refl; asked = refl; received = refl; flying = refl })),
                omega (arith, few),
                refl,
                refl,
              )
        | inr (k, t, m) ↦ rw (open_at, m) refl
      ]
  open_at-Opens w r index (some n) target i z few =
      elim (Io-cases (open_work disk w (work_path target)).1) [
        | inl ((partial, file), m) ↦
            rw (open_at, m)
              (let e : Flight disk = record {
                index = index;
                file = file;
                partial = partial;
                target = target;
                size = n;
                asked = 0;
                received = 0;
                flying = [];
                size_stream = none;
              } in
                let flowing : IsFlowing n 0 0 r.next_stream [] = record {
                  window = omega arith;
                  within = tt;
                  spread = λ a b le. omega arith;
                  enough = omega arith;
                  fits = omega arith;
                  numbered = tt;
                } in
                let (e', k) =
                  refill-IsRefilled disk r e refl flowing (inr (ground (arith, z))) few in
                (e', k.current, (rw k.index i, inr k.going), k.numbers, k.files, k.next))
        | inr (k, t, m) ↦ rw (open_at, m) refl
      ]

  emptied-Opens :
      (r : Reception disk) (m : World × Outcome FilePath)
      → Opens r (emptied disk r m).1 (emptied disk r m).2
  emptied-Opens r (w, ok path) = refl
  emptied-Opens r (w, error t full) = refl

  open_free-Opens :
      (w : World) (r : Reception disk) (index : ℕ) (file_size : Option ℕ) (target : FilePath)
      → index < length r.files
      → r.next_stream + in_flight_max < 2 ^ 32
      → Opens r
          (open_free disk w r index file_size target).1
          (open_free disk w r index file_size target).2
  unfolding open_free
  open_free-Opens w r index file_size target i few =
      Opens-if (is_zero_size file_size) _ _ (λ z. emptied-Opens r (create_empty disk w target))
        (λ z. open_at-Opens w r index file_size target i z few)
    where
      Opens-if :
          (b : Bool) (x y : Opened disk)
          → (b ≡ true → Opens r x.1 x.2)
          → (b ≡ false → Opens r y.1 y.2)
          → Opens r (if b then x else y).1 (if b then x else y).2
      Opens-if true x y h k = h refl
      Opens-if false x y h k = k refl

  open_file-Opens :
      (w : World) (r : Reception disk) (index : ℕ) (d : Descriptor) (target : FilePath)
      → index < length r.files
      → r.next_stream + in_flight_max < 2 ^ 32
      → Opens r (open_file disk w r index d target).1 (open_file disk w r index d target).2
  unfolding open_file
  open_file-Opens w r index d target i few =
      let (w', below) = create_under disk w r.folder (parent target) in
      elim (Outcome-cases below) [
        | inr (t, full, m) ↦ rw (open_file, m) refl
        | inl (x, m) ↦
            rw (open_file, m)
              (open_free-Opens w' r index d.file_size (free_name disk w' target) i few)
      ]

  pub IsStarted-later :
      (r a r' : Reception disk)
      → a.next_stream ≡ r.next_stream
      → a.files ≡ r.files
      → r.next ≤ a.next
      → IsStarted disk a r'
      → IsStarted disk r r'
  IsStarted-later r a r' s f n h = record {
    alive = h.alive;
    numbers = omega (arith, h.numbers, s);
    files = h.files ∙ f;
    moved = elim h.moved [ inl e ↦ inl e | inr l ↦ inr (omega (arith, l, n)) ];
  }

  -- The rest of the loop, from a state that has one file less to open.
  abbrev GoesOn : (World → Reception disk → Step disk) → Reception disk → Type 0
  GoesOn go r =
      (w : World) (a : Reception disk)
      → a.current ≡ none
      → a.next ≡ r.next + 1
      → a.next_stream ≡ r.next_stream
      → a.files ≡ r.files
      → IsStarted disk r (go w a).1

  after_directory-IsStarted :
      (go : World → Reception disk → Step disk) (r : Reception disk) (d : Descriptor)
      (m : World × Outcome Done)
      → r.current ≡ none
      → GoesOn go r
      → IsStarted disk r (after_directory disk go (record r { next = r.next + 1 }) d m).1
  after_directory-IsStarted go r d (w, ok _) c h = h w _ c refl refl refl
  after_directory-IsStarted go r d (w, error t full) c h = h w _ c refl refl refl

  after_file-IsStarted :
      (go : World → Reception disk → Step disk) (r : Reception disk) (d : Descriptor)
      (o : Opened disk)
      → r.current ≡ none
      → GoesOn go r
      → Opens (record r { next = r.next + 1 }) o.1 o.2
      → IsStarted disk r (after_file disk go d o).1
  after_file-IsStarted go r d (w, a, ok (some q)) c h (e, current, going, numbers, files, next) =
      record {
        alive =
            subst (λ l. IsWaiting disk (length l) a.next a.next_stream a.current) (sym files)
              (subst (IsWaiting disk (length r.files) a.next a.next_stream) (sym current) going);
        numbers = numbers;
        files = files;
        moved = inr (omega (arith, next));
      }
  after_file-IsStarted go r d (w, a, ok none) c h e =
      h w (count_finished disk a) (ap (λ (a : Reception disk). a.current) e ∙ c)
        (ap (λ (a : Reception disk). a.next) e) (ap (λ (a : Reception disk). a.next_stream) e)
        (ap (λ (a : Reception disk). a.files) e)
  after_file-IsStarted go r d (w, a, error t full) c h e =
      h w (count_finished disk (push_error disk a (shown_path d) full))
        (ap (λ (a : Reception disk). a.current) e ∙ c) (ap (λ (a : Reception disk). a.next) e)
        (ap (λ (a : Reception disk). a.next_stream) e) (ap (λ (a : Reception disk). a.files) e)

  pub start_from-IsStarted :
      (f : ℕ) (w : World) (r : Reception disk)
      → r.current ≡ none
      → length r.files ≤ r.next + f
      → r.next_stream + in_flight_max < 2 ^ 32
      → IsStarted disk r (start_from disk f w r).1
  unfolding start_from
  start_from-IsStarted zero w r c n few = record {
    alive = subst (IsWaiting disk (length r.files) r.next r.next_stream) (sym c) (omega (arith, n));
    numbers = omega arith;
    files = refl;
    moved = inl c;
  }
  start_from-IsStarted (suc f) w r c n few = elim (Option-cases (get_elem? r.files r.next)) [
    | inl g ↦
        rw (start_from, g)
          (record {
            alive =
                subst (IsWaiting disk (length r.files) r.next r.next_stream) (sym c)
                  (get_elem?-none r.files r.next g);
            numbers = omega arith;
            files = refl;
            moved = inl c;
          })
    | inr (d, g) ↦
        let r' : Reception disk = record r { next = r.next + 1 } in
        let below : r.next < length r.files = get_elem?-some r.files r.next d g in
        let rest : GoesOn (start_from disk f) r = λ w a ac an ids af.
          IsStarted-later r a _ ids af (omega (arith, an)) (
            start_from-IsStarted f w a ac (omega (arith, n, an, ap length af))
              (omega (arith, few, ids))) in
        elim (Option-cases (local_path disk.is_device_name r.folder d)) [
          | inl p ↦ rw (start_from, g, p) (rest w _ c refl refl refl)
          | inr (target, p) ↦ elim (Bool-cases d.directory) [
            | inl y ↦
                rw (start_from, g, p, y)
                  (after_directory-IsStarted (start_from disk f) r d
                    (create_under disk w r.folder target) c rest)
            | inr y ↦
                rw (start_from, g, p, y)
                  (after_file-IsStarted (start_from disk f) r d
                    (open_file disk w r' r.next d target) c rest
                    (open_file-Opens w r' r.next d target below few))
          ]
        ]
  ]
