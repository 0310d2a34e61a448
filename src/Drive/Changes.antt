-- ===== src/Drive/Changes.antt =====
-- `modifier_selon` of rdp-sidecar/src/disque.rs, under the invariant.
use avash.Base.{
  ℕ, Bool, true, false, not, ◌&&◌, ◌≡◌, ◌≢◌, refl, sym, ap, subst, ◌∙◌, inl, inr, some, [], ◌∷◌,
  arith, ltb, Bool-cases, Option-cases,
}
use avash.Base.Text.{Text}
use avash.Base.Equal.{text_eq_refl}
use avash.Base.Int.{ℤ, pos, negsuc}
use avash.Base.Table.{find}
use avash.Files.Names.{FilePath}
use avash.Drive.Host.{Host, Call, Done, done, failed, Status, ErrorKind}
use avash.Drive.Resolve.{resolve}
use avash.Drive.Open.{Opened, Drive}
use avash.Drive.Data.{bounded, status_after}
use avash.Drive.Modify.{
  Change, basic, end_of_file, allocation, disposition, renamed, other_class, path_eq, differs,
  is_root, on_file, set_basic, end_at, allocate, not_empty, set_disposition, exists_at, rename_at,
  rename_request, change_request,
}
use avash.Drive.Below.{IsUnder, IsBelow, IsUnder-IsBelow, resolve-IsUnder}
use avash.Drive.Confined.{Allows, IsKept, unchanged, replaced, find-IsShared}
use avash.Drive.Safe.{Call-cases, Result-cases, Safe, same, status_after-world}

path_eq_refl : (p : FilePath) → path_eq p p ≡ true
path_eq_refl [] = refl
path_eq_refl (a ∷ p) = rw (text_eq_refl a) (path_eq_refl p)

-- Two paths that the test tells apart.
unequal : (p q : FilePath) → path_eq p q ≡ false → p ≢ q
unequal p q n e = false-true (sym n ∙ ap (path_eq p) (sym e) ∙ path_eq_refl p)
  where
    false-true : ¬ (false ≡ true)
    false-true h = cc

-- The system renames nothing that is below a folder to that folder.
abbrev pub KeepsRoot : (host : Host) → FilePath → Type 0
KeepsRoot host root =
    (w : host.World) (p : FilePath)
    → IsBelow host root p
    → (k : ErrorKind) × ((host.rename w p root).1 ≡ failed k)

module _ (host : Host) (R : host.World → host.World → Type 0) (d : Drive host)
    (allows : Allows host d.root R) (k : IsKept host d) where
  open host use {World, File}

  not_root :
      (id : ℕ) (o : Opened host)
      → find d.opened id ≡ some o
      → is_root host d id ≡ false
      → IsBelow host d.root o.path
  unfolding is_root
  not_root id o f n =
      IsUnder-IsBelow host d.root o.path (find-IsShared host R d allows k id o f).under
        (unequal o.path d.root (rw (is_root, f) at n))

  set_basic-Safe :
      (w : World) (id : ℕ) (a b : Bool)
      → Safe host R d allows k w (set_basic host w d id a b).0 (set_basic host w d id a b).1
  unfolding set_basic
  set_basic-Safe w id a b = elim (Option-cases (find d.opened id)) [
    | inl f ↦ rw (set_basic, f) (same host R d allows k w)
    | inr (o, f) ↦ elim (Bool-cases (a && differs host (host.metadata w o.path) b)) [
      | inl y ↦
          rw (set_basic, f, y)
            (unchanged host R d allows k w _
              (allows.sets w o.path b (find-IsShared host R d allows k id o f).under))
      | inr n ↦ rw (set_basic, f, n) (same host R d allows k w)
    ]
  ]

  -- A change that stays in the file.
  abbrev InFile : (File → World × Status) → World → Type 0
  InFile change w = (f : File) → R w (change f).0

  on_file-Safe :
      (w : World) (id : ℕ) (change : File → World × Status)
      → InFile change w
      → Safe host R d allows k w (on_file host w d id change).0 (on_file host w d id change).1
  on_file-Safe w id change h = elim (Option-cases (find d.opened id)) [
    | inl f ↦ rw (on_file, f) (same host R d allows k w)
    | inr (o, f) ↦ elim (Option-cases o.file) [
      | inl g ↦ rw (on_file, f, g) (same host R d allows k w)
      | inr (file, g) ↦ rw (on_file, f, g) (unchanged host R d allows k w _ (h file))
    ]
  ]

  cut : (w : World) (f : File) (n : ℕ) → R w (status_after host (host.set_len w f n)).0
  cut w f n =
      subst (R w) (sym (status_after-world host R d allows k (host.set_len w f n)))
        (allows.cuts w f n)

  end_at-in : (w : World) (n : ℤ) → InFile (end_at host w d n) w
  end_at-in w (negsuc n) f = allows.still w
  end_at-in w (pos n) f = elim (Option-cases (bounded host w d f n)) [
    | inl e ↦ rw (end_at, e) (cut w f n)
    | inr (s, e) ↦ rw (end_at, e) (allows.still w)
  ]

  allocate-in : (w : World) (n : ℤ) → InFile (allocate host w n) w
  allocate-in w (negsuc n) f = allows.still w
  allocate-in w (pos n) f = elim (Call-cases (host.length_of w f)) [
    | inr (e, m) ↦ rw (allocate, m) (allows.still w)
    | inl (now, m) ↦ elim (Bool-cases (ltb n now)) [
      | inl y ↦ rw (allocate, m, y) (cut w f n)
      | inr y ↦ rw (allocate, m, y) (allows.still w)
    ]
  ]

  set_disposition-Safe :
      (w : World) (id : ℕ) (remove : Bool)
      → Safe host R d allows k w w (set_disposition host w d id remove).0
  unfolding set_disposition
  set_disposition-Safe w id remove = elim (Bool-cases (remove && is_root host d id)) [
    | inl y ↦ rw (set_disposition, y) (same host R d allows k w)
    | inr n ↦ elim (Option-cases (find d.opened id)) [
      | inl f ↦ rw (set_disposition, n, f) (same host R d allows k w)
      | inr (o, f) ↦ elim (Option-cases (not_empty host w o remove)) [
        | inr (s, e) ↦ rw (set_disposition, n, f, e) (same host R d allows k w)
        | inl e ↦
            rw (set_disposition, n, f, e)
              (replaced host R d allows k w w id o (record o { to_delete = remove })
                (allows.still w) f
                (record {
                  under = (find-IsShared host R d allows k id o f).under;
                  kept = λ r. not_root id o f (ground (arith, r, n));
                }))
      ]
    ]
  ]

  module _ (keeps : KeepsRoot host d.root) where
    rename_at-Safe :
        (w : World) (id : ℕ) (o : Opened host) (target : FilePath)
        → find d.opened id ≡ some o
        → IsBelow host d.root o.path
        → IsUnder host d.root target
        → Safe host R d allows k w
            (rename_at host w d id o target).0
            (rename_at host w d id o target).1
    unfolding rename_at
    rename_at-Safe w id o target f below under = elim (Call-cases (host.rename w o.path target).1) [
      | inr (e, m) ↦
          rw (rename_at, m)
            (unchanged host R d allows k w _ (allows.renames w o.path target below under))
      | inl (x, m) ↦
          rw (rename_at, m)
            (replaced host R d allows k w _ id o (record o { path = target })
              (allows.renames w o.path target below under) f
              (record {
                under = under;
                kept = λ r. IsUnder-IsBelow host d.root target under (elsewhere m);
              }))
    ]
      where
        done-failed : {x : Done} {q : ErrorKind} → ¬ ◌≡◌ {A = Call Done} (done x) (failed q)
        done-failed e = cc

        elsewhere : {x : Done} → (host.rename w o.path target).1 ≡ done x → target ≢ d.root
        elsewhere m e =
            let (q, n) = keeps w o.path below in
            done-failed (sym m ∙ ap (λ p. (host.rename w o.path p).1) e ∙ n)

    rename_request-Safe :
        (w : World) (id : ℕ) (name : Text) (replace : Bool)
        → Safe host R d allows k w
            (rename_request host w d id name replace).0
            (rename_request host w d id name replace).1
    unfolding rename_request
    rename_request-Safe w id name replace = elim (Bool-cases (is_root host d id)) [
      | inl y ↦ rw (rename_request, y) (same host R d allows k w)
      | inr n ↦ elim (Result-cases (resolve host w d.root name)) [
        | inr (s, e) ↦ rw (rename_request, n, e) (same host R d allows k w)
        | inl (target, e) ↦ elim (Option-cases (find d.opened id)) [
          | inl f ↦ rw (rename_request, n, e, f) (same host R d allows k w)
          | inr (o, f) ↦
              elim (Bool-cases (exists_at host (host.metadata w target) && not replace)) [
                | inl y ↦ rw (rename_request, n, e, f, y) (same host R d allows k w)
                | inr y ↦ elim (Bool-cases (path_eq target o.path)) [
                  | inl z ↦ rw (rename_request, n, e, f, y, z) (same host R d allows k w)
                  | inr z ↦
                      rw (rename_request, n, e, f, y, z)
                        (rename_at-Safe w id o target f (not_root id o f n)
                          (resolve-IsUnder host w d.root name target e))
                ]
              ]
        ]
      ]
    ]

    pub change_request-Safe :
        (w : World) (id : ℕ) (change : Change)
        → Safe host R d allows k w
            (change_request host w d id change).0
            (change_request host w d id change).1
    unfolding change_request
    change_request-Safe w id (basic a b) = set_basic-Safe w id a b
    change_request-Safe w id (end_of_file n) = on_file-Safe w id (end_at host w d n) (end_at-in w n)
    change_request-Safe w id (allocation n) =
        on_file-Safe w id (allocate host w n) (allocate-in w n)
    change_request-Safe w id (disposition remove) = set_disposition-Safe w id remove
    change_request-Safe w id (renamed name replace) = rename_request-Safe w id name replace
    change_request-Safe w id other_class = same host R d allows k w
