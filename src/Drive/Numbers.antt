-- ===== src/Drive/Numbers.antt =====
-- The numbers that `enregistrer` of rdp-sidecar/src/disque.rs gives.
use avash.Base.{
  ℕ, zero, suc, ◌+◌, ◌%◌, ◌^◌, ◌<◌, Bool, true, false, ◌||◌, ◌≡◌, refl, sym, ap, subst, ◌∙◌, inl,
  inr, some, ◌∷◌, arith, length, ◌==◌, ==_iff, Bool-cases, Option-cases,
}
use avash.Base.Table.{Table, find, put, delete, is_some, find-delete, delete-some-length}
use avash.Drive.Host.{Host}
use avash.Drive.Open.{Opened, Drive, free_id, register}

apart-after : (id n : ℕ) → id < 2 ^ 32 → 0 < n → n < 2 ^ 32 → ((id + n) % 2 ^ 32 == id) ≡ false
apart-after id n small some_n less = elim (Bool-cases ((id + n) % 2 ^ 32 == id)) [
  | inr e ↦ e
  | inl e ↦ absurd (omega (arith, (==_iff ((id + n) % 2 ^ 32) id).0 e, small, some_n, less))
]

module _ (host : Host) where
  abbrev taken : Table (Opened host) → ℕ → Bool
  taken opened id = id == 0 || is_some (find opened id)

  -- If fewer numbers are taken than are tried, one of those is free; `l` has the taken ones.
  free_id-some :
      (f : ℕ) (opened l : Table (Opened host)) (id : ℕ)
      → id < 2 ^ 32
      → f < 2 ^ 32
      → length l < f
      → ((k : ℕ)
          → k < f
          → taken opened ((id + k) % 2 ^ 32) ≡ true
          → is_some (find l ((id + k) % 2 ^ 32)) ≡ true)
      → (i : ℕ) × (free_id host f opened id ≡ some i)
  unfolding free_id
  free_id-some zero opened l id small turns room h = absurd (omega (arith, room))
  free_id-some (suc f) opened l id small turns room h = elim (Bool-cases (taken opened id)) [
    | inr n ↦ (id, rw (free_id, n) refl)
    | inl y ↦
        let here : (id + 0) % 2 ^ 32 ≡ id = omega (arith, small) in
        let kept : is_some (find l id) ≡ true =
          subst (λ j. is_some (find l j) ≡ true) here
            (h 0 (omega arith) (subst (λ j. taken opened j ≡ true) (sym here) y)) in
        elim (Option-cases (find l id)) [
          | inl e ↦ absurd (cc (rw e at kept))
          | inr (o, e) ↦
              let (i, k) =
                free_id-some f opened (delete l id) ((id + 1) % 2 ^ 32) (omega arith)
                  (omega (arith, turns)) (omega (arith, room, delete-some-length l id o e))
                  (λ k less t.
                    let there : ((id + 1) % 2 ^ 32 + k) % 2 ^ 32 ≡ (id + (k + 1)) % 2 ^ 32 =
                      omega arith in
                    let apart : ((id + (k + 1)) % 2 ^ 32 == id) ≡ false =
                      apart-after id (k + 1) small (omega arith) (omega (arith, less, turns)) in
                    subst (λ j. is_some (find (delete l id) j) ≡ true) (sym there)
                      (ap is_some (find-delete l id ((id + (k + 1)) % 2 ^ 32) apart)
                        ∙ h (k + 1) (omega (arith, less))
                            (subst (λ j. taken opened j ≡ true) there t))) in
              (i, rw (free_id, y) k)
        ]
  ]

  -- Fewer than 2 ^ 32 - 2 files are opened, so that a number is found.
  pub register-some :
      (d : Drive host) (o : Opened host)
      → d.next < 2 ^ 32
      → length d.opened + 2 < 2 ^ 32
      → (id : ℕ) × (register host d o
          ≡ some (record d { opened = put d.opened id o; next = (id + 1) % 2 ^ 32 }, id))
  unfolding register find
  register-some d o small few =
      let (id, e) =
        free_id-some (length d.opened + 2) d.opened ((0, o) ∷ d.opened) d.next small few
          (omega arith) (λ k less t. there ((d.next + k) % 2 ^ 32) t) in
      (id, rw (register, e) refl)
    where
      there : (j : ℕ) → taken d.opened j ≡ true → is_some (find ((0, o) ∷ d.opened) j) ≡ true
      there zero t = refl
      there (suc j) t = ground (arith, t)
