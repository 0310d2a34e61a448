-- ===== src/Files/Under.antt =====
-- Where `chemin_local` of rdp-sidecar/src/fichiers.rs lets a file be received.
use avash.Base.{
  ◌<◌, Bool, true, false, ◌≡◌, ◌≢◌, sym, ap, ◌∙◌, inl, inr, some, List, [], ◌∷◌, ◌++◌, arith,
  length, length-append, append_nil, append_assoc, All, All-append, any, Bool-cases, Option-cases,
  some-eq,
}
use avash.Base.Text.{Text, codes, contains_char, ends_with}
use avash.Files.Names.{
  Descriptor, FilePath, is_misleading, is_one_normal, is_safe, push_all, announced_parts, not_empty,
  begins_with, local_path,
}

unlike : ¬ (false ≡ true)
unlike h = cc

module _ (is_device_name : Text → Bool) where
  -- A name that is one component and that no system reads otherwise.
  pub record IsHarmless (c : Text) : Type 0 where
    pub no_slash : contains_char b'/' c ≡ false
    pub no_backslash : contains_char b'\\' c ≡ false
    pub no_colon : contains_char b':' c ≡ false
    pub no_nul : contains_char 0 c ≡ false
    pub no_last_dot : ends_with (codes ".") c ≡ false
    pub no_last_space : ends_with (codes " ") c ≡ false
    pub no_device : is_device_name c ≡ false
    pub readable : any is_misleading c ≡ false
    pub some_name : c ≢ []
    pub not_dot : c ≢ codes "."
    pub not_parent : c ≢ codes ".."

  is_safe-IsHarmless : (c : Text) → is_safe is_device_name c ≡ true → IsHarmless c
  unfolding is_safe
  is_safe-IsHarmless c h =
      let normal : is_one_normal c ≡ true = ground (arith, h) in
      record {
        no_slash = ground (arith, h);
        no_backslash = ground (arith, h);
        no_colon = ground (arith, h);
        no_nul = ground (arith, h);
        no_last_dot = ground (arith, h);
        no_last_space = ground (arith, h);
        no_device = ground (arith, h);
        readable = ground (arith, h);
        some_name = λ e. unlike (sym (ap is_one_normal e) ∙ normal);
        not_dot = λ e. unlike (sym (ap is_one_normal e) ∙ normal);
        not_parent = λ e. unlike (sym (ap is_one_normal e) ∙ normal);
      }

  -- The components that follow a path are pushed as they are, and they are harmless.
  push_all-some :
      (p q : FilePath) (l : List Text)
      → push_all is_device_name p l ≡ some q
      → (q ≡ p ++ l) × All IsHarmless l
  unfolding push_all
  push_all-some p q [] e = (sym (some-eq e) ∙ sym (append_nil p), tt)
  push_all-some p q (c ∷ l) e = elim (Bool-cases (is_safe is_device_name c)) [
    | inr n ↦ absurd (cc (rw (push_all, n) at e))
    | inl y ↦
        let (same, h) = push_all-some (p ++ c ∷ []) q l (rw (push_all, y) at e) in
        (same ∙ append_assoc p (c ∷ []) l, (is_safe-IsHarmless c y, h))
  ]

  All-last :
      (l : List Text) (c : Text) → All IsHarmless l → IsHarmless c → All IsHarmless (l ++ c ∷ [])
  All-last l c h k = All-append IsHarmless l (c ∷ []) h (k, tt)

  -- Whatever the server announces, a file is received at the reception's folder followed by one or more harmless
  -- components: each of them is one name, not `.` nor `..`, without a separator, a colon, a misleading character or a
  -- dot or a space at its end, and it is not the name of a device.
  pub local_path-IsHarmless :
      (folder : FilePath) (d : Descriptor) (p : FilePath)
      → local_path is_device_name folder d ≡ some p
      → (rest : List Text) × (p ≡ folder ++ rest) × (0 < length rest) × All IsHarmless rest
  unfolding local_path
  local_path-IsHarmless folder d p e =
      let parts = announced_parts is_device_name (not_empty d.relative_path) in
      elim (Option-cases (push_all is_device_name folder parts)) [
        | inl n ↦ absurd (cc (rw (local_path, n) at e))
        | inr (q, y) ↦ elim (Bool-cases (is_safe is_device_name d.name)) [
          | inr n ↦ absurd (cc (rw (local_path, y, n) at e))
          | inl s ↦ elim (Bool-cases (begins_with (q ++ d.name ∷ []) folder)) [
            | inr n ↦ absurd (cc (rw (local_path, y, s, n) at e))
            | inl b ↦
                let (same, h) = push_all-some folder q parts y in
                (
                  parts ++ d.name ∷ [],
                  sym (some-eq (rw (local_path, y, s, b) at e))
                      ∙ ap (λ (q : FilePath). q ++ d.name ∷ []) same
                      ∙ append_assoc folder parts (d.name ∷ []),
                  omega (arith, length-append parts (d.name ∷ [])),
                  All-last parts d.name h (is_safe-IsHarmless d.name s),
                )
          ]
        ]
      ]
