-- ===== src/Tunnel/Store.antt =====
-- The file of the tunnels (crates/avash/src/tunnel.rs) under `upsert_def_in` and `remove_def_in`.
use avash.Base.{
  Bool, true, false, ◌≡◌, refl, sym, subst, ◌∙◌, inl, inr, Option, none, some, List, [], ◌∷◌, arith,
  if◌then◌else◌, Bool-cases, Option-cases,
}
use avash.Base.Text.{Text, text_eq}
use avash.Base.Equal.{text_eq-eq, text_eq_refl}
use avash.Tunnel.{
  TunnelDef, TunnelError, validate, failed, saved, upsert, upsert_def_in, without_id, remove_def_in,
}

-- The first definition of an identifier.
abbrev pub find : List TunnelDef → Text → Option TunnelDef
find [] id = none
find (e ∷ r) id = if text_eq e.id id then some e else find r id

-- A text is not equal to two that differ.
apart : (a b c : Text) → text_eq a b ≡ false → text_eq a c ≡ true → text_eq b c ≡ false
apart a b c n m = elim (Bool-cases (text_eq b c)) [
  | inr f ↦ f
  | inl y ↦ absurd (
      cc (
        n,
        subst (λ x. text_eq a x ≡ true) (text_eq-eq a c m ∙ sym (text_eq-eq b c y))
            (text_eq_refl a),
      ))
]

find-upsert :
    (d : TunnelDef) (defs : List TunnelDef) (id : Text)
    → find (upsert d defs) id ≡ (if text_eq d.id id then some d else find defs id)
unfolding upsert
find-upsert d [] id = refl
find-upsert d (e ∷ r) id = elim (Bool-cases (text_eq e.id d.id)) [
  | inl y ↦
      rw (upsert, y)
        (subst
          (λ i.
            find (d ∷ r) id
            ≡ (if text_eq d.id id then some d else (if text_eq i id then some e else find r id)))
          (sym (text_eq-eq e.id d.id y)) (twice (text_eq d.id id) d e (find r id)))
  | inr n ↦
      rw (upsert, n)
        (elim (Bool-cases (text_eq e.id id)) [
          | inl m ↦ rw (m, apart e.id d.id id n m) refl
          | inr m ↦ rw m (find-upsert d r id)
        ])
]
  where
    twice :
        (b : Bool) (x y : TunnelDef) (z : Option TunnelDef)
        → (if b then some x else z) ≡ (if b then some x else (if b then some y else z))
    twice true x y z = refl
    twice false x y z = refl

find-without_id :
    (gone : Text) (defs : List TunnelDef) (id : Text)
    → find (without_id gone defs) id ≡ (if text_eq gone id then none else find defs id)
unfolding without_id
find-without_id gone [] id = ground arith
find-without_id gone (e ∷ r) id = elim (Bool-cases (text_eq e.id gone)) [
  | inl y ↦
      rw (without_id, y)
        (find-without_id gone r id
          ∙ subst
              (λ i.
                (if text_eq gone id then none else find r id)
                ≡ (if text_eq gone id then none else (if text_eq i id then some e else find r id)))
              (sym (text_eq-eq e.id gone y)) (gone-twice (text_eq gone id) e (find r id)))
  | inr n ↦
      rw (without_id, n)
        (elim (Bool-cases (text_eq e.id id)) [
          | inl m ↦ rw (m, apart e.id gone id n m) refl
          | inr m ↦ rw m (find-without_id gone r id)
        ])
]
  where
    gone-twice :
        (b : Bool) (y : TunnelDef) (z : Option TunnelDef)
        → (if b then none else z) ≡ (if b then none else (if b then some y else z))
    gone-twice true y z = refl
    gone-twice false y z = refl

-- What `upsert_def_in` does with a definition that `validate` refuses, and with one that it accepts.
abbrev pub IsUpserted : List TunnelDef → TunnelDef → Option TunnelError → Type 0
IsUpserted defs d (some e) = upsert_def_in (some defs) d ≡ failed e
IsUpserted defs d none =
    (all : List TunnelDef) × (upsert_def_in (some defs) d ≡ saved all)
    × ((id : Text) → find all id ≡ (if text_eq d.id id then some d else find defs id))

-- On a file that is read, a definition that is refused gives its error; one that is accepted is then
-- found under its identifier, and what is found under any other one stays.
pub upsert_def_in-find : (defs : List TunnelDef) (d : TunnelDef) → IsUpserted defs d (validate d)
unfolding upsert_def_in
upsert_def_in-find defs d = elim (Option-cases (validate d)) [
  | inl n ↦
      subst (IsUpserted defs d) (sym n)
        (upsert d defs, rw (upsert_def_in, n) refl, find-upsert d defs)
  | inr (e, y) ↦ subst (IsUpserted defs d) (sym y) (rw (upsert_def_in, y) refl)
]

-- A definition that is removed is not found again, and what is found under any other identifier
-- stays.
pub remove_def_in-find :
    (defs : List TunnelDef) (gone : Text)
    → (all : List TunnelDef) × (remove_def_in (some defs) gone ≡ saved all)
      × ((id : Text) → find all id ≡ (if text_eq gone id then none else find defs id))
unfolding remove_def_in
remove_def_in-find defs gone = (without_id gone defs, refl, find-without_id gone defs)
