-- ===== src/Drive/Below.antt =====
-- Where `resoudre` of rdp-sidecar/src/disque.rs leads.
use avash.Base.{
  Option, none, false, ◌⊎◌, some, subst, true, not, ◌≡◌, ◌≢◌, refl, sym, ap, ◌∙◌, inl, inr, List,
  [], ◌∷◌, ◌++◌, arith, any, Bool-cases, Option-cases,
}
use avash.Base.Text.{Text, codes, contains_char, text_eq}
use avash.Base.Equal.{text_eq-eq}
use avash.Files.Names.{FilePath, begins_with}
use avash.Drive.Host.{Host, Result, ok, refused, Status}
use avash.Drive.Resolve.{split_last, parts_of, is_normal, is_link, resolve_in, resolve}

-- A path that is written from a root on.
abbrev pub IsWithin : FilePath → FilePath → Type 0
IsWithin root p = (rest : List Text) × (p ≡ root ++ rest)

-- A name that leads nowhere else: not `.`, not `..`, no disk and no stream.
pub record IsPlain (name : Text) : Type 0 where
  pub no_dot : text_eq name (codes ".") ≡ false
  pub no_parent : text_eq name (codes "..") ≡ false
  pub no_colon : contains_char b':' name ≡ false

begins_with-IsWithin : (p root : FilePath) → begins_with p root ≡ true → IsWithin root p
unfolding begins_with
begins_with-IsWithin p [] h = (p, refl)
begins_with-IsWithin [] (b ∷ root) h = absurd (cc h)
begins_with-IsWithin (a ∷ p) (b ∷ root) h = elim (Bool-cases (text_eq a b)) [
  | inr n ↦ absurd (cc (rw (begins_with, n) at h))
  | inl y ↦
      let (rest, e) = begins_with-IsWithin p root (rw (begins_with, y) at h) in
      (rest, ap (λ c. c ∷ p) (text_eq-eq a b y) ∙ ap (◌∷◌ b) e)
]

ok-eq : {A : Type 0} {a b : A} → ◌≡◌ {A = Result A} (ok a) (ok b) → a ≡ b
ok-eq {A = A} {a = a} e = ap (value a) e
  where
    value : A → Result A → A
    value c (ok b) = b
    value c (refused s) = c

name_or : Text → Option (Text × List Text) → Text
name_or d none = d
name_or d (some (name, parents)) = name

some-name :
    {n m : Text} {p q : List Text}
    → ◌≡◌ {A = Option (Text × List Text)} (some (n, p)) (some (m, q))
    → n ≡ m
unfolding name_or
some-name {n = n} e = ap (name_or n) e

ok-refused : {A : Type 0} {a : A} {s : Status} → ¬ ◌≡◌ {A = Result A} (refused s) (ok a)
ok-refused e = cc

-- A name that passes the test of `composant_normal`.
is_normal-IsPlain : (host : Host) (c : Text) → is_normal host c ≡ true → IsPlain c
unfolding is_normal
is_normal-IsPlain host c h = record {
  no_dot = ground (arith, h);
  no_parent = ground (arith, h);
  no_colon = ground (arith, h);
}

module _ (host : Host) where
  -- A place below a root: its folder is what the system made of a path at some moment, links included, and is written
  -- from the root on; its name is plain, and was no link then.
  pub record IsBelow (root p : FilePath) : Type 0 where
    pub moment : host.World
    pub asked : FilePath
    pub parent : FilePath
    pub name : Text
    pub resolved : host.canonicalize moment asked ≡ some parent
    pub within : IsWithin root parent
    pub place : p ≡ parent ++ name ∷ []
    pub plain : IsPlain name
    pub no_link : is_link (host.symlink_metadata moment p) ≡ false

  abbrev pub IsUnder : FilePath → FilePath → Type 0
  IsUnder root p = (p ≡ root) ⊎ IsBelow root p

  -- A path under the root that is not the root is below it.
  pub IsUnder-IsBelow : (root p : FilePath) → IsUnder root p → p ≢ root → IsBelow root p
  IsUnder-IsBelow root p (inl e) h = absurd (h e)
  IsUnder-IsBelow root p (inr b) h = b

  resolve_in-IsBelow :
      (w : host.World) (root asked parent : FilePath) (name : Text) (p : FilePath)
      → host.canonicalize w asked ≡ some parent
      → IsPlain name
      → resolve_in host w root parent name ≡ ok p
      → IsBelow root p
  unfolding resolve_in
  resolve_in-IsBelow w root asked parent name p c plain e =
      elim (Bool-cases (begins_with parent root)) [
        | inr n ↦ absurd (ok-refused (rw (resolve_in, n) at e))
        | inl y ↦ elim (Bool-cases (begins_with (parent ++ name ∷ []) root)) [
          | inr n ↦ absurd (ok-refused (rw (resolve_in, y, n) at e))
          | inl z ↦ elim (Bool-cases (is_link (host.symlink_metadata w (parent ++ name ∷ [])))) [
            | inl l ↦ absurd (ok-refused (rw (resolve_in, y, z, l) at e))
            | inr l ↦
                let here : parent ++ name ∷ [] ≡ p = ok-eq (rw (resolve_in, y, z, l) at e) in
                record {
                  moment = w;
                  asked = asked;
                  parent = parent;
                  name = name;
                  resolved = c;
                  within = begins_with-IsWithin parent root y;
                  place = sym here;
                  plain = plain;
                  no_link =
                      subst (λ (q : FilePath). is_link (host.symlink_metadata w q) ≡ false) here l;
                }
          ]
        ]
      ]

  -- The last of the components passes a test that all of them pass.
  split_last-IsPlain :
      (l : List Text) (name : Text) (parents : List Text)
      → any (λ c. not (is_normal host c)) l ≡ false
      → split_last l ≡ some (name, parents)
      → IsPlain name
  split_last-IsPlain [] name parents h s = absurd (cc s)
  split_last-IsPlain (a ∷ []) name parents h s =
      subst IsPlain (some-name s) (is_normal-IsPlain host a (ground (arith, h)))
  split_last-IsPlain (a ∷ b ∷ r) name parents h s = elim (Option-cases (split_last (b ∷ r))) [
    | inl n ↦ absurd (cc (rw n at s))
    | inr ((last, before), m) ↦
        subst IsPlain (some-name (rw m at s))
          (split_last-IsPlain (b ∷ r) last before (ground (arith, h)) m)
  ]

  -- A path of the server is the root, or a place below it.
  pub resolve-IsUnder :
      (w : host.World) (root : FilePath) (remote : Text) (p : FilePath)
      → resolve host w root remote ≡ ok p
      → IsUnder root p
  unfolding resolve
  resolve-IsUnder w root remote p e =
      elim (Bool-cases (any (λ c. not (is_normal host c)) (parts_of remote))) [
        | inl n ↦ absurd (ok-refused (rw (resolve, n) at e))
        | inr y ↦ elim (Option-cases (split_last (parts_of remote))) [
          | inl s ↦ inl (sym (ok-eq (rw (resolve, y, s) at e)))
          | inr ((name, parents), s) ↦ elim (Option-cases (host.canonicalize w (root ++ parents))) [
            | inl c ↦ absurd (ok-refused (rw (resolve, y, s, c) at e))
            | inr (parent, c) ↦ inr (
                resolve_in-IsBelow w root (root ++ parents) parent name p c
                  (split_last-IsPlain (parts_of remote) name parents y s)
                  (rw (resolve, y, s, c) at e))
          ]
        ]
      ]
