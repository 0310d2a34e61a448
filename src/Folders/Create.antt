-- ===== src/Folders/Create.antt =====
-- What `create_in` (crates/avash/src/folders.rs) leaves in the registry.
use avash.Base.{
  Bool, true, false, not, ◌||◌, ◌≡◌, ◌⊎◌, ◌↔◌, refl, sym, ap, ◌∙◌, inl, inr, List, [], ◌∷◌, ◌++◌,
  arith, append_assoc, is_nil, All,
}
use avash.Base.Text.{Text, codes, keep_if, join}
use avash.Base.Equal.{has}
use avash.Folders.{
  normalize, ancestors_from, with_ancestors, sort, tidy, listed, done, load, add_missing, create_in,
}
use avash.Folders.Normal.{IsSegment, segments, segments-IsSegment, split_if-join, normalize-join}
use avash.Folders.Ancestors.{Within, ancestors_from-Within}
use avash.Folders.Ordered.{
  IsFolder, has-sort, has-tidy, has-add_missing, All-add_missing, tidy-IsFolder,
}

segment-given : (s : Text) → IsSegment s → is_nil s ≡ false
segment-given s h = ground (arith, h.kept)

join-given :
    (s : Text) (l : List Text) → All IsSegment (s ∷ l) → is_nil (join (codes "/") (s ∷ l)) ≡ false
unfolding join
join-given s [] h = segment-given s h.0
join-given [] (u ∷ l) h = refl
join-given (c ∷ s) (u ∷ l) h = refl

join-snoc :
    (s : Text) (l : List Text) (u : Text)
    → join (codes "/") (s ∷ l) ++ (codes "/" ++ u) ≡ join (codes "/") (s ∷ (l ++ u ∷ []))
unfolding join
join-snoc s [] u = refl
join-snoc s (t ∷ l) u =
    append_assoc s (codes "/" ++ join (codes "/") (t ∷ l)) (codes "/" ++ u)
    ∙ ap (λ x. s ++ (codes "/" ++ x)) (join-snoc t l u)

All-snoc : (l : List Text) (u : Text) → All IsSegment l → IsSegment u → All IsSegment (l ++ u ∷ [])
All-snoc [] u h k = (k, tt)
All-snoc (s ∷ l) u h k = (h.0, All-snoc l u h.1 k)

join-IsFolder :
    (s : Text) (l : List Text) → All IsSegment (s ∷ l) → IsFolder (join (codes "/") (s ∷ l))
join-IsFolder s l h = record { normal = normalize-join (s ∷ l) h; given = join-given s l h }

ancestors_from-IsFolder :
    (s : Text) (l us : List Text)
    → All IsSegment (s ∷ l)
    → All IsSegment us
    → All IsFolder (ancestors_from (join (codes "/") (s ∷ l)) us)
unfolding ancestors_from
ancestors_from-IsFolder s l [] h k = tt
ancestors_from-IsFolder s l (u ∷ us) h k =
    let longer = All-snoc (s ∷ l) u h k.0 in
    rw (join-given s l h, join-snoc s l u)
      (join-IsFolder s (l ++ u ∷ []) longer, ancestors_from-IsFolder s (l ++ u ∷ []) us longer k.1)

keep-given : (l : List Text) → All IsSegment l → keep_if (λ s. not (is_nil s)) l ≡ l
unfolding keep_if
keep-given [] h = refl
keep-given (s ∷ l) h = rw (segment-given s h.0) (ap (◌∷◌ s) (keep-given l h.1))

with_ancestors-join :
    (s : Text) (l : List Text)
    → All IsSegment (s ∷ l)
    → with_ancestors (join (codes "/") (s ∷ l)) ≡ ancestors_from [] (s ∷ l)
unfolding with_ancestors
with_ancestors-join s l h =
    ap (λ x. ancestors_from [] (keep_if (λ s. not (is_nil s)) x)) (split_if-join s l h)
    ∙ ap (ancestors_from []) (keep-given (s ∷ l) h)

with_ancestors-IsFolder :
    (l : List Text)
    → All IsSegment l
    → is_nil (join (codes "/") l) ≡ false
    → All IsFolder (with_ancestors (join (codes "/") l))
unfolding join ancestors_from
with_ancestors-IsFolder [] h g = cc
with_ancestors-IsFolder (s ∷ l) h g =
    rw (with_ancestors-join s l h)
      (join-IsFolder s [] (h.0, tt), ancestors_from-IsFolder s [] l (h.0, tt) h.1)

norm-IsFolder :
    (path : Text) → is_nil (normalize path) ≡ false → All IsFolder (with_ancestors (normalize path))
unfolding normalize
norm-IsFolder path given = with_ancestors-IsFolder (segments path) (segments-IsSegment path) given

segments-ancestors :
    (l : List Text)
    → All IsSegment l
    → is_nil (join (codes "/") l) ≡ false
    → (x : Text)
    → (has x (with_ancestors (join (codes "/") l)) ≡ true) ↔ Within (join (codes "/") l) x
unfolding join
segments-ancestors [] h g x = absurd (cc g)
segments-ancestors (s ∷ l) h g x = rw (with_ancestors-join s l h) (ancestors_from-Within s l h x)

-- The folders that go with a folder are those it lies in, itself included.
pub with_ancestors-Within :
    (path : Text)
    → is_nil (normalize path) ≡ false
    → (x : Text) → (has x (with_ancestors (normalize path)) ≡ true) ↔ Within (normalize path) x
unfolding normalize
with_ancestors-Within path given x =
    segments-ancestors (segments path) (segments-IsSegment path) given x

either_way :
    {P : Type 0} (a b c : Bool) → a ≡ (b || c) → (c ≡ true) ↔ P → (a ≡ true) ↔ ((b ≡ true) ⊎ P)
either_way a true c e (f, g) = (λ _. inl refl, λ _. e)
either_way a false c e (f, g) =
    (λ h. inr (f (sym e ∙ h)), λ k. elim k [ inl n ↦ absurd (cc n) | inr p ↦ e ∙ g p ])

-- On a registry that is read, creating a folder whose name is not empty once it is normalised
-- writes a list and returns one. A folder is in one or in the other exactly if it was in the
-- registry, is the new folder, or is one that the new folder lies in: the new folder's name is
-- then its name, a slash and a rest.
pub create_in-has :
    (paths : List Text) (path : Text)
    → is_nil (normalize path) ≡ false
    → (w : List Text) × (r : List Text) × (create_in (listed paths) path ≡ done w r)
      × ((x : Text)
          → ((has x w ≡ true) ↔ ((has x (tidy paths) ≡ true) ⊎ Within (normalize path) x))
            × ((has x r ≡ true) ↔ ((has x (tidy paths) ≡ true) ⊎ Within (normalize path) x)))
unfolding create_in load
create_in-has paths path given =
    let added = with_ancestors (normalize path) in
    let all = add_missing (tidy paths) added in
    let folders =
      All-add_missing IsFolder added (tidy paths) (tidy-IsFolder paths)
        (norm-IsFolder path given) in
    (
      tidy all,
      sort all,
      rw (create_in, given) refl,
      λ x.
          let above = with_ancestors-Within path given x in
          let holds = has-add_missing x added (tidy paths) in
          (
            either_way (has x (tidy all)) (has x (tidy paths)) (has x added)
                (has-tidy x all folders ∙ holds) above,
            either_way (has x (sort all)) (has x (tidy paths)) (has x added)
                (has-sort x all ∙ holds) above,
          ),
    )
