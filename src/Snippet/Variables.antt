-- ===== src/Snippet/Variables.antt =====
-- `extract_vars` and `render` (crates/avash/src/snippet.rs) on the variables of a command.
use avash.Base.{
  ℕ, zero, suc, ◌+◌, true, false, not, ◌&&◌, ◌≡◌, refl, ap, sym, subst, ◌∙◌, inl, inr, none, some,
  List, [], ◌∷◌, ◌++◌, length, is_nil, Bool-cases, Option-cases,
}
use avash.Base.Text.{Text, trim}
use avash.Base.Equal.{text_eq_refl, has, has-append}
use avash.Snippet.{
  braced, add_name, extract_from, extract_vars, Table, value_of, render_from, render,
}

has-kept : (out : List Text) (name x : Text) → has x out ≡ true → has x (add_name out name) ≡ true
has-kept out name x h = elim (Bool-cases (not (is_nil name) && not (has name out))) [
  | inl y ↦ rw y (has-append x out (name ∷ []) ∙ rw h refl)
  | inr n ↦ rw n h
]

has-added :
    (out : List Text) (name : Text) → is_nil name ≡ false → has name (add_name out name) ≡ true
has-added out name g = elim (Bool-cases (has name out)) [
  | inl y ↦ rw (g, y) y
  | inr n ↦ rw (g, n) (has-append name out (name ∷ []) ∙ rw (n, text_eq_refl name) refl)
]

extract_from-keeps :
    (s : Text) (out : List Text) (skip : ℕ) (x : Text)
    → has x out ≡ true
    → has x (extract_from out skip s) ≡ true
unfolding extract_from
extract_from-keeps [] out skip x h = h
extract_from-keeps (c ∷ s) out (suc k) x h = extract_from-keeps s out k x h
extract_from-keeps (c ∷ s) out zero x h = elim (Option-cases (braced (c ∷ s))) [
  | inl e ↦ rw (extract_from, e) (extract_from-keeps s out 0 x h)
  | inr (n, e) ↦
      rw (extract_from, e)
        (extract_from-keeps s (add_name out (trim n)) (length n + 3) x (has-kept out (trim n) x h))
]

-- The tables give the same value to every name that was found, and to the empty one.
abbrev Agree : Table → Table → List Text → Type 0
Agree u v names = (x : Text) → has x names ≡ true → value_of u x ≡ value_of v x

extract_from-none :
    (out : List Text) (c : ℕ) (s : Text)
    → braced (c ∷ s) ≡ none
    → extract_from out 0 (c ∷ s) ≡ extract_from out 0 s
unfolding extract_from
extract_from-none out c s e = rw (extract_from, e) refl

extract_from-some :
    (out : List Text) (c : ℕ) (s n : Text)
    → braced (c ∷ s) ≡ some n
    → extract_from out 0 (c ∷ s) ≡ extract_from (add_name out (trim n)) (length n + 3) s
unfolding extract_from
extract_from-some out c s n e = rw (extract_from, e) refl

is_nil-eq : (s : Text) → is_nil s ≡ true → s ≡ []
is_nil-eq [] h = refl
is_nil-eq (c ∷ s) h = cc

value-Agree :
    (u v : Table) (out : List Text) (skip : ℕ) (s name : Text)
    → value_of u [] ≡ value_of v []
    → Agree u v (extract_from (add_name out name) skip s)
    → value_of u name ≡ value_of v name
value-Agree u v out skip s name z a = elim (Bool-cases (is_nil name)) [
  | inl e ↦ subst (λ x. value_of u x ≡ value_of v x) (sym (is_nil-eq name e)) z
  | inr e ↦ a name (extract_from-keeps s (add_name out name) skip name (has-added out name e))
]

render_from-Agree :
    (u v : Table) (s : Text) (out : List Text) (skip : ℕ)
    → value_of u [] ≡ value_of v []
    → Agree u v (extract_from out skip s)
    → render_from u skip s ≡ render_from v skip s
unfolding extract_from render_from
render_from-Agree u v [] out skip z a = refl
render_from-Agree u v (c ∷ s) out (suc k) z a = render_from-Agree u v s out k z a
render_from-Agree u v (c ∷ s) out zero z a = elim (Option-cases (braced (c ∷ s))) [
  | inl e ↦
      rw (render_from, e)
        (ap (◌∷◌ c) (
          render_from-Agree u v s out 0 z
            (λ x h. a x (ap (has x) (extract_from-none out c s e) ∙ h))))
  | inr (n, e) ↦
      let a' : Agree u v (extract_from (add_name out (trim n)) (length n + 3) s) =
        λ x h. a x (ap (has x) (extract_from-some out c s n e) ∙ h) in
      rw (render_from, e)
        (ap (λ w. w ++ render_from u (length n + 3) s)
            (value-Agree u v out (length n + 3) s (trim n) z a')
          ∙ ap (λ w. value_of v (trim n) ++ w)
              (render_from-Agree u v s (add_name out (trim n)) (length n + 3) z a'))
]

-- Two tables that give the same values to the variables that `extract_vars` lists, and to the empty
-- name, render a command alike: a form that asks for these variables asks for all.
pub render-extract_vars :
    (command : Text) (u v : Table)
    → value_of u [] ≡ value_of v []
    → ((x : Text) → has x (extract_vars command) ≡ true → value_of u x ≡ value_of v x)
    → render command u ≡ render command v
unfolding extract_vars render
render-extract_vars command u v z a = render_from-Agree u v command [] 0 z a
