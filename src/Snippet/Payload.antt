-- ===== src/Snippet/Payload.antt =====
-- What `terminal_payload` (crates/avash/src/snippet.rs) sends.
use avash.Base.{
  ℕ, zero, suc, ◌≤◌, ◌<◌, Bool, true, false, not, ◌&&◌, ◌||◌, ◌≡◌, refl, sym, subst, inl, inr, [],
  ◌∷◌, ◌++◌, arith, length, append_assoc, append_nil, if◌then◌else◌, Bool-cases,
}
use avash.Base.Text.{Text, codes, ends_with}
use avash.Base.Replace.{contains, replace, length-replace, length-replace_le, replace-absent}
use avash.Snippet.{paste_start, paste_end, without_pastes, with_returns, terminal_payload}

round-shorter :
    (s : Text)
    → (contains paste_start s || contains paste_end s) ≡ true
    → length (replace paste_end [] (replace paste_start [] s)) < length s
round-shorter s h = elim (Bool-cases (contains paste_start s)) [
  | inl y ↦ omega (
    arith,
    length-replace paste_start [] (omega arith) s y,
    length-replace_le paste_end [] (omega arith) (replace paste_start [] s),
  )
  | inr n ↦
      rw (replace-absent paste_start [] s n)
        (length-replace paste_end [] (omega arith) s (rw n at h))
]

-- No marker of a protected paste is left.
abbrev pub NoPaste : Text → Type 0
NoPaste s = (contains paste_start s ≡ false) × (contains paste_end s ≡ false)

both-false : (a b : Bool) → (a || b) ≡ false → (a ≡ false) × (b ≡ false)
both-false a b h = ground arith

without_pastes-NoPaste : (f : ℕ) (s : Text) → length s ≤ f → NoPaste (without_pastes f s)
unfolding without_pastes
without_pastes-NoPaste zero [] h = (unfold contains in refl, unfold contains in refl)
without_pastes-NoPaste zero (c ∷ s) h = elim h [ ]
without_pastes-NoPaste (suc f) s h =
    elim (Bool-cases (contains paste_start s || contains paste_end s)) [
      | inl y ↦
          rw (without_pastes, y)
            (without_pastes-NoPaste f (replace paste_end [] (replace paste_start [] s))
              (omega (arith, round-shorter s y)))
      | inr n ↦
          rw (without_pastes, n) (both-false (contains paste_start s) (contains paste_end s) n)
    ]

tail-Enter : (a : Text) → ends_with (codes "\r") (a ++ paste_end) ≡ false
unfolding ends_with
tail-Enter [] = refl
tail-Enter (c ∷ []) = ground arith
tail-Enter (c ∷ d ∷ a) = ground (arith, tail-Enter (d ∷ a))

not-Enter : (inner : Text) → ends_with (codes "\r") (paste_start ++ (inner ++ paste_end)) ≡ false
not-Enter inner =
    subst (λ s. ends_with (codes "\r") s ≡ false) (append_assoc paste_start inner paste_end)
      (tail-Enter (paste_start ++ inner))

payload-eq :
    (out : Text) (run : Bool)
    → ends_with (codes "\r") out ≡ false
    → (if run && not (ends_with (codes "\r") out) then out ++ codes "\r" else out)
      ≡ out ++ (if run then codes "\r" else [])
payload-eq out true h = rw h refl
payload-eq out false h = sym (append_nil out)

-- With brackets, whatever the text, the loop over the markers ends. What is sent is one protected
-- paste, in which no marker is left, and behind it the Enter key if the text is to be run.
pub terminal_payload-NoPaste :
    (text : Text) (run : Bool)
    → (inner : Text) × NoPaste inner
      × (terminal_payload text run true
          ≡ (paste_start ++ (inner ++ paste_end)) ++ (if run then codes "\r" else []))
unfolding terminal_payload
terminal_payload-NoPaste text run =
    let conv = with_returns text in
    let inner = without_pastes (length conv) conv in
    (
      inner,
      without_pastes-NoPaste (length conv) conv (omega arith),
      payload-eq (paste_start ++ (inner ++ paste_end)) run (not-Enter inner),
    )
