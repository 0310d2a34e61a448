-- ===== src/Config/Glob/Decides.antt =====
-- The scan of `glob_match` (crates/avash/src/lib.rs) against `Matches`.
use avash.Base.{
  ℕ, zero, suc, ◌+◌, ◌*◌, ◌≤◌, ◌<◌, Bool, true, false, ◌||◌, ◌≡◌, ◌≢◌, refl, ◌↔◌, inl, inr, Option,
  none, some, [], ◌∷◌, arith, length, All, ◌==◌, Bool-cases,
}
use avash.Base.Text.{Bytes, Text, as_bytes}
use avash.Config.Glob.{only_stars, Back, Round, fall_back, scan, scan_all, is_yes, glob_match}
use avash.Config.Glob.Spec.{
  Matches, end, byte, pass, swallow, Later, byte_inv, Later-end, not-Matches-nil, Later-next,
  Later-star, Later-byte, only_stars_iff,
}

-- The run has an answer, and it is right about `G`.
abbrev pub Answers : Type 0 → Option Bool → Type 0
Answers G (some true) = G
Answers G (some false) = ¬ G
Answers G none = ⊥

abbrev pub NoStar : Bytes → Type 0
NoStar = All (λ c. c ≢ b'*')

star_here : {q : ℕ} {p n : Bytes} → (q == b'*') ≡ true → Later p n → Matches (q ∷ p) n
star_here {q} h d = let e : q ≡ b'*' = ground arith in rw e d

answer : {G : Type 0} (b : Bool) → (b ≡ true) ↔ G → Answers G (some b)
answer true e = e.0 refl
answer false e = λ g. cc (e.1 g)

-- `G` is the question of the call, and every pattern in play is shorter than `k`.
module _ (G : Type 0) (k : ℕ) where
  -- What the saved place stands for; `m` bounds the bytes that it may still give up.
  abbrev Saved : ℕ → Bytes → Bytes → Back → Type 0
  Saved m p n none = G → Matches p n
  Saved m p n (some (bp, bn)) =
      (G ↔ Later bp bn)
      × (Matches bp bn → Matches p n)
      × (length n ≤ length bn)
      × (length bn ≤ m)
      × (length bp < k)
      × NoStar bn

  record State (f m : ℕ) (p n : Bytes) (back : Back) : Type 0 where
    sound : Matches p n → G
    ahead : G → Later p n
    saved : Saved m p n back
    name_bound : length n ≤ m
    pattern_bound : length p < k
    fuel : m * k + length p < f
    plain : NoStar n

  at_star :
      {f m : ℕ} {p n : Bytes}
      → G ↔ Later p n
      → length n ≤ m
      → length p < k
      → m * k + length p < f
      → NoStar n
      → State f m p n (some (p, n))
  at_star e hn hp hf pl = record {
    sound = λ d. e.1 (pass refl d);
    ahead = e.0;
    saved = (e, λ d. d, omega arith, hn, hp, pl);
    name_bound = hn;
    pattern_bound = hp;
    fuel = hf;
    plain = pl;
  }

  Saved-byte :
      (m q c : ℕ) (p n : Bytes) (back : Back)
      → q ≢ b'*'
      → Saved m (q ∷ p) (c ∷ n) back
      → Saved m p n back
  Saved-byte m q c p n none ne s = λ g. (byte_inv ne (s g)).1
  Saved-byte m q c p n (some (bp, bn)) ne (e, down, shorter, hn, hp, pl) =
      (e, λ d. (byte_inv ne (down d)).1, omega arith, hn, hp, pl)

  State-byte :
      {f m q c : ℕ} {p n : Bytes} {back : Back}
      → State (suc f) m (q ∷ p) (c ∷ n) back
      → q ≢ b'*'
      → (q == b'?' || q == c) ≡ true
      → State f m p n back
  State-byte {m} {q} {c} {p} {n} {back} s ne h = record {
    sound = λ d. s.sound (byte ne h d);
    ahead = λ g. Later-byte n ne (s.ahead g);
    saved = Saved-byte m q c p n back ne s.saved;
    name_bound = omega arith;
    pattern_bound = omega arith;
    fuel = omega arith;
    plain = s.plain.1;
  }

  -- Giving one more byte to the last star lowers `m`, which pays for its whole pattern.
  fall_back-Answers :
      {f c : ℕ} {p n : Bytes} (m : ℕ) (back : Back) (next : Round)
      → ((m' : ℕ) (p' n' : Bytes) (b : Back) → State f m' p' n' b → Answers G (next p' n' b))
      → State (suc f) m p (c ∷ n) back
      → ¬ Matches p (c ∷ n)
      → Answers G (fall_back back next)
  unfolding fall_back
  fall_back-Answers m none next ih s miss = λ g. miss (s.saved g)
  fall_back-Answers m (some (bp, [])) next ih s miss = absurd (omega (arith, s.saved))
  fall_back-Answers zero (some (bp, x ∷ bn)) next ih s miss = absurd (omega (arith, s.saved))
  fall_back-Answers (suc m) (some (bp, x ∷ bn)) next ih s miss =
      let (e, down, _, hn, hp, pl) = s.saved in
      ih m bp bn (some (bp, bn)) (
        at_star (λ g. Later-next (e.0 g) (λ d. miss (down d)), λ d. e.1 (swallow refl d))
          (omega arith) hp (omega (arith, s.fuel)) pl.1)

  step-Answers :
      (f m q c : ℕ) (p n : Bytes) (back : Back)
      → ((m' : ℕ) (p' n' : Bytes) (b : Back) → State f m' p' n' b → Answers G (scan f p' n' b))
      → State (suc f) m (q ∷ p) (c ∷ n) back
      → Answers G (scan (suc f) (q ∷ p) (c ∷ n) back)
  unfolding scan
  step-Answers f m q c p n back ih s = elim (Bool-cases (q == b'?' || q == c)) [
    | inl h ↦ rw h (ih m p n back (State-byte s (λ e. s.plain.0 (ground arith)) h))
    | inr h ↦ rw h (elim (Bool-cases (q == b'*')) [
      | inl star ↦ rw star (
          ih m p (c ∷ n) (some (p, c ∷ n)) (
            at_star (λ g. Later-star (ground arith) (s.ahead g), λ d. s.sound (star_here star d))
              s.name_bound (omega (arith, s.pattern_bound)) (omega (arith, s.fuel)) s.plain))
      | inr other ↦
          rw other
            (fall_back-Answers m back (scan f) ih s (λ d. cc (h, (byte_inv (ground arith) d).0)))
    ])
  ]

  scan-Answers :
      (f m : ℕ) (p n : Bytes) (back : Back) → State f m p n back → Answers G (scan f p n back)
  unfolding scan
  scan-Answers zero m p n back s = absurd (omega (arith, s.fuel))
  scan-Answers (suc f) m p [] back s =
      let (there, back_again) = only_stars_iff p in
      answer (only_stars p) (λ h. s.sound (there h), λ g. back_again (Later-end (s.ahead g)))
  scan-Answers (suc f) m [] (c ∷ n) back s =
      fall_back-Answers m back (scan f) (scan-Answers f) s not-Matches-nil
  scan-Answers (suc f) m (q ∷ p) (c ∷ n) back s = step-Answers f m q c p n back (scan-Answers f) s

-- On a name with no star in it `glob_match` returns within its fuel, and the answer is whether
-- the pattern matches.
pub scan_all-Answers : (p n : Bytes) → NoStar n → Answers (Matches p n) (scan_all p n)
unfolding scan_all
scan_all-Answers p n pl = scan-Answers (Matches p n) (length p + 1) _ (length n) p n none (record {
  sound = λ d. d;
  ahead = pass refl;
  saved = λ d. d;
  name_bound = omega arith;
  pattern_bound = omega arith;
  fuel = omega arith;
  plain = pl;
})

any_run : (n : Bytes) → Later [] n
any_run [] = pass refl end
any_run (c ∷ n) = swallow refl (any_run n)

-- On a name that begins with a star and goes on, the pattern `*` is answered no, and it matches.
pub scan_all-star_name :
    (c : ℕ) (n : Bytes)
    → (scan_all (b'*' ∷ []) (b'*' ∷ c ∷ n) ≡ some false) × Matches (b'*' ∷ []) (b'*' ∷ c ∷ n)
unfolding scan_all
scan_all-star_name c n = (rw fuel, any_run (b'*' ∷ c ∷ n))
  where
    fuel : (length (b'*' ∷ c ∷ n) + 1) * 2 ≡ suc (suc (length n * 2 + 4))
    fuel = omega arith

is_yes_iff : {G : Type 0} (o : Option Bool) → Answers G o → (is_yes o ≡ true) ↔ G
is_yes_iff (some true) a = (λ _. a, λ _. refl)
is_yes_iff (some false) a = (λ e. cc e, λ g. absurd (a g))
is_yes_iff none a = absurd a

-- On a name with no star in it, `glob_match` says yes exactly if the pattern matches the bytes of
-- the name.
pub glob_match-Matches :
    (pattern name : Text)
    → NoStar (as_bytes name)
    → (glob_match pattern name ≡ true) ↔ Matches (as_bytes pattern) (as_bytes name)
unfolding glob_match
glob_match-Matches pattern name plain =
    is_yes_iff (scan_all (as_bytes pattern) (as_bytes name))
      (scan_all-Answers (as_bytes pattern) (as_bytes name) plain)
