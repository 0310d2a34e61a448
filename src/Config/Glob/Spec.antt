-- ===== src/Config/Glob/Spec.antt =====
-- What a pattern means, with no search order in it: `*` is any run of bytes, `?` any byte, and
-- every other byte itself.
use avash.Base.{ℕ, true, ◌||◌, ◌≡◌, ◌≢◌, refl, ◌↔◌, [], ◌∷◌, arith, ◌==◌}
use avash.Base.Text.{Bytes}
use avash.Config.Glob.{only_stars}

pub data Matches : Bytes → Bytes → Type 0 where
  end : Matches [] []
  byte :
      {q c : ℕ} {p n : Bytes}
      → q ≢ b'*'
      → (q == b'?' || q == c) ≡ true
      → Matches p n
      → Matches (q ∷ p) (c ∷ n)
  pass : {q : ℕ} {p n : Bytes} → q ≡ b'*' → Matches p n → Matches (q ∷ p) n
  swallow : {q c : ℕ} {p n : Bytes} → q ≡ b'*' → Matches (q ∷ p) n → Matches (q ∷ p) (c ∷ n)

-- The bytes that a star may take are dropped one at a time, up to where `p` matches.
abbrev pub Later : Bytes → Bytes → Type 0
Later p n = Matches (b'*' ∷ p) n

-- A byte of the pattern that is no star takes one byte of the name.
pub byte_inv :
    {q c : ℕ} {p n : Bytes}
    → q ≢ b'*'
    → Matches (q ∷ p) (c ∷ n)
    → ((q == b'?' || q == c) ≡ true) × Matches p n
byte_inv ne (byte _ h m) = (h, m)
byte_inv ne (pass e m) = absurd (ne e)
byte_inv ne (swallow e m) = absurd (ne e)

pub Later-end : {p : Bytes} → Later p [] → Matches p []
Later-end (pass _ m) = m

pub not-Matches-nil : {c : ℕ} {n : Bytes} → ¬ Matches [] (c ∷ n)
not-Matches-nil m = elim m [ ]

-- If `p` does not match here, the star takes the byte.
pub Later-next : {c : ℕ} {p n : Bytes} → Later p (c ∷ n) → ¬ Matches p (c ∷ n) → Later p n
Later-next (byte ne _ _) h = absurd (ne refl)
Later-next (pass _ m) h = absurd (h m)
Later-next (swallow _ m) h = m

star_head : {q : ℕ} {p n : Bytes} → q ≡ b'*' → Matches (q ∷ p) n → Later p n
star_head e (byte ne _ _) = absurd (ne e)
star_head e (pass _ m) = pass refl m
star_head e (swallow _ m) = swallow refl (star_head e m)

-- Two stars in a row are one.
pub Later-star : {q : ℕ} {p n : Bytes} → q ≡ b'*' → Later (q ∷ p) n → Later p n
Later-star e (byte ne _ _) = absurd (ne refl)
Later-star e (pass _ m) = star_head e m
Later-star e (swallow _ m) = swallow refl (Later-star e m)

-- Wherever `q ∷ p` matches further on, `p` matches after the first byte.
pub Later-byte : {q c : ℕ} {p : Bytes} (n : Bytes) → q ≢ b'*' → Later (q ∷ p) (c ∷ n) → Later p n
Later-byte n ne (byte other _ _) = absurd (other refl)
Later-byte n ne (pass _ m) = pass refl (byte_inv ne m).1
Later-byte [] ne (swallow _ m) = Later-byte_end ne (Later-end m)
  where
    Later-byte_end : {r : ℕ} {s : Bytes} → r ≢ b'*' → Matches (r ∷ s) [] → Later s []
    Later-byte_end other (pass e _) = absurd (other e)
Later-byte (d ∷ n) ne (swallow _ m) = swallow refl (Later-byte n ne m)

only_stars→Matches : (p : Bytes) → only_stars p ≡ true → Matches p []
unfolding only_stars
only_stars→Matches [] h = end
only_stars→Matches (q ∷ p) h = pass (ground arith) (only_stars→Matches p (ground arith))

Matches→only_stars : {p : Bytes} → Matches p [] → only_stars p ≡ true
unfolding only_stars
Matches→only_stars end = refl
Matches→only_stars (pass e m) = ground (arith, Matches→only_stars m)

pub only_stars_iff : (p : Bytes) → (only_stars p ≡ true) ↔ Matches p []
only_stars_iff p = (only_stars→Matches p, Matches→only_stars)
