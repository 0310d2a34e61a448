-- ===== src/Config/Glob.antt =====
-- crates/avash/src/lib.rs: `glob_match`. A position in the pattern or in the name is the list of
-- the bytes that are left there; the saved pair is what follows the last star, and `repli`.
pub mod Spec
pub mod Decides
use avash.Base.{
  ℕ, zero, suc, ◌+◌, ◌*◌, Bool, true, false, ◌||◌, Option, none, some, List, [], ◌∷◌, drop, length,
  ◌==◌, if◌then◌else◌,
}
use avash.Base.Text.{Bytes, Text, as_bytes}

-- The loop behind the scan: only stars may be left.
pub only_stars : Bytes → Bool
only_stars [] = true
only_stars (q ∷ p) = if q == b'*' then only_stars p else false

abbrev pub Back : Type 0
Back = Option (Bytes × Bytes)

abbrev pub Round : Type 0
Round = Bytes → Bytes → Back → Option Bool

-- The branch `else if let Some(e) = etoile`, and the `return false` behind it.
pub fall_back : Back → Round → Option Bool
fall_back none next = some false
fall_back (some (bp, bn)) next = next bp (drop 1 bn) (some (bp, drop 1 bn))

-- `none` means that the fuel ran out.
unfoldable pub scan : ℕ → Round
unfolding only_stars fall_back
scan zero p n back = none
scan (suc f) p [] back = some (only_stars p)
scan (suc f) [] (c ∷ n) back = fall_back back (scan f)
scan (suc f) (q ∷ p) (c ∷ n) back =
    let onward = scan f p n back in
    let starred = scan f p (c ∷ n) (some (p, c ∷ n)) in
    let again = fall_back back (scan f) in
    if q == b'?' || q == c then onward else if q == b'*' then starred else again

unfoldable pub scan_all : Bytes → Bytes → Option Bool
unfolding scan
scan_all p n = scan ((length n + 1) * (length p + 1)) p n none

abbrev pub is_yes : Option Bool → Bool
is_yes (some b) = b
is_yes none = false

unfoldable pub glob_match : Text → Text → Bool
unfolding scan_all
glob_match pattern name = is_yes (scan_all (as_bytes pattern) (as_bytes name))
