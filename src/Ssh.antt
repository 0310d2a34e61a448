-- ===== src/Ssh.antt =====
-- crates/avash/src/ssh.rs: the verdict on the key of a host, the markers of `known_hosts`, and what a
-- remote machine may write into a message.
pub mod Remote
pub mod Safe
mod Tests
use avash.Base.{
  ℕ, zero, suc, ◌+◌, Bool, true, false, not, ◌&&◌, ◌||◌, Option, none, some, List, [], ◌∷◌, ◌++◌,
  length, take, drop, ltb, leb, ◌==◌, if◌then◌else◌, is_nil, any,
}
use avash.Base.Text.{
  Text, codes, is_whitespace, trim, trim_end, text_eq, strip_prefix, strip_last, starts_with,
  rsplit_once, contains_char, split_if, split_whitespace, lines,
}
use avash.Config.Validate.{without_control}

-- `VerdictCle`: a first contact, a known key, or one that has changed, and the first line recorded.
pub data Verdict : Type 0 where
  first_contact known : Verdict
  changed : ℕ → Verdict

-- `juger_cle_hote`: a key is `PublicKey` of russh, of which only the equality is used.
unfoldable pub judge_host_key {ℓ} : {K : Type ℓ} → (K → K → Bool) → List (ℕ × K) → K → Verdict
judge_host_key same [] presented = first_contact
judge_host_key same ((line, k) ∷ rest) presented =
    if any (λ r. same r.1 presented) ((line, k) ∷ rest) then known else changed line

-- `split_once` at a text: what stands before its first occurrence, and behind it.
unfoldable pub split_at : Text → Text → Option (Text × Text)
split_at sep [] = if is_nil sep then some ([], []) else none
split_at sep (c ∷ s) =
    let later = elim (split_at sep s) as (λ _. Option (Text × Text)) [
      | none ↦ none
      | some p ↦ some (c ∷ p.0, p.1)
    ] in
    elim (strip_prefix sep (c ∷ s)) [ some rest ↦ some ([], rest) | none ↦ later ]

abbrev pub all_digits : Text → Bool
all_digits s = not (any (λ c. not (leb b'0' c && leb c b'9')) s)

-- Behind an opening bracket.
unfoldable pub bracketed_host : Text → Text
unfolding split_at
bracketed_host rest = elim (split_at (codes "]:") rest) [
  | some p ↦ p.0
  | none ↦ elim (strip_last b']' rest) [ some h ↦ h | none ↦ rest ]
]

unfoldable pub bare_host : Text → Text
bare_host pattern = elim (rsplit_once b':' pattern) [
  | none ↦ pattern
  | some p ↦
      if not (contains_char b':' p.0) && not (is_nil p.1) && all_digits p.1 then p.0 else pattern
]

-- `hote_de_motif_known_hosts`
unfoldable pub host_of_pattern : Text → Text
unfolding strip_prefix bracketed_host bare_host
host_of_pattern pattern = elim (strip_prefix (codes "[") (trim pattern)) [
  | some rest ↦ bracketed_host rest
  | none ↦ bare_host (trim pattern)
]

-- `motif_hache_vise` compares hashes of third-party code: a parameter.
module _ (hashed_names : Text → Text → ℕ → Bool) where
  abbrev pub names_host : Text → ℕ → Text → Bool
  names_host host port h =
      if starts_with (codes "|1|") h
      then hashed_names h host port
      else text_eq (host_of_pattern h) host

  abbrev pub is_blocking : Text → Bool
  is_blocking mark = text_eq mark (codes "@revoked") || text_eq mark (codes "@cert-authority")

  -- The words of a line that begins with `@`.
  abbrev pub blocking_mark : Text → ℕ → List Text → Option Text
  blocking_mark host port (mark ∷ hosts ∷ r) =
      if is_blocking mark && any (names_host host port) (split_if (λ c. c == b',') hosts)
      then some mark
      else none
  blocking_mark host port _ = none

  abbrev pub or_later : Option Text → Option Text → Option Text
  or_later (some a) b = some a
  or_later none b = b

  unfoldable pub blocking_lines : Text → ℕ → List Text → Option Text
  blocking_lines host port [] = none
  blocking_lines host port (l ∷ ls) =
      let later = blocking_lines host port ls in
      if starts_with (codes "@") (trim l)
      then or_later (blocking_mark host port (split_whitespace (trim l))) later
      else later

  -- `marqueur_bloquant_dans`
  unfoldable pub blocking_in : Text → Text → ℕ → Option Text
  unfolding host_of_pattern split_if split_whitespace blocking_lines
  blocking_in text host port = blocking_lines host port (lines text)

abbrev pub marker_start : Text
marker_start = codes "[AVASH_"

abbrev pub in_marker : ℕ → Bool
in_marker c = (leb b'A' c && leb c b'Z') || c == b'_'

-- What is left behind the start of a marker: a whole marker goes, or its start only.
unfoldable pub after_marker : Text → Text
unfolding split_at
after_marker after = elim (split_at (codes "]") after) [
  | none ↦ after
  | some p ↦ if any (λ c. not (in_marker c)) p.0 then after else p.1
]

abbrev pub onto_front : Text → Option Text → Option Text
onto_front a none = none
onto_front a (some s) = some (a ++ s)

-- The loop of `sans_marqueurs_internes`; `none` is the end of the fuel.
unfoldable pub without_markers_in : ℕ → Text → Option Text
unfolding split_at after_marker
without_markers_in zero text = none
without_markers_in (suc f) text = elim (split_at marker_start text) as (λ _. Option Text) [
  | none ↦ some text
  | some p ↦ onto_front p.0 (without_markers_in f (after_marker p.1))
]

unfoldable pub without_markers : Text → Option Text
unfolding without_markers_in
without_markers text = without_markers_in (length text + 1) text

abbrev pub text_max : ℕ
text_max = 200

-- At most `text_max` characters, and the sign of what was cut.
abbrev pub shortened : Text → Text
shortened s = if leb (length s) text_max then s else trim_end (take text_max s) ++ 0x2026 ∷ []

-- `texte_distant_sur`
unfoldable pub safe_remote_text : Text → Option Text
unfolding without_control without_markers
safe_remote_text raw = elim (without_markers (without_control raw)) [
  | none ↦ none
  | some s ↦ some (shortened (trim s))
]
