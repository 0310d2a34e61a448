-- ===== src/Rdp/Trust/Remembered.antt =====
-- What `memoriser_empreinte` of rdp-sidecar/src/empreintes.rs leaves for `chercher_empreinte`.
use avash.Base.{
  true, false, ◌≡◌, refl, ap, ◌∙◌, Option, none, some, [], ◌∷◌, ◌++◌, any, ◌==◌, if◌then◌else◌,
}
use avash.Base.Text.{Text, trim, text_eq}
use avash.Base.Equal.{text_eq_refl}
use avash.Rdp.Trust.{
  known, changed, judge_certificate, entry_of, first_of, find_fingerprint, Stored, absent,
  unreadable, not_utf8, content, ok, failed, needs_break, new_line, remember, remembered,
}
use avash.Rdp.Trust.Lines.{
  break_of, find_line-behind, find_line-one, is_space, needs_break-unfinished, new_line-eq,
}

-- What a file gives of a host once a key and its fingerprint are written behind its text.
find_fingerprint-appended :
    (t key e asked : Text)
    → any is_space key ≡ false
    → any (λ c. c == b'\n') key ≡ false
    → any (λ c. c == b'\n') e ≡ false
    → find_fingerprint (t ++ new_line (needs_break t) key e) asked
      ≡ first_of (find_fingerprint t asked) (entry_of asked (some (key, e)))
find_fingerprint-appended t key e asked hs hk he =
    ap (λ l. find_fingerprint (t ++ l) asked)
      (new_line-eq (needs_break t) key e
        ∙ ap (λ b. break_of b ++ ((key ++ b' ' ∷ e) ++ b'\n' ∷ [])) (needs_break-unfinished t))
    ∙ (find_line-behind asked [] t ((key ++ b' ' ∷ e) ++ b'\n' ∷ [])
        ∙ ap (first_of (find_fingerprint t asked)) (find_line-one key e asked hs hk he))

-- The text of a file that is read, the empty one if there is no file.
abbrev pub text_of : Stored → Option Text
text_of absent = some []
text_of (content t) = some t
text_of unreadable = none
text_of not_utf8 = none

abbrev pub first_or : Option Text → Text → Text
first_or none d = d
first_or (some m) d = m

-- What becomes of a file in which a host is noted, and what it then says of a host that is asked for.
abbrev pub IsNoted : Stored → Text → Text → Text → Text → Option Text → Type 0
IsNoted s key e asked presented none =
    (remember true true s key e ≡ failed) × (remembered true s asked ≡ failed)
IsNoted s key e asked presented (some t) =
    (t' : Text) × (remember true true s key e ≡ ok (content t'))
    × (remembered true (content t') asked
        ≡ ok (
            first_of (find_fingerprint t asked)
              (if text_eq key asked then some (trim e) else none)))
    × (let m = first_or (find_fingerprint t key) (trim e) in
        judge_certificate (find_fingerprint t' key) presented
        ≡ (if text_eq m presented then known else changed m))

judge_first_of :
    (found : Option Text) (e presented : Text)
    → judge_certificate (first_of found (some e)) presented
      ≡ (if text_eq (first_or found e) presented then known else changed (first_or found e))
unfolding judge_certificate
judge_first_of none e presented = refl
judge_first_of (some m) e presented = refl

noted :
    (s : Stored) (t key e asked presented : Text)
    → remember true true s key e ≡ ok (content (t ++ new_line (needs_break t) key e))
    → any is_space key ≡ false
    → any (λ c. c == b'\n') key ≡ false
    → any (λ c. c == b'\n') e ≡ false
    → IsNoted s key e asked presented (some t)
unfolding remembered
noted s t key e asked presented r hs hk he = (
  t ++ new_line (needs_break t) key e,
  r,
  ap ok (find_fingerprint-appended t key e asked hs hk he),
  ap (λ o. judge_certificate o presented) (find_fingerprint-appended t key e key hs hk he)
      ∙ rw (entry_of, text_eq_refl key)
          (judge_first_of (find_fingerprint t key) (trim e) presented),
)

-- A host whose key holds no space and no line feed, and whose fingerprint no line feed, is noted in
-- a file that is read, or absent, if its directory is there and the line is written: the file then gives what it gave of every host that it knew, and
-- for the key, if it did not know it, the fingerprint, trimmed. The certificate of this host is then
-- known if it presents what the file gives, and has changed otherwise. On a file that cannot be
-- read, or is not in UTF-8, noting a host and asking for one both fail.
pub remember-IsNoted :
    (s : Stored) (key e asked presented : Text)
    → any is_space key ≡ false
    → any (λ c. c == b'\n') key ≡ false
    → any (λ c. c == b'\n') e ≡ false
    → IsNoted s key e asked presented (text_of s)
unfolding remember remembered
remember-IsNoted absent key e asked presented hs hk he =
    noted absent [] key e asked presented refl hs hk he
remember-IsNoted (content t) key e asked presented hs hk he =
    noted (content t) t key e asked presented refl hs hk he
remember-IsNoted unreadable key e asked presented hs hk he = (refl, refl)
remember-IsNoted not_utf8 key e asked presented hs hk he = (refl, refl)
