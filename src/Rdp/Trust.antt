-- ===== src/Rdp/Trust.antt =====
-- rdp-sidecar/src/empreintes.rs: the verdict on the certificate of a server, and the file of the fingerprints. What the system
-- makes of the file is a parameter: how it is read, and whether it is opened and written.
pub mod Lines
pub mod Remembered
use avash.Base.{
  Bool, true, false, not, ◌&&◌, Option, none, some, List, [], ◌∷◌, ◌++◌, ◌==◌, if◌then◌else◌,
  is_nil,
}
use avash.Base.Text.{Text, codes, trim, text_eq, split_once, lines, ends_with}

-- `VerdictCert`
pub data Verdict : Type 0 where
  first_contact known : Verdict
  changed : Text → Verdict

-- `juger_certificat`
unfoldable pub judge_certificate : Option Text → Text → Verdict
judge_certificate none presented = first_contact
judge_certificate (some m) presented = if text_eq m presented then known else changed m

abbrev pub entry_of : Text → Option (Text × Text) → Option Text
entry_of key none = none
entry_of key (some (h, e)) = if text_eq h key then some (trim e) else none

abbrev pub first_of : Option Text → Option Text → Option Text
first_of none b = b
first_of (some a) b = some a

-- What one line says of a host.
abbrev pub line_entry : Text → Text → Option Text
line_entry key l = entry_of key (split_once (λ c. c == b' ') l)

abbrev pub find_line : Text → List Text → Option Text
find_line key [] = none
find_line key (l ∷ ls) = first_of (line_entry key l) (find_line key ls)

-- `chercher_empreinte`
abbrev pub find_fingerprint : Text → Text → Option Text
find_fingerprint content key = find_line key (lines content)

-- The file as it is read: the text is what `from_utf8` makes of its bytes.
pub data Stored : Type 0 where
  absent unreadable not_utf8 : Stored
  content : Text → Stored

-- A `Result` whose error is a context and a cause.
pub data Outcome (A : Type 0) : Type 0 where
  ok : A → Outcome A
  failed : Outcome A

-- `empreinte_memorisee`; `located` says that there is a directory of configuration.
unfoldable pub remembered : Bool → Stored → Text → Outcome (Option Text)
remembered false stored key = failed
remembered true absent key = ok none
remembered true unreadable key = failed
remembered true not_utf8 key = failed
remembered true (content t) key = ok (find_fingerprint t key)

abbrev pub needs_break : Text → Bool
needs_break t = not (is_nil t) && not (ends_with (codes "\n") t)

-- What is appended.
abbrev pub new_line : Bool → Text → Text → Text
new_line true key fingerprint = codes "\n" ++ (key ++ (codes " " ++ (fingerprint ++ codes "\n")))
new_line false key fingerprint = key ++ (codes " " ++ (fingerprint ++ codes "\n"))

abbrev pub appended : Bool → Text → Text → Text → Outcome Stored
appended true t key fingerprint = ok (content (t ++ new_line (needs_break t) key fingerprint))
appended false t key fingerprint = failed

-- `memoriser_empreinte`; `placed` says that the directory is found and made, `written` that the file is opened and the line
-- written whole.
unfoldable pub remember : Bool → Bool → Stored → Text → Text → Outcome Stored
remember false written stored key fingerprint = failed
remember true written absent key fingerprint = appended written [] key fingerprint
remember true written unreadable key fingerprint = failed
remember true written not_utf8 key fingerprint = failed
remember true written (content t) key fingerprint = appended written t key fingerprint
