-- ===== src/Config/Render/Lines.antt =====
-- The block that `render_host_block` (crates/avash/src/lib.rs) writes, read back line by line.
use avash.Base.{
  ℕ, ◌<◌, false, ◌≡◌, refl, sym, ap, ◌∙◌, inl, inr, Option, none, some, List, [], ◌∷◌, ◌++◌, map,
  arith, any, All, append_nil, ◌==◌, Bool-cases, is_nil,
}
use avash.Base.Text.{
  Text, codes, is_whitespace, is_control, trim, trim_matches, strip_last, without_cr, lines_from,
  lines, show_u16,
}
use avash.Base.Any.{
  any-append, any-trim, any-trim_start_if, any-trim_end_if, any-join, AnyFree, AnyFree-map-trim,
  AnyFree-keep_if, AnyFree-append,
}
use avash.Config.Host.{SshHost, ok}
use avash.Config.Validate.{validate_host}
use avash.Config.Validate.Accepts.{IsPlain, IsWord, OptionIs, IsAccepted, validate_host-IsAccepted}
use avash.Config.Render.{
  unlines, value_line, port_line, quoted, identity_line, clean_tags, tags_line, folder_line,
  host_lines, render_host_block,
}

pub strip_last-cr : (s : Text) → any is_control s ≡ false → strip_last b'\r' s ≡ none
unfolding strip_last is_control
strip_last-cr [] h = refl
strip_last-cr (c ∷ []) h = ground arith
strip_last-cr (c ∷ d ∷ s) h = rw (strip_last-cr (d ∷ s) (ground arith)) refl

pub without_cr-control : (s : Text) → any is_control s ≡ false → without_cr s ≡ s
without_cr-control s h = rw (without_cr, strip_last-cr s h) refl

pub is_control-lf : (c : ℕ) → is_control c ≡ false → (c == b'\n') ≡ false
unfolding is_control
is_control-lf c h = ground arith

pub append_snoc : (a : Text) (c : ℕ) (b : Text) → ((a ++ c ∷ []) ++ b) ≡ a ++ c ∷ b
append_snoc [] c b = refl
append_snoc (x ∷ a) c b = ap (◌∷◌ x) (append_snoc a c b)

pub lines_from-line :
    (acc l s : Text)
    → any is_control acc ≡ false
    → any is_control l ≡ false
    → lines_from acc (l ++ b'\n' ∷ s) ≡ (acc ++ l) ∷ lines_from [] s
unfolding lines_from
lines_from-line acc [] s ha hl =
    ap (λ a. a ∷ lines_from [] s) (without_cr-control acc ha ∙ sym (append_nil acc))
lines_from-line acc (c ∷ l) s ha hl = rw (is_control-lf c (ground arith)) (
    lines_from-line (acc ++ c ∷ []) l s (any-append is_control acc (c ∷ []) ha (ground arith))
      (ground arith)
    ∙ ap (λ a. a ∷ lines_from [] s) (append_snoc acc c l))

pub lines-unlines : (ls : List Text) → AnyFree is_control ls → lines (unlines ls) ≡ ls
unfolding unlines
lines-unlines [] h = unfold lines_from in refl
lines-unlines (l ∷ ls) h =
    lines_from-line [] l (unlines ls) refl h.0 ∙ ap (◌∷◌ l) (lines-unlines ls h.1)

-- A port is a number of 16 bits.
abbrev pub IsPort : Option ℕ → Type 0
IsPort none = Unit
IsPort (some p) = p < 0x1_0000

show_u16-control : (p : ℕ) → p < 0x1_0000 → any is_control (show_u16 p) ≡ false
unfolding show_u16 is_control
show_u16-control p h = ground arith

module _ (key : Text) (free : any is_control key ≡ false) where
  value_line-free :
      (o : Option Text)
      → OptionIs (λ v. any is_control v ≡ false) o
      → AnyFree is_control (value_line key o)
  value_line-free none h = tt
  value_line-free (some v) h = elim (Bool-cases (is_nil (trim v))) [
    | inl e ↦ rw e tt
    | inr e ↦ rw e (any-append is_control key (trim v) free (any-trim is_control v h), tt)
  ]

port_line-free : (o : Option ℕ) → IsPort o → AnyFree is_control (port_line o)
unfolding is_control
port_line-free none h = tt
port_line-free (some p) h = elim (Bool-cases (p == 22)) [
  | inl e ↦ rw e tt
  | inr e ↦ rw e (show_u16-control p h, tt)
]

quoted-control : (v : Text) → any is_control v ≡ false → any is_control (quoted v) ≡ false
unfolding quoted is_control
quoted-control v h = elim (Bool-cases (any is_whitespace v)) [
  | inl e ↦ rw e (any-append is_control v (b'"' ∷ []) h refl)
  | inr e ↦ rw e h
]

identity_line-free : (o : Option Text) → OptionIs IsPlain o → AnyFree is_control (identity_line o)
unfolding is_control
identity_line-free none h = tt
identity_line-free (some v) h = elim (Bool-cases (is_nil (trim v))) [
  | inl e ↦ rw e tt
  | inr e ↦ rw e (quoted-control (trim v) (any-trim is_control v h.no_control), tt)
]

tags-control : (l : List Text) → All IsPlain l → AnyFree is_control l
tags-control [] h = tt
tags-control (t ∷ l) h = (h.0.no_control, tags-control l h.1)

tags_line-free : (l : List Text) → All IsPlain l → AnyFree is_control (tags_line l)
unfolding is_control
tags_line-free l h = elim (Bool-cases (is_nil (clean_tags l))) [
  | inl e ↦ rw e tt
  | inr e ↦ rw e (
    any-join is_control (codes ", ") (clean_tags l) refl (
        AnyFree-keep_if is_control _ (map trim l)
          (AnyFree-map-trim is_control l (tags-control l h))),
    tt,
  )
]

folder_line-free : (f : Text) → IsPlain f → AnyFree is_control (folder_line f)
unfolding is_control
folder_line-free f h = elim (Bool-cases (is_nil (trim_matches b'/' (trim f)))) [
  | inl e ↦ rw e tt
  | inr e ↦ rw e (
    any-trim_end_if is_control _ _
        (any-trim_start_if is_control _ (trim f) (any-trim is_control f h.no_control)),
    tt,
  )
]

word-control : (o : Option Text) → OptionIs IsWord o → OptionIs (λ v. any is_control v ≡ false) o
word-control none h = tt
word-control (some v) h = h.0.no_control

plain-control : (o : Option Text) → OptionIs IsPlain o → OptionIs (λ v. any is_control v ≡ false) o
plain-control none h = tt
plain-control (some v) h = h.no_control

pub host_lines-free :
    (h : SshHost) → IsAccepted h → IsPort h.port → AnyFree is_control (host_lines h)
unfolding host_lines
host_lines-free h a p = (
  any-append is_control (codes "Host ") (trim h.alias) (unfold is_control in refl) a.alias_control,
  AnyFree-append is_control (value_line (codes "    HostName ") h.hostname) _
      (value_line-free (codes "    HostName ") (unfold is_control in refl) h.hostname
        (word-control h.hostname a.hostname_word))
      (AnyFree-append is_control (value_line (codes "    User ") h.user) _
        (value_line-free (codes "    User ") (unfold is_control in refl) h.user
          (word-control h.user a.user_word))
        (AnyFree-append is_control (port_line h.port) _ (port_line-free h.port p) (
          AnyFree-append is_control (identity_line h.identity_file) _
            (identity_line-free h.identity_file a.identity_plain)
            (AnyFree-append is_control (value_line (codes "    ProxyJump ") h.proxy_jump) _
              (value_line-free (codes "    ProxyJump ") (unfold is_control in refl) h.proxy_jump
                (plain-control h.proxy_jump a.jump_plain))
              (AnyFree-append is_control (tags_line h.tags) _ (tags_line-free h.tags a.tags_plain)
                (folder_line-free h.folder a.folder_plain)))))),
)

-- The written block of an accepted host, whose port has 16 bits, is exactly one line for its alias
-- and at most one for each field: no value adds a line.
pub render_host_block-host_lines :
    (h : SshHost)
    → validate_host h ≡ ok tt
    → IsPort h.port
    → lines (render_host_block h) ≡ host_lines h
unfolding render_host_block
render_host_block-host_lines h e p =
    lines-unlines (host_lines h) (host_lines-free h (validate_host-IsAccepted h e) p)
