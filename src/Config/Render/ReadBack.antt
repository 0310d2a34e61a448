-- ===== src/Config/Render/ReadBack.antt =====
-- What `blocs_bruts` reads of each line that `render_host_block` writes (both in crates/avash/src/lib.rs).
use avash.Base.{
  ℕ, ◌<◌, true, false, ◌≡◌, refl, sym, ap, ◌∙◌, inl, inr, Option, none, some, List, [], ◌∷◌, ◌++◌,
  any, All, ◌==◌, if◌then◌else◌, Bool-cases, is_nil,
}
use avash.Base.Text.{
  Text, codes, is_whitespace, trim, trim_end_if, trim_start_if, trim_matches, split_once, join,
  strip_prefix, lower, show_u16,
}
use avash.Base.Trim.{trim-word, trim_end_if-free, trim_start_if-cons, trim_end_if-append}
use avash.Base.Any.{any-trim}
use avash.Base.Decimal.{show_u16-full, show_u16-word, parse_u16-show_u16}
use avash.Config.Host.{SshHost, new_host}
use avash.Config.Blocks.{
  Reader, step, close, on_line, key_value, directive, dequote, first_value, nonzero, read_lines,
}
use avash.Config.Validate.Accepts.{IsPlain, IsWord, OptionIs}
use avash.Config.Render.{
  value_line, port_line, quoted, identity_line, clean_tags, tags_line, folder_line,
}
use avash.Config.Render.Lines.{IsPort}
use avash.Config.Render.Fields.{
  IsTrimmed, trim-IsTrimmed, dequote-plain, reading, step-hostname, step-user, step-identity,
  step-jump, step-port, quoted-IsTrimmed, dequote-quoted,
}
use avash.Config.Render.Comments.{IsTag, CommaFree, clean_tags-IsTag, step-tags, step-folder}

-- A value that is written trimmed, or not at all.
abbrev pub trimmed : Option Text → Option Text
trimmed none = none
trimmed (some v) = if is_nil (trim v) then none else some (trim v)

-- The default port is not written, and a port of 0 is not read.
abbrev pub written_port : Option ℕ → Option ℕ
written_port none = none
written_port (some p) = if p == 22 then none else nonzero (some p)

abbrev pub folder_text : Text → Text
folder_text f = trim_matches b'/' (trim f)

-- A host as it comes back from its block.
abbrev pub read_back : SshHost → SshHost
read_back h = record {
  alias = trim h.alias;
  hostname = trimmed h.hostname;
  user = trimmed h.user;
  port = written_port h.port;
  identity_file = trimmed h.identity_file;
  proxy_jump = trimmed h.proxy_jump;
  tags = clean_tags h.tags;
  folder = folder_text (folder_text h.folder);
}

abbrev NoQuote : Text → Type 0
NoQuote v = any (λ c. c == b'"') v ≡ false

pub word-quote : (o : Option Text) → OptionIs IsWord o → OptionIs NoQuote o
word-quote none h = tt
word-quote (some v) h = h.0.no_quote

pub plain-quote : (o : Option Text) → OptionIs IsPlain o → OptionIs NoQuote o
plain-quote none h = tt
plain-quote (some v) h = h.no_quote

dequote-trim : (v : Text) → NoQuote v → is_nil (trim v) ≡ false → dequote (trim v) ≡ trim v
dequote-trim v q e =
    dequote-plain (trim v) (any-trim (λ c. c == b'"') v q) (trim-IsTrimmed v e).both

first_value-full : (w : Text) → is_nil w ≡ false → first_value none w ≡ some w
first_value-full w e = rw e refl

is_nil-eq : (s : Text) → is_nil s ≡ true → s ≡ []
is_nil-eq [] h = refl
is_nil-eq (c ∷ s) h = cc

folder_text-nil : folder_text [] ≡ []
unfolding trim_start_if trim_end_if
folder_text-nil = refl

show_u16-IsTrimmed : (p : ℕ) → p < 0x1_0000 → IsTrimmed (show_u16 p)
show_u16-IsTrimmed p h = record {
  given = show_u16-full p;
  at_end = trim_end_if-free is_whitespace (show_u16 p) (show_u16-word p h);
  both = trim-word (show_u16 p) (show_u16-word p h);
}

module _ (hosts : List SshHost) (h : SshHost) (ls : List Text) where
  pub read-hostname :
      (o : Option Text)
      → OptionIs NoQuote o
      → read_lines
          (reading hosts (record h { hostname = none }))
          (value_line (codes "    HostName ") o ++ ls)
        ≡ read_lines (reading hosts (record h { hostname = trimmed o })) ls
  unfolding read_lines
  read-hostname none q = refl
  read-hostname (some v) q = elim (Bool-cases (is_nil (trim v))) [
    | inl e ↦ rw e refl
    | inr e ↦ rw e (
        ap (λ r. read_lines r ls)
          (step-hostname hosts (record h { hostname = none }) (trim v) (trim v) (trim-IsTrimmed v e)
              (dequote-trim v q e)
            ∙ ap (λ o. reading hosts (record h { hostname = o })) (first_value-full (trim v) e)))
  ]

  pub read-user :
      (o : Option Text)
      → OptionIs NoQuote o
      → read_lines
          (reading hosts (record h { user = none }))
          (value_line (codes "    User ") o ++ ls)
        ≡ read_lines (reading hosts (record h { user = trimmed o })) ls
  unfolding read_lines
  read-user none q = refl
  read-user (some v) q = elim (Bool-cases (is_nil (trim v))) [
    | inl e ↦ rw e refl
    | inr e ↦ rw e (
        ap (λ r. read_lines r ls)
          (step-user hosts (record h { user = none }) (trim v) (trim v) (trim-IsTrimmed v e)
              (dequote-trim v q e)
            ∙ ap (λ o. reading hosts (record h { user = o })) (first_value-full (trim v) e)))
  ]

  pub read-jump :
      (o : Option Text)
      → OptionIs NoQuote o
      → read_lines
          (reading hosts (record h { proxy_jump = none }))
          (value_line (codes "    ProxyJump ") o ++ ls)
        ≡ read_lines (reading hosts (record h { proxy_jump = trimmed o })) ls
  unfolding read_lines
  read-jump none q = refl
  read-jump (some v) q = elim (Bool-cases (is_nil (trim v))) [
    | inl e ↦ rw e refl
    | inr e ↦ rw e (
        ap (λ r. read_lines r ls)
          (step-jump hosts (record h { proxy_jump = none }) (trim v) (trim v) (trim-IsTrimmed v e)
              (dequote-trim v q e)
            ∙ ap (λ o. reading hosts (record h { proxy_jump = o })) (first_value-full (trim v) e)))
  ]

  pub read-identity :
      (o : Option Text)
      → OptionIs NoQuote o
      → read_lines (reading hosts (record h { identity_file = none })) (identity_line o ++ ls)
        ≡ read_lines (reading hosts (record h { identity_file = trimmed o })) ls
  unfolding read_lines
  read-identity none q = refl
  read-identity (some v) q = elim (Bool-cases (is_nil (trim v))) [
    | inl e ↦ rw e refl
    | inr e ↦ rw e (
        ap (λ r. read_lines r ls)
          (step-identity hosts (record h { identity_file = none }) (quoted (trim v)) (trim v)
              (quoted-IsTrimmed (trim v) (trim-IsTrimmed v e))
              (dequote-quoted (trim v) (trim-IsTrimmed v e) (any-trim (λ c. c == b'"') v q))
            ∙ ap (λ o. reading hosts (record h { identity_file = o }))
                (first_value-full (trim v) e)))
  ]

  pub read-port :
      (o : Option ℕ)
      → IsPort o
      → read_lines (reading hosts (record h { port = none })) (port_line o ++ ls)
        ≡ read_lines (reading hosts (record h { port = written_port o })) ls
  unfolding read_lines
  read-port none q = refl
  read-port (some p) q = elim (Bool-cases (p == 22)) [
    | inl e ↦ rw e refl
    | inr e ↦ rw e (
        ap (λ r. read_lines r ls)
          (step-port hosts (record h { port = none }) (show_u16 p) (show_u16-IsTrimmed p q)
            ∙ ap (λ o. reading hosts (record h { port = nonzero o })) (parse_u16-show_u16 p q)))
  ]

  read-clean_tags :
      (l : List Text)
      → All IsTag l
      → read_lines
          (reading hosts (record h { tags = [] }))
          ((if is_nil l then [] else (codes "    #Tags: " ++ join (codes ", ") l) ∷ []) ++ ls)
        ≡ read_lines (reading hosts (record h { tags = l })) ls
  unfolding read_lines
  read-clean_tags [] q = refl
  read-clean_tags (t ∷ l) q =
      ap (λ r. read_lines r ls) (step-tags hosts (record h { tags = [] }) t l q refl)

  pub read-tags :
      (tags : List Text)
      → CommaFree tags
      → read_lines (reading hosts (record h { tags = [] })) (tags_line tags ++ ls)
        ≡ read_lines (reading hosts (record h { tags = clean_tags tags })) ls
  read-tags tags q = read-clean_tags (clean_tags tags) (clean_tags-IsTag tags q)

  pub read-folder :
      (f : Text)
      → read_lines (reading hosts (record h { folder = [] })) (folder_line f ++ ls)
        ≡ read_lines (reading hosts (record h { folder = folder_text (folder_text f) })) ls
  unfolding read_lines
  read-folder f = elim (Bool-cases (is_nil (folder_text f))) [
    | inl e ↦ rw e (
        ap (λ f. read_lines (reading hosts (record h { folder = f })) ls)
          (sym (ap folder_text (is_nil-eq (folder_text f) e) ∙ folder_text-nil)))
    | inr e ↦ rw e (
        ap (λ r. read_lines r ls)
          (step-folder hosts (record h { folder = [] }) (folder_text f) refl))
  ]

pub step-alias :
    (r : Reader) (a : Text)
    → IsTrimmed a
    → step r (codes "Host " ++ a) ≡ reading (close r) (new_host a)
unfolding on_line directive key_value split_once strip_prefix lower is_whitespace
step-alias r a t =
    ap (on_line r) (
      ap (trim_end_if is_whitespace)
        (trim_start_if-cons is_whitespace b'H' (codes "ost " ++ a) (unfold is_whitespace in refl))
      ∙ (trim_end_if-append is_whitespace (codes "Host ") a (rw t.at_end t.given)
          ∙ ap (λ x. codes "Host " ++ x) t.at_end))
    ∙ ap (λ x. reading (close r) (new_host x)) t.both
