-- ===== src/Config/Edit/Update/Whole.antt =====
-- `update_host` (crates/avash/src/lib.rs) on a whole file.
use avash.Base.{
  false, not, ◌||◌, ◌&&◌, ◌≡◌, refl, ◌∙◌, Option, List, [], ◌∷◌, ◌++◌, arith, if◌then◌else◌, any,
}
use avash.Base.Text.{Text, trim, trim_end, lines, eq_ignore_case}
use avash.Config.Host.{SshHost, ok, err, content}
use avash.Config.Validate.{validate_host}
use avash.Config.Render.{unlines, render_host_block}
use avash.Config.Edit.{is_declared, not_editable, written}
use avash.Config.Edit.Sections.{opens, is_host, sections, rewrite_parts}
use avash.Config.Edit.Update.{Updater, start, keep_or_skip, step, update_lines, update_host}
use avash.Config.Edit.Update.Keeps.{rewritten, rest}

step-replaced :
    (block alias l : Text) (u : Updater)
    → (step block alias u l).replaced ≡ (opens alias l || u.replaced)
unfolding step keep_or_skip opens is_host
step-replaced block alias l u = ground arith

update_lines-replaced :
    (block alias : Text) (ls : List Text) (u : Updater)
    → (update_lines block alias u ls).replaced ≡ (u.replaced || any (opens alias) ls)
unfolding update_lines
update_lines-replaced block alias [] u = ground arith
update_lines-replaced block alias (l ∷ ls) u =
    update_lines-replaced block alias ls (step block alias u l)
    ∙ rw (step-replaced block alias l u) (ground arith)

-- The lines of the file, with the section of the alias written anew.
abbrev pub updated_lines : Text → Text → List Text → List Text
updated_lines block alias ls =
    (sections ls).preamble ++ rewrite_parts (rewritten block alias) (sections ls).parts

module _ (all_hosts : Option (List SshHost)) (text old : Text) (host : SshHost)
    (valid : validate_host host ≡ ok tt)
    (free : (not (eq_ignore_case host.alias (trim old))
        && is_declared (trim host.alias) all_hosts text)
      ≡ false) where
  -- `update_host` with its guards passed.
  update_host-run : update_host all_hosts (content text) old host ≡ (
      if (update_lines (trim_end (render_host_block host)) (trim old) start (lines text)).replaced
      then ok (
          written text (
            unlines
              (update_lines (trim_end (render_host_block host)) (trim old) start (lines text)).out))
      else err (not_editable text (trim old)))
  unfolding update_host
  update_host-run = rw valid (rw free)

  -- On a readable file, a valid host and an alias that is free, `update_host` fails exactly if no
  -- `Host` line declares the old alias alone. Otherwise it writes what `written` makes of these
  -- lines, its treatment of blank lines and line ends: those of every other section as they are; in
  -- the section of the old alias the block written anew, and behind it the directives that Avash
  -- does not write, the comments between them, and the free lines at the end.
  pub update_host-updated_lines : update_host all_hosts (content text) old host ≡ (
      if any (opens (trim old)) (lines text)
      then ok (
          written text
            (unlines (updated_lines (trim_end (render_host_block host)) (trim old) (lines text))))
      else err (not_editable text (trim old)))
  update_host-updated_lines =
      update_host-run
      ∙ rw (
        update_lines-replaced (trim_end (render_host_block host)) (trim old) (lines text) start,
        rest (trim_end (render_host_block host)) (trim old) (lines text) start (λ _. (refl, refl)),
      )
