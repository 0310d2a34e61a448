-- ===== src/Config/Tests.antt =====
-- The theorems on the configuration files (crates/avash/src/lib.rs), applied to small ones.
use avash.Base.{
  false, not, ◌&&◌, ◌≡◌, refl, none, some, [], ◌∷◌, ◌++◌, arith, ◌==◌, if◌then◌else◌, is_nil, any,
  All,
}
use avash.Base.Text.{
  Text, codes, as_bytes, lines, lines_from, trim, trim_end, trim_start_if, trim_end_if,
  trim_matches, eq_ignore_case, split_whitespace, split_once, strip_prefix, lower, is_whitespace,
  is_control, starts_with,
}
use avash.Base.Replace.{contains}
use avash.Config.Host.{SshHost, content, ok, err}
use avash.Config.Glob.{scan_all}
use avash.Config.Glob.Spec.{Matches}
use avash.Config.Glob.Decides.{Answers, NoStar, scan_all-Answers, scan_all-star_name}
use avash.Config.Blocks.{raw_blocks}
use avash.Config.Resolve.{resolve_host_in}
use avash.Config.Resolve.Defaults.{literal, resolved, resolve_host_in-resolved}
use avash.Config.Hops.{split_proxy_jump}
use avash.Config.Hops.Clean.{IsCleanHop, split_proxy_jump-IsCleanHop}
use avash.Config.Validate.{find_control, validate_host, validate_config_value}
use avash.Config.Validate.Accepts.{IsAccepted, validate_host-IsAccepted}
use avash.Config.Render.{unlines, render_host_block, host_lines}
use avash.Config.Render.Lines.{render_host_block-host_lines}
use avash.Config.Render.RoundTrip.{raw_blocks-render_host_block}
use avash.Config.Render.ReadBack.{read_back}
use avash.Config.Edit.{is_declared, is_crlf, not_editable, three_feeds, with_line_ends, written}
use avash.Config.Edit.Sections.{opens}
use avash.Config.Edit.Blanks.{written-blank_lines}
use avash.Config.Edit.Append.{appended_block, append_host}
use avash.Config.Edit.Append.Reads.{append_host-raw_blocks}
use avash.Config.Edit.Remove.{remove_host}
use avash.Config.Edit.Remove.Keeps.{kept_lines, remove_host-kept_lines}
use avash.Config.Edit.Update.{update_host}
use avash.Config.Edit.Update.Whole.{updated_lines, update_host-updated_lines}
use avash.Config.Edit.Folder.{set_host_folder_at}
use avash.Config.Edit.Folder.Keeps.{unmarked, refiled_lines, set_host_folder_at-refiled_lines}
use avash.Config.Edit.Folder.Marks.{file_lines-unmarked}
use avash.Config.Edit.Folder.{start, file_lines}

abbrev web : SshHost
web = record {
  alias = codes "web";
  hostname = some (codes "web.lan");
  user = some (codes "bob");
  port = some 2222;
  identity_file = some (codes "my key");
  proxy_jump = none;
  tags = codes "prod" ∷ codes " " ∷ codes " lab" ∷ [];
  folder = codes "/site/";
}

web-valid : validate_host web ≡ ok tt
unfolding validate_host trim_end_if trim_start_if is_whitespace
web-valid = refl

web-commas : All (λ t. any (λ c. c == b',') t ≡ false) web.tags
web-commas = (refl, (refl, (refl, tt)))

validate_host-IsAccepted_example : IsAccepted web
validate_host-IsAccepted_example = validate_host-IsAccepted web web-valid

render_host_block-host_lines_example : lines (render_host_block web) ≡ host_lines web
render_host_block-host_lines_example = render_host_block-host_lines web web-valid (omega arith)

raw_blocks-render_host_block_example : raw_blocks (render_host_block web) ≡ read_back web ∷ []
raw_blocks-render_host_block_example =
    raw_blocks-render_host_block web web-valid (omega arith) web-commas

abbrev old_file : Text
old_file =
    codes
      "Host a b\n  User root\nHost db\n  Port 23\n  ForwardAgent yes\n# next\nHost *\n  User bob\n"

appended :
    append_host (some []) (content old_file) web ≡ ok (old_file ++ appended_block old_file web)
unfolding append_host trim_end_if trim_start_if is_whitespace
appended = refl

append_host-raw_blocks_example :
    raw_blocks (old_file ++ appended_block old_file web) ≡ raw_blocks old_file ++ read_back web ∷ []
append_host-raw_blocks_example =
    append_host-raw_blocks (some []) (content old_file) old_file
      (old_file ++ appended_block old_file web) web refl appended (omega arith) web-commas

db-given : is_nil (trim (codes "db")) ≡ false
unfolding trim_end_if trim_start_if is_whitespace
db-given = refl

remove_host-kept_lines_example : remove_host (content old_file) (codes "db") ≡ (
    if any (opens (trim (codes "db"))) (lines old_file)
    then ok (written old_file (unlines (kept_lines (trim (codes "db")) (lines old_file))))
    else err (not_editable old_file (trim (codes "db"))))
remove_host-kept_lines_example = remove_host-kept_lines old_file (codes "db") db-given

-- The file behind the removal.
removed :
    remove_host (content old_file) (codes " db")
    ≡ ok (codes "Host a b\n  User root\n# next\nHost *\n  User bob\n")
unfolding remove_host trim_end_if trim_start_if is_whitespace lines_from lower split_once
    split_whitespace strip_prefix
removed = refl

web-free :
    (not (eq_ignore_case web.alias (trim (codes "db")))
      && is_declared (trim web.alias) (some []) old_file)
    ≡ false
unfolding is_declared trim_end_if trim_start_if is_whitespace lower
web-free = refl

update_host-updated_lines_example : update_host (some []) (content old_file) (codes "db") web ≡ (
    if any (opens (trim (codes "db"))) (lines old_file)
    then ok (
        written old_file (
          unlines (
            updated_lines (trim_end (render_host_block web)) (trim (codes "db")) (lines old_file))))
    else err (not_editable old_file (trim (codes "db"))))
update_host-updated_lines_example =
    update_host-updated_lines (some []) old_file (codes "db") web web-valid web-free

folder-valid :
    validate_config_value (codes "Folder") (trim_matches b'/' (trim (codes "lab/"))) ≡ ok tt
unfolding validate_config_value find_control is_control trim_end_if trim_start_if is_whitespace
folder-valid = refl

set_host_folder_at-refiled_lines_example :
    set_host_folder_at (content old_file) (codes "db") (codes "lab/") ≡ (
      if any (opens (trim (codes "db"))) (lines old_file)
      then ok (
          with_line_ends old_file (
            unlines (
              refiled_lines
                (trim (codes "db"))
                (trim_matches b'/' (trim (codes "lab/")))
                (lines old_file))))
      else err (not_editable old_file (trim (codes "db"))))
set_host_folder_at-refiled_lines_example =
    set_host_folder_at-refiled_lines old_file (codes "db") (codes "lab/") folder-valid

file_lines-unmarked_example :
    unmarked (file_lines (codes "db") (codes "lab") start (lines old_file)).out
    ≡ unmarked (lines old_file)
file_lines-unmarked_example = file_lines-unmarked (codes "db") (codes "lab") (lines old_file)

no_crlf : is_crlf old_file ≡ false
unfolding is_crlf
no_crlf = refl

written-blank_lines_example :
    (contains three_feeds (written old_file (codes "\n\n\n\n\na")) ≡ false)
    × (starts_with (codes "\n") (written old_file (codes "\n\n\n\n\na")) ≡ false)
written-blank_lines_example = written-blank_lines old_file (codes "\n\n\n\n\na") no_crlf

resolve_host_in-resolved_example : resolve_host_in old_file (codes "db") ≡ (
    if is_nil (literal (codes "db") (raw_blocks old_file))
    then none
    else some (resolved (codes "db") (raw_blocks old_file)))
resolve_host_in-resolved_example = resolve_host_in-resolved old_file (codes "db")

web-NoStar : NoStar (as_bytes (codes "web"))
unfolding as_bytes
web-NoStar = (ground arith, (ground arith, (ground arith, tt)))

scan_all-Answers_example :
    Answers
      (Matches (as_bytes (codes "w*b")) (as_bytes (codes "web")))
      (scan_all (as_bytes (codes "w*b")) (as_bytes (codes "web")))
scan_all-Answers_example =
    scan_all-Answers (as_bytes (codes "w*b")) (as_bytes (codes "web")) web-NoStar

scan_all-star_name_example :
    (scan_all (b'*' ∷ []) (b'*' ∷ b'a' ∷ []) ≡ some false) × Matches (b'*' ∷ []) (b'*' ∷ b'a' ∷ [])
scan_all-star_name_example = scan_all-star_name b'a' []

split_proxy_jump-IsCleanHop_example :
    All IsCleanHop (split_proxy_jump (codes "bob@[fe80::1]:22, none,, gate:0, @a:70000"))
split_proxy_jump-IsCleanHop_example =
    split_proxy_jump-IsCleanHop (codes "bob@[fe80::1]:22, none,, gate:0, @a:70000")
