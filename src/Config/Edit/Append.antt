-- ===== src/Config/Edit/Append.antt =====
-- crates/avash/src/lib.rs: `append_host`, as the file that it leaves.
pub mod Joined
pub mod Reads
use avash.Base.{not, ◌&&◌, ◌||◌, Option, List, [], ◌++◌, if◌then◌else◌, is_nil}
use avash.Base.Text.{Text, codes, trim, ends_with, replace_char}
use avash.Config.Host.{
  SshHost, Result, ok, err, FileRead, absent, unreadable_file, content, unreadable,
  already_declared, ◌>>=◌, ◌>>◌,
}
use avash.Config.Validate.{validate_host}
use avash.Config.Render.{render_host_block}
use avash.Config.Edit.{is_crlf, is_declared}

-- Only an absent file stands for an empty text.
abbrev pub existing : FileRead → Result Text
existing absent = ok []
existing unreadable_file = err unreadable
existing (content t) = ok t

-- What parts the new block from the text before it.
unfoldable pub separator : Text → Text
unfolding ends_with
separator text =
    let ends_blank = ends_with (codes "\n\n") text || ends_with (codes "\r\n\r\n") text in
    if not (is_nil text) && not ends_blank
    then (if not (ends_with (codes "\n") text) then codes "\n" else []) ++ codes "\n"
    else []

unfoldable pub appended_block : Text → SshHost → Text
unfolding separator render_host_block is_crlf replace_char
appended_block text host =
    let block = separator text ++ render_host_block host in
    if is_crlf text then replace_char b'\n' (codes "\r\n") block else block

unfoldable pub append_host : Option (List SshHost) → FileRead → SshHost → Result Text
unfolding validate_host is_declared appended_block
append_host all_hosts file host = do
  validate_host host
  text ← existing file
  if is_declared (trim host.alias) all_hosts text
      then err (already_declared (trim host.alias))
      else ok (text ++ appended_block text host)
