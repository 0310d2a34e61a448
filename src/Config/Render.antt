-- ===== src/Config/Render.antt =====
-- crates/avash/src/lib.rs: `render_host_block`. A `writeln!` is a line, written with its line feed.
pub mod Lines
pub mod Fields
pub mod Comments
pub mod ReadBack
pub mod RoundTrip
use avash.Base.{
  ℕ, Bool, true, false, not, Option, none, some, List, [], ◌∷◌, ◌++◌, map, ◌==◌, if◌then◌else◌,
  is_nil, any,
}
use avash.Base.Text.{Text, codes, is_whitespace, trim, trim_matches, keep_if, join, show_u16}
use avash.Config.Host.{SshHost}

-- The text of lines that are each followed by a line feed.
unfoldable pub unlines : List Text → Text
unlines [] = []
unlines (l ∷ r) = l ++ (b'\n' ∷ unlines r)

-- A directive whose value is written trimmed, and not at all if that leaves nothing.
abbrev pub value_line : Text → Option Text → List Text
value_line key none = []
value_line key (some v) = if is_nil (trim v) then [] else (key ++ trim v) ∷ []

abbrev pub port_line : Option ℕ → List Text
port_line none = []
port_line (some p) = if p == 22 then [] else (codes "    Port " ++ show_u16 p) ∷ []

-- A path that holds a space is put in quotes.
unfoldable pub quoted : Text → Text
quoted v = if any is_whitespace v then b'"' ∷ (v ++ b'"' ∷ []) else v

abbrev pub identity_line : Option Text → List Text
identity_line none = []
identity_line (some v) =
    if is_nil (trim v) then [] else (codes "    IdentityFile " ++ quoted (trim v)) ∷ []

abbrev pub clean_tags : List Text → List Text
clean_tags tags = keep_if (λ t. not (is_nil t)) (map trim tags)

abbrev pub tags_line : List Text → List Text
tags_line tags =
    if is_nil (clean_tags tags)
    then []
    else (codes "    #Tags: " ++ join (codes ", ") (clean_tags tags)) ∷ []

abbrev pub folder_line : Text → List Text
folder_line folder =
    let f = trim_matches b'/' (trim folder) in
    if is_nil f then [] else (codes "    #Folder: " ++ f) ∷ []

unfoldable pub host_lines : SshHost → List Text
host_lines host =
    (codes "Host " ++ trim host.alias)
    ∷ (value_line (codes "    HostName ") host.hostname
        ++ (value_line (codes "    User ") host.user
            ++ (port_line host.port
                ++ (identity_line host.identity_file
                    ++ (value_line (codes "    ProxyJump ") host.proxy_jump
                        ++ (tags_line host.tags ++ folder_line host.folder))))))

unfoldable pub render_host_block : SshHost → Text
unfolding quoted keep_if join show_u16 unlines host_lines
render_host_block host = unlines (host_lines host)
