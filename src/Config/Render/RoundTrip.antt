-- ===== src/Config/Render/RoundTrip.antt =====
-- `render_host_block` and then `blocs_bruts` (both in crates/avash/src/lib.rs).
use avash.Base.{◌≡◌, sym, ap, ◌∙◌, [], ◌∷◌, ◌++◌, append_nil}
use avash.Base.Text.{codes, trim}
use avash.Config.Host.{SshHost, new_host, ok}
use avash.Config.Blocks.{Reader, start, close, read_lines, raw_blocks}
use avash.Config.Validate.{validate_host}
use avash.Config.Validate.Accepts.{IsAccepted, validate_host-IsAccepted}
use avash.Config.Render.{
  value_line, port_line, identity_line, clean_tags, tags_line, folder_line, host_lines,
  render_host_block,
}
use avash.Config.Render.Lines.{IsPort, render_host_block-host_lines}
use avash.Config.Render.Fields.{trim-IsTrimmed, reading}
use avash.Config.Render.Comments.{CommaFree}
use avash.Config.Render.ReadBack.{
  plain-quote, read-folder, read-hostname, read-identity, read-jump, read-port, read-tags,
  read-user, read_back, step-alias, trimmed, word-quote, written_port,
}

-- A reader that reads the block of a host comes to hold it as it is read back.
pub read_lines-host_lines :
    (r : Reader) (h : SshHost)
    → IsAccepted h
    → IsPort h.port
    → CommaFree h.tags
    → read_lines r (host_lines h) ≡ reading (close r) (read_back h)
unfolding host_lines read_lines
read_lines-host_lines r h a p c =
    let hosts = close r in
    let h1 = new_host (trim h.alias) in
    let h2 = record h1 { hostname = trimmed h.hostname } in
    let h3 = record h2 { user = trimmed h.user } in
    let h4 = record h3 { port = written_port h.port } in
    let h5 = record h4 { identity_file = trimmed h.identity_file } in
    let h6 = record h5 { proxy_jump = trimmed h.proxy_jump } in
    let h7 = record h6 { tags = clean_tags h.tags } in
    let l7 = folder_line h.folder in
    let l6 = tags_line h.tags ++ l7 in
    let l5 = value_line (codes "    ProxyJump ") h.proxy_jump ++ l6 in
    let l4 = identity_line h.identity_file ++ l5 in
    let l3 = port_line h.port ++ l4 in
    let l2 = value_line (codes "    User ") h.user ++ l3 in
    let l1 = value_line (codes "    HostName ") h.hostname ++ l2 in
    ap (λ r. read_lines r l1) (step-alias r (trim h.alias) (trim-IsTrimmed h.alias a.alias_given))
    ∙ (read-hostname hosts h1 l2 h.hostname (word-quote h.hostname a.hostname_word)
        ∙ (read-user hosts h2 l3 h.user (word-quote h.user a.user_word)
            ∙ (read-port hosts h3 l4 h.port p
                ∙ (read-identity hosts h4 l5 h.identity_file
                      (plain-quote h.identity_file a.identity_plain)
                    ∙ (read-jump hosts h5 l6 h.proxy_jump (plain-quote h.proxy_jump a.jump_plain)
                        ∙ (read-tags hosts h6 l7 h.tags c
                            ∙ (ap (read_lines (reading hosts h7)) (sym (append_nil l7))
                                ∙ read-folder hosts h7 [] h.folder)))))))

-- The block that is written for an accepted host, whose port has 16 bits and whose tags hold no
-- comma, is read as one host: its values trimmed, without a port 22 or 0, the empty values and
-- the empty tags, its folder without its outer slashes.
pub raw_blocks-render_host_block :
    (h : SshHost)
    → validate_host h ≡ ok tt
    → IsPort h.port
    → CommaFree h.tags
    → raw_blocks (render_host_block h) ≡ read_back h ∷ []
unfolding raw_blocks close
raw_blocks-render_host_block h e p c =
    ap (λ l. close (read_lines start l)) (render_host_block-host_lines h e p)
    ∙ ap close (read_lines-host_lines start h (validate_host-IsAccepted h e) p c)
