-- ===== src/Lib.antt =====
-- Avash: the connection manager's own logic
--
-- Avash is a manager of SSH, SFTP, tunnel and remote desktop sessions. This library models the parts of it that
-- decide on data rather than move it: what the SSH configuration file says, how the program edits that file, the
-- lists it stores, what it lets through from a remote machine or a SOCKS client, and how the remote desktop
-- sidecar cuts, stores and sends the screen and receives the files of the clipboard, and
-- how it answers for the shared folder. Each file opens with the code it is about.
--
-- Parts, and the code each one models:
--   Base         text as lists of code points, `trim`, `lines`, `replace`, `split`, decimal numbers: what the
--                code uses of Rust's standard library, with the lemmas that the other parts share.
--   Config       crates/avash/src/lib.rs. Host has SshHost and the results. Glob is glob_match; Blocks is
--                blocs_bruts and parse_config_str, a fold of `step` over the lines; Resolve is bloc_s_applique and
--                resoudre_hote_dans; Hops is split_proxy_jump; Validate is the validate_* family; Render is
--                render_host_block; Edit and its children are append_host, remove_host, update_host and
--                set_host_folder_at. An edit is a function from the text read to the result: the text written
--                or the error. The reader takes back what the printer writes, the edits call the printer and the
--                tests of Edit, and resolution starts from the reader's blocks.
--   Folders      crates/avash/src/folders.rs: the registry of folder paths, normalised and kept sorted.
--   Snippet      crates/avash/src/snippet.rs: variables of a command, the text pasted in a terminal, the store.
--   Ssh          crates/avash/src/ssh.rs: the verdict on a host key, the marked lines of known_hosts, and the
--                cleaning of a text that comes from the remote machine.
--   Tunnel       crates/avash/src/tunnel.rs: definitions of tunnels, and the SOCKS5 handshake as a reader of the
--                bytes a client sends.
--   Rdp          rdp-sidecar/src/trames.rs (Dirty: ajouter_rect; Frame: clamp_a_l_image, frame_msg and frames_msg;
--                Screen: nouvelle_taille), rdp-sidecar/src/surface.rs (Surface, and Cache for the bitmap cache),
--                rdp-sidecar/src/progressif.rs (Progressive: Bits are the readers, Refine is affiner, Decoder is
--                Decodeur and reporter, Region is decoder_region) and rdp-sidecar/src/egfx.rs (Egfx: Pdu cuts a
--                segment, State is Egfx with publier, Commands draw, Handle is traiter and process). The graphics
--                channel draws on surfaces, keeps bitmaps in the cache and gives the progressive stream to the
--                decoder. What ironrdp decodes is a record of functions (Codec, Codecs), which may fail at will.
--                Trust is rdp-sidecar/src/empreintes.rs: the fingerprints of the servers and the verdict on one.
--   Files        rdp-sidecar/src/fichiers.rs: Names has the names that the server announces and chemin_local; Disk
--                the calls of the file system, a record of functions on a world, and Places what is made of them;
--                Requests, Reception, Opening and Receive the reception of files, one handler each; Offer the files
--                that are served.
--   Drive        rdp-sidecar/src/disque.rs: Host has the statuses and the calls of the file system; Space is
--                espace_disque, which Files asks too, and Facts what is said of a file; Resolve is resoudre, Request
--                what is asked of an opening, Open is ouvrir, enregistrer and fermer, Data lire_bloc and ecrire_bloc,
--                Directory entree_suivante, Query informations_de and volume_de, Modify modifier_selon, and Handle is
--                traiter, which takes each request to its own function. Its pattern matching is the loop of
--                Config.Glob.
--
-- Text is a list of code points over the native numbers; the bytes of a frame or of a surface are lists of numbers.
-- A variable that the source mutates in a loop is a field of a record (Reader, Remover, Updater, Filer) that the
-- step function takes and returns. A slice or an index out of range, which
-- panics in the source, is `none`.
--
-- Fuel: glob_match, the removal of markers, the rewriting of blank lines, the fusion of the damaged zones and the
-- removal of paste marks run on fuel. A turn of the last four shortens a text or a list by at least one, and their
-- fuel is its length or more. glob_match has (n + 1) * (p + 1) turns for a name of n and a pattern of p bytes:
-- the place where the last star starts again never goes back. The cutting of a segment into messages has the
-- segment's length and one for fuel, and each message takes eight bytes or more; the start of the next file has the number of
-- the files that are left; a read of a file has the room in the buffer, and each turn takes a byte or more;
-- the search of a number for an opened file tries two numbers more than there are opened files.
--
-- Not modelled: the file system (the reading, the backup and the atomic writing of the files, Include), russh,
-- ironrdp and vnc-rs and everything that runs on them (sessions, SFTP transfers, forwarding tasks), the system
-- keyring, the Tauri application and the web interface. The clock and fresh identifiers are arguments.
pub mod Base
pub mod Config
pub mod Folders
pub mod Snippet
pub mod Ssh
pub mod Tunnel
pub mod Rdp
pub mod Files
pub mod Drive
