-- ===== src/Tunnel/Tests.antt =====
-- The theorems on tunnels (crates/avash/src/tunnel.rs), applied to small ones.
use avash.Base.{◌≡◌, refl, Option, some, [], ◌∷◌}
use avash.Base.Text.{Text, Bytes, codes}
use avash.Tunnel.{TunnelDef, local, dynamic, validate, accepted, asked, socks5_handshake}
use avash.Tunnel.Socks.{request, socks5_handshake-request}
use avash.Tunnel.Store.{IsUpserted, upsert_def_in-find}

abbrev proxy : TunnelDef
proxy = record {
  id = codes "t-1";
  alias = codes "web";
  kind = dynamic;
  bind_port = 1080;
  target_host = [];
  target_port = 0;
  name = [];
}

abbrev database : TunnelDef
database = record {
  id = codes "t-2";
  alias = codes "web";
  kind = local;
  bind_port = 5432;
  target_host = codes "db";
  target_port = 5432;
  name = codes "base";
}

-- Names of ASCII letters, and no text for an address.
abbrev no_text : Bytes → Text
no_text a = []

abbrev ascii : Bytes → Option Text
ascii name = some name

socks5_handshake-request_example :
    socks5_handshake no_text no_text ascii (request (2 ∷ 0 ∷ []) (codes "db.lan") 5432 (7 ∷ []))
    ≡ asked accepted (codes "db.lan") 5432 (7 ∷ [])
socks5_handshake-request_example =
    socks5_handshake-request no_text no_text ascii (2 ∷ 0 ∷ []) (codes "db.lan") (codes "db.lan")
      5432 (7 ∷ []) refl refl

upsert_def_in-find_example : IsUpserted (proxy ∷ []) database (validate database)
upsert_def_in-find_example = upsert_def_in-find (proxy ∷ []) database
