-- ===== src/Dispatch/Own.antt =====
-- What a client's packets may change of the players.
use lh_server.Prelude.{Bool, true, false}
use lh_server.World.{World}
use lh_server.Dispatch.Requests.{Request, cs_login}

abbrev pub is_login : Request → Bool
is_login (cs_login name pass character) = true
is_login _ = false
