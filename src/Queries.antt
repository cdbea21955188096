-- ===== src/Queries.antt =====
-- DB_Thread and RetrieveResultLogin of Server/CDBConnector.cpp. The database is an argument: what its
-- statements answer. A result of ExcuteStatementDirect is SQL_EXUTE_OK (1) or SQL_EXUTE_FAIL (0).
pub mod Drain
pub mod Connector
pub mod Accounts
mod Examples
use lh_server.Prelude.{
  ℕ, zero, suc, Bool, true, false, List, [], ◌∷◌, ◌++◌, Option, none, some, ◌==◌, if◌then◌else◌, ℤ,
  pos,
}
use lh_server.Protocol.{Packet}
use lh_server.World.{
  World, Env, Player, DbEvent, EventId, ev_login, ev_sign, ev_update, set_player, with_player,
}
use lh_server.World.Send.{send}
use lh_server.Player.Motion.{initialize}

-- The columns of the row that Login_User selects.
pub record Row : Type 0 where
  pub atk : ℤ
  pub hp : ℤ
  pub mp : ℤ
  pub level : ℤ
  pub exp : ℤ
  pub obj_type : ℤ

-- `EXEC Login_User`, `EXEC Sign_User`: the result of the statement, and the row that SQLFetch gives.
pub record Dbms : Type 0 where
  pub login_user : List ℕ → List ℕ → ℕ
  pub fetch : List ℕ → List ℕ → Option Row
  pub sign_user : List ℕ → List ℕ → ℕ

-- The world, and the statements `EXEC Update_User` that were sent, newest first.
pub record Desk : Type 0 where
  pub world : World
  pub updates : List (List ℕ × ℤ)

-- g_player[uid], made new if it is NULL; `memory` is what the new object stands on.
unfoldable pub find_or_new : Player → ℕ → World → Player
find_or_new memory uid w = elim (w.players uid) [ none ↦ memory | some p ↦ p ]

-- `RetrieveResultLogin` on the row, and the packet that answers. In_Game is 2.
unfoldable pub retrieve : Env → ℕ → Player → Option Row → World → World
retrieve env uid p none w = send uid Packet.login_fail (set_player w uid p)
retrieve env uid p (some row) w = send uid (Packet.login_ok (pos uid) []) (
    set_player w uid (record (initialize env p row.hp row.obj_type row.exp row.level row.mp) {
      id = uid;
      state = pos 2;
    }))

unfoldable pub log_in : Env → Dbms → Player → DbEvent → World → World
log_in env db memory ev w =
    let p : Player = record (find_or_new memory ev.user_id w) {
      name = ev.name;
      m_pass = ev.pass;
    } in
    if db.login_user ev.name ev.pass == 0
    then send ev.user_id Packet.login_fail (set_player w ev.user_id p)
    else retrieve env ev.user_id p (db.fetch ev.name ev.pass) w

-- The test is against SQL_SUCCESS, which is 0; the new event has no password.
unfoldable pub sign : Dbms → DbEvent → List DbEvent
sign db ev =
    if db.sign_user ev.name ev.pass == 0
    then record { user_id = ev.user_id; ev_id = ev_login; name = ev.name; pass = [] } ∷ []
    else []

unfoldable pub save : DbEvent → Desk → Desk
save ev d = elim (d.world.players ev.user_id) [
  | none ↦ record d { world = lh_server.World.crash d.world }
  | some p ↦ record d { updates = (ev.name, p.exp) ∷ d.updates }
]

-- One event of the queue, which has left it.
unfoldable pub answer : Env → Dbms → Player → DbEvent → Desk → Desk
answer env db memory ev d = elim ev.ev_id [
  | ev_login ↦ record d { world = log_in env db memory ev d.world }
  | ev_sign ↦ record d { world = record d.world { queries = d.world.queries ++ sign db ev } }
  | ev_update ↦ save ev d
  | _ ↦ d
]

-- The inner loop of the thread, on fuel.
unfoldable pub run_queries : ℕ → Env → Dbms → Player → Desk → Desk
run_queries zero env db memory d = d
run_queries (suc fuel) env db memory d = elim d.world.queries [
  | [] ↦ d
  | ev ∷ evs ↦
      run_queries fuel env db memory
        (answer env db memory ev (record d { world = record d.world { queries = evs } }))
]
