-- ===== src/Queries/Examples.antt =====
-- A database that knows every account, on a log-in from the slot 4.
use lh_server.Prelude.{
  ℕ, List, false, eqb_ℤ, ◌+◌, arith, ◌≡◌, ◌⊎◌, [], ◌∷◌, some, true, pos, suc, ◌*◌, length,
}
use lh_server.World.{DbEvent, ev_login, ev_sign}
use lh_server.World.Samples.{hero, field, noon}
use lh_server.Queries.{Row, Dbms, Desk, run_queries}
use lh_server.Queries.Connector.{
  eq_string, exec_direct, alloc, stmt_handle, Driver, Connector, excute_statement_direct,
  retrieve_result,
}
use lh_server.Queries.Accounts.{excute_statement_direct_lem, retrieve_result_lem}
use lh_server.Queries.Drain.{run_queries_lem}

abbrev any_row : Row
any_row = record {
  atk = pos 10;
  hp = pos 100;
  mp = pos 100;
  level = pos 1;
  exp = pos 0;
  obj_type = pos 1;
}

abbrev open_house : Dbms
open_house = record {
  login_user = λ name pass. 1;
  fetch = λ name pass. some any_row;
  sign_user = λ name pass. 1;
}

abbrev knock : DbEvent
knock = record { user_id = 4; ev_id = ev_login; name = 65 ∷ []; pass = 66 ∷ [] }

abbrev desk : Desk
desk = record {
  world = record field {
    queries = knock ∷ record { user_id = 5; ev_id = ev_sign; name = 67 ∷ []; pass = 68 ∷ [] } ∷ [];
  };
  updates = [];
}

run_queries_lem_example :
    (run_queries (suc (2 * length desk.world.queries)) noon open_house hero desk).world.queries ≡ []
run_queries_lem_example = run_queries_lem noon open_house hero desk

-- The row has "abcd" and "xy", the client sends "ab" and "x".
abbrev name_row : List ℕ
name_row = 97 ∷ 98 ∷ 99 ∷ 100 ∷ 0 ∷ 0 ∷ 0 ∷ 0 ∷ 0 ∷ 0 ∷ []

abbrev pass_row : List ℕ
pass_row = 120 ∷ 121 ∷ 0 ∷ 0 ∷ 0 ∷ 0 ∷ 0 ∷ 0 ∷ 0 ∷ 0 ∷ []

retrieve_result_lem_example :
    retrieve_result (97 ∷ 98 ∷ []) (120 ∷ []) name_row pass_row ≡ some true
unfolding eq_string
retrieve_result_lem_example =
    retrieve_result_lem (97 ∷ 98 ∷ []) (120 ∷ []) name_row pass_row (omega arith, (omega arith, tt))
      (omega arith, tt) (omega arith) (omega arith)

-- A driver that answers SQL_SUCCESS_WITH_INFO to every call.
abbrev chatty : Driver
chatty c cs = pos 1

abbrev started : Connector
started = record { retcode = pos 0; rec = 0; calls = [] }

excute_statement_direct_lem_example :
    let (after, result) = excute_statement_direct 3 chatty (69 ∷ []) started in
    ((eqb_ℤ (pos 1) (pos 0) ≡ true)
      × (result ≡ 1)
      × (after.rec ≡ 0)
      × (after.calls ≡ exec_direct (69 ∷ []) ∷ alloc stmt_handle ∷ []))
    ⊎ ((eqb_ℤ (pos 1) (pos 0) ≡ false)
        × (result ≡ 0)
        × (after.rec ≡ 0 + 1)
        × (after.retcode ≡ pos 1))
excute_statement_direct_lem_example = excute_statement_direct_lem 3 chatty (69 ∷ []) started
