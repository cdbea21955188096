-- ===== src/Queries/Drain.antt =====
-- The database thread empties its queue, and what a log-in leaves behind.
use lh_server.Prelude.{
  ℕ, zero, suc, ◌+◌, ◌*◌, ◌≤◌, ◌<◌, ◌≡◌, refl, List, [], ◌∷◌, ◌++◌, length, arith,
}
use lh_server.World.{World, Env, Player, DbEvent, EventId, ev_sign, crash}
use lh_server.World.Send.{send}
use lh_server.Queries.{Dbms, Desk, retrieve, log_in, sign, save, answer, run_queries}

-- A sign-up may bring one more event; every other event brings none.
abbrev weight : EventId → ℕ
weight ev_sign = 2
weight _ = 1

abbrev weights : List DbEvent → ℕ
weights [] = 0
weights (ev ∷ evs) = weight ev.ev_id + weights evs

weights-append : (xs ys : List DbEvent) → weights (xs ++ ys) ≡ weights xs + weights ys
weights-append [] ys = omega arith
weights-append (x ∷ xs) ys = omega (arith, weights-append xs ys)

sign-weights : (db : Dbms) (ev : DbEvent) → weights (sign db ev) ≤ 1
unfolding sign
sign-weights db ev = ground arith

log_in-queries :
    (env : Env) (db : Dbms) (memory : Player) (ev : DbEvent) (w : World)
    → (log_in env db memory ev w).queries ≡ w.queries
unfolding log_in retrieve send
log_in-queries env db memory ev w = ground arith

answer-weights :
    (env : Env) (db : Dbms) (memory : Player) (ev : DbEvent) (d : Desk)
    → weights (answer env db memory ev d).world.queries < weight ev.ev_id + weights d.world.queries
unfolding answer save crash
answer-weights env db memory ev d = ground (
  arith,
  log_in-queries env db memory ev d.world,
  weights-append d.world.queries (sign db ev),
  sign-weights db ev,
)

run_queries-empties :
    (fuel : ℕ) (env : Env) (db : Dbms) (memory : Player) (queue : List DbEvent) (d : Desk)
    → d.world.queries ≡ queue
    → weights queue < fuel
    → (run_queries fuel env db memory d).world.queries ≡ []
unfolding run_queries
run_queries-empties zero env db memory queue d e h = absurd (omega arith)
run_queries-empties (suc fuel) env db memory [] d e h = rw e refl
run_queries-empties (suc fuel) env db memory (ev ∷ evs) d e h =
    let popped : Desk = record d { world = record d.world { queries = evs } } in
    let next : Desk = answer env db memory ev popped in
    let done =
      run_queries-empties fuel env db memory next.world.queries next refl
        (omega (arith, answer-weights env db memory ev popped)) in
    rw e done

weights_small : (queue : List DbEvent) → weights queue ≤ 2 * length queue
weights_small [] = omega arith
weights_small (ev ∷ evs) = ground (arith, weights_small evs)

-- The database thread empties its queue, whatever the database answers: a sign-up brings at most one
-- event more, so that twice as many rounds as there are events, and one, are enough.
pub run_queries_lem :
    (env : Env) (db : Dbms) (memory : Player) (d : Desk)
    → (run_queries (suc (2 * length d.world.queries)) env db memory d).world.queries ≡ []
run_queries_lem env db memory d =
    run_queries-empties (suc (2 * length d.world.queries)) env db memory d.world.queries d refl
      (omega (arith, weights_small d.world.queries))
