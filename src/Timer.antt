-- ===== src/Timer.antt =====
-- TimerThread of Server/Event.cpp: the events that are due leave the queue in order, and each is
-- handled or posted to the worker threads. The clock is read once for each round of the outer loop;
-- the rounds of the inner loop see the same time.
pub mod Drain
mod Examples
use lh_server.Prelude.{
  ℕ, ◌≡◌, zero, suc, Bool, true, false, List, [], ◌∷◌, ◌++◌, Option, none, some, ltb, if◌then◌else◌,
}
use lh_server.World.{
  World, Player, Event, EventId, ev_monster, ev_boss, ev_login, ev_sign, ev_update, ev_berserk,
  ev_atk_off, ev_guard_off, ev_evade_off, ev_fireball, ev_ass_off, set_player,
}
use lh_server.Player.Combat.{berserk_off}

-- PostQueuedCompletionStatus(g_iocp, 1, objID, over) with the operation of the event.
pub record Completion : Type 0 where
  pub key : ℕ
  pub op : EventId

-- if (g_player[id] == NULL) break;
unfoldable pub unless_null : ℕ → World → (Player → World) → World
unless_null i w f = elim (w.players i) [ none ↦ w | some p ↦ f p ]

pub unless_null-some :
    (i : ℕ) (w : World) {p : Player} (f : Player → World)
    → w.players i ≡ some p
    → unless_null i w f ≡ f p
unfolding unless_null
unless_null-some i w f e = rw (e, unless_null)

-- What an event does to the objects.
unfoldable pub fire : ℕ → Event → World → World
fire now e w = elim e.event_id [
  | ev_berserk ↦ unless_null e.obj_id w λ p. berserk_off e.obj_id w
  | ev_atk_off ↦
      unless_null e.obj_id w
        λ p. set_player w e.obj_id (record p { is_attack = false; last_atk_time = now })
  | ev_guard_off ↦ unless_null e.obj_id w λ p. set_player w e.obj_id (record p { is_guard = false })
  | ev_evade_off ↦ unless_null e.obj_id w λ p. set_player w e.obj_id (record p { is_evade = false })
  | ev_ass_off ↦
      unless_null e.obj_id w λ p. set_player w e.obj_id (record p { is_assasinate = false })
  | _ ↦ w
]

-- What an event leaves for the worker threads.
unfoldable pub posts : Event → List Completion
posts e = elim e.event_id [
  | ev_boss ↦ record { key = e.obj_id; op = ev_boss } ∷ []
  | ev_monster ↦ record { key = e.obj_id; op = ev_monster } ∷ []
  | ev_fireball ↦ record { key = e.obj_id; op = ev_fireball } ∷ []
  | _ ↦ []
]

-- The inner loop, on fuel, with what it has posted so far, oldest first.
unfoldable pub run_due : ℕ → ℕ → World → List Completion → World × List Completion
run_due zero now w posted = (w, posted)
run_due (suc fuel) now w posted = elim w.timers [
  | [] ↦ (w, posted)
  | e ∷ es ↦
      let popped : World = record w { timers = es } in
      let rest : World × List Completion =
        run_due fuel now (fire now e popped) (posted ++ posts e) in
      if ltb now e.wakeup_time then (w, posted) else rest
]
