-- ===== src/Player/Skills/Flags.antt =====
-- Guard, evasion and hiding: a skill that is on is not begun again, and its end undoes its beginning.
use lh_server.Prelude.{
  ap, Option, ◌∙◌, ℕ, ◌+◌, ◌≡◌, refl, Bool, if◌then◌else◌, true, false, some, pos, update, arith,
}
use lh_server.Protocol.{Packet}
use lh_server.World.{set_player, World, Env, Player, ev_guard_off, ev_evade_off, with_player-some}
use lh_server.World.Send.{broadcast, broadcast_others}
use lh_server.World.Timers.{push, add_timer}
use lh_server.Player.Skills.{guard, evade, hide, hide_off}
use lh_server.Timer.{fire, unless_null-some}

update_same :
    (i : ℕ) (players : ℕ → Option Player) (p : Player) → update players i (some p) i ≡ some p
update_same i players p = ground arith

begun : World → ℕ → Player → World
begun w me p = broadcast (Packet.guard (pos p.id)) (set_player w me (record p { is_guard = true }))

guard_begins :
    (env : Env) (me : ℕ) (w : World) (p : Player)
    → w.players me ≡ some p
    → p.is_guard ≡ false
    → guard env me w ≡ add_timer p.id ev_guard_off (env.now + 3000) (pos 0) (begun w me p)
unfolding guard begun
guard_begins env me w p e off = rw (with_player-some me w _ e) (simp off refl)

guard_over :
    (now me : ℕ) (w on : World) (p : Player) (time : ℕ)
    → w.players me ≡ some p
    → p.is_guard ≡ false
    → on.players ≡ update w.players me (some (record p { is_guard = true }))
    → (j : ℕ)
    → (fire now
          (record { obj_id = me; event_id = ev_guard_off; wakeup_time = time; target_id = pos 0 })
          on).players
        j
      ≡ w.players j
unfolding fire
guard_over now me w on p time e off o j =
    let q : Player = record p { is_guard = true } in
    let at_me : on.players me ≡ some q = ap (λ f. f me) o ∙ update_same me w.players q in
    let at_j : on.players j ≡ update w.players me (some q) j = ap (λ f. f j) o in
    rw (unless_null-some me on _ at_me) (ground arith)

-- A guard that begins sets its end to three seconds later, and when this event fires all players are
-- as they were before; while it lasts, guarding again does nothing.
pub guard-fire :
    (env later : Env) (me : ℕ) (w : World) (p : Player)
    → w.players me ≡ some p
    → p.id ≡ me
    → p.is_guard ≡ false
    → ((guard env me w).timers
        ≡ push
            (record {
              obj_id = me;
              event_id = ev_guard_off;
              wakeup_time = env.now + 3000;
              target_id = pos 0;
            })
            w.timers)
      × ((j : ℕ)
          → (fire later.now
                (record {
                  obj_id = me;
                  event_id = ev_guard_off;
                  wakeup_time = env.now + 3000;
                  target_id = pos 0;
                })
                (guard env me w)).players
              j
            ≡ w.players j)
      × (guard later me (guard env me w) ≡ guard env me w)
unfolding add_timer broadcast begun
guard-fire env later me w p e i off =
    rw (guard_begins env me w p e off)
      (rw i refl, λ j. guard_over later.now me w on p _ e off refl j, again)
  where
    on : World
    on = add_timer p.id ev_guard_off (env.now + 3000) (pos 0) (begun w me p)

    held : on.players me ≡ some (record p { is_guard = true })
    held = ground arith

    again : guard later me on ≡ on
    again = unfold guard in rw (with_player-some me on _ held) refl

-- The two branches of Evade send the same.
dodging : World → ℕ → Player → World
dodging w me p =
    broadcast_others p.id (Packet.evade (pos p.id)) (set_player w me (record p { is_evade = true }))

evade_begins :
    (env : Env) (me : ℕ) (w : World) (p : Player)
    → w.players me ≡ some p
    → p.is_evade ≡ false
    → evade env me w ≡ add_timer p.id ev_evade_off (env.now + 2000) (pos 0) (dodging w me p)
unfolding evade dodging
evade_begins env me w p e off =
    rw (with_player-some me w _ e)
      (simp off (ap (add_timer p.id ev_evade_off (env.now + 2000) (pos 0)) (either _ _)))
  where
    either : (b : Bool) (v : World) → (if b then v else v) ≡ v
    either true v = refl
    either false v = refl

evade_over :
    (now me : ℕ) (w on : World) (p : Player) (time : ℕ)
    → w.players me ≡ some p
    → p.is_evade ≡ false
    → on.players ≡ update w.players me (some (record p { is_evade = true }))
    → (j : ℕ)
    → (fire now
          (record { obj_id = me; event_id = ev_evade_off; wakeup_time = time; target_id = pos 0 })
          on).players
        j
      ≡ w.players j
unfolding fire
evade_over now me w on p time e off o j =
    let q : Player = record p { is_evade = true } in
    let at_me : on.players me ≡ some q = ap (λ f. f me) o ∙ update_same me w.players q in
    let at_j : on.players j ≡ update w.players me (some q) j = ap (λ f. f j) o in
    rw (unless_null-some me on _ at_me) (ground arith)

-- An evasion that begins is over two seconds later: when its event fires, all players are as they were
-- before. While it lasts, evading again does nothing.
pub evade-fire :
    (env later : Env) (me : ℕ) (w : World) (p : Player)
    → w.players me ≡ some p
    → p.id ≡ me
    → p.is_evade ≡ false
    → ((evade env me w).timers
        ≡ push
            (record {
              obj_id = me;
              event_id = ev_evade_off;
              wakeup_time = env.now + 2000;
              target_id = pos 0;
            })
            w.timers)
      × ((j : ℕ)
          → (fire later.now
                (record {
                  obj_id = me;
                  event_id = ev_evade_off;
                  wakeup_time = env.now + 2000;
                  target_id = pos 0;
                })
                (evade env me w)).players
              j
            ≡ w.players j)
      × (evade later me (evade env me w) ≡ evade env me w)
unfolding add_timer broadcast_others dodging
evade-fire env later me w p e i off =
    rw (evade_begins env me w p e off)
      (rw i refl, λ j. evade_over later.now me w on p _ e off refl j, again)
  where
    on : World
    on = add_timer p.id ev_evade_off (env.now + 2000) (pos 0) (dodging w me p)

    held : on.players me ≡ some (record p { is_evade = true })
    held = ground arith

    again : evade later me on ≡ on
    again = unfold evade in rw (with_player-some me on _ held) refl

-- A player who hides and comes out again is as before, and so is every other player; hiding twice is
-- hiding once.
pub hide-hide_off :
    (me : ℕ) (w : World) (p : Player)
    → w.players me ≡ some p
    → p.is_hide ≡ false
    → ((j : ℕ) → (hide_off me (hide me w)).players j ≡ w.players j)
      × (hide me (hide me w) ≡ hide me w)
unfolding broadcast
hide-hide_off me w p e off = rw (hides) (
  (λ j. unfold hide_off in rw (with_player-some me gone _ held) (ground arith)),
  unfold hide in rw (with_player-some me gone _ held) refl,
)
  where
    gone : World
    gone = broadcast (Packet.hide (pos p.id)) (set_player w me (record p { is_hide = true }))

    hides : hide me w ≡ gone
    hides = unfold hide in rw (with_player-some me w _ e) (simp off refl)

    held : gone.players me ≡ some (record p { is_hide = true })
    held = ground arith
