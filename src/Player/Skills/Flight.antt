-- ===== src/Player/Skills/Flight.antt =====
-- How a fireball goes on and how it ends.
use lh_server.Prelude.{ℕ, ◌+◌, ◌≡◌, ◌≢◌, Bool, true, false, Option, none, some, pos}
use lh_server.World.{World, Env, Player, ev_fireball}
use lh_server.World.Timers.{push}
use lh_server.Player.Skills.{advance}

-- The ball is gone: its owner may cast again, nobody else has changed, and no timer is set.
abbrev pub IsSpent : ℕ → World → World → Type 0
IsSpent owner w v =
    ((q : Player) × (v.players owner ≡ some q) × (q.is_spell_fireball ≡ false))
    × ((j : ℕ) → j ≢ owner → v.players j ≡ w.players j)
    × (v.timers ≡ w.timers)

-- The ball flies on: it has moved, and its timer is set again, for two milliseconds later.
abbrev pub FliesOn : Env → ℕ → Player → World → World → Type 0
FliesOn env owner p w v =
    (v.players owner ≡ some (record p { fireball = advance env.fpu p.fireball }))
    × ((j : ℕ) → j ≢ owner → v.players j ≡ w.players j)
    × (v.timers
        ≡ push
            (record {
              obj_id = p.fireball.owner_id;
              event_id = ev_fireball;
              wakeup_time = env.now + 2;
              target_id = pos 0;
            })
            w.timers)

-- What an update comes to, by what the ball touches and whether it is out of range.
abbrev pub Flight : Env → ℕ → Player → Option (Option ℕ) → Bool → World → World → Type 0
Flight env owner p none far w v = v.crashed ≡ true
Flight env owner p (some none) true w v = IsSpent owner w v
Flight env owner p (some none) false w v = FliesOn env owner p w v
Flight env owner p (some (some i)) far w v = IsSpent owner w v
