-- ===== src/Boss/Aim.antt =====
-- Whom the golem attacks.
use lh_server.Prelude.{
  ℕ, ◌≡◌, refl, List, [], ◌∷◌, Option, none, some, pos, Option-cases, Bool-cases, inl, inr,
}
use lh_server.Physics.{Fpu, Position, get_distance_f}
use lh_server.World.{World, Env, Player, Boss, player_ids}
use lh_server.Boss.{aim, take_target, attack, boss_activity_range}

-- A player who is further off than the start value of the search is out of its range, so that the
-- search keeps its start value.
aim_keeps :
    (f : Fpu) (here : Position) (players : ℕ → Option Player) (ids : List ℕ)
    → aim f here players (0, boss_activity_range) ids ≡ (0, boss_activity_range)
unfolding aim
aim_keeps f here players [] = refl
aim_keeps f here players (i ∷ is) = elim (Option-cases (players i)) [
  | inl e ↦ rw e (aim_keeps f here players is)
  | inr (p, e) ↦
      rw e (elim (Bool-cases (f.lt (f.of_int boss_activity_range) (get_distance_f f here p.pos))) [
        | inr h ↦ rw h (aim_keeps f here players is)
        | inl h ↦ rw h (elim (Bool-cases (f.lt (get_distance_f f here p.pos) (f.of_int (pos 0)))) [
          | inl g ↦ rw g (aim_keeps f here players is)
          | inr g ↦ rw g (aim_keeps f here players is)
        ])
      ])
]

-- Wherever the players are, an attack of the golem aims at the player 0 if there is one, and else keeps
-- the target that it had: its search for a target finds nobody.
pub attack-aim :
    (env : Env) (b : Boss) (w : World)
    → (attack env b w).0 ≡ elim (w.players 0) [ none ↦ b | some p ↦ record b { target = pos 0 } ]
unfolding attack take_target
attack-aim env b w = rw (aim_keeps env.fpu b.pos w.players player_ids) refl
