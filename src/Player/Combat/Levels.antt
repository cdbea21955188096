-- ===== src/Player/Combat/Levels.antt =====
-- What a kill brings: experience, and a level for each hundred.
use lh_server.Prelude.{
  ℕ, ◌≡◌, ◌≢◌, refl, ◌∙◌, ◌⊎◌, some, pos, ◌+ℤ◌, ◌-ℤ◌, ◌≤ℤ◌, ◌<ℤ◌, leb_ℤ, update, Bool-cases, inl,
  inr, +ℤ_parts, -ℤ_parts, arith,
}
use lh_server.Protocol.{Packet}
use lh_server.World.{World, Player, Monster, set_player, with_player-some, with_monster-some}
use lh_server.World.Send.{send, broadcast}
use lh_server.Player.Combat.{leveled, level_up, kill_monster}
use lh_server.Player.Combat.Hits.{add_quary-players, send_each-players}

level_up-players :
    (me : ℕ) (w : World) (p : Player)
    → w.players me ≡ some p
    → (level_up me w).players ≡ update w.players me (some (leveled p))
unfolding level_up
level_up-players me w p e =
    rw (with_player-some me w _ e)
      (add_quary-players _ _ _ _ _ ∙ send_each-players 10 0 _ _ (set_player w me (leveled p)))

-- Who kills a monster gets its experience. From a hundred on it is spent for a level: what the player
-- has, in points of a hundred for each level, grows by the experience of the monster, and less than a
-- hundred is left if the monster brings no more than a hundred. No other player changes.
pub kill_monster_lem :
    (me oid : ℕ) (w : World) (p : Player) (m : Monster)
    → w.players me ≡ some p
    → w.monsters oid ≡ some m
    → p.exp <ℤ pos 100
    → m.exp ≤ℤ pos 100
    → (q : Player) × ((kill_monster me oid w).players me ≡ some q)
      × ((j : ℕ) → j ≢ me → (kill_monster me oid w).players j ≡ w.players j)
      × (q.exp <ℤ pos 100)
      × (((q.level ≡ p.level) × (q.exp ≡ p.exp +ℤ m.exp))
          ⊎ ((q.level ≡ p.level +ℤ pos 1)
              × (q.exp ≡ p.exp +ℤ m.exp -ℤ pos 100)
              × (q.health_point ≡ q.max_hp)))
unfolding kill_monster send broadcast leveled
kill_monster_lem me oid w p m e f below brings =
    let gained : Player = record p { exp = p.exp +ℤ m.exp } in
    rw (with_player-some me w _ e, with_monster-some oid w _ f)
      (elim (Bool-cases (leb_ℤ (pos 100) (p.exp +ℤ m.exp))) [
        | inl up ↦
            let grown = level_up-players me (gains gained) gained (ground arith) in
            rw (up, grown)
              (
                leveled gained,
                ground arith,
                λ j h. ground arith,
                omega (arith, +ℤ_parts p.exp m.exp, -ℤ_parts (p.exp +ℤ m.exp) (pos 100)),
                inr (refl, refl, refl),
              )
        | inr less ↦ rw less (
          gained,
          ground arith,
          λ j h. ground arith,
          ground (arith, +ℤ_parts p.exp m.exp),
          inl (refl, refl),
        )
      ])
  where
    gains : Player → World
    gains q =
        broadcast (Packet.dead (pos oid)) (send q.id (Packet.get_exp q.exp) (set_player w me q))
