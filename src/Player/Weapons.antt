-- ===== src/Player/Weapons.antt =====
-- WeaponOn and WeaponOff of Server/CPlayer.cpp, which call one another.
pub mod Toggle
use lh_server.Prelude.{ℕ, zero, suc, Bool, true, false, if◌then◌else◌, pos}
use lh_server.Protocol.{Packet}
use lh_server.World.{
  World, Player, WeaponType, wpn_none, wpn_sword, wpn_hammer, set_player, with_player, crash,
}
use lh_server.World.Send.{broadcast_all}

abbrev pub eq_wpn : WeaponType → WeaponType → Bool
eq_wpn wpn_none wpn_none = true
eq_wpn wpn_sword wpn_sword = true
eq_wpn wpn_hammer wpn_hammer = true
eq_wpn _ _ = false

unfoldable pub tell_on : WeaponType → ℕ → World → World
tell_on wpn_none id w = w
tell_on wpn_sword id w = broadcast_all (Packet.sword_on (pos id)) w
tell_on wpn_hammer id w = broadcast_all (Packet.hammer_on (pos id)) w

-- `wpnType == wpn == wpn_sword` compares a truth value with 1, and `wpnType == wpn == wpn_hammer`
-- one with 2: the first holds if the player holds `wpn`, whichever it is, and the second never does.
abbrev truth_is : Bool → WeaponType → Bool
truth_is true wpn_none = false
truth_is true wpn_sword = true
truth_is true wpn_hammer = false
truth_is false wpn_none = true
truth_is false wpn_sword = false
truth_is false wpn_hammer = false

-- What one call does, or the call of the other function that it makes.
pub data Turn : Type 0 where
  ended : World → Turn
  other : Turn

unfoldable pub weapon_on_body : WeaponType → ℕ → Player → World → Turn
weapon_on_body wpn me p w =
    if eq_wpn p.wpn_type wpn
    then other
    else ended (tell_on wpn p.id (set_player w me (record p { wpn_type = wpn })))

unfoldable pub weapon_off_body : WeaponType → ℕ → Player → World → Turn
weapon_off_body wpn me p w =
    if eq_wpn p.wpn_type wpn_none
    then other
    else if truth_is (eq_wpn p.wpn_type wpn) wpn_sword
    then ended (
        broadcast_all (Packet.sword_off (pos p.id))
          (set_player w me (record p { wpn_type = wpn_none })))
    else if truth_is (eq_wpn p.wpn_type wpn) wpn_hammer
    then ended (
        broadcast_all (Packet.hammer_off (pos p.id))
          (set_player w me (record p { wpn_type = wpn_none })))
    else ended w

-- The two functions on the depth of their calls; at 0 the stack has run out, and the process ends.
-- `on` says which of the two is called.
unfoldable pub weapon_call : ℕ → Bool → WeaponType → ℕ → World → World
weapon_call zero on wpn me w = crash w
weapon_call (suc depth) on wpn me w =
    let swapped : World = weapon_call depth (if on then false else true) wpn me w in
    with_player me w λ p.
      elim (if on then weapon_on_body wpn me p w else weapon_off_body wpn me p w) [
        | ended v ↦ v
        | other ↦ swapped
      ]

-- A depth of 2 is enough for a weapon: Player/Weapons/Toggle.
unfoldable pub weapon_on : WeaponType → ℕ → World → World
weapon_on = weapon_call 2 true

unfoldable pub weapon_off : WeaponType → ℕ → World → World
weapon_off = weapon_call 2 false
