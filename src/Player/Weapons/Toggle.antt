-- ===== src/Player/Weapons/Toggle.antt =====
-- What the calls of WeaponOn and WeaponOff end in: they take up or put away the weapon.
use lh_server.Prelude.{ℕ, suc, ◌≡◌, ◌≢◌, refl, sym, true, false, some, pos, if◌then◌else◌, arith}
use lh_server.World.{World, Player, WeaponType, wpn_none, set_player, with_player-some}
use lh_server.World.Send.{broadcast_all}
use lh_server.Protocol.{Packet}
use lh_server.Player.Weapons.{
  eq_wpn, tell_on, ended, other, weapon_on_body, weapon_off_body, weapon_call, weapon_on,
}

weapon_call_on :
    (depth : ℕ) (wpn : WeaponType) (me : ℕ) (w : World) (p : Player)
    → w.players me ≡ some p
    → weapon_call (suc depth) true wpn me w
      ≡ elim (weapon_on_body wpn me p w) [ ended v ↦ v | other ↦ weapon_call depth false wpn me w ]
unfolding weapon_call
weapon_call_on depth wpn me w p e = rw (with_player-some me w _ e) refl

weapon_call_off :
    (depth : ℕ) (wpn : WeaponType) (me : ℕ) (w : World) (p : Player)
    → w.players me ≡ some p
    → weapon_call (suc depth) false wpn me w
      ≡ elim (weapon_off_body wpn me p w) [ ended v ↦ v | other ↦ weapon_call depth true wpn me w ]
unfolding weapon_call
weapon_call_off depth wpn me w p e = rw (with_player-some me w _ e) refl

-- What the button of a weapon does.
unfoldable pressed : WeaponType → ℕ → Player → World → World
pressed wpn me p w =
    if eq_wpn p.wpn_type wpn
    then broadcast_all (Packet.sword_off (pos p.id))
        (set_player w me (record p { wpn_type = wpn_none }))
    else tell_on wpn p.id (set_player w me (record p { wpn_type = wpn }))

weapon_call-pressed :
    (n : ℕ) (wpn : WeaponType) (me : ℕ) (w : World) (p : Player)
    → wpn ≢ wpn_none
    → w.players me ≡ some p
    → weapon_call (suc (suc n)) true wpn me w ≡ pressed wpn me p w
unfolding pressed weapon_on_body weapon_off_body
weapon_call-pressed n wpn me w p h e =
    rw (weapon_call_on (suc n) wpn me w p e) (ground (arith, weapon_call_off n wpn me w p e, h))

-- The button of a weapon takes it up, or puts it away if it is the one in hand. The two functions
-- call one another at most once, so that any depth of two or more gives what a depth of two gives.
pub weapon_on_lem :
    (wpn : WeaponType) (me : ℕ) (w : World) (p : Player)
    → wpn ≢ wpn_none
    → w.players me ≡ some p
    → ((weapon_on wpn me w).players me
        ≡ some (record p { wpn_type = if eq_wpn p.wpn_type wpn then wpn_none else wpn }))
      × ((weapon_on wpn me w).crashed ≡ w.crashed)
      × ((n : ℕ) → weapon_call (suc (suc n)) true wpn me w ≡ weapon_on wpn me w)
unfolding weapon_on pressed tell_on broadcast_all
weapon_on_lem wpn me w p h e = (
  rw (weapon_call-pressed 0 wpn me w p h e) (ground arith),
  rw (weapon_call-pressed 0 wpn me w p h e) (ground arith),
  λ n. rw (weapon_call-pressed n wpn me w p h e) (sym (weapon_call-pressed 0 wpn me w p h e)),
)
