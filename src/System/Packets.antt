-- ===== src/System/Packets.antt =====
-- Whatever a client sends, and its coming and going, leaves the monsters to themselves.
use lh_server.Prelude.{
  ℕ, refl, List, [], ◌∷◌, ℤ, if◌then◌else◌, Bool-cases, inl, inr, arith, for_range, for_range-keeps,
  ◌==◌, ◌∙◌, ◌≡◌, ap, some,
}
use lh_server.World.{
  World, Env, Player, crash, with_player, set_player, max_monster, npc_id_start, wpn_sword,
  wpn_hammer,
}
use lh_server.World.Send.{send, broadcast}
use lh_server.Player.Motion.{enter_game, meet, show_monster}
use lh_server.Protocol.{Packet}
use lh_server.Net.{Finish, returned, bad_count, spins, recv_packet_construct}
use lh_server.Session.{Server, disconnect, accept}
use lh_server.Dispatch.Requests.{
  Request, cs_login, cs_signup, move_packet, cs_chat, cs_attack, cs_fireball, cs_guard, cs_jump,
  cs_evade, cs_weapon_on, cs_weapon_off, cs_sword_on, cs_sword_off, cs_hammer_on, cs_hammer_off,
  cs_berserk, cs_ready, cs_boss_move, cs_hide, cs_hide_off, cs_assassin, cs_move_stop, cs_npc_move,
  cs_boss_attack, cs_boss_bone, cs_sync_fail, cs_update_move_state, unknown, decode,
}
use lh_server.Dispatch.{
  Database, sign_up, login, handle, is_unknown, process_packet, process_all, on_recv,
}
use lh_server.System.Ticks.{Ticks, Ticks-refl, Ticks-trans, Ticks-untouched}
use lh_server.System.Steady.{
  set_player-Steady, Steady, Steady-refl, Steady-trans, Steady-untouched, if-Steady,
  with_player-Steady,
}
use lh_server.System.Combat.{attack-Steady, berserk-Steady, assassinate-Steady}
use lh_server.Player.Combat.{add_quary}
use lh_server.System.Blows.{move_boss-Steady, boss_attack-Still, boss_bone-Steady}
use lh_server.System.Handlers.{
  guard-Steady, hide-Still, hide_off-Still, set_ready-Still, to_far_place-Still, draw_weapon-Still,
  sheathe_weapon-Still, move-Still, stop_moving-Still, change_move_state-Still, weapon_on-Still,
  weapon_off-Still, evade-Steady, move_npc-Steady, meet-Still, show_monster-Still, Still,
  Steady-of_Still,
}

-- EnterGame, after Login.
login-Still :
    (uid : ℕ) (name pass : List ℕ) (character : ℤ) (w : World)
    → Still w (login uid name pass character w)
unfolding login add_quary with_player crash
login-Still uid name pass character w = ground arith

Still-trans : (u w v : World) → Still u w → Still w v → Still u v
Still-trans u w v s t = (t.0 ∙ s.0, t.1 ∙ s.1, t.2 ∙ s.2, λ i h. t.3 i (s.3 i h))

show_monsters-players :
    (uid : ℕ) (w : World)
    → (for_range max_monster npc_id_start (show_monster uid) w).players ≡ w.players
unfolding show_monster send
show_monsters-players uid w =
    for_range-keeps (λ u. u.players ≡ w.players) (show_monster uid) (λ i u h. ground (arith, h))
      max_monster npc_id_start w refl

enter_game-Steady : (me : ℕ) (w v : World) → Steady w v → Steady w (enter_game me v)
unfolding enter_game send
enter_game-Steady me w v k =
    let met : World = for_range 10 0 (meet me) v in
    let meeting : Steady w met =
      for_range-keeps (Steady w) (meet me)
        (λ i u h. Steady-trans w u _ h (Steady-of_Still u _ (meet-Still me i u))) 10 0 v k in
    with_player-Steady me w met _ meeting λ p e.
      let shown : World = for_range max_monster npc_id_start (show_monster p.id) met in
      let showing : Steady w shown =
        for_range-keeps (Steady w) (show_monster p.id)
          (λ i u h. Steady-trans w u _ h (Steady-of_Still u _ (show_monster-Still p.id i u)))
          max_monster npc_id_start met meeting in
      let settled : World = set_player shown me (record p { is_host = p.id == 0 }) in
      let here : shown.players me ≡ some p =
        ap (λ players. players me) (show_monsters-players p.id met) ∙ e in
      let settling : Steady w settled =
        set_player-Steady me p (record p { is_host = p.id == 0 }) w shown here refl showing in
      if-Steady (p.id == 0) w (send p.id Packet.set_host settled) settled
        (Steady-untouched w settled _ refl refl refl refl settling) settling

pub handle-Steady :
    (env : Env) (db : Database) (uid : ℕ) (r : Request) (w : World)
    → Steady w (handle env db uid r w)
unfolding handle sign_up send broadcast
handle-Steady env db uid (cs_login name pass character) w =
    enter_game-Steady uid w _ (Steady-of_Still w _ (login-Still uid name pass character w))
handle-Steady env db uid (cs_signup name pass) w =
    Steady-of_Still w _ (ground arith, ground arith, ground arith, λ i h. ground (arith, h))
handle-Steady env db uid (move_packet destination rotation velocity) w =
    Steady-of_Still w _ (move-Still env uid destination rotation velocity w)
handle-Steady env db uid cs_chat w = Steady-refl w
handle-Steady env db uid cs_attack w = attack-Steady env uid w
handle-Steady env db uid cs_fireball w = Steady-of_Still w _ (to_far_place-Still env uid w)
handle-Steady env db uid cs_guard w = guard-Steady env uid w
handle-Steady env db uid cs_jump w = Steady-of_Still w _ (refl, refl, refl, λ i h. h)
handle-Steady env db uid cs_evade w = evade-Steady env uid w
handle-Steady env db uid cs_weapon_on w = Steady-of_Still w _ (draw_weapon-Still uid w)
handle-Steady env db uid cs_weapon_off w = Steady-of_Still w _ (sheathe_weapon-Still uid w)
handle-Steady env db uid cs_sword_on w = Steady-of_Still w _ (weapon_on-Still wpn_sword uid w)
handle-Steady env db uid cs_sword_off w = Steady-of_Still w _ (weapon_off-Still wpn_sword uid w)
handle-Steady env db uid cs_hammer_on w = Steady-of_Still w _ (weapon_on-Still wpn_hammer uid w)
handle-Steady env db uid cs_hammer_off w = Steady-of_Still w _ (weapon_off-Still wpn_hammer uid w)
handle-Steady env db uid cs_berserk w = berserk-Steady env uid w
handle-Steady env db uid cs_ready w = Steady-of_Still w _ (set_ready-Still uid w)
handle-Steady env db uid (cs_boss_move destination rotation) w =
    move_boss-Steady uid destination rotation w
handle-Steady env db uid cs_hide w = Steady-of_Still w _ (hide-Still uid w)
handle-Steady env db uid cs_hide_off w = Steady-of_Still w _ (hide_off-Still uid w)
handle-Steady env db uid cs_assassin w = assassinate-Steady env uid w
handle-Steady env db uid cs_move_stop w = Steady-of_Still w _ (stop_moving-Still uid w)
handle-Steady env db uid (cs_npc_move oid place) w = move_npc-Steady env oid place w
handle-Steady env db uid (cs_boss_attack oid atk) w =
    Steady-of_Still w _ (boss_attack-Still uid oid atk w)
handle-Steady env db uid (cs_boss_bone oid bones) w = boss_bone-Steady oid bones w
handle-Steady env db uid cs_sync_fail w = Steady-refl w
handle-Steady env db uid (cs_update_move_state state) w =
    Steady-of_Still w _ (change_move_state-Still uid state w)
handle-Steady env db uid unknown w = Steady-refl w

pub disconnect-Ticks : (uid : ℕ) (s : Server) → Ticks s.world (disconnect uid s).world
unfolding disconnect broadcast crash
disconnect-Ticks uid s =
    Ticks-untouched s.world s.world _ (ground arith) (ground arith) (ground arith)
      (Ticks-refl s.world)

pub accept-Ticks : (memory : Player) (s : Server) → Ticks s.world (accept memory s).world
unfolding accept
accept-Ticks memory s =
    Ticks-untouched s.world s.world _ (ground arith) (ground arith) (ground arith)
      (Ticks-refl s.world)

process_packet-Ticks :
    (env : Env) (db : Database) (uid : ℕ) (buf : List ℕ) (s : Server)
    → Ticks s.world (process_packet env db uid buf s).world
unfolding process_packet crash
process_packet-Ticks env db uid buf s = elim (Bool-cases (is_unknown (decode buf))) [
  | inl e ↦
      rw e
        (Ticks-untouched s.world (disconnect uid s).world _ refl refl refl (disconnect-Ticks uid s))
  | inr e ↦ rw e (handle-Steady env db uid (decode buf) s.world).ticks
]

process_all-Ticks :
    (env : Env) (db : Database) (uid : ℕ) (bufs : List (List ℕ)) (s : Server)
    → Ticks s.world (process_all env db uid bufs s).world
unfolding process_all
process_all-Ticks env db uid [] s = Ticks-refl s.world
process_all-Ticks env db uid (buf ∷ bufs) s =
    Ticks-trans s.world (process_packet env db uid buf s).world _
      (process_packet-Ticks env db uid buf s)
      (process_all-Ticks env db uid bufs (process_packet env db uid buf s))

pub on_recv-Ticks :
    (env : Env) (db : Database) (uid : ℕ) (bytes : List ℕ) (s : Server)
    → Ticks s.world (on_recv env db uid bytes s).world
unfolding on_recv crash
on_recv-Ticks env db uid [] s = disconnect-Ticks uid s
on_recv-Ticks env db uid (b ∷ bs) s = ends (recv_packet_construct (s.clients uid) (b ∷ bs))
  where
    ends :
        (o : Finish × List (List ℕ))
        → let done : Server = process_all env db uid o.1 s in
          let t : Server = elim o.0 [
            | returned cu ↦ record done { clients = λ j. if j == uid then cu else done.clients j }
            | bad_count ↦ record done { world = crash done.world }
            | spins ↦ record done { world = crash done.world }
          ] in
          Ticks s.world t.world
    ends (returned cu, bufs) = process_all-Ticks env db uid bufs s
    ends (bad_count, bufs) =
        Ticks-untouched s.world (process_all env db uid bufs s).world _ refl refl refl
          (process_all-Ticks env db uid bufs s)
    ends (spins, bufs) =
        Ticks-untouched s.world (process_all env db uid bufs s).world _ refl refl refl
          (process_all-Ticks env db uid bufs s)
