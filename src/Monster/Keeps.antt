-- ===== src/Monster/Keeps.antt =====
-- What the steps of a monster leave alone: the timers, the monster's id, and the ids of the players.
use lh_server.Prelude.{
  ℕ, ◌≡◌, refl, ◌∙◌, Bool, true, false, Option, none, some, ℤ, pos, if◌then◌else◌, Option-cases,
  inl, inr, arith, leb_ℤ, ltb_ℤ, ◌&&◌, ◌==◌, ap, ◌-ℤ◌,
}
use lh_server.Physics.{Position, get_distance, get_degree}
use lh_server.Player.Combat.{attack_range}
use lh_server.Protocol.{Packet}
use lh_server.World.{
  World, Env, Player, Monster, MonState, set_monster, crash, with_player, with_monster-some,
}
use lh_server.World.{set_player}
use lh_server.World.Seats.{Seats, id_at, set_player-Seats}
use lh_server.World.Send.{broadcast}
use lh_server.Damage.{take_damage}
use lh_server.Monster.{
  change_state, enter_state, leave_state, update_target, chase, monster_attack, player_at,
  names_target, guard_range,
}

-- From `w` to `v` no timer was set, the monster at `oid`, whose id is `n`, is there still, and no other
-- has changed, and not the golem either; and the players keep their ids.
pub record Keeps (oid n : ℕ) (w v : World) : Type 0 where
  pub timers : v.timers ≡ w.timers
  pub there : (m : Monster) × (v.monsters oid ≡ some m) × (m.id ≡ n)
  pub others : (i : ℕ) → (i == oid) ≡ false → v.monsters i ≡ w.monsters i
  pub bosses : v.bosses ≡ w.bosses
  pub seats : Seats w v

Keeps_same :
    (oid n : ℕ) (w u v : World)
    → v.timers ≡ u.timers
    → v.monsters ≡ u.monsters
    → v.bosses ≡ u.bosses
    → v.players ≡ u.players
    → Keeps oid n w u
    → Keeps oid n w v
Keeps_same oid n w u v t e g p k = record {
  timers = t ∙ k.timers;
  there = (k.there.0, rw e k.there.1, k.there.2);
  others = λ i h. rw e (k.others i h);
  bosses = g ∙ k.bosses;
  seats = λ i h. ap (λ players. id_at players i) p ∙ k.seats i h;
}

pub Keeps-set :
    (oid n : ℕ) (w v : World) (m : Monster)
    → m.id ≡ n
    → Keeps oid n w v
    → Keeps oid n w (set_monster v oid m)
Keeps-set oid n w v m i k = record {
  timers = k.timers;
  there = (m, ground arith, i);
  others = λ j h. ground (arith, h, k.others j h);
  bosses = k.bosses;
  seats = k.seats;
}

pub if-Keeps :
    (oid n : ℕ) (b : Bool) (w u v : World)
    → Keeps oid n w u
    → Keeps oid n w v
    → Keeps oid n w (if b then u else v)
if-Keeps oid n true w u v h k = h
if-Keeps oid n false w u v h k = k

enter_leave-id :
    (next old : MonState) (m : Monster) → (enter_state next (leave_state old m)).id ≡ m.id
unfolding enter_state leave_state
enter_leave-id next old m = ground arith

pub change_state-Keeps :
    (oid n : ℕ) (next : MonState) (w v : World)
    → Keeps oid n w v
    → Keeps oid n w (change_state oid next v)
unfolding change_state crash
change_state-Keeps oid n next w v k =
    let m : Monster = k.there.0 in
    let set =
      Keeps-set oid n w v (enter_state next (leave_state m.state m))
        (enter_leave-id next m.state m ∙ k.there.2) k in
    rw (with_monster-some oid v _ k.there.1)
      (if-Keeps oid n (names_target next) w _ _ (named (player_at m.target v) _ set) set)
  where
    named :
        (o : Option Player) (u : World)
        → Keeps oid n w u
        → Keeps oid n w (elim o [ none ↦ crash u | some p ↦ u ])
    named none u h = Keeps_same oid n w u (crash u) refl refl refl refl h
    named (some p) u h = h

pub update_target-Keeps :
    (env : Env) (oid n : ℕ) (w v : World)
    → Keeps oid n w v
    → Keeps oid n w (update_target env oid v)
unfolding update_target
update_target-Keeps env oid n w v k =
    rw (with_monster-some oid v _ k.there.1) (Keeps-set oid n w v _ k.there.2 k)

pub chase-Keeps :
    (env : Env) (oid n : ℕ) (p : Player) (w v : World)
    → Keeps oid n w v
    → Keeps oid n w (chase env oid p v)
unfolding chase broadcast
chase-Keeps env oid n p w v k = rw (with_monster-some oid v _ k.there.1) (
    Keeps_same oid n w (set_monster v oid _) _ refl refl refl refl
      (Keeps-set oid n w v _ k.there.2 k))

take_damage-same :
    (t : ℕ) (damage : ℤ) (w : World)
    → ((take_damage t damage w).timers ≡ w.timers)
      × ((take_damage t damage w).monsters ≡ w.monsters)
      × ((take_damage t damage w).bosses ≡ w.bosses)
unfolding take_damage broadcast with_player crash
take_damage-same t damage w = ground arith

broadcast-Keeps :
    (oid n : ℕ) (p : Packet) (w v : World) → Keeps oid n w v → Keeps oid n w (broadcast p v)
unfolding broadcast
broadcast-Keeps oid n p w v k = Keeps_same oid n w v (broadcast p v) refl refl refl refl k

with_player-Keeps :
    (oid n t : ℕ) (w v : World) (f : Player → World)
    → Keeps oid n w v
    → ((p : Player) → Keeps oid n w (f p))
    → Keeps oid n w (with_player t v f)
unfolding with_player crash
with_player-Keeps oid n t w v f k h = elim (Option-cases (v.players t)) [
  | inl e ↦ rw (e, with_player) (Keeps_same oid n w v (crash v) refl refl refl refl k)
  | inr (p, e) ↦ rw (e, with_player) (h p)
]

take_damage-Seats : (t : ℕ) (damage : ℤ) (w : World) → Seats w (take_damage t damage w)
unfolding take_damage broadcast with_player crash
take_damage-Seats t damage w i h = elim (Option-cases (w.players t)) [
  | inl e ↦ rw (e, with_player) h
  | inr (p, e) ↦
      let hp : ℤ = p.health_point -ℤ damage in
      let once : Seats w (set_player w t (record p { health_point = hp })) =
        set_player-Seats t p (record p { health_point = hp }) w w e refl (λ j g. g) in
      rw (e, with_player)
        (if_seats i (leb_ℤ hp (pos 0)) _ _
          (set_player-Seats t (record p { health_point = hp }) _ w
            (set_player w t (record p { health_point = hp })) (ground arith) refl once i h)
          (once i h))
]
  where
    if_seats :
        (i : ℕ) (b : Bool) (u v : World)
        → id_at u.players i ≡ some i
        → id_at v.players i ≡ some i
        → id_at (if b then u else v).players i ≡ some i
    if_seats i true u v h k = h
    if_seats i false u v h k = k

take_damage-Keeps :
    (oid n t : ℕ) (damage : ℤ) (w v : World)
    → Keeps oid n w v
    → Keeps oid n w (take_damage t damage v)
take_damage-Keeps oid n t damage w v k =
    let same = take_damage-same t damage v in
    record {
      timers = same.0 ∙ k.timers;
      there = (k.there.0, rw same.1 k.there.1, k.there.2);
      others = λ i h. rw same.1 (k.others i h);
      bosses = same.2 ∙ k.bosses;
      seats = λ i h. take_damage-Seats t damage v i (k.seats i h);
    }

pub monster_attack-Keeps :
    (env : Env) (oid t n : ℕ) (w v : World)
    → Keeps oid n w v
    → Keeps oid n w (monster_attack env oid t v)
unfolding monster_attack
monster_attack-Keeps env oid t n w v k =
    let m : Monster = k.there.0 in
    rw (with_monster-some oid v _ k.there.1) (
      with_player-Keeps oid n t w v _ k λ p.
        let d : ℤ = get_distance env.fpu m.pos p.pos in
        let turned : Position = record m.rotation { y = get_degree env.fpu m.pos p.pos } in
        let shown = broadcast-Keeps oid n (Packet.attack (pos m.id) (pos (env.draw 3))) w _ (
          broadcast-Keeps oid n (Packet.set_rotation (pos m.id) turned) w _
            (Keeps-set oid n w v (record m { rotation = turned }) k.there.2 k)) in
        if-Keeps oid n (ltb_ℤ attack_range d) w v _ k (
          if-Keeps oid n (leb_ℤ d (pos 0)) w v _ k (
            if-Keeps oid n (ltb_ℤ d guard_range && p.is_guard) w _ _
              (broadcast-Keeps oid n (Packet.block (pos m.id)) w _ shown)
              (if-Keeps oid n (ltb_ℤ d guard_range && p.is_evade) w _ _ shown (
                take_damage-Keeps oid n t m.atk_point w _
                  (broadcast-Keeps oid n (Packet.damaged (pos p.id) p.health_point) w _ shown))))))

pub start : (oid : ℕ) (w : World) (m : Monster) → w.monsters oid ≡ some m → Keeps oid m.id w w
start oid w m e = record {
  timers = refl;
  there = (m, e, refl);
  others = λ i h. refl;
  bosses = refl;
  seats = λ i h. h;
}
