-- ===== src/Boss/Keeps.antt =====
-- What a step of the golem does to its timer, and what leaves it alone.
use lh_server.Prelude.{
  ℕ, ◌+◌, ◌≡◌, refl, negsuc, ◌∙◌, Bool, true, false, Option, none, some, ℤ, pos, not, if◌then◌else◌,
  ◌||◌, ◌&&◌, arith,
}
use lh_server.World.{
  World, Env, Player, Boss, BState, Event, b_idle, b_chase, b_attack, b_dead, b_down_atk,
  b_normal_atk, b_down_atk_r, b_down_atk_l, b_down_atk_sweep, ev_boss, set_boss,
}
use lh_server.World.Send.{broadcast}
use lh_server.World.Timers.{push, add_timer}
use lh_server.Monster.{player_at}
use lh_server.Boss.{with_boss-some, is_leg_broken, is_r_hand_broken, is_l_hand_broken}
use lh_server.Boss.States.{change_state, again, show_turn, show_attack}

-- From `w` to `v` no timer was set, and the golem at `oid`, whose id is `n`, is there still.
pub record Keeps (oid n : ℕ) (w v : World) : Type 0 where
  pub timers : v.timers ≡ w.timers
  pub there : (b : Boss) × (v.bosses oid ≡ some b) × (b.id ≡ n)

pub Keeps_same :
    (oid n : ℕ) (w u v : World)
    → v.timers ≡ u.timers
    → v.bosses ≡ u.bosses
    → Keeps oid n w u
    → Keeps oid n w v
Keeps_same oid n w u v t e k = record {
  timers = t ∙ k.timers;
  there = (k.there.0, rw e k.there.1, k.there.2);
}

pub Keeps-set :
    (oid n : ℕ) (w v : World) (b : Boss)
    → b.id ≡ n
    → Keeps oid n w v
    → Keeps oid n w (set_boss v oid b)
Keeps-set oid n w v b i k = record { timers = k.timers; there = (b, ground arith, i) }

pub change_state-Keeps :
    (oid n : ℕ) (next : BState) (w v : World)
    → Keeps oid n w v
    → Keeps oid n w (change_state oid next v)
unfolding change_state
change_state-Keeps oid n next w v k =
    rw (with_boss-some oid v _ k.there.1)
      (Keeps-set oid n w v (record k.there.0 { state = next }) k.there.2 k)

pub show-Keeps :
    (oid n : ℕ) (env : Env) (b : Boss) (atk : BState) (p : Player) (w v : World)
    → Keeps oid n w v
    → Keeps oid n w (show_attack b atk p (show_turn env b p v))
unfolding show_attack show_turn broadcast
show-Keeps oid n env b atk p w v k = Keeps_same oid n w v _ refl refl k

-- The timer of the golem `n`.
abbrev pub timer : Env → ℕ → ℕ → ℤ → Event
timer env n delay target = record {
  obj_id = n;
  event_id = ev_boss;
  wakeup_time = env.now + delay;
  target_id = target;
}

-- Whether an update in this state ends without a timer; `target` is the player at the golem's target.
unfoldable pub stalls : Option Player → Boss → BState → Bool
unfolding is_leg_broken is_r_hand_broken is_l_hand_broken
stalls target b b_idle = false
stalls target b b_attack = false
stalls target b b_chase = true
stalls target b b_dead = true
stalls target b b_normal_atk = true
stalls target b b_down_atk_r = true
stalls target b b_down_atk_l = true
stalls target b b_down_atk_sweep = true
stalls none b b_down_atk = true
stalls (some p) b b_down_atk = not (is_leg_broken b) || (is_l_hand_broken b && is_r_hand_broken b)
stalls none b _ = true
stalls (some p) b _ = is_leg_broken b

pub target_kept :
    (t : ℤ) (oid : ℕ) (w : World) (b : Boss) → player_at t (set_boss w oid b) ≡ player_at t w
unfolding player_at
target_kept (pos t) oid w b = refl
target_kept (negsuc t) oid w b = refl

-- No timer if `b`, and else that of the golem `n`.
abbrev pub Times : Env → ℕ → Bool → World → World → Type 0
Times env n true w v = v.timers ≡ w.timers
Times env n false w v =
    (delay : ℕ) × (target : ℤ) × (v.timers ≡ push (timer env n delay target) w.timers)

pub again-Times :
    (env : Env) (oid n delay : ℕ) (w v : World)
    → Keeps oid n w v
    → Times env n false w (again env oid delay v)
unfolding again add_timer
again-Times env oid n delay w v k =
    rw (with_boss-some oid v _ k.there.1) (delay, k.there.0.target, rw (k.timers, k.there.2) refl)

pub if-Keeps :
    (oid n : ℕ) (b : Bool) (w u v : World)
    → Keeps oid n w u
    → Keeps oid n w v
    → Keeps oid n w (if b then u else v)
if-Keeps oid n true w u v h k = h
if-Keeps oid n false w u v h k = k

pub if-Times :
    (env : Env) (n : ℕ) (b : Bool) (w u v : World)
    → Times env n false w u
    → Times env n false w v
    → Times env n false w (if b then u else v)
if-Times env n true w u v h k = h
if-Times env n false w u v h k = k
