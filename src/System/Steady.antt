-- ===== src/System/Steady.antt =====
-- What a handler must leave alone: the monsters and the golem, as far as System/Ticks says, and the ids
-- of the players in their slots.
use lh_server.Prelude.{
  ℕ, ◌≡◌, refl, ap, ◌∙◌, Bool, true, false, Option, none, some, if◌then◌else◌, ℤ, Option-cases, inl,
  inr,
}
use lh_server.World.{
  World, Player, Monster, Boss, EventId, with_player, with_monster, crash, set_player, set_monster,
  set_boss,
}
use lh_server.World.Timers.{add_timer}
use lh_server.World.Seats.{id_at, Seats, set_player-Seats}
use lh_server.Boss.Wear.{Worn}
use lh_server.Start.Timers.{is_monster_event, is_boss_event}
use lh_server.System.Ticks.{
  Ticks, Ticks-refl, Ticks-trans, Ticks-untouched, add_timer-Ticks, set_monster-Ticks,
  set_boss-Ticks,
}

pub record Steady (w v : World) : Type 0 where
  pub ticks : Ticks w v
  pub seats : Seats w v

pub Steady-refl : (w : World) → Steady w w
Steady-refl w = record { ticks = Ticks-refl w; seats = λ i h. h }

pub Steady-trans : (u w v : World) → Steady u w → Steady w v → Steady u v
Steady-trans u w v a b = record {
  ticks = Ticks-trans u w v a.ticks b.ticks;
  seats = λ i h. b.seats i (a.seats i h);
}

-- Neither the players nor the monsters nor the timers nor the golem are touched.
pub Steady-untouched :
    (w u v : World)
    → v.players ≡ u.players
    → v.monsters ≡ u.monsters
    → v.timers ≡ u.timers
    → v.bosses ≡ u.bosses
    → Steady w u
    → Steady w v
Steady-untouched w u v p e t g k = record {
  ticks = Ticks-untouched w u v e t g k.ticks;
  seats = λ i h. ap (λ players. id_at players i) p ∙ k.seats i h;
}

pub add_timer-Steady :
    (oid : ℕ) (kind : EventId) (time : ℕ) (target : ℤ) (w v : World)
    → is_monster_event kind ≡ false
    → is_boss_event kind ≡ false
    → Steady w v
    → Steady w (add_timer oid kind time target v)
unfolding add_timer
add_timer-Steady oid kind time target w v h g k = record {
  ticks = add_timer-Ticks oid kind time target w v h g k.ticks;
  seats = k.seats;
}

-- A player is written back with its id.
pub set_player-Steady :
    (me : ℕ) (p q : Player) (w v : World)
    → v.players me ≡ some p
    → q.id ≡ p.id
    → Steady w v
    → Steady w (set_player v me q)
set_player-Steady me p q w v e id k = record {
  ticks = Ticks-untouched w v (set_player v me q) refl refl refl k.ticks;
  seats = set_player-Seats me p q w v e id k.seats;
}

pub set_monster-Steady :
    (oid : ℕ) (m n : Monster) (w v : World)
    → v.monsters oid ≡ some m
    → n.id ≡ m.id
    → n.state ≡ m.state
    → Steady w v
    → Steady w (set_monster v oid n)
set_monster-Steady oid m n w v e id state k = record {
  ticks = set_monster-Ticks oid m n w v e id state k.ticks;
  seats = k.seats;
}

pub set_boss-Steady :
    (oid : ℕ) (b c : Boss) (w v : World)
    → v.bosses oid ≡ some b
    → Worn b c
    → Steady w v
    → Steady w (set_boss v oid c)
set_boss-Steady oid b c w v e worn k = record {
  ticks = set_boss-Ticks oid b c w v e worn k.ticks;
  seats = k.seats;
}

pub if-Steady : (b : Bool) (w u v : World) → Steady w u → Steady w v → Steady w (if b then u else v)
if-Steady true w u v h k = h
if-Steady false w u v h k = k

pub with_player-Steady :
    (i : ℕ) (w v : World) (f : Player → World)
    → Steady w v
    → ((p : Player) → v.players i ≡ some p → Steady w (f p))
    → Steady w (with_player i v f)
unfolding crash with_player
with_player-Steady i w v f k h = elim (Option-cases (v.players i)) [
  | inl e ↦ rw (e, with_player) (Steady-untouched w v (crash v) refl refl refl refl k)
  | inr (p, e) ↦ rw (e, with_player) (h p e)
]

pub with_monster-Steady :
    (i : ℕ) (w v : World) (f : Monster → World)
    → Steady w v
    → ((m : Monster) → v.monsters i ≡ some m → Steady w (f m))
    → Steady w (with_monster i v f)
unfolding crash with_monster
with_monster-Steady i w v f k h = elim (Option-cases (v.monsters i)) [
  | inl e ↦ rw (e, with_monster) (Steady-untouched w v (crash v) refl refl refl refl k)
  | inr (m, e) ↦ rw (e, with_monster) (h m e)
]

-- An untouched world's equations, one step further.
pub elim-Steady {ℓ} :
    {A : Type ℓ} (o : Option A) (w u : World) (f : A → World)
    → Steady w u
    → ((a : A) → o ≡ some a → Steady w (f a))
    → Steady w (elim o [ none ↦ u | some a ↦ f a ])
elim-Steady none w u f h k = h
elim-Steady (some a) w u f h k = k a refl
