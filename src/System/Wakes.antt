-- ===== src/System/Wakes.antt =====
-- What the golem's update may do: leave the monsters to themselves, and set one timer.
use lh_server.Prelude.{
  ℕ, ◌≡◌, Bool, Option, none, some, refl, if◌then◌else◌, Option-cases, inl, inr,
}
use lh_server.World.{World, Boss, crash, ev_boss}
use lh_server.Boss.{with_boss}
use lh_server.Boss.Wear.{Worn}
use lh_server.Prelude.{sym, arith}
use lh_server.World.{Event}
use lh_server.World.Timers.{push}
use lh_server.Prelude.{◌⊎◌, true, false, ◌∙◌, ap, ◌≤◌, suc}
use lh_server.World.Seats.{Seats, id_at}
use lh_server.System.Due.{timers_of, of_boss, timers_of-push, one_if}
use lh_server.System.Steady.{Steady, Steady-untouched}

-- The golem has moved on, and its timer may have been set again, once.
abbrev pub Wakes : World → World → Type 0
Wakes w v =
    Steady w v
    ⊎ ((u : World) × Steady w u
        × ((e : Event) × (e.event_id ≡ ev_boss) × (v ≡ record u { timers = push e u.timers })))

pub if-Wakes : (b : Bool) (w u v : World) → Wakes w u → Wakes w v → Wakes w (if b then u else v)
if-Wakes true w u v h k = h
if-Wakes false w u v h k = k

pub elim-Wakes {ℓ} :
    {A : Type ℓ} (o : Option A) (w u : World) (f : A → World)
    → Wakes w u
    → ((a : A) → o ≡ some a → Wakes w (f a))
    → Wakes w (elim o [ none ↦ u | some a ↦ f a ])
elim-Wakes none w u f h k = h
elim-Wakes (some a) w u f h k = k a refl

pub with_boss-Wakes :
    (i : ℕ) (w v : World) (f : Boss → World)
    → Steady w v
    → ((b : Boss) → v.bosses i ≡ some b → Wakes w (f b))
    → Wakes w (with_boss i v f)
unfolding crash with_boss
with_boss-Wakes i w v f k h = elim (Option-cases (v.bosses i)) [
  | inl e ↦ rw (e, with_boss) (inl (Steady-untouched w v (crash v) refl refl refl refl k))
  | inr (b, e) ↦ rw (e, with_boss) (h b e)
]

-- What a golem that has moved on leaves alone.
pub Wakes-Seats : (w v : World) → Wakes w v → Seats w v
Wakes-Seats w v (inl k) = k.seats
Wakes-Seats w v (inr (u, k, (e, h, f))) =
    λ i g. ap (λ (x : World). id_at x.players i) f ∙ k.seats i g

pub Wakes-golem :
    (w v : World)
    → Wakes w v
    → (i : ℕ) (b : Boss) → v.bosses i ≡ some b
    → (a : Boss) × (w.bosses i ≡ some a) × Worn a b
Wakes-golem w v (inl k) = k.ticks.golem
Wakes-golem w v (inr (u, k, (e, h, f))) =
    λ i b g. k.ticks.golem i b (sym (ap (λ (x : World). x.bosses i) f) ∙ g)

pub Wakes-calls :
    (w v : World) → Wakes w v → timers_of of_boss v.timers ≤ suc (timers_of of_boss w.timers)
Wakes-calls w v (inl k) = omega (arith, k.ticks.calls)
Wakes-calls w v (inr (u, k, (e, h, f))) =
    let is_boss : one_if (of_boss e.event_id e.obj_id) ≡ 1 = rw h refl in
    omega (
      arith,
      k.ticks.calls,
      ap (λ (x : World). timers_of of_boss x.timers) f,
      timers_of-push of_boss e u.timers,
      is_boss,
    )
