-- ===== src/System/Blows.antt =====
-- The handlers that reach the golem wear it down, and leave the monsters to themselves.
use lh_server.Prelude.{
  ℕ, ◌≡◌, refl, false, ap, Bool-cases, ◌==◌, List, [], ◌∷◌, some, ℤ, pos, negsuc, inl, inr, arith,
  Option-cases, ◌∙◌,
}
use lh_server.Physics.{Position}
use lh_server.World.{World, Boss, set_boss, Part, crash, boss_idx}
use lh_server.World.Send.{broadcast, broadcast_others}
use mathlib.Core.Path.{fun_ext}
use lh_server.Boss.Wear.{Worn-refl, struck-Worn}
use lh_server.Boss.Bones.{struck, hit_bone-struck}
use lh_server.Boss.Break.{bone_map_update, hit_bones, hit_bone}
use lh_server.Boss.{with_boss}
use lh_server.Dispatch.{move_boss, boss_attack, boss_bone}
use lh_server.System.Steady.{Steady, Steady-refl, Steady-trans, Steady-untouched, set_boss-Steady}
use lh_server.System.Handlers.{Still}

pub move_boss-Steady :
    (uid : ℕ) (destination rotation : Position) (w : World)
    → Steady w (move_boss uid destination rotation w)
unfolding move_boss broadcast_others
move_boss-Steady uid destination rotation w = elim (Option-cases (w.bosses boss_idx)) [
  | inl e ↦ rw (e, move_boss) (Steady-refl w)
  | inr (b, e) ↦
      rw (e, move_boss)
        (Steady-untouched w
          (set_boss w boss_idx (record b { rotation = rotation; pos = destination })) _ refl refl
          refl refl (set_boss-Steady boss_idx b _ w w e (Worn-refl b) (Steady-refl w)))
]

pub boss_attack-Still : (uid : ℕ) (oid atk : ℤ) (w : World) → Still w (boss_attack uid oid atk w)
unfolding boss_attack broadcast_others
boss_attack-Still uid oid atk w =
    (ground arith, ground arith, ground arith, λ i h. ground (arith, h))

hit_bone-same :
    (oid : ℕ) (seen : Part → ℤ) (part : Part) (w : World)
    → ((hit_bone oid seen part w).players ≡ w.players)
      × ((hit_bone oid seen part w).monsters ≡ w.monsters)
      × ((hit_bone oid seen part w).timers ≡ w.timers)
unfolding hit_bone with_boss crash broadcast
hit_bone-same oid seen part w = ground arith

hit_bone-others :
    (oid : ℕ) (seen : Part → ℤ) (part : Part) (w : World) (i : ℕ)
    → (i == oid) ≡ false
    → (hit_bone oid seen part w).bosses i ≡ w.bosses i
unfolding hit_bone with_boss crash broadcast
hit_bone-others oid seen part w i h = ground (arith, h)

pub hit_bone-Steady :
    (oid : ℕ) (seen : Part → ℤ) (part : Part) (w : World) (b : Boss)
    → w.bosses oid ≡ some b
    → Steady w (hit_bone oid seen part w)
hit_bone-Steady oid seen part w b e =
    let same = hit_bone-same oid seen part w in
    Steady-untouched w (set_boss w oid (struck seen part b)) (hit_bone oid seen part w) same.0
      same.1 same.2 (fun_ext slot)
      (set_boss-Steady oid b _ w w e (struck-Worn seen part b) (Steady-refl w))
  where
    slot :
        (i : ℕ)
        → (hit_bone oid seen part w).bosses i ≡ (set_boss w oid (struck seen part b)).bosses i
    slot i = elim (Bool-cases (i == oid)) [
      | inl h ↦
          let at_oid : i ≡ oid = ground (arith, h) in
          ap (hit_bone oid seen part w).bosses at_oid
          ∙ hit_bone-struck oid seen part w b e
          ∙ ground (arith, h)
      | inr h ↦ hit_bone-others oid seen part w i h ∙ ground (arith, h)
    ]

pub hit_bones-Steady :
    (oid : ℕ) (seen : Part → ℤ) (parts : List Part) (w : World) (b : Boss)
    → w.bosses oid ≡ some b
    → Steady w (hit_bones oid seen parts w)
unfolding hit_bones
hit_bones-Steady oid seen [] w b e = Steady-refl w
hit_bones-Steady oid seen (part ∷ parts) w b e =
    Steady-trans w (hit_bone oid seen part w) _ (hit_bone-Steady oid seen part w b e) (
      hit_bones-Steady oid seen parts (hit_bone oid seen part w) (struck seen part b)
        (hit_bone-struck oid seen part w b e))

pub boss_bone-Steady : (oid : ℤ) (seen : Part → ℤ) (w : World) → Steady w (boss_bone oid seen w)
unfolding boss_bone bone_map_update
boss_bone-Steady (negsuc oid) seen w = Steady-refl w
boss_bone-Steady (pos oid) seen w = elim (Option-cases (w.bosses oid)) [
  | inl e ↦ rw (e, boss_bone) (Steady-refl w)
  | inr (b, e) ↦ rw (e, boss_bone) (hit_bones-Steady oid seen _ w b e)
]
