-- ===== src/Boss/Chase.antt =====
-- `Idle` and `Chase` of Server/Boss.cpp: whether somebody is near, and the way to the target.
use lh_server.Prelude.{
  ℕ, ◌+◌, ◌*◌, Bool, true, false, List, [], ◌∷◌, Option, none, some, ◌==◌, ◌&&◌, if◌then◌else◌, ℤ,
  pos, negsuc, ◌-ℤ◌,
}
use lh_server.Physics.{Float, Fpu, Position, get_distance_f}
use lh_server.PathFinder.{Pos2d, wrap16, get_path}
use lh_server.World.{
  World, Player, Boss, BState, b_idle, b_chase, b_attack, no_detected, player_ids,
}
use lh_server.Monster.{player_at}
use lh_server.Boss.{boss_activity_range}

-- ACTIVITY_RANGE and ATTACK_RANGE.
abbrev activity_range : ℤ
activity_range = pos 400000

abbrev attack_range : ℤ
attack_range = pos 300

-- The first loop of `Idle`, which is all of it that runs.
unfoldable pub someone_near : Fpu → Position → (ℕ → Option Player) → List ℕ → Bool
someone_near f at players [] = false
someone_near f at players (i ∷ is) =
    let rest : Bool = someone_near f at players is in
    elim (players i) [
      | none ↦ rest
      | some p ↦
          let d : Float = get_distance_f f at p.pos in
          if f.lt d (f.of_int boss_activity_range) && f.lt (f.of_int (pos 0)) d then true else rest
    ]

unfoldable pub idle : Fpu → Boss → World → BState
idle f b w = if someone_near f b.pos w.players player_ids then b_attack else b_idle

-- Grid and world coordinates: (x - SIDE_MIN) / POS_SCALE, and x * POS_SCALE + SIDE_MIN.
unfoldable pub to_grid : Fpu → Float → ℤ
to_grid f x = wrap16 (f.to_int (f.div (f.sub x (f.of_int (negsuc 50999))) (f.of_int (pos 100))))

abbrev times_100 : ℤ → ℤ
times_100 (pos n) = pos (n * 100)
times_100 (negsuc n) = negsuc (n * 100 + 99)

unfoldable pub from_grid : Fpu → ℤ → Float
from_grid f x = f.of_int (times_100 x -ℤ pos 51000)

abbrev pub grid_of : Fpu → Position → Pos2d
grid_of f p = record { x = to_grid f p.x; y = to_grid f p.y }

-- `Chase`: the golem, and what it does next; `none` where a NULL pointer or the front of an empty
-- list is followed. Where the way ends, the target's place is not asked for.
unfoldable pub follow_path : Fpu → Boss → Option Player → List Pos2d → Option (Boss × BState)
follow_path f b target_p [] = none
follow_path f b target_p (p ∷ path) =
    let at : Position = record b.pos { x = from_grid f p.x; y = from_grid f p.y } in
    let moved : Boss = record b { pos = at; chase_path = path } in
    elim path [
      | [] ↦ some (moved, b_idle)
      | _ ∷ _ ↦ elim target_p [
        | none ↦ none
        | some t ↦
            let d : Float = get_distance_f f at t.pos in
            if f.lt d (f.of_int attack_range)
            then some (record moved { chase_path = [] }, b_attack)
            else if f.lt (f.of_int activity_range) d
            then some (record moved { chase_path = []; target = no_detected }, b_idle)
            else some (moved, b_chase)
      ]
    ]

abbrev is_no_detected : ℤ → Bool
is_no_detected (pos n) = false
is_no_detected (negsuc n) = n == 0

unfoldable pub chase : Fpu → Boss → World → Option (Boss × BState)
chase f b w = if is_no_detected b.target then some (b, b_idle) else elim b.chase_path [
  | [] ↦ elim (player_at b.target w) [
    | none ↦ none
    | some p ↦ elim (get_path (grid_of f b.pos) (grid_of f p.pos)) [
      | none ↦ none
      | some path ↦ follow_path f b (some p) path
    ]
  ]
  | q ∷ path ↦ follow_path f b (player_at b.target w) (q ∷ path)
]
