-- ===== src/Boss/Examples.antt =====
-- A golem that stands by the player of the sample field.
use lh_server.Prelude.{◌≡◌, refl, true, false, none, some, pos, ◌==◌, if◌then◌else◌, []}
use lh_server.World.{World, Boss, l_hand, b_dash_atk}
use lh_server.World.Samples.{goblin, field, noon}
use lh_server.Boss.Break.{bone_map_update}
use lh_server.Boss.{first_bones, attack}
use lh_server.Boss.Aim.{attack-aim}
use lh_server.Boss.Bones.{PartIs, left_after, broken_after, bone_map_update_lem}

abbrev pub golem : Boss
golem = record {
  body_hp = pos 100;
  head_hp = pos 100;
  part_hp = λ q. pos 100;
  is_destroy = λ q. false;
  head_destroyed = false;
  bone_map = first_bones;
  default_pos = goblin.pos;
  pos = goblin.pos;
  rotation = goblin.rotation;
  state = b_dash_atk;
  is_active = true;
  target = pos 7;
  id = 20000;
  main_hp = pos 600;
  chase_path = [];
}

abbrev arena : World
arena = record field { bosses = λ i. if i == 20000 then some golem else none }

attack-aim_example :
    (attack noon golem arena).0
    ≡ elim (arena.players 0) [ none ↦ golem | some p ↦ record golem { target = pos 0 } ]
attack-aim_example = attack-aim noon golem arena

bone_map_update_lem_example :
    PartIs 20000 l_hand
      (left_after (pos 1) (first_bones l_hand))
      (broken_after (pos 1) (first_bones l_hand) false)
      (bone_map_update 20000 (λ q. pos 1) arena)
bone_map_update_lem_example = bone_map_update_lem 20000 (λ q. pos 1) arena golem l_hand refl
