-- ===== src/Boss/Break.antt =====
-- `BoneBreak`, `BoneMapUpdate` and `IsPartDestroyed` of Server/Boss.cpp: how the parts of the golem break.
use lh_server.Prelude.{
  ℕ, Bool, true, List, [], ◌∷◌, ◌==◌, ◌&&◌, if◌then◌else◌, ℤ, pos, ◌-ℤ◌, ltb_ℤ, leb_ℤ,
}
use lh_server.Protocol.{Packet}
use lh_server.World.{World, Boss, Part, r_hand, r_forearm, l_hand, l_forearm, set_boss}
use lh_server.World.Send.{broadcast}
use lh_server.Boss.{with_boss, part_number, all_parts, set_part}

-- `BoneBreak`.
unfoldable pub bone_break : Part → Boss → Boss
unfolding set_part
bone_break part b = record b {
  part_hp = set_part b.part_hp part (pos 0);
  is_destroy = set_part b.is_destroy part true;
}

-- A round of `BoneMapUpdate`.
unfoldable pub hit_bone : ℕ → (Part → ℤ) → Part → World → World
hit_bone oid new_bone_map part w = with_boss oid w λ b.
    if ltb_ℤ (new_bone_map part) (b.bone_map part)
    then (if leb_ℤ (b.bone_map part) (pos 0)
        then w
        else (let left : ℤ = b.bone_map part -ℤ pos 1 in
            let hit : Boss = record b { bone_map = set_part b.bone_map part left } in
            if leb_ℤ left (pos 0)
            then broadcast (Packet.bone_break (pos b.id) (pos (part_number part)))
                (set_boss w oid (bone_break part hit))
            else set_boss w oid hit))
    else w

unfoldable pub hit_bones : ℕ → (Part → ℤ) → List Part → World → World
hit_bones oid new_bone_map [] w = w
hit_bones oid new_bone_map (part ∷ parts) w =
    hit_bones oid new_bone_map parts (hit_bone oid new_bone_map part w)

unfoldable pub bone_map_update : ℕ → (Part → ℤ) → World → World
bone_map_update oid new_bone_map w = hit_bones oid new_bone_map all_parts w

abbrev pub destroyed_by : (Part → ℤ) → (Part → Bool) → Part → Part → Bool
destroyed_by hp broken part q =
    if part_number q == part_number part && leb_ℤ (hp part) (pos 0) then true else broken q

unfoldable pub is_part_destroyed : Boss → Boss
unfolding part_number
is_part_destroyed b = record b {
  is_destroy =
      destroyed_by b.part_hp
        (destroyed_by b.part_hp
          (destroyed_by b.part_hp (destroyed_by b.part_hp b.is_destroy l_hand) r_hand) l_forearm)
        r_forearm;
  head_destroyed = if leb_ℤ b.head_hp (pos 0) then true else b.head_destroyed;
}
