-- ===== src/Boss/Bones.antt =====
-- What the hits on the golem's parts add up to.
use lh_server.Prelude.{
  ℕ, ◌≡◌, refl, sym, subst, ◌∙◌, Bool, true, false, List, [], ◌∷◌, some, ℤ, pos, ◌-ℤ◌, ltb_ℤ, leb_ℤ,
  if◌then◌else◌, ◌==◌, inl, inr, arith, ◌&&◌, ◌⊎◌, not,
}
use lh_server.World.{World, Boss, Part}
use lh_server.World.Send.{broadcast}
use lh_server.Boss.Break.{bone_break, hit_bone, hit_bones, bone_map_update}
use lh_server.Boss.{with_boss-some, part_number, set_part, all_parts}

-- Whether a report that a part is at `seen` is a hit on a part that is at `left`.
unfoldable pub hits : ℤ → ℤ → Bool
hits seen left = ltb_ℤ seen left && not (leb_ℤ left (pos 0))

-- What the golem is after a round for the part: the part is hit, and breaks with its last hit.
unfoldable pub struck : (Part → ℤ) → Part → Boss → Boss
unfolding bone_break set_part
struck seen part b =
    if hits (seen part) (b.bone_map part)
    then (let left : ℤ = b.bone_map part -ℤ pos 1 in
        let hit : Boss = record b { bone_map = set_part b.bone_map part left } in
        if leb_ℤ left (pos 0) then bone_break part hit else hit)
    else b

pub hit_bone-struck :
    (oid : ℕ) (seen : Part → ℤ) (part : Part) (w : World) (b : Boss)
    → w.bosses oid ≡ some b
    → (hit_bone oid seen part w).bosses oid ≡ some (struck seen part b)
unfolding hit_bone struck hits broadcast
hit_bone-struck oid seen part w b e = rw (with_boss-some oid w _ e) (ground arith)

-- The part after a round for it, and after one for another part.
struck_self :
    (seen : Part → ℤ) (part : Part) (b : Boss)
    → ((struck seen part b).bone_map part ≡ (
        if hits (seen part) (b.bone_map part) then b.bone_map part -ℤ pos 1 else b.bone_map part))
      × ((struck seen part b).is_destroy part ≡ (
          if hits (seen part) (b.bone_map part) && leb_ℤ (b.bone_map part -ℤ pos 1) (pos 0)
          then true
          else b.is_destroy part))
unfolding struck set_part bone_break
struck_self seen part b = ground arith

struck_other :
    (seen : Part → ℤ) (part q : Part) (b : Boss)
    → (part_number q == part_number part) ≡ false
    → ((struck seen part b).bone_map q ≡ b.bone_map q)
      × ((struck seen part b).is_destroy q ≡ b.is_destroy q)
unfolding struck set_part bone_break
struck_other seen part q b h = ground arith

-- No part of the list is `q`; one is, and only one.
abbrev Absent : Part → List Part → Type 0
Absent q [] = Unit {0}
Absent q (part ∷ parts) = ((part_number q == part_number part) ≡ false) × Absent q parts

abbrev Once : Part → List Part → Type 0
Once q [] = ⊥
Once q (part ∷ parts) =
    ((q ≡ part) × Absent q parts) ⊎ (((part_number q == part_number part) ≡ false) × Once q parts)

all-Once : (q : Part) → Once q all_parts
unfolding part_number
all-Once q = ground arith

-- What the part `q` of the golem `oid` is in `w`.
abbrev pub PartIs : ℕ → Part → ℤ → Bool → World → Type 0
PartIs oid q left broken w =
    (c : Boss) × (w.bosses oid ≡ some c) × (c.bone_map q ≡ left) × (c.is_destroy q ≡ broken)

hit_bones-Absent :
    (oid : ℕ) (seen : Part → ℤ) (q : Part) (parts : List Part) (left : ℤ) (broken : Bool)
    (w : World)
    → Absent q parts
    → PartIs oid q left broken w
    → PartIs oid q left broken (hit_bones oid seen parts w)
unfolding hit_bones
hit_bones-Absent oid seen q [] left broken w a h = h
hit_bones-Absent oid seen q (part ∷ parts) left broken w a (b, e, l, d) =
    let same = struck_other seen part q b a.0 in
    hit_bones-Absent oid seen q parts left broken (hit_bone oid seen part w) a.1
      (struck seen part b, hit_bone-struck oid seen part w b e, same.0 ∙ l, same.1 ∙ d)

abbrev pub left_after : ℤ → ℤ → ℤ
left_after seen left = if hits seen left then left -ℤ pos 1 else left

abbrev pub broken_after : ℤ → ℤ → Bool → Bool
broken_after seen left broken =
    if hits seen left && leb_ℤ (left -ℤ pos 1) (pos 0) then true else broken

hit_bones-Once :
    (oid : ℕ) (seen : Part → ℤ) (q : Part) (parts : List Part) (left : ℤ) (broken : Bool)
    (w : World)
    → Once q parts
    → PartIs oid q left broken w
    → PartIs oid q
        (left_after (seen q) left)
        (broken_after (seen q) left broken)
        (hit_bones oid seen parts w)
unfolding hit_bones
hit_bones-Once oid seen q [] left broken w o h = absurd o
hit_bones-Once oid seen q (part ∷ parts) left broken w (inr (f, o)) (b, e, l, d) =
    let same = struck_other seen part q b f in
    hit_bones-Once oid seen q parts left broken (hit_bone oid seen part w) o
      (struck seen part b, hit_bone-struck oid seen part w b e, same.0 ∙ l, same.1 ∙ d)
hit_bones-Once oid seen q (part ∷ parts) left broken w (inl (f, a)) (b, e, l, d) =
    let self = struck_self seen q b in
    subst
      (λ r.
        PartIs oid q (left_after (seen q) left) (broken_after (seen q) left broken)
          (hit_bones oid seen parts (hit_bone oid seen r w)))
      f
      (hit_bones-Absent oid seen q parts _ _ (hit_bone oid seen q w) a (
        struck seen q b,
        hit_bone-struck oid seen q w b e,
        rw (sym l) self.0,
        rw (sym l, sym d) self.1,
      ))

-- A report of the bones takes one hit from each part that it shows weaker than it is, if the part has
-- a hit left, and no more than one, however much weaker it is shown; the part whose last hit it was is
-- destroyed, and no part is made whole.
pub bone_map_update_lem :
    (oid : ℕ) (seen : Part → ℤ) (w : World) (b : Boss) (q : Part)
    → w.bosses oid ≡ some b
    → PartIs oid q
        (left_after (seen q) (b.bone_map q))
        (broken_after (seen q) (b.bone_map q) (b.is_destroy q))
        (bone_map_update oid seen w)
unfolding bone_map_update
bone_map_update_lem oid seen w b q e =
    hit_bones-Once oid seen q all_parts (b.bone_map q) (b.is_destroy q) w (all-Once q)
      (b, e, refl, refl)
