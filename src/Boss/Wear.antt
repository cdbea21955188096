-- ===== src/Boss/Wear.antt =====
-- What the parts of the golem are at any time: they only wear down, and a part is destroyed exactly when
-- it has no hit left.
use lh_server.Prelude.{
  ℕ, ◌≡◌, refl, sym, ap, subst, ◌∙◌, Bool, true, false, ℤ, pos, ◌-ℤ◌, -ℤ_parts, ◌≤ℤ◌, leb_ℤ,
  if◌then◌else◌, ◌==◌, Bool-cases, inl, inr, arith,
}
use mathlib.Core.Path.{fun_ext}
use lh_server.World.{
  Boss, Part, r_hand, r_forearm, r_upperarm, r_foor, r_calf, r_thight, l_hand, l_forearm,
  l_upperarm, l_foor, l_calf, l_thight,
}
use lh_server.Physics.{Position}
use lh_server.Boss.Break.{bone_break, is_part_destroyed, destroyed_by}
use lh_server.Boss.{part_number, set_part, first_bones, first_hp, initialize}
use lh_server.Boss.Bones.{struck, hits}

-- The upper arms, whose health nobody sets.
abbrev pub is_upper_arm : Part → Bool
is_upper_arm r_upperarm = true
is_upper_arm l_upperarm = true
is_upper_arm _ = false

-- A part has as many hits left as it has at the start, or fewer, but not less than none; it is
-- destroyed exactly when none is left; and its health is gone only if it is destroyed.
abbrev pub IsIntactPart : Boss → Part → Type 0
IsIntactPart b q =
    (pos 0 ≤ℤ b.bone_map q)
    × (b.bone_map q ≤ℤ first_bones q)
    × (b.is_destroy q ≡ leb_ℤ (b.bone_map q) (pos 0))
    × (is_upper_arm q ≡ false → leb_ℤ (b.part_hp q) (pos 0) ≡ true → b.is_destroy q ≡ true)

abbrev pub IsIntact : Boss → Type 0
IsIntact b = (q : Part) → IsIntactPart b q

-- From `a` to `b` the golem is the same, no part has more hits left, none is whole again, and what was
-- in order is so still.
abbrev pub Worn : Boss → Boss → Type 0
Worn a b =
    (b.id ≡ a.id)
    × ((q : Part)
        → (b.bone_map q ≤ℤ a.bone_map q) × (a.is_destroy q ≡ true → b.is_destroy q ≡ true))
    × (IsIntact a → IsIntact b)

pub Worn-refl : (b : Boss) → Worn b b
Worn-refl b = (refl, λ q. (omega arith, λ h. h), λ h. h)

pub Worn-trans : (a b c : Boss) → Worn a b → Worn b c → Worn a c
Worn-trans a b c h k = (
  k.0 ∙ h.0,
  λ q. (omega (arith, (h.1 q).0, (k.1 q).0), λ d. (k.1 q).1 ((h.1 q).1 d)),
  λ i. k.2 (h.2 i),
)

pub initialize-IsIntact :
    (id : ℕ) (p : Position) (memory : Boss) → IsIntact (initialize id p memory)
unfolding initialize first_bones first_hp
initialize-IsIntact id p memory q = ground arith

abbrev part_of : ℕ → Part
part_of n =
    if n == 0
    then r_hand
    else if n == 1
    then r_forearm
    else if n == 2
    then r_upperarm
    else if n == 3
    then r_foor
    else if n == 4
    then r_calf
    else if n == 5
    then r_thight
    else if n == 6
    then l_hand
    else if n == 7
    then l_forearm
    else if n == 8
    then l_upperarm
    else if n == 9
    then l_foor
    else if n == 10
    then l_calf
    else l_thight

part_of_number : (q : Part) → part_of (part_number q) ≡ q
unfolding part_number
part_of_number r_hand = refl
part_of_number r_forearm = refl
part_of_number r_upperarm = refl
part_of_number r_foor = refl
part_of_number r_calf = refl
part_of_number r_thight = refl
part_of_number l_hand = refl
part_of_number l_forearm = refl
part_of_number l_upperarm = refl
part_of_number l_foor = refl
part_of_number l_calf = refl
part_of_number l_thight = refl

same_part : (p q : Part) → (part_number p == part_number q) ≡ true → p ≡ q
same_part p q h =
    let same : part_number p ≡ part_number q = ground (arith, h) in
    sym (part_of_number p) ∙ ap part_of same ∙ part_of_number q

-- The part that is struck.
self-wear :
    (seen : Part → ℤ) (part : Part) (b : Boss)
    → let c = struck seen part b in
      ((c.bone_map part ≤ℤ b.bone_map part) × (b.is_destroy part ≡ true → c.is_destroy part ≡ true))
      × (IsIntactPart b part → IsIntactPart c part)
unfolding struck hits set_part bone_break
self-wear seen part b =
    let one = -ℤ_parts (b.bone_map part) (pos 1) in
    elim (Bool-cases (hits (seen part) (b.bone_map part))) [
      | inl hit ↦ elim (Bool-cases (leb_ℤ (b.bone_map part -ℤ pos 1) (pos 0))) [
        | inl broken ↦ ground (arith, hit, broken, one)
        | inr left ↦ ground (arith, hit, left, one)
      ]
      | inr missed ↦ rw missed ((omega arith, λ d. d), λ h. h)
    ]

-- The others.
other-wear :
    (seen : Part → ℤ) (part q : Part) (b : Boss)
    → (part_number q == part_number part) ≡ false
    → let c = struck seen part b in
      (c.bone_map q ≡ b.bone_map q)
      × (c.is_destroy q ≡ b.is_destroy q)
      × (c.part_hp q ≡ b.part_hp q)
unfolding struck hits set_part bone_break
other-wear seen part q b h = ground arith

-- Asking for the health of a part that is destroyed if it has none changes nothing.
destroyed_by-same :
    (hp : Part → ℤ) (f : Part → Bool) (part q : Part)
    → (leb_ℤ (hp part) (pos 0) ≡ true → f part ≡ true)
    → destroyed_by hp f part q ≡ f q
destroyed_by-same hp f part q h = elim (Bool-cases (part_number q == part_number part)) [
  | inl same ↦ subst (λ r. destroyed_by hp f part r ≡ f r) (sym (same_part q part same)) at_part
  | inr other ↦ ground (arith, other)
]
  where
    at_part : destroyed_by hp f part part ≡ f part
    at_part = elim (Bool-cases (leb_ℤ (hp part) (pos 0))) [
      | inl gone ↦ ground (arith, gone, h gone)
      | inr left ↦ ground (arith, left)
    ]

destroyed_by-true :
    (hp : Part → ℤ) (f : Part → Bool) (part q : Part) → f q ≡ true → destroyed_by hp f part q ≡ true
destroyed_by-true hp f part q h = ground (arith, h)

pub is_part_destroyed-Worn : (b : Boss) → Worn b (is_part_destroyed b)
unfolding is_part_destroyed
is_part_destroyed-Worn b = (
  refl,
  λ q. (omega arith, grown q),
  λ h q. ((h q).0, (h q).1, kept h q ∙ (h q).2, λ u l. kept h q ∙ (h q).3 u l),
)
  where
    grown : (q : Part) → b.is_destroy q ≡ true → (is_part_destroyed b).is_destroy q ≡ true
    grown q d =
        let hp : Part → ℤ = b.part_hp in
        let first : Part → Bool = destroyed_by hp b.is_destroy l_hand in
        let second : Part → Bool = destroyed_by hp first r_hand in
        let third : Part → Bool = destroyed_by hp second l_forearm in
        destroyed_by-true hp third r_forearm q (
          destroyed_by-true hp second l_forearm q
            (destroyed_by-true hp first r_hand q (destroyed_by-true hp b.is_destroy l_hand q d)))

    kept : IsIntact b → (q : Part) → (is_part_destroyed b).is_destroy q ≡ b.is_destroy q
    kept h q =
        let hp : Part → ℤ = b.part_hp in
        ap (λ g. destroyed_by hp (destroyed_by hp (destroyed_by hp g r_hand) l_forearm) r_forearm q)
          (fun_ext (λ r. destroyed_by-same hp b.is_destroy l_hand r ((h l_hand).3 refl)))
        ∙ ap (λ g. destroyed_by hp (destroyed_by hp g l_forearm) r_forearm q)
            (fun_ext (λ r. destroyed_by-same hp b.is_destroy r_hand r ((h r_hand).3 refl)))
        ∙ ap (λ g. destroyed_by hp g r_forearm q)
            (fun_ext (λ r. destroyed_by-same hp b.is_destroy l_forearm r ((h l_forearm).3 refl)))
        ∙ destroyed_by-same hp b.is_destroy r_forearm q ((h r_forearm).3 refl)

pub struck-Worn : (seen : Part → ℤ) (part : Part) (b : Boss) → Worn b (struck seen part b)
unfolding struck bone_break
struck-Worn seen part b = (ground arith, wears, λ h q. intact h q)
  where
    wears :
        (q : Part)
        → ((struck seen part b).bone_map q ≤ℤ b.bone_map q)
          × (b.is_destroy q ≡ true → (struck seen part b).is_destroy q ≡ true)
    wears q = elim (Bool-cases (part_number q == part_number part)) [
      | inl same ↦
          subst
            (λ r.
              ((struck seen part b).bone_map r ≤ℤ b.bone_map r)
              × (b.is_destroy r ≡ true → (struck seen part b).is_destroy r ≡ true))
            (sym (same_part q part same)) (self-wear seen part b).0
      | inr other ↦
          let kept = other-wear seen part q b other in (rw kept.0 (omega arith), λ d. kept.1 ∙ d)
    ]

    intact : IsIntact b → (q : Part) → IsIntactPart (struck seen part b) q
    intact h q = elim (Bool-cases (part_number q == part_number part)) [
      | inl same ↦
          subst (IsIntactPart (struck seen part b)) (sym (same_part q part same))
            ((self-wear seen part b).1 (h part))
      | inr other ↦ let kept = other-wear seen part q b other in rw (kept.0, kept.1, kept.2) (h q)
    ]
