-- ===== src/Physics.antt =====
-- Server/Physics.h, and the distance functions of Server/CPlayer.cpp, CMonster.cpp, CObject.cpp and
-- node.cpp. A float is its bit pattern; what the processor and <cmath> do with it is an argument.
pub mod Root
pub mod Distance
pub mod Whole
mod Examples
use lh_server.Prelude.{
  ℕ, ◌+◌, ◌-◌, ◌%◌, ◌^◌, Bool, true, false, ltb, ◌==◌, ◌&&◌, if◌then◌else◌, not, ℤ, pos, negsuc,
  ◌+ℤ◌, ◌-ℤ◌, ltb_ℤ, eqb_ℤ,
}
use Root.{isqrt}

abbrev pub Float : Type 0
Float = ℕ

-- Float arithmetic: `square f` is `int v = pow(f, 2)`, `to_int` the cast, `root n` is
-- `float d = sqrt(n)`, `degree` is `(atan2f(dy, dx) * 180) / Pi`.
pub record Fpu : Type 0 where
  pub add : Float → Float → Float
  pub sub : Float → Float → Float
  pub mul : Float → Float → Float
  pub div : Float → Float → Float
  pub lt : Float → Float → Bool
  pub to_int : Float → ℤ
  pub of_int : ℤ → Float
  pub square : Float → ℤ
  pub root : ℤ → Float
  pub cos : Float → Float
  pub sin : Float → Float
  pub degree : Float → Float → Float

pub record Position : Type 0 where
  pub x : Float
  pub y : Float
  pub z : Float

-- The two's complement value of the low 32 bits: what an `int` sum holds when it overflows.
unfoldable pub wrap32 : ℤ → ℤ
wrap32 (pos n) = let r : ℕ = n % 2 ^ 32 in if ltb r (2 ^ 31) then pos r else negsuc (2 ^ 32 - r - 1)
wrap32 (negsuc n) =
    let r : ℕ = n % 2 ^ 32 in if ltb r (2 ^ 31) then negsuc r else pos (2 ^ 32 - r - 1)

abbrev pub int_min : ℤ
int_min = negsuc 2_147_483_647

-- `int d = sqrt(n)`: of a negative number it is a NaN, whose cast gives INT_MIN.
unfoldable pub sqrt_int : ℤ → ℤ
sqrt_int (pos n) = pos (isqrt n)
sqrt_int (negsuc n) = int_min

-- `abs`, which leaves INT_MIN alone.
unfoldable pub abs_int : ℤ → ℤ
abs_int a = if eqb_ℤ a int_min then int_min else if ltb_ℤ a (pos 0) then pos 0 -ℤ a else a

module _ (f : Fpu) where
  pub add_pos : Position → Position → Position
  add_pos p q = record { x = f.add p.x q.x; y = f.add p.y q.y; z = f.add p.z q.z }

  pub sub_pos : Position → Position → Position
  sub_pos p q = record { x = f.sub p.x q.x; y = f.sub p.y q.y; z = f.sub p.z q.z }

  pub scale_pos : Position → Float → Position
  scale_pos p s = record { x = f.mul p.x s; y = f.mul p.y s; z = f.mul p.z s }

  -- `operator==` compares whole numbers, and leaves `z` out.
  unfoldable pub eq_pos : Position → Position → Bool
  eq_pos p q =
      if not (eqb_ℤ (f.to_int q.x) (f.to_int p.x))
      then false
      else if not (eqb_ℤ (f.to_int q.y) (f.to_int p.y))
      then false
      else true

  unfoldable pub is_zero : Position → Bool
  is_zero p = if eqb_ℤ (f.to_int p.x) (pos 0) && eqb_ℤ (f.to_int p.y) (pos 0) then true else false

  -- The plane distance of players and monsters, and that of a fireball in space.
  unfoldable pub get_distance : Position → Position → ℤ
  get_distance p q =
      let x : ℤ = f.square (f.sub p.x q.x) in
      let y : ℤ = f.square (f.sub p.y q.y) in abs_int (sqrt_int (wrap32 (x +ℤ y)))

  unfoldable pub get_distance3 : Position → Position → ℤ
  get_distance3 p q =
      let x : ℤ = f.square (f.sub p.x q.x) in
      let y : ℤ = f.square (f.sub p.y q.y) in
      let z : ℤ = f.square (f.sub p.z q.z) in abs_int (sqrt_int (wrap32 (wrap32 (x +ℤ y) +ℤ z)))

  -- The free function of node.cpp, which keeps the fraction.
  unfoldable pub get_distance_f : Position → Position → Float
  get_distance_f p e = f.root (wrap32 (f.square (f.sub p.x e.x) +ℤ f.square (f.sub p.y e.y)))

  unfoldable pub get_degree : Position → Position → Float
  get_degree p q = f.degree (f.sub q.y p.y) (f.sub q.x p.x)

  -- Whether an object that moves by `velocity` from `p` has `q` before it.
  unfoldable pub is_front : Position → Position → Position → Bool
  is_front velocity p q =
      let zero_f : Float = f.of_int (pos 0) in
      if f.lt zero_f velocity.x && f.lt q.x p.x
      then false
      else if f.lt velocity.x zero_f && f.lt p.x q.x
      then false
      else if f.lt zero_f velocity.y && f.lt q.y p.y
      then false
      else if f.lt velocity.y zero_f && f.lt p.y q.y
      then false
      else true
