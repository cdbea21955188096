-- ===== src/Physics/Distance.antt =====
-- What a distance is: the whole square root of the sum of the squares, or INT_MIN where the sum
-- does not fit an `int`.
use lh_server.Prelude.{
  ℕ, ◌+◌, ◌*◌, ◌^◌, ◌≤◌, ◌<◌, ◌≡◌, refl, ◌⊎◌, inl, inr, Bool-cases, true, ltb, ℤ, pos, negsuc, ◌+ℤ◌,
  ltb_ℤ, arith,
}
use lh_server.Physics.Root.{isqrt, isqrt-IsRoot}
use lh_server.Physics.{Fpu, Position, wrap32, int_min, sqrt_int, abs_int, get_distance}

wrap32_small : (n : ℕ) → n < 2 ^ 31 → wrap32 (pos n) ≡ pos n
unfolding wrap32
wrap32_small n h = ground arith

wrap32_over : (n : ℕ) → 2 ^ 31 ≤ n → n < 2 ^ 32 → ltb_ℤ (wrap32 (pos n)) (pos 0) ≡ true
unfolding wrap32
wrap32_over n h k = ground arith

sum_lem : (a b : ℕ) → pos a +ℤ pos b ≡ pos (a + b)
unfolding ◌+ℤ◌
sum_lem a b = ground arith

distance_of_sum : (s : ℤ) → ltb_ℤ s (pos 0) ≡ true → abs_int (sqrt_int s) ≡ int_min
unfolding abs_int sqrt_int
distance_of_sum (pos n) h = absurd (no_neg n h)
  where
    no_neg : (n : ℕ) → ltb_ℤ (pos n) (pos 0) ≡ true → ⊥
    no_neg n h = ground arith
distance_of_sum (negsuc n) h = refl

distance_of_root : (n : ℕ) → abs_int (sqrt_int (pos n)) ≡ pos (isqrt n)
unfolding abs_int sqrt_int
distance_of_root n = ground arith

-- Two points whose squared differences are the ints `a` and `b`: the distance is the whole root of
-- `a + b` where that sum is an int; where it is not, it is INT_MIN, which is the one negative value
-- that the callers' tests against 0 turn away.
pub get_distance_lem :
    (f : Fpu) (p q : Position) (a b : ℕ)
    → f.square (f.sub p.x q.x) ≡ pos a
    → f.square (f.sub p.y q.y) ≡ pos b
    → a < 2 ^ 31
    → b < 2 ^ 31
    → ((a + b < 2 ^ 31)
        × ((d : ℕ) × (get_distance f p q ≡ pos d) × (d * d ≤ a + b) × (a + b < (d + 1) * (d + 1))))
      ⊎ ((2 ^ 31 ≤ a + b) × (get_distance f p q ≡ int_min))
unfolding get_distance
get_distance_lem f p q a b ea eb ha hb = elim (Bool-cases (ltb (a + b) (2 ^ 31))) [
  | inl fits ↦ inl (
    ground arith,
    (
      isqrt (a + b),
      rw (ea, eb)
          (rw (sum_lem a b, wrap32_small (a + b) (ground arith)) (distance_of_root (a + b))),
      (isqrt-IsRoot (a + b) (omega arith)).0,
      (isqrt-IsRoot (a + b) (omega arith)).1,
    ),
  )
  | inr over ↦ inr (
    ground arith,
    rw (ea, eb)
        (rw (sum_lem a b) (distance_of_sum _ (wrap32_over (a + b) (ground arith) (omega arith)))),
  )
]
