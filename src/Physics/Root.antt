-- ===== src/Physics/Root.antt =====
-- The whole square root: `int d = sqrt(n)` for n ≥ 0. A double holds every `int`, and its square
-- root is rounded correctly, so the cast gives the floor.
use lh_server.Prelude.{ℕ, zero, suc, ◌+◌, ◌*◌, ◌/◌, ◌^◌, ◌≤◌, ◌<◌, leb, if◌then◌else◌, arith}
use native.Mathlib.Nat.{pow-suc}

-- One more binary digit in each round.
root_digits : ℕ → ℕ → ℕ
root_digits zero n = 0
root_digits (suc k) n =
    let r : ℕ = 2 * root_digits k (n / 4) in if leb ((r + 1) * (r + 1)) n then r + 1 else r

-- 16 digits serve for every `int`.
unfoldable pub isqrt : ℕ → ℕ
unfolding root_digits
isqrt n = root_digits 16 n

abbrev pub IsRoot : ℕ → ℕ → Type 0
IsRoot n r = (r * r ≤ n) × (n < (r + 1) * (r + 1))

root_step_even : (n r : ℕ) → r * r ≤ n / 4 → 2 * r * (2 * r) ≤ n
root_step_even n r h = omega arith

root_step_odd : (n r : ℕ) → n / 4 < (r + 1) * (r + 1) → n < (2 * r + 2) * (2 * r + 2)
root_step_odd n r h = omega arith

root_digits-IsRoot : (k n : ℕ) → n < 4 ^ k → IsRoot n (root_digits k n)
unfolding root_digits
root_digits-IsRoot zero n h = omega arith
root_digits-IsRoot (suc k) n h =
    let ih : IsRoot (n / 4) (root_digits k (n / 4)) =
      root_digits-IsRoot k (n / 4) (omega (arith, pow-suc 4 k)) in
    root_step n (root_digits k (n / 4)) (root_step_even n _ ih.0) (root_step_odd n _ ih.1)
  where
    root_step :
        (n r : ℕ)
        → 2 * r * (2 * r) ≤ n
        → n < (2 * r + 2) * (2 * r + 2)
        → IsRoot n (if leb ((2 * r + 1) * (2 * r + 1)) n then 2 * r + 1 else 2 * r)
    root_step n r a b = ground arith

pub isqrt-IsRoot : (n : ℕ) → n < 2 ^ 32 → IsRoot n (isqrt n)
unfolding isqrt
isqrt-IsRoot n h = root_digits-IsRoot 16 n h
