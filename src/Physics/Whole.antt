-- ===== src/Physics/Whole.antt =====
-- A processor for tests: its floats are whole numbers, held with an offset of a million.
use lh_server.Prelude.{ℕ, ◌+◌, ◌*◌, ◌-◌, ltb, ℤ, pos, sub_ℕ, pos_part, neg_part}
use lh_server.Physics.{Fpu, Position}

abbrev offset : ℕ
offset = 1_000_000

abbrev whole_square : ℕ → ℤ
whole_square n = pos ((n - offset) * (n - offset) + (offset - n) * (offset - n))

abbrev pub whole : Fpu
whole = record {
  add = λ a b. a + b - offset;
  sub = λ a b. a + offset - b;
  mul = λ a b. a;
  div = λ a b. a;
  lt = λ a b. ltb a b;
  to_int = λ a. sub_ℕ a offset;
  of_int = λ n. offset + pos_part n - neg_part n;
  square = whole_square;
  root = λ n. offset + pos_part n;
  cos = λ a. a;
  sin = λ a. a;
  degree = λ a b. a;
}

abbrev pub at : ℕ → ℕ → Position
at a b = record { x = offset + a; y = offset + b; z = offset }
