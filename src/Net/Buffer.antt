-- ===== src/Net/Buffer.antt =====
-- What memcpy leaves in the buffer of a client.
use lh_server.Prelude.{
  ℕ, ◌+◌, ◌≤◌, ◌≡◌, ap, List, ◌++◌, length, take, drop, take-append, length-append, length-take,
  length-drop, append_assoc, arith,
}
use lh_server.Net.{memcpy}

-- A write of `w` behind `u`.
pub take-memcpy :
    (buf u from : List ℕ) (prev n k : ℕ)
    → take prev buf ≡ u
    → length u ≡ prev
    → n ≤ length from
    → k ≡ prev + n
    → take k (memcpy buf prev from n) ≡ u ++ take n from
take-memcpy buf u from prev n k e l h q =
    rw (e, ← (append_assoc u (take n from) (drop (prev + n) buf)))
      (take-append (u ++ take n from) (drop (prev + n) buf) k
        (omega (arith, length-append u (take n from), length-take n from)))

pub length-memcpy :
    (buf u from : List ℕ) (prev n : ℕ)
    → take prev buf ≡ u
    → length u ≡ prev
    → n ≤ length from
    → prev + n ≤ length buf
    → length (memcpy buf prev from n) ≡ length buf
length-memcpy buf u from prev n e l h r = omega (
  arith,
  length-append (take prev buf) (take n from ++ drop (prev + n) buf),
  length-append (take n from) (drop (prev + n) buf),
  ap length e,
  length-take n from,
  length-drop (prev + n) buf,
)
