-- ===== src/Net/Contract.antt =====
-- What recv_packet_construct owes for a stream of bytes.
use lh_server.Prelude.{ℕ, ◌≡◌, List, [], ◌∷◌, Option, none, some, length, take}
use lh_server.Net.{Client, Finish, returned, bad_count, spins, buf_size, deliver}
use lh_server.Net.Framing.{emit, IsPending}

-- The client keeps the bytes `u` of an unfinished frame at the start of its buffer.
pub record Keeps (u : List ℕ) (cu : Client) : Type 0 where
  pub stored : take cu.prev_size cu.packet_buf ≡ u
  pub counted : length u ≡ cu.prev_size
  pub room : length cu.packet_buf ≡ buf_size
  pub pending : IsPending u

-- Each buffer that was handed over begins with the frame that was meant.
abbrev pub Shows : List (List ℕ) → List (List ℕ) → Type 0
Shows [] [] = Unit {0}
Shows [] (b ∷ bs) = ⊥
Shows (f ∷ fs) [] = ⊥
Shows (f ∷ fs) (b ∷ bs) = (take (length f) b ≡ f) × Shows fs bs

-- Where the stream is no sequence of frames, at least those before the bad one were handed over.
abbrev pub ShowsFirst : List (List ℕ) → List (List ℕ) → Type 0
ShowsFirst [] bs = Unit {0}
ShowsFirst (f ∷ fs) [] = ⊥
ShowsFirst (f ∷ fs) (b ∷ bs) = (take (length f) b ≡ f) × ShowsFirst fs bs

abbrev pub Returns : Finish → Type 0
Returns (returned cu) = Unit {0}
Returns bad_count = ⊥
Returns spins = ⊥

abbrev pub ReturnsKeeping : List ℕ → Finish → Type 0
ReturnsKeeping u (returned cu) = Keeps u cu
ReturnsKeeping u bad_count = ⊥
ReturnsKeeping u spins = ⊥

-- What a call owes for a stream: on a stream of frames it returns with the rest kept and exactly
-- the frames handed over; on any other it does not return.
abbrev pub Implements : Option (List ℕ) × List (List ℕ) → Finish × List (List ℕ) → Type 0
Implements (some u, fs) (f, bufs) = ReturnsKeeping u f × Shows fs bufs
Implements (none, fs) (f, bufs) = (¬ (Returns f)) × ShowsFirst fs bufs

pub Implements-emit :
    (w buf : List ℕ) (r : Option (List ℕ) × List (List ℕ)) (o : Finish × List (List ℕ))
    → take (length w) buf ≡ w
    → Implements r o
    → Implements (emit w r) (deliver buf o)
Implements-emit w buf (some u, fs) (f, bufs) e h = (h.0, (e, h.1))
Implements-emit w buf (none, fs) (f, bufs) e h = (h.0, (e, h.1))
