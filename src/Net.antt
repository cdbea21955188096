-- ===== src/Net.antt =====
-- The receive path of a client: `recv_packet_construct` of Server/main.cpp over the buffers of a
-- `CLIENT` of Server/main.h.
pub mod Framing
pub mod Contract
pub mod Buffer
pub mod Rounds
pub mod Refinement
mod Examples
use lh_server.Prelude.{
  ℕ, zero, suc, ◌+◌, ◌-◌, List, [], ◌∷◌, ◌++◌, ltb, leb, ◌==◌, if◌then◌else◌, length, take, drop,
  get_or,
}

-- BUFSIZE
abbrev pub buf_size : ℕ
buf_size = 512

-- A byte is a number below 256; a `char` that is read as an `int` is negative from 128 on.
pub record Client : Type 0 where
  pub prev_size : ℕ
  pub packet_buf : List ℕ

-- How a call ends: it returns, it passes a negative count to `memcpy`, or it never returns.
pub data Finish : Type 0 where
  returned : Client → Finish
  bad_count : Finish
  spins : Finish

-- memcpy(dst + off, from, n), within both buffers.
abbrev pub memcpy : List ℕ → ℕ → List ℕ → ℕ → List ℕ
memcpy dst off from n = take off dst ++ (take n from ++ drop (off + n) dst)

-- What `ProcessPacket` was handed, in order: the whole buffer, as it stood at each call.
abbrev pub deliver : List ℕ → Finish × List (List ℕ) → Finish × List (List ℕ)
deliver buf (f, bufs) = (f, buf ∷ bufs)

-- The `while (rest_byte > 0)` loop; `rest` holds the bytes from `p` on, so `rest_byte` is its
-- length. A packet size from 128 on is a negative `char`: the first test then passes, and the
-- count given to `memcpy` is negative.
unfoldable pub recv_loop : ℕ → ℕ → List ℕ → Client → Finish × List (List ℕ)
recv_loop zero packet_size rest cu = (spins, [])
recv_loop (suc fuel) packet_size [] cu = (returned cu, [])
recv_loop (suc fuel) packet_size (b ∷ bs) cu =
    let rest : List ℕ = b ∷ bs in
    let size : ℕ = if packet_size == 0 then b else packet_size in
    let n : ℕ = size - cu.prev_size in
    let buf : List ℕ = memcpy cu.packet_buf cu.prev_size rest n in
    let again : Finish × List (List ℕ) =
      deliver buf (recv_loop fuel 0 (drop n rest) (record { prev_size = 0; packet_buf = buf })) in
    if ltb 127 size
    then (bad_count, [])
    else if leb size (length rest + cu.prev_size)
    then (if ltb size cu.prev_size then (bad_count, []) else again)
    else (
      returned (record {
        prev_size = cu.prev_size + length rest;
        packet_buf = memcpy cu.packet_buf cu.prev_size rest (length rest);
      }),
      [],
    )

-- One completed read of `io` bytes; the loop makes at most one round for each byte.
unfoldable pub recv_packet_construct : Client → List ℕ → Finish × List (List ℕ)
recv_packet_construct cu io =
    recv_loop (suc (length io)) (if cu.prev_size == 0 then 0 else get_or cu.packet_buf 0 0) io cu
