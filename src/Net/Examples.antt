-- ===== src/Net/Examples.antt =====
-- The receive path on concrete reads.
use lh_server.Prelude.{ℕ, ◌≡◌, refl, List, [], ◌∷◌, ◌++◌, some, replicate, arith}
use lh_server.Net.{Client, returned, spins, buf_size, recv_loop, recv_packet_construct}
use lh_server.Net.Framing.{feed, concat}
use lh_server.Net.Contract.{Keeps, Implements}
use lh_server.Net.Rounds.{recv_loop_zero_spins}
use lh_server.Net.Refinement.{recv_packet_construct-Implements, recv_two_reads, recv_frames}

abbrev fresh : Client
fresh = record { prev_size = 0; packet_buf = replicate buf_size 7 }

fresh-Keeps : Keeps [] fresh
fresh-Keeps = record { stored = refl; counted = refl; room = refl; pending = tt }

abbrev half_read : Client
half_read = record { prev_size = 2; packet_buf = 4 ∷ 23 ∷ replicate 510 7 }

half_read-Keeps : Keeps (4 ∷ 23 ∷ []) half_read
half_read-Keeps = record { stored = refl; counted = refl; room = refl; pending = omega arith }

recv_packet_construct-Implements_example :
    Implements
      (feed (4 ∷ 23 ∷ []) (9 ∷ 9 ∷ 2 ∷ []))
      (recv_packet_construct half_read (9 ∷ 9 ∷ 2 ∷ []))
recv_packet_construct-Implements_example =
    recv_packet_construct-Implements (4 ∷ 23 ∷ []) (9 ∷ 9 ∷ 2 ∷ []) half_read half_read-Keeps

abbrev after_half : Client
after_half = record { prev_size = 2; packet_buf = 4 ∷ 23 ∷ replicate 510 7 }

recv_half : recv_packet_construct fresh (4 ∷ 23 ∷ []) ≡ (returned after_half, [])
unfolding recv_packet_construct recv_loop
recv_half = refl

recv_two_reads_example :
    let (f, more) = recv_packet_construct after_half (9 ∷ 9 ∷ []) in
    Implements (feed [] ((4 ∷ 23 ∷ []) ++ 9 ∷ 9 ∷ [])) (f, [] ++ more)
recv_two_reads_example =
    recv_two_reads [] (4 ∷ 23 ∷ []) (9 ∷ 9 ∷ []) fresh after_half [] fresh-Keeps recv_half

abbrev two_frames : List (List ℕ)
two_frames = (2 ∷ 23 ∷ []) ∷ (4 ∷ 81 ∷ 3 ∷ 0 ∷ []) ∷ []

recv_frames_example :
    Implements (some [], two_frames) (recv_packet_construct fresh (concat two_frames))
recv_frames_example = recv_frames two_frames fresh (omega arith) fresh-Keeps

recv_loop_zero_spins_example : (recv_loop 513 0 (0 ∷ 5 ∷ []) fresh).0 ≡ spins
recv_loop_zero_spins_example = recv_loop_zero_spins 513 (5 ∷ []) fresh refl
