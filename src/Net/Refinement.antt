-- ===== src/Net/Refinement.antt =====
-- `recv_packet_construct` implements the framing of Net/Framing: it hands `ProcessPacket` the
-- frames of the stream, and keeps the bytes of the unfinished one.
use lh_server.Prelude.{
  ℕ, zero, suc, ◌<◌, ◌≡◌, refl, ap, subst, inl, inr, List, [], ◌∷◌, ◌++◌, Option, none, some,
  Bool-cases, ltb, ◌==◌, if◌then◌else◌, ◌||◌, length, take, drop, get_or, length-drop, arith,
}
use lh_server.Net.{Client, Finish, returned, recv_loop, recv_packet_construct}
use lh_server.Net.Framing.{feed, resume, feed-append, AllFrames, concat, feed-concat}
use lh_server.Net.Contract.{Keeps, Shows, Implements}
use lh_server.Net.Rounds.{recv_going, recv_bad}

recv_loop-Implements :
    (fuel : ℕ) (u rest : List ℕ) (cu : Client)
    → length rest < fuel
    → Keeps u cu
    → Implements (feed u rest) (recv_loop fuel (get_or u 0 0) rest cu)
unfolding recv_loop feed
recv_loop-Implements zero u rest cu h v = absurd (omega arith)
recv_loop-Implements (suc fuel) u [] cu h v = (v, tt)
recv_loop-Implements (suc fuel) (x ∷ t) (b ∷ bs) cu h v =
    recv_going fuel x b (x ∷ t) bs cu (ground (arith, v.pending)) (λ l. refl) v.pending.0
      v.pending.1 v.pending.2 v
      λ m c k. recv_loop-Implements fuel [] (drop m bs) c (omega (arith, length-drop m bs)) k
recv_loop-Implements (suc fuel) [] (b ∷ bs) cu h v = elim (Bool-cases (b == 0 || ltb 127 b)) [
  | inl bad ↦ recv_bad fuel b bs cu (ground arith) v
  | inr sound ↦
      recv_going fuel b b [] bs cu refl (λ l. refl) (ground arith) (ground arith) (ground arith) v
        λ m c k. recv_loop-Implements fuel [] (drop m bs) c (omega (arith, length-drop m bs)) k
]

head_kept :
    (n : ℕ) (buf u : List ℕ)
    → take n buf ≡ u
    → length u ≡ n
    → (if n == 0 then 0 else get_or buf 0 0) ≡ get_or u 0 0
head_kept zero buf [] e l = refl
head_kept zero buf (x ∷ u) e l = absurd (omega arith)
head_kept (suc n) [] u e l = absurd (omega (arith, ap length e))
head_kept (suc n) (x ∷ buf) u e l = ground (arith, ap (λ r. get_or r 0 0) e)

Implements-append :
    (fs bufs : List (List ℕ)) (r : Option (List ℕ) × List (List ℕ)) (o : Finish × List (List ℕ))
    → Shows fs bufs
    → Implements r o
    → Implements (r.0, fs ++ r.1) (o.0, bufs ++ o.1)
Implements-append [] [] r o s h = h
Implements-append [] (b ∷ bufs) r o s h = absurd s
Implements-append (f ∷ fs) [] r o s h = absurd s
Implements-append (f ∷ fs) (b ∷ bufs) (none, gs) (o, ds) s h =
    let rec = Implements-append fs bufs (none, gs) (o, ds) s.1 h in (rec.0, (s.0, rec.1))
Implements-append (f ∷ fs) (b ∷ bufs) (some w, gs) (o, ds) s h =
    let rec = Implements-append fs bufs (some w, gs) (o, ds) s.1 h in (rec.0, (s.0, rec.1))

-- One completed read, on whatever bytes arrive after those kept: it returns exactly if every
-- length byte of the stream is sound, and then it has handed over the whole frames and keeps the
-- rest.
pub recv_packet_construct-Implements :
    (u io : List ℕ) (cu : Client)
    → Keeps u cu
    → Implements (feed u io) (recv_packet_construct cu io)
unfolding recv_packet_construct
recv_packet_construct-Implements u io cu v =
    rw (head_kept cu.prev_size cu.packet_buf u v.stored v.counted)
      (recv_loop-Implements (suc (length io)) u io cu (omega arith) v)

-- The pieces in which a stream arrives do not matter: two reads hand over the frames of the bytes
-- put together, and keep what is left of them.
pub recv_two_reads :
    (u xs ys : List ℕ) (cu mid : Client) (bufs : List (List ℕ))
    → Keeps u cu
    → recv_packet_construct cu xs ≡ (returned mid, bufs)
    → let (f, more) = recv_packet_construct mid ys in
      Implements (feed u (xs ++ ys)) (f, bufs ++ more)
recv_two_reads u xs ys cu mid bufs v e =
    rw (feed-append u xs ys)
      (joined (feed u xs) (rw e at (recv_packet_construct-Implements u xs cu v)))
  where
    joined :
        (r : Option (List ℕ) × List (List ℕ))
        → Implements r (returned mid, bufs)
        → Implements
            (resume r ys)
            ((recv_packet_construct mid ys).0, bufs ++ (recv_packet_construct mid ys).1)
    joined (none, fs) h = absurd (h.0 tt)
    joined (some w, fs) h =
        Implements-append fs bufs (feed w ys) (recv_packet_construct mid ys) h.1
          (recv_packet_construct-Implements w ys mid h.0)

-- What a peer sends as frames is handed over as those frames, with nothing kept.
pub recv_frames :
    (fs : List (List ℕ)) (cu : Client)
    → AllFrames fs
    → Keeps [] cu
    → Implements (some [], fs) (recv_packet_construct cu (concat fs))
recv_frames fs cu h v =
    subst (λ r. Implements r (recv_packet_construct cu (concat fs))) (feed-concat fs h)
      (recv_packet_construct-Implements [] (concat fs) cu v)
