-- ===== src/Net/Rounds.antt =====
-- One round of the loop of recv_packet_construct, on every kind of length byte.
use lh_server.Prelude.{
  ℕ, zero, suc, ◌+◌, ◌-◌, ◌≤◌, ◌<◌, ◌≡◌, refl, sym, ap, ◌∙◌, subst, ◌⊎◌, inl, inr, List, [], ◌∷◌,
  ◌++◌, none, Bool-cases, ltb, ◌==◌, if◌then◌else◌, length, take, drop, get_or, take-append-drop,
  take_all, length-append, length-take, arith,
}
use lh_server.Net.{Client, Finish, returned, bad_count, spins, memcpy, deliver, recv_loop}
use lh_server.Net.Framing.{emit, feed, IsPending, feed_whole, feed_part, feed_bad}
use lh_server.Net.Contract.{Keeps, Returns, Implements, Implements-emit}
use lh_server.Net.Buffer.{take-memcpy, length-memcpy}

-- One round of the loop, by the packet size `s` that it goes by.
module _ (fuel s packet_size b : ℕ) (bs : List ℕ) (cu : Client)
    (size : (if packet_size == 0 then b else packet_size) ≡ s) where
  round_bad : 127 < s → recv_loop (suc fuel) packet_size (b ∷ bs) cu ≡ (bad_count, [])
  unfolding recv_loop
  round_bad h = ground arith

  round_part :
      s ≤ 127
      → length (b ∷ bs) + cu.prev_size < s
      → recv_loop (suc fuel) packet_size (b ∷ bs) cu ≡ (
        returned (record {
          prev_size = cu.prev_size + length (b ∷ bs);
          packet_buf = memcpy cu.packet_buf cu.prev_size (b ∷ bs) (length (b ∷ bs));
        }),
        [],
      )
  unfolding recv_loop
  round_part h k = ground arith

  round_whole :
      s ≤ 127
      → cu.prev_size ≤ s
      → s ≤ length (b ∷ bs) + cu.prev_size
      → let n : ℕ = s - cu.prev_size in
        let buf : List ℕ = memcpy cu.packet_buf cu.prev_size (b ∷ bs) n in
        recv_loop (suc fuel) packet_size (b ∷ bs) cu
        ≡ deliver buf
            (recv_loop fuel 0 (drop n (b ∷ bs)) (record { prev_size = 0; packet_buf = buf }))
  unfolding recv_loop
  round_whole h k l = ground arith

-- With nothing kept, a read that starts with a length byte 0 is never finished: no number of rounds
-- of the loop makes it return.
pub recv_loop_zero_spins :
    (fuel : ℕ) (bs : List ℕ) (cu : Client)
    → cu.prev_size ≡ 0
    → (recv_loop fuel 0 (0 ∷ bs) cu).0 ≡ spins
unfolding recv_loop
recv_loop_zero_spins zero bs cu e = refl
recv_loop_zero_spins (suc fuel) bs cu e =
    rw (round_whole fuel 0 0 0 bs cu refl (omega arith) (omega arith) (omega arith), e)
      (recv_loop_zero_spins fuel bs _ refl)

-- A round that completes the frame.
recv_whole :
    (fuel s m b : ℕ) (u bs : List ℕ) (cu : Client)
    → (if get_or u 0 0 == 0 then b else get_or u 0 0) ≡ s
    → get_or (u ++ b ∷ take m bs) 0 0 ≡ s
    → 0 < s
    → s ≤ 127
    → length u + suc m ≡ s
    → m ≤ length bs
    → Keeps u cu
    → ((c : Client)
        → Keeps [] c
        → Implements (feed [] (drop m bs)) (recv_loop fuel 0 (drop m bs) c))
    → Implements (feed u (b ∷ bs)) (recv_loop (suc fuel) (get_or u 0 0) (b ∷ bs) cu)
recv_whole fuel s m b u bs cu e d p q l k v next =
    rw
      (
        feeds,
        round_whole fuel s (get_or u 0 0) b bs cu e q (omega (arith, v.counted))
            (omega (arith, v.counted)),
        n_suc,
      )
      (Implements-emit w _ _ _ (taken (length w) (omega (arith, v.counted, len))) (
        next _ (record {
          stored = refl;
          counted = refl;
          room =
              length-memcpy cu.packet_buf u (b ∷ bs) cu.prev_size (suc m) v.stored v.counted
                (omega arith) (omega (arith, v.counted, v.room))
              ∙ v.room;
          pending = tt;
        })))
  where
    w : List ℕ
    w = u ++ b ∷ take m bs

    len : length w ≡ s
    len = omega (arith, length-append u (b ∷ take m bs), length-take m bs)

    n_suc : s - cu.prev_size ≡ suc m
    n_suc = omega (arith, v.counted)

    taken :
        (j : ℕ)
        → j ≡ cu.prev_size + suc m
        → take j (memcpy cu.packet_buf cu.prev_size (b ∷ bs) (suc m)) ≡ w
    taken j h =
        take-memcpy cu.packet_buf u (b ∷ bs) cu.prev_size (suc m) j v.stored v.counted (omega arith)
          h

    feeds : feed u (b ∷ bs) ≡ emit w (feed [] (drop m bs))
    feeds =
        ap (λ r. feed u (b ∷ r)) (sym (take-append-drop m bs))
        ∙ feed_whole w (omega (arith, d)) (omega (arith, d)) b u (take m bs) (drop m bs) refl
            (omega (arith, d, len))

IsPending-of_head :
    (w : List ℕ) → 0 < get_or w 0 0 → get_or w 0 0 ≤ 127 → length w < get_or w 0 0 → IsPending w
IsPending-of_head [] p q r = tt
IsPending-of_head (h ∷ t) p q r = (p, q, r)

-- A round that does not complete it takes all the bytes that came.
recv_part :
    (fuel s b : ℕ) (u bs : List ℕ) (cu : Client)
    → (if get_or u 0 0 == 0 then b else get_or u 0 0) ≡ s
    → get_or (u ++ b ∷ bs) 0 0 ≡ s
    → 0 < s
    → s ≤ 127
    → length u + length (b ∷ bs) < s
    → Keeps u cu
    → Implements (feed u (b ∷ bs)) (recv_loop (suc fuel) (get_or u 0 0) (b ∷ bs) cu)
recv_part fuel s b u bs cu e d p q l v =
    rw
      (
        feed_part (u ++ b ∷ bs) (omega (arith, d)) (omega (arith, d)) u (b ∷ bs) refl
            (omega (arith, d, len)),
        round_part fuel s (get_or u 0 0) b bs cu e q (omega (arith, v.counted)),
      )
      (
        record {
          stored =
              take-memcpy cu.packet_buf u (b ∷ bs) cu.prev_size (length (b ∷ bs)) _ v.stored
                v.counted (omega arith) refl
              ∙ ap (◌++◌ u) (take_all (b ∷ bs));
          counted = omega (arith, v.counted, len);
          room =
              length-memcpy cu.packet_buf u (b ∷ bs) cu.prev_size (length (b ∷ bs)) v.stored
                v.counted (omega arith) (omega (arith, v.counted, v.room))
              ∙ v.room;
          pending =
              IsPending-of_head _ (omega (arith, d)) (omega (arith, d)) (omega (arith, d, len));
        },
        tt,
      )
  where
    len : length (u ++ b ∷ bs) ≡ length u + length (b ∷ bs)
    len = length-append u (b ∷ bs)

-- A frame that is under way, whose length byte `s` is sound.
pub recv_going :
    (fuel s b : ℕ) (u bs : List ℕ) (cu : Client)
    → (if get_or u 0 0 == 0 then b else get_or u 0 0) ≡ s
    → ((l : List ℕ) → get_or (u ++ b ∷ l) 0 0 ≡ s)
    → 0 < s
    → s ≤ 127
    → length u < s
    → Keeps u cu
    → ((m : ℕ) (c : Client)
        → Keeps [] c
        → Implements (feed [] (drop m bs)) (recv_loop fuel 0 (drop m bs) c))
    → Implements (feed u (b ∷ bs)) (recv_loop (suc fuel) (get_or u 0 0) (b ∷ bs) cu)
recv_going fuel s b u bs cu e d p q l v next =
    elim (Bool-cases (ltb (length u + length (b ∷ bs)) s)) [
      | inl short ↦ recv_part fuel s b u bs cu e (d bs) p q (ground arith) v
      | inr long ↦
          let m : ℕ = s - length u - 1 in
          recv_whole fuel s m b u bs cu e (d (take m bs)) p q (ground arith) (ground arith) v
            (next m)
    ]

pub recv_bad :
    (fuel b : ℕ) (bs : List ℕ) (cu : Client)
    → (b ≡ 0) ⊎ (127 < b)
    → Keeps [] cu
    → Implements (feed [] (b ∷ bs)) (recv_loop (suc fuel) 0 (b ∷ bs) cu)
recv_bad fuel b bs cu (inl z) v =
    rw (feed_bad b bs (inl z), z)
      (rw-spins (recv_loop (suc fuel) 0 (0 ∷ bs) cu)
        (recv_loop_zero_spins (suc fuel) bs cu (omega (arith, v.counted))))
  where
    rw-spins : (o : Finish × List (List ℕ)) → o.0 ≡ spins → Implements (none, []) o
    rw-spins (f, bufs) e = (λ r. subst Returns e r, tt)
recv_bad fuel b bs cu (inr big) v =
    rw (feed_bad b bs (inr big), round_bad fuel b 0 b bs cu refl big) (λ r. r, tt)
