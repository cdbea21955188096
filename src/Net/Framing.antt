-- ===== src/Net/Framing.antt =====
-- What the receive path promises: a stream of bytes is cut into frames whose first byte is their
-- length, whatever the pieces in which the bytes arrive.
use lh_server.Prelude.{
  ℕ, ◌+◌, ◌≤◌, ◌<◌, ◌≡◌, refl, sym, ap, ◌∙◌, List, [], ◌∷◌, ◌++◌, Option, none, some, ltb, ◌==◌,
  ◌||◌, ◌⊎◌, if◌then◌else◌, length, get_or, length-append, append-nil, append_assoc, arith,
}

abbrev pub emit {ℓ} : {A : Type ℓ} → List ℕ → A × List (List ℕ) → A × List (List ℕ)
emit frame (r, frames) = (r, frame ∷ frames)

-- One byte at a time, after the bytes `u` of an unfinished frame; `none` is a length byte that no
-- frame can have, 0 or a negative `char`.
unfoldable pub feed : List ℕ → List ℕ → Option (List ℕ) × List (List ℕ)
feed u [] = (some u, [])
feed u (b ∷ bs) =
    let v : List ℕ = u ++ b ∷ [] in
    let size : ℕ = get_or v 0 0 in
    let whole : Option (List ℕ) × List (List ℕ) = emit v (feed [] bs) in
    let more : Option (List ℕ) × List (List ℕ) = feed v bs in
    if size == 0 || ltb 127 size then (none, []) else if length v == size then whole else more

-- The bytes of an unfinished frame.
abbrev pub IsPending : List ℕ → Type 0
IsPending [] = Unit {0}
IsPending (h ∷ t) = (0 < h) × (h ≤ 127) × (length (h ∷ t) < h)

-- A frame: its first byte is its length.
abbrev pub IsFrame : List ℕ → Type 0
IsFrame [] = ⊥
IsFrame (h ∷ t) = (h ≤ 127) × (length (h ∷ t) ≡ h)

head_snoc : (u xs : List ℕ) (b : ℕ) → get_or (u ++ b ∷ xs) 0 0 ≡ get_or (u ++ b ∷ []) 0 0
head_snoc [] xs b = refl
head_snoc (h ∷ t) xs b = refl

-- The step of `feed` on one byte, by what the first byte of the frame says.
feed-next :
    (u bs : List ℕ) (b : ℕ)
    → 0 < get_or (u ++ b ∷ []) 0 0
    → get_or (u ++ b ∷ []) 0 0 ≤ 127
    → length u + 1 < get_or (u ++ b ∷ []) 0 0
    → feed u (b ∷ bs) ≡ feed (u ++ b ∷ []) bs
unfolding feed
feed-next u bs b p q r = ground (arith, length-append u (b ∷ []))

feed-last :
    (u bs : List ℕ) (b : ℕ)
    → 0 < get_or (u ++ b ∷ []) 0 0
    → get_or (u ++ b ∷ []) 0 0 ≤ 127
    → length u + 1 ≡ get_or (u ++ b ∷ []) 0 0
    → feed u (b ∷ bs) ≡ emit (u ++ b ∷ []) (feed [] bs)
unfolding feed
feed-last u bs b p q r = ground (arith, length-append u (b ∷ []))

module _ (w : List ℕ) (pos : 0 < get_or w 0 0) (small : get_or w 0 0 ≤ 127) where
  -- The bytes that complete the frame `w`.
  pub feed_whole :
      (x : ℕ) (u xs ys : List ℕ)
      → w ≡ u ++ x ∷ xs
      → length w ≡ get_or w 0 0
      → feed u ((x ∷ xs) ++ ys) ≡ emit w (feed [] ys)
  feed_whole x u [] ys e r = rw e (
      feed-last u ys x (rw e at pos) (rw e at small)
        (omega (arith, ap length e, ap (λ l. get_or l 0 0) e, length-append u (x ∷ []))))
  feed_whole x u (y ∷ xs) ys e r =
      feed-next u (y ∷ xs ++ ys) x (omega (arith, h)) (omega (arith, h))
        (omega (arith, h, ap length e, length-append u (x ∷ y ∷ xs)))
      ∙ feed_whole y (u ++ x ∷ []) xs ys (e ∙ sym (append_assoc u (x ∷ []) (y ∷ xs))) r
    where
      h : get_or w 0 0 ≡ get_or (u ++ x ∷ []) 0 0
      h = ap (λ l. get_or l 0 0) e ∙ head_snoc u (y ∷ xs) x

  -- The bytes of a frame that stays unfinished.
  pub feed_part : (u xs : List ℕ) → w ≡ u ++ xs → length w < get_or w 0 0 → feed u xs ≡ (some w, [])
  unfolding feed
  feed_part u [] e r = rw e (rw (append-nil u))
  feed_part u (x ∷ xs) e r =
      feed-next u xs x (omega (arith, h)) (omega (arith, h))
        (omega (arith, h, ap length e, length-append u (x ∷ xs)))
      ∙ feed_part (u ++ x ∷ []) xs (e ∙ sym (append_assoc u (x ∷ []) xs)) r
    where
      h : get_or w 0 0 ≡ get_or (u ++ x ∷ []) 0 0
      h = ap (λ l. get_or l 0 0) e ∙ head_snoc u xs x

-- A length byte that no frame can have.
pub feed_bad : (b : ℕ) (bs : List ℕ) → (b ≡ 0) ⊎ (127 < b) → feed [] (b ∷ bs) ≡ (none, [])
unfolding feed
feed_bad b bs h = ground arith

-- Bytes that come in two pieces are read as if they came in one.
abbrev pub resume : Option (List ℕ) × List (List ℕ) → List ℕ → Option (List ℕ) × List (List ℕ)
resume (none, fs) ys = (none, fs)
resume (some u, fs) ys = let r = feed u ys in (r.0, fs ++ r.1)

resume-emit :
    (v ys : List ℕ) (r : Option (List ℕ) × List (List ℕ))
    → resume (emit v r) ys ≡ emit v (resume r ys)
resume-emit v ys (none, fs) = refl
resume-emit v ys (some u, fs) = refl

pub feed-append : (u xs ys : List ℕ) → feed u (xs ++ ys) ≡ resume (feed u xs) ys
unfolding feed
feed-append u [] ys = refl
feed-append u (x ∷ xs) ys = ground (
  arith,
  feed-append [] xs ys,
  feed-append (u ++ x ∷ []) xs ys,
  resume-emit (u ++ x ∷ []) ys (feed [] xs),
)

-- Every frame that is cut off the stream is a frame, and what is left over is a part of one.
abbrev pub AllFrames : List (List ℕ) → Type 0
AllFrames [] = Unit {0}
AllFrames (f ∷ fs) = IsFrame f × AllFrames fs

-- Reading a list of frames gives it back.
abbrev pub concat : List (List ℕ) → List ℕ
concat [] = []
concat (f ∷ fs) = f ++ concat fs

pub feed-concat : (fs : List (List ℕ)) → AllFrames fs → feed [] (concat fs) ≡ (some [], fs)
unfolding feed
feed-concat [] h = refl
feed-concat ([] ∷ fs) h = absurd h.0
feed-concat ((x ∷ xs) ∷ fs) h =
    feed_whole (x ∷ xs) (omega arith) h.0.0 x [] xs (concat fs) refl h.0.1
    ∙ ap (emit (x ∷ xs)) (feed-concat fs h.1)
