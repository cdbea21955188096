-- ===== src/Player/Motion/Meet.antt =====
-- What one round of EnterGame does to the view lists.
use lh_server.Prelude.{
  ℕ, ◌≡◌, ◌≢◌, refl, pos, Bool, true, false, List, Option, none, some, ◌==◌, not, if◌then◌else◌,
  update, ◌⊎◌, inl, inr, Bool-cases, arith,
}
use lh_server.Protocol.{Packet}
use lh_server.World.{World, Player, set_player, with_player-some}
use lh_server.World.Send.{send}
use lh_server.Player.Motion.{
  move_number, make_enter_packet, contains, insert_view, tell_weapon, meet,
}

pub contains-insert_view : (i : ℕ) (xs : List ℕ) → contains (insert_view i xs) i ≡ true
unfolding insert_view contains
contains-insert_view i xs = elim (Bool-cases (contains xs i)) [
  | inl h ↦ rw (h, insert_view) h
  | inr h ↦ rw (h, insert_view) (ground arith)
]

pub contains-insert_view_old :
    (i j : ℕ) (xs : List ℕ) → contains xs j ≡ true → contains (insert_view i xs) j ≡ true
unfolding insert_view contains
contains-insert_view_old i j xs c = elim (Bool-cases (contains xs i)) [
  | inl h ↦ rw (h, insert_view) c
  | inr h ↦ rw (h, insert_view) (ground (arith, c))
]

-- What a round does to the players: nothing, or the two see one another.
abbrev Met : ℕ → ℕ → World → World → Player → Type 0
Met me k w v p =
    (v.players ≡ w.players)
    ⊎ ((q : Player) × (me ≢ k)
        × (w.players k ≡ some q)
        × (v.players
            ≡ update
                (update w.players me (some (record p { view_list = insert_view k p.view_list }))) k
                (some (record q { view_list = insert_view p.id q.view_list }))))

abbrev pub seen : ℕ → ℕ → World → Player → Player → ℕ → Option Player
seen me k w p q =
    update (update w.players me (some (record p { view_list = insert_view k p.view_list }))) k
      (some (record q { view_list = insert_view p.id q.view_list }))

abbrev greeted : ℕ → ℕ → World → Player → Player → World
greeted me k w p q = send p.id (Packet.update_move_state (pos k) (move_number q.move_state)) (
    tell_weapon p.id k q (
      send p.id (make_enter_packet q) (
        send k (make_enter_packet p) (
          set_player (set_player w me (record p { view_list = insert_view k p.view_list })) k
            (record q { view_list = insert_view p.id q.view_list })))))

tell_weapon-players :
    (id k : ℕ) (q : Player) (w : World) → (tell_weapon id k q w).players ≡ w.players
unfolding tell_weapon send
tell_weapon-players id k q w = ground arith

greeted-players :
    (me k : ℕ) (w : World) (p q : Player) → (greeted me k w p q).players ≡ seen me k w p q
unfolding send
greeted-players me k w p q = tell_weapon-players p.id k q (
    send p.id (make_enter_packet q) (
      send k (make_enter_packet p) (
        set_player (set_player w me (record p { view_list = insert_view k p.view_list })) k
          (record q { view_list = insert_view p.id q.view_list }))))

if-Met :
    (me k : ℕ) (b : Bool) (w u v : World) (p : Player)
    → Met me k w u p
    → Met me k w v p
    → Met me k w (if b then u else v) p
if-Met me k true w u v p h l = h
if-Met me k false w u v p h l = l

pub meet-Met :
    (me k : ℕ) (w : World) (p : Player)
    → w.players me ≡ some p
    → p.id ≡ me
    → Met me k w (meet me k w) p
unfolding meet
meet-Met me k w p e i = rw (with_player-some me w _ e) (elim (Bool-cases (p.id == k)) [
  | inl h ↦ rw h (inl refl)
  | inr h ↦ rw h (other h (w.players k) refl)
])
  where
    other :
        (p.id == k) ≡ false
        → (o : Option Player) → w.players k ≡ o
        → Met me k w
            (elim o [ none ↦ w | some q ↦ if not q.is_alive then w else greeted me k w p q ])
            p
    other h none f = inl refl
    other h (some q) f =
        if-Met me k (not q.is_alive) w w (greeted me k w p q) p (inl refl)
          (inr (q, ground (arith, h, i), f, greeted-players me k w p q))

unless_dead :
    (b : Bool) (w v : World) (s : ℕ → Option Player)
    → b ≡ true
    → v.players ≡ s
    → (if not b then w else v).players ≡ s
unless_dead true w v s h e = e
unless_dead false w v s h e = absurd (ground arith)

pub meet-greets :
    (me k : ℕ) (w : World) (p q : Player)
    → w.players me ≡ some p
    → p.id ≡ me
    → me ≢ k
    → w.players k ≡ some q
    → q.is_alive ≡ true
    → (meet me k w).players ≡ seen me k w p q
unfolding meet
meet-greets me k w p q e i away f alive = rw (with_player-some me w _ e) (
    simp (apart, f)
      (unless_dead q.is_alive w (greeted me k w p q) _ alive (greeted-players me k w p q)))
  where
    apart : (p.id == k) ≡ false
    apart = ground (arith, i, away)
