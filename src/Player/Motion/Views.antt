-- ===== src/Player/Motion/Views.antt =====
-- Who enters the game sees the living players, and they see who enters.
use lh_server.Prelude.{
  ℕ, ◌<◌, ◌≡◌, ◌≢◌, refl, ap, ◌∙◌, Bool, true, false, some, ◌==◌, if◌then◌else◌, update, inl, inr,
  Bool-cases, arith, for_range, for_range-keeps, for_range-reaches,
}
use lh_server.Protocol.{Packet}
use lh_server.World.{World, Player, set_player, with_player-some, max_monster, npc_id_start}
use lh_server.World.Send.{send}
use lh_server.Player.Motion.{contains, insert_view, meet, show_monster, enter_game}
use lh_server.Player.Motion.Meet.{
  contains-insert_view, contains-insert_view_old, seen, meet-Met, meet-greets,
}

-- Both are in the game; if `b`, they see one another.
record Meeting (me i : ℕ) (b : Bool) (v : World) : Type 0 where
  pub entering :
      (p : Player) × (v.players me ≡ some p)
      × (p.id ≡ me)
      × (b ≡ true → contains p.view_list i ≡ true)
  pub other :
      (q : Player) × (v.players i ≡ some q)
      × (q.is_alive ≡ true)
      × (b ≡ true → contains q.view_list me ≡ true)

Meeting-of_seen :
    (me i k : ℕ) (b : Bool) (w v : World) (p r : Player)
    → me ≢ i
    → me ≢ k
    → w.players me ≡ some p
    → p.id ≡ me
    → (b ≡ true → contains p.view_list i ≡ true)
    → w.players k ≡ some r
    → v.players ≡ seen me k w p r
    → Meeting me i b w
    → Meeting me i b v
Meeting-of_seen me i k b w v p r apart away e id sees f h m = record {
  entering = (
    record p { view_list = insert_view k p.view_list },
    rw h (ground (arith, away)),
    id,
    λ t. contains-insert_view_old k i p.view_list (sees t),
  );
  other = elim (Bool-cases (i == k)) [
    | inl same ↦ (
      record r { view_list = insert_view p.id r.view_list },
      rw h (ground (arith, same)),
      ground (arith, same, f, m.other.1, m.other.2),
      λ t. rw id (contains-insert_view me r.view_list),
    )
    | inr differs ↦
        (m.other.0, rw h (ground (arith, differs, apart, m.other.1)), m.other.2, m.other.3)
  ];
}

Meeting-same :
    (me i : ℕ) (b : Bool) (w v : World)
    → v.players ≡ w.players
    → Meeting me i b w
    → Meeting me i b v
Meeting-same me i b w v e m = record {
  entering = (m.entering.0, rw e m.entering.1, m.entering.2, m.entering.3);
  other = (m.other.0, rw e m.other.1, m.other.2, m.other.3);
}

meet-Meeting :
    (me i : ℕ) (b : Bool)
    → me ≢ i
    → (k : ℕ) (w : World) → Meeting me i b w
    → Meeting me i b (meet me k w)
meet-Meeting me i b apart k w m =
    let (p, e, id, sees) = m.entering in
    elim (meet-Met me k w p e id) [
      | inl same ↦ Meeting-same me i b w _ same m
      | inr (r, away, f, h) ↦ Meeting-of_seen me i k b w _ p r apart away e id sees f h m
    ]

meet_meets :
    (me i : ℕ) → me ≢ i → (w : World) → Meeting me i false w → Meeting me i true (meet me i w)
meet_meets me i apart w m =
    let (p, e, id, sees) = m.entering in
    let (q, f, alive, seen_too) = m.other in
    let h = meet-greets me i w p q e id apart f alive in
    record {
      entering = (
        record p { view_list = insert_view i p.view_list },
        rw h (ground (arith, apart)),
        id,
        λ t. contains-insert_view i p.view_list,
      );
      other = (
        record q { view_list = insert_view p.id q.view_list },
        rw h (ground arith),
        alive,
        λ t. rw id (contains-insert_view me q.view_list),
      );
    }

show_monster-players : (id k : ℕ) (w : World) → (show_monster id k w).players ≡ w.players
unfolding show_monster send
show_monster-players id k w = ground arith

abbrev settled : ℕ → World → Player → World
settled me v a =
    set_player (for_range max_monster npc_id_start (show_monster a.id) v) me
      (record a { is_host = a.id == 0 })

settled-players :
    (me : ℕ) (v : World) (a : Player)
    → (if a.id == 0 then send a.id Packet.set_host (settled me v a) else settled me v a).players
      ≡ update v.players me (some (record a { is_host = a.id == 0 }))
unfolding send
settled-players me v a = told (a.id == 0)
  where
    shown : (for_range max_monster npc_id_start (show_monster a.id) v).players ≡ v.players
    shown =
        for_range-keeps (λ (u : World). u.players ≡ v.players) (show_monster a.id)
          (λ k u h. show_monster-players a.id k u ∙ h) max_monster npc_id_start v refl

    told :
        (b : Bool)
        → (if b then send a.id Packet.set_host (settled me v a) else settled me v a).players
          ≡ update v.players me (some (record a { is_host = a.id == 0 }))
    told true = ap (λ f. update f me (some (record a { is_host = a.id == 0 }))) shown
    told false = ap (λ f. update f me (some (record a { is_host = a.id == 0 }))) shown

-- Who enters the game, and each living player of the ten slots, see one another afterwards: each has
-- the other in its view list.
pub enter_game_lem :
    (me i : ℕ) (w : World) (p q : Player)
    → me ≢ i
    → i < 10
    → w.players me ≡ some p
    → p.id ≡ me
    → w.players i ≡ some q
    → q.is_alive ≡ true
    → ((a : Player) × ((enter_game me w).players me ≡ some a) × (contains a.view_list i ≡ true))
      × ((c : Player) × ((enter_game me w).players i ≡ some c) × (contains c.view_list me ≡ true))
unfolding enter_game
enter_game_lem me i w p q apart small e id f alive =
    rw (with_player-some me met_all _ met.entering.1, settled-players me met_all met.entering.0)
      (
        (
          record met.entering.0 { is_host = met.entering.0.id == 0 },
          ground arith,
          met.entering.3 refl,
        ),
        (met.other.0, ground (arith, apart, met.other.1), met.other.3 refl),
      )
  where
    met_all : World
    met_all = for_range 10 0 (meet me) w

    met : Meeting me i true met_all
    met =
        for_range-reaches (Meeting me i false) (Meeting me i true) (meet me) i
          (meet-Meeting me i false apart) (meet-Meeting me i true apart) (meet_meets me i apart) 10
          0 w (omega arith) (omega arith)
          (record {
            entering = (p, e, id, λ t. absurd (ground arith));
            other = (q, f, alive, λ t. absurd (ground arith));
          })
