-- ===== src/System/Examples.antt =====
-- A run: the server starts, a client comes, the timers go off, and a worker updates a goblin.
use lh_server.Prelude.{
  ℕ, ◌≤◌, ◌<◌, List, pos, ◌-ℤ◌, ◌≡◌, refl, true, false, [], ◌∷◌, some, none, replicate, drop,
}
use lh_server.World.{max_player, Player, Boss, l_hand, Monster, ev_boss, ev_monster}
use lh_server.World.Samples.{hero, goblin, noon}
use lh_server.World.Timers.{IsQueue, push, add_timer}
use lh_server.Boss.Examples.{golem}
use lh_server.Net.{Client, buf_size}
use lh_server.Timer.{Completion, run_due, fire, posts}
use lh_server.Start.{create_monsters, spawn_all, spawn_monster}
use lh_server.System.{
  System, boot, tick, complete, Reach, here, next, accepts, receives, ticks, completes,
}
use lh_server.Session.{accept, free_slot}
use lh_server.System.Pending.{IsKept}
use lh_server.System.Alarm.{calls, Reach-calls}
use lh_server.System.Due.{of_monster, updates_of}
use lh_server.System.Invariant.{Reach-Sound}
use lh_server.System.Wear.{Reach-Wears}
use lh_server.System.Places.{Reach-IsPlaced}
use lh_server.Boss.Wear.{Worn, IsIntact}
use lh_server.Boss.Break.{bone_map_update, hit_bones, hit_bone}
use lh_server.Boss.{initialize, first_bones, set_part, part_number, with_boss}
use lh_server.Net.{recv_packet_construct, recv_loop}
use lh_server.Dispatch.{on_recv, process_all, process_packet, handle, boss_bone}
use lh_server.Dispatch.Requests.{decode, short_at, char_at}

abbrev empty_buffer : Client
empty_buffer = record { prev_size = 0; packet_buf = replicate buf_size 0 }

abbrev started : System
started = record {
  server = record {
    world = create_monsters noon goblin golem (record {
      players = λ i. none;
      monsters = λ i. none;
      bosses = λ i. none;
      timers = [];
      queries = [];
      sent = [];
      crashed = false;
    });
    connected = λ i. false;
    clients = λ i. empty_buffer;
  };
  posted = [];
  updates = [];
}

starts : boot true true true noon (λ i. empty_buffer) goblin golem ≡ some started
unfolding boot
starts = refl

abbrev joined : System
joined = record started { server = accept hero started.server }

abbrev ticked : System
ticked = tick 2000 joined

abbrev of_golem : Completion
of_golem = record { key = 20000; op = ev_boss }

abbrev of_goblin : Completion
of_goblin = record { key = 10000; op = ev_monster }

both_posted : ticked.posted ≡ of_golem ∷ of_goblin ∷ drop 2 ticked.posted
unfolding tick create_monsters run_due accept free_slot spawn_all spawn_monster add_timer push fire
    posts
both_posted = refl

abbrev updated : System
updated = complete noon of_goblin (record ticked { posted = of_golem ∷ drop 2 ticked.posted })

run : Reach started updated
run =
    next (next (next here (accepts hero refl)) (ticks 2000 refl))
      (completes noon (of_golem ∷ []) (drop 2 ticked.posted) of_goblin both_posted refl)

Reach-Sound_example :
    IsQueue updated.server.world.timers
    × ((i : ℕ) → updates_of (of_monster i) updated.server.world.timers updated.posted ≤ 1)
    × ((i : ℕ) (m : Monster)
        → updated.server.world.monsters i ≡ some m
        → IsKept i m updated.server.world.timers updated.posted)
    × ((i : ℕ) (b : Boss) → updated.server.world.bosses i ≡ some b → IsIntact b)
Reach-Sound_example =
    Reach-Sound true true true noon (λ i. empty_buffer) goblin golem started updated starts run

-- The client reports a hit on the left hand of the golem.
abbrev bone_report : List ℕ
bone_report = 16 ∷ 75 ∷ 32 ∷ 78 ∷ 20 ∷ 22 ∷ 24 ∷ 20 ∷ 22 ∷ 24 ∷ 4 ∷ 7 ∷ 9 ∷ 20 ∷ 22 ∷ 24 ∷ []

abbrev reported : System
reported = record joined { server = on_recv noon (λ name pass. true) 0 bone_report joined.server }

report : Reach joined reported
report = next here (receives noon (λ name pass. true) 0 bone_report refl)

abbrev first_golem : Boss
first_golem = initialize 20000 (record { x = 0x46b38110; y = 0x470b93b0; z = 0xc469151d }) golem

abbrev hit_golem : Boss
hit_golem = record first_golem { bone_map = set_part first_golem.bone_map l_hand (pos 4) }

hit : reported.server.world.bosses 20000 ≡ some hit_golem
unfolding on_recv accept free_slot recv_packet_construct recv_loop process_all process_packet handle
    decode boss_bone bone_map_update hit_bones hit_bone with_boss create_monsters spawn_all
    spawn_monster add_timer initialize first_bones set_part part_number short_at char_at ◌-ℤ◌
hit = refl

Reach-Wears_example : (a : Boss) × (joined.server.world.bosses 20000 ≡ some a) × Worn a hit_golem
Reach-Wears_example = Reach-Wears joined reported report 20000 hit_golem hit

connected_still : updated.server.connected 0 ≡ true
unfolding accept free_slot tick complete
connected_still = refl

Reach-IsPlaced_example :
    (0 < max_player) × ((p : Player) × (updated.server.world.players 0 ≡ some p) × (p.id ≡ 0))
Reach-IsPlaced_example =
    Reach-IsPlaced true true true noon (λ i. empty_buffer) goblin golem started updated starts run 0
      connected_still

Reach-calls_example : (calls started ≤ 1) × (calls updated ≤ calls started)
Reach-calls_example =
    Reach-calls true true true noon (λ i. empty_buffer) goblin golem started started updated starts
      here run
