-- ===== src/Lib.antt =====
-- A model of the game server of this repository (Server/), and of what its parts owe one another.
--
-- The program. Server/main.cpp accepts clients on a completion port; worker threads cut the bytes of a
-- client into packets and run the handlers of Server/CPlayer.cpp, a timer thread (Server/Event.cpp)
-- fires the events that handlers have put into a queue, and a database thread answers queries. Monsters
-- (Server/CMonster.cpp, state.cpp) and the golem (Boss.cpp, BossState.cpp) live on the timer events
-- that they set for themselves.
--
-- The files, and the code that each is about:
--   Prelude, Prelude/*    tests, lists, integers: ℤ is the value of an int or a short.
--   Protocol, Protocol/*  Server/protocol.h: the packets that are sent, and their bytes.
--   Net, Net/*            recv_packet_construct of Server/main.cpp. Net/Framing is the specification:
--                         a stream is cut into frames by the first byte of each.
--   Physics, Physics/*    Server/Physics.h and the functions GetDistance and GetDegree.
--   World                 the shared state: g_player, g_monster, g_boss, the two queues, and the log
--                         of what was sent. World/Send is send_packet, World/Timers is AddTimer,
--                         World/Seats the ids of the players in their slots, and World/Samples a
--                         small field for runs.
--   Timer, Timer/*        TimerThread of Server/Event.cpp.
--   Damage, Damage/*      TakeDamage and Death.
--   Player, Player/*      Server/CPlayer.cpp: Combat (Attck, Berserk, Assassinate, KillMonster,
--                         LevelUp), Skills (Guard, Evade, Hide, FireBall, and CObject::Update),
--                         Weapons (WeaponOn, WeaponOff), Motion (MoveTo, EnterGame, SetMoveState).
--   Monster, Monster/*    Server/CMonster.cpp, and Monster/States for Server/state.cpp.
--   Boss, Boss/*          Server/Boss.cpp, and Boss/States for Server/BossState.cpp.
--   Start, Start/*        CreateMonsters and SpawnMonster of Server/CMonster.cpp.
--   PathFinder, .../*     Server/CPathFinder.cpp and node.cpp.
--   Session, Session/*    OP_ACCEPT and Disconnect of Server/main.cpp.
--   Dispatch, Dispatch/*  ProcessPacket, SignUp, Login and the completions of worker_thread of
--                         Server/main.cpp; Dispatch/Requests reads the packets out of their bytes,
--                         and Dispatch/Wire writes them as clients do.
--   Queries, Queries/*    DB_Thread of Server/CDBConnector.cpp, and Queries/Connector its calls of ODBC.
--   Terrain, Terrain/*    Server/CTerrain.cpp.
--   Lobby, Lobby/*        Server/Lobby.cpp.
--   Spatial, Spatial/*    Server/KDTree.cpp.
--   System, System/*      main of Server/main.cpp and the whole: a step is one turn of a thread, and a run is
--                         a sequence of steps. System/Invariant, System/Alarm and System/Places are
--                         what every run keeps, System/Wear is what it does to the golem; the files
--                         beside them are about the handlers, one group each.
-- A definition has the name of its function in lower case: CPlayer::LevelUp is level_up, and
-- IdleState::Execute is idle_execute. A file Examples holds runs of its component on small inputs.
--
-- How state is modelled. A handler is a function of the World, and of an Env for what comes from
-- outside: the clock, the random numbers, and the processor's float operations, of which nothing is
-- assumed. Floats are their bit patterns. A NULL pointer is `none`; code that follows it, or that ends
-- the process in another way, sets `crashed`. A handler runs as one step: the threads of the program
-- may interleave inside it, at its sleep_for and between its packets, and this is not modelled. The
-- mutexes guard single reads and writes and are left out for the same reason.
--
-- Bounds. recv_loop runs on fuel: a round takes at least one byte or spins, so that one round more
-- than there are bytes is enough. PathFind runs on fuel: the list of closed nodes grows with each call
-- and 100 is its limit. WeaponOn and WeaponOff call one another on a depth of 2. A round of the timer
-- thread runs on fuel by the length of the queue, one of the database thread by twice its length. Loops over MAX_MONSTER slots are for_range.
--
-- Not modelled: sockets and the console output, which are input and output (what the ODBC driver
-- answers and the bytes of the terrain file are arguments); DisconnectDataSource, which stands behind an
-- endless loop; CServer.cpp and CServer.h, which are commented out; and the code that
-- stands behind a `return` that is always reached.
pub mod Boss
pub mod Damage
pub mod Dispatch
pub mod Lobby
pub mod Monster
pub mod Net
pub mod PathFinder
pub mod Physics
pub mod Player
pub mod Prelude
pub mod Protocol
pub mod Queries
pub mod Session
pub mod Spatial
pub mod Start
pub mod System
pub mod Terrain
pub mod Timer
pub mod World
