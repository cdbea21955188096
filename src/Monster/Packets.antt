-- ===== src/Monster/Packets.antt =====
-- The packets that tell of a monster, of Server/CMonster.cpp.
use lh_server.Prelude.{[], pos}
use lh_server.Protocol.{Packet}
use lh_server.World.{Monster}

-- The name is memory that nobody initialised.
abbrev pub make_enter_packet : Monster → Packet
make_enter_packet m = Packet.enter_obj m.m_type [] (pos m.id) m.pos

abbrev pub make_leave_packet : Monster → Packet
make_leave_packet m = Packet.leave_obj (pos m.id)

abbrev pub make_update_packet : Monster → Packet
make_update_packet m = Packet.update_obj m.pos (pos m.id) m.rotation m.velocity

abbrev pub make_damaged_packet : Monster → Packet
make_damaged_packet m = Packet.damaged (pos m.id) m.health_point
