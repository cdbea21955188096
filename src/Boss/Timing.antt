-- ===== src/Boss/Timing.antt =====
-- The golem's timer: which updates set it again, and which let it die out.
use lh_server.World.{World, Boss}
use lh_server.Boss.Keeps.{Keeps}
