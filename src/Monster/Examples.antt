-- ===== src/Monster/Examples.antt =====
-- The goblin of the sample field.
use lh_server.World.{Monster}
use lh_server.World.Seats.{Seats}
