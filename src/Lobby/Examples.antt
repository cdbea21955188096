-- ===== src/Lobby/Examples.antt =====
-- Two users enter a new lobby.
