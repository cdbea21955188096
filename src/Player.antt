-- ===== src/Player.antt =====
-- Server/CPlayer.cpp: what a player does. `me` is the key under which the object stands in
-- `g_player`, and `id` its own field. A handler runs as one step: what other threads do during its
-- `sleep_for` is not part of it.
pub mod Combat
pub mod Skills
pub mod Weapons
pub mod Motion
mod Examples
