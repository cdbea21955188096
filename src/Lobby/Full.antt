-- ===== src/Lobby/Full.antt =====
-- The first user takes the whole lobby.
use lh_server.Prelude.{◌≡◌, false, List, [], ◌∷◌, ℤ, eqb_ℤ, ◌∷◌}
use lh_server.Lobby.{Lobby, not_joined}

-- No slot is free.
abbrev pub AllTaken : List ℤ → Type 0
AllTaken [] = Unit {0}
AllTaken (pid ∷ pids) = (eqb_ℤ pid not_joined ≡ false) × AllTaken pids
