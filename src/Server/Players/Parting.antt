-- ===== src/Server/Players/Parting.antt =====
-- A connection that has ended, described apart from the code that ends it.
use ups_server.Base.{ℕ, ◌∷◌, false}
use ups_server.Game.Player.{Player}
use ups_server.Server.Players.{without}
use ups_server.Server.State.{State}

-- The descriptor is closed, and none of the set from then on.
abbrev pub cut : ℕ → State → State
cut fd s = record s { closed = fd ∷ s.closed; client_socks = without fd s.client_socks }

-- The player has no socket; -1 stands for it.
abbrev pub unplugged : Player → Player
unplugged p = record p { socket = 0xffff_ffff; socket_set = false }
