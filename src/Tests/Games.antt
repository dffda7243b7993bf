-- ===== src/Tests/Games.antt =====
-- The game of two clients.
use ups_server.Base.{none, ◌≡◌, ◌=s=◌, refl, some}
use ups_server.Game.Board.{Game, game}
use ups_server.Server.Games.{get_game_by_player, game_loop, plays_in, same_name, oponent_in}
use ups_server.Server.State.{done, load, load_game, get}
use ups_server.Tests.Memory.{one_game}

abbrev pub board : Game
board = record (game none 0) { p1 = some 0; p2 = some 1 }

pub its_game : get_game_by_player (some 0) one_game ≡ done (some 0) one_game
unfolding get_game_by_player game_loop plays_in same_name load load_game get ◌=s=◌
its_game = refl

pub its_oponent : oponent_in board (some 0) one_game ≡ done (some 1) one_game
unfolding oponent_in same_name load ◌=s=◌
its_oponent = refl
