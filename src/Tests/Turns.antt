-- ===== src/Tests/Turns.antt =====
-- Moves in a game of two clients.
use ups_server.Base.{◌≡◌, ◌=s=◌, refl, false, true, [], ◌∷◌, set, replicate, ok, some, none, arith}
use ups_server.Commands.Lobby.Registration.{packet_to}
use ups_server.Commands.Match.{process_game_move}
use ups_server.Commands.Match.Freeing.{freed}
use ups_server.Commands.Match.Turns.{
  move_items, game_move, game_won, placed, process_game_move-passes, process_game_move-astray,
}
use ups_server.Commands.Match.Winning.{process_game_move-wins}
use ups_server.Game.Board.{Game}
use ups_server.Game.Control.{is_game_won}
use ups_server.Game.Player.{player}
use ups_server.Server.Games.{get_game_by_player, game_loop, plays_in, same_name, oponent_in}
use ups_server.Server.Memory.{WellFormed}
use ups_server.Server.State.{State, done, load, load_game, get}
use ups_server.Tests.Games.{board, its_game, its_oponent}
use ups_server.Tests.Memory.{one_game, one_game-WellFormed}
use ups_server.Wire.Codes.{h_c_game_move}
use ups_server.Wire.Format.{Fits, encode, encode_item}
use ups_server.Wire.Message.{Message, message}

-- The first client puts a card on an empty board.
abbrev opening : Message
opening = record (message h_c_game_move []) { payload = move_items 1 2 5; player = some 0 }

-- Running off the end of a control reads as false here.
opening_verdict : is_game_won (some false) (placed board 1 2 5) (2, 5) ≡ ok false
unfolding is_game_won
opening_verdict = refl

process_game_move-passes_example :
    process_game_move (some false) opening one_game
    ≡ done tt (record one_game {
      game_heap = record board { field = set (replicate 64 0) 21 1; player_on_turn = some 1 } ∷ [];
      p_queue = packet_to 5 (game_move 1 1 2 5) ∷ [];
    })
process_game_move-passes_example =
    process_game_move-passes (some false) one_game opening 0 1 0 1 2 5 (player true 4)
      (player true 5) board refl refl refl refl its_game refl its_oponent (omega arith)
      (omega arith) opening_verdict

-- A card of row 1 and column 13 comes to row 2 and column 5.
abbrev astray : Message
astray = record (message h_c_game_move []) { payload = move_items 1 1 13; player = some 0 }

process_game_move-astray_example :
    process_game_move none astray one_game
    ≡ done tt (record one_game {
      game_heap = record board { field = set (replicate 64 0) 21 1; player_on_turn = some 1 } ∷ [];
      p_queue = packet_to 5 (game_move 1 1 1 13) ∷ [];
    })
process_game_move-astray_example =
    process_game_move-astray none one_game astray 0 1 0 1 1 13 (player true 4) (player true 5) board
      refl refl refl refl its_game refl its_oponent (omega arith) (omega arith) (omega arith)

-- Three cards of a circle lie on the board, and the first client puts the fourth.
abbrev three_cards : Game
three_cards = record board { field = set (set (set (replicate 64 0) 28 4) 35 6) 36 3 }

abbrev ending : State
ending = record one_game { game_heap = three_cards ∷ [] }

ending-WellFormed : WellFormed ending
ending-WellFormed = record {
  heap_size = refl;
  links = one_game-WellFormed.links;
  game_size = refl;
  boards = (record { first = omega arith; second = omega arith; turn = tt; board = refl }, tt);
  ids = (refl, tt);
  next_id = refl;
  listed = one_game-WellFormed.listed;
  running = one_game-WellFormed.running;
  waiting = tt;
}

abbrev closing : Message
closing = record (message h_c_game_move []) { payload = move_items 5 3 3; player = some 0 }

ending_game : get_game_by_player (some 0) ending ≡ done (some 0) ending
unfolding get_game_by_player game_loop plays_in same_name load load_game get ◌=s=◌
ending_game = refl

ending_oponent : oponent_in three_cards (some 0) ending ≡ done (some 1) ending
unfolding oponent_in same_name load ◌=s=◌
ending_oponent = refl

closing_verdict : is_game_won none (placed three_cards 5 3 3) (3, 3) ≡ ok true
unfolding is_game_won
closing_verdict = refl

closing-Fits : Fits (game_won 0 [] 5 3 3)
unfolding encode encode_item
closing-Fits = record {
  header = omega arith;
  payload = (
    (refl, omega arith, tt),
    ((refl, omega arith), ((refl, omega arith), ((refl, omega arith), tt))),
  );
  size = omega arith;
}

process_game_move-wins_example :
    process_game_move none closing ending
    ≡ done tt (record ending {
      heap = freed (player true 4) ∷ freed (player true 5) ∷ [];
      game_heap = placed three_cards 5 3 3 ∷ [];
      games = [];
      p_queue = packet_to 4 (game_won 0 [] 5 3 3) ∷ packet_to 5 (game_won 1 [] 5 3 3) ∷ [];
    })
process_game_move-wins_example =
    process_game_move-wins none ending closing 0 1 0 5 3 3 (player true 4) (player true 5)
      three_cards [] [] refl refl (λ e. ground (arith, e)) ending-WellFormed refl refl tt refl refl
      ending_game ending_oponent (omega arith) (omega arith) closing-Fits closing_verdict
