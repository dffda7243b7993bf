-- ===== src/Tests/Losing.antt =====
-- Two clients whose connections end in the same game.
use ups_server.Base.{◌≡◌, refl, true, false, some, [], ◌∷◌, codes, arith, ◌=s=◌}
use ups_server.Commands.Match.{proceed_player_lost, proceed_game_ending}
use ups_server.Commands.Match.Leaving.{proceed_game_ending-ends}
use ups_server.Commands.Match.BothLost.{proceed_player_lost-ends}
use ups_server.Game.Player.{Player, player}
use ups_server.Server.Games.{get_game_by_player, game_loop, plays_in, same_name, oponent_in}
use ups_server.Server.Memory.{WellFormed}
use ups_server.Server.State.{State, done, load, load_game, get}
use ups_server.Tests.Games.{board}
use ups_server.Tests.Memory.{one_game, one_game-WellFormed}
use ups_server.Wire.Codes.{internal_pl_lost, h_c_pl_logout}
use ups_server.Wire.Message.{Message, message}

abbrev going : Player
going = record (player true 4) { name = codes "a"; in_game = true; socket_set = false }

abbrev gone : Player
gone = record (player true 5) { name = codes "b"; in_game = true; socket_set = false; lost = true }

-- The second one is lost, and the connection of the first one has ended.
abbrev both_away : State
both_away = record one_game { heap = going ∷ gone ∷ [] }

both_away-WellFormed : WellFormed both_away
both_away-WellFormed = record {
  heap_size = refl;
  links = (record { joining = tt; asked = tt }, (record { joining = tt; asked = tt }, tt));
  game_size = refl;
  boards = one_game-WellFormed.boards;
  ids = one_game-WellFormed.ids;
  next_id = refl;
  listed = one_game-WellFormed.listed;
  running = one_game-WellFormed.running;
  waiting = tt;
}

its_game : get_game_by_player (some 0) both_away ≡ done (some 0) both_away
unfolding get_game_by_player game_loop plays_in same_name load load_game get ◌=s=◌
its_game = refl

its_oponent : oponent_in board (some 0) both_away ≡ done (some 1) both_away
unfolding oponent_in same_name load ◌=s=◌
its_oponent = refl

abbrev first_lost : Message
first_lost = record (message internal_pl_lost []) { player = some 0 }

proceed_player_lost-ends_example :
    proceed_player_lost first_lost both_away
    ≡ done tt (record both_away {
      heap = record going { lost = true; in_game = false } ∷ record gone { in_game = false } ∷ [];
      games = [];
      players = [];
    })
unfolding ◌=s=◌
proceed_player_lost-ends_example =
    proceed_player_lost-ends both_away 0 1 0 going gone board [] [] refl refl
      (λ e. ground (arith, e)) first_lost (0 ∷ []) [] [] [] both_away-WellFormed refl its_game refl
      its_oponent refl refl tt refl ((going, refl, refl), tt) refl tt

-- The first one leaves the game that the second one is lost in.
abbrev leaving : Message
leaving = record (message h_c_pl_logout []) { player = some 0 }

proceed_game_ending-ends_example :
    proceed_game_ending leaving both_away
    ≡ done tt (record both_away {
      heap = record going { availible = true; in_game = false } ∷ gone ∷ [];
      games = [];
      players = 0 ∷ [];
    })
unfolding ◌=s=◌
proceed_game_ending-ends_example =
    proceed_game_ending-ends both_away leaving 0 1 0 going gone board [] [] (0 ∷ []) [] refl refl
      (λ e. ground (arith, e)) both_away-WellFormed refl its_game refl its_oponent refl tt refl
      ((going, refl, refl), tt)
