-- ===== src/Tests/Leaving.antt =====
-- Clients whose connection ends.
use ups_server.Commands.Lobby.Registration.{packet_to}
use ups_server.Base.{arith, ◌≡◌, refl, true, [], ◌∷◌, some, none, ◌=s=◌}
use ups_server.Game.Player.{Player, player}
use ups_server.Server.Players.Parting.{cut, unplugged}
use ups_server.Server.Players.{proceed_player_disconnection}
use ups_server.Server.Players.Disconnection.{proceed_player_disconnection-ends}
use ups_server.Server.State.{State, done, load, load_game, get, ◌>>◌}
use ups_server.Commands.Dispatch.{count_bullshit, command_step}
use ups_server.Commands.Dispatch.Bullshit.{count_bullshit-ends}
use ups_server.Commands.Events.{start}
use ups_server.Commands.Match.Losing.{player_loss, command_step-lost}
use ups_server.Server.Games.{get_game_by_player, game_loop, plays_in, same_name, oponent_in}
use ups_server.Tests.Games.{board}
use ups_server.Tests.Memory.{two_clients, one_game}

proceed_player_disconnection-ends_example :
    proceed_player_disconnection 5 two_clients
    ≡ done tt (record (cut 5 two_clients) {
      heap = player true 4 ∷ unplugged (player true 5) ∷ [];
      players = 0 ∷ [];
    })
proceed_player_disconnection-ends_example =
    proceed_player_disconnection-ends two_clients 5 1 (player true 5) (0 ∷ []) [] refl
      ((player true 4, refl, refl), tt) refl refl

abbrev playing : Player
playing = record (player true 4) { in_game = true }

-- A client after nine messages that are not of the protocol.
abbrev annoying : Player
annoying = record (player true 4) { bullshit_messages = 9 }

abbrev one_annoying : State
one_annoying = record start { heap = annoying ∷ []; players = 0 ∷ []; client_socks = 4 ∷ [] }

count_bullshit-ends_example :
    count_bullshit 4 one_annoying
    ≡ done tt (record (cut 4 one_annoying) {
      heap = record (unplugged annoying) { bullshit_messages = 10 } ∷ [];
      players = [];
    })
count_bullshit-ends_example = count_bullshit-ends one_annoying 4 0 annoying [] [] refl tt refl refl

-- The two clients play, and the connection of the first one ends.
abbrev both_playing : State
both_playing = record one_game { heap = playing ∷ record (player true 5) { in_game = true } ∷ [] }

playing_game : get_game_by_player (some 0) both_playing ≡ done (some 0) both_playing
unfolding get_game_by_player game_loop plays_in same_name load load_game get ◌=s=◌
playing_game = refl

playing_oponent : oponent_in board (some 0) both_playing ≡ done (some 1) both_playing
unfolding oponent_in same_name load ◌=s=◌
playing_oponent = refl

command_step-lost_example :
    (proceed_player_disconnection 4 >> command_step none) both_playing
    ≡ done tt (record (cut 4 both_playing) {
      heap =
          record (unplugged playing) { lost = true }
          ∷ record (player true 5) { in_game = true }
          ∷ [];
      p_queue = packet_to 5 (player_loss 1) ∷ [];
    })
command_step-lost_example =
    command_step-lost none both_playing 4 0 1 0 [] (1 ∷ []) playing
      (record (player true 5) { in_game = true }) board refl tt refl refl refl
      (λ e. ground (arith, e)) refl refl playing_game refl playing_oponent refl
