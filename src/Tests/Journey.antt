-- ===== src/Tests/Journey.antt =====
-- What two clients send, on its way through the threads.
use ups_server.Base.{
  ◌≡◌, ◌↔◌, refl, Bool, true, false, none, some, [], ◌∷◌, ◌++◌, codes, All, arith, if◌then◌else◌,
  ◌=s=◌,
}
use ups_server.Commands.Dispatch.{handle, serve_client, packet_step, command_step, send_step}
use ups_server.Commands.Journey.{serve_client-handle}
use ups_server.Commands.Journey.GameStart.{join_player, accept_join, game_starts}
use ups_server.Commands.Journey.Registration.{new_player, registration-answered}
use ups_server.Commands.Lobby.Names.{NotNamed}
use ups_server.Commands.Lobby.Registration.{packet_to, ack, nack}
use ups_server.Commands.Lobby.Requests.{join_request}
use ups_server.Commands.Lobby.Starting.{game_start, new_game}
use ups_server.Game.Player.{Player, player}
use ups_server.Server.State.{State, done, ◌>>◌}
use ups_server.Tests.Delivery.{registration-Fits, start_ab-Fits, start_aa-Fits}
use ups_server.Tests.Memory.{two_clients, two_clients-WellFormed}
use ups_server.Tests.Wire.{move_message, move_message-Fits, known_move}
use ups_server.Wire.Format.{Fits, frame, encode, encode_item}

-- The second client's move, with one more byte behind it.
serve_client-handle_example :
    (serve_client 5 (frame move_message ++ 0 ∷ []) >> packet_step >> command_step none) two_clients
    ≡ handle none (record move_message { player = some 1 }) two_clients
serve_client-handle_example =
    serve_client-handle two_clients 5 1 (player true 5) (0 ∷ []) [] refl
      ((player true 4, refl, refl), tt) refl refl none move_message (0 ∷ []) refl refl
      move_message-Fits known_move

registration-answered_example :
    (free : Bool) × ((free ≡ true) ↔ All (NotNamed two_clients (codes "a")) (0 ∷ 1 ∷ []))
    × ((serve_client 4 (frame (new_player (codes "a")) ++ [])
            >> packet_step
            >> command_step none
            >> send_step)
          two_clients
        ≡ done (some (packet_to 4 (if free then ack 0 else nack 0))) (
            if free
            then record two_clients {
              heap =
                  record (player true 4) { name = codes "a"; name_set = true; availible = true }
                  ∷ player true 5
                  ∷ [];
            }
            else two_clients))
registration-answered_example =
    registration-answered two_clients 4 0 (player true 4) [] (1 ∷ []) refl tt refl refl none
      (codes "a") [] two_clients-WellFormed refl refl refl registration-Fits

-- Both clients have names and are free.
abbrev first : Player
first = record (player true 4) { name = codes "a"; availible = true }

abbrev second : Player
second = record (player true 5) { name = codes "b"; availible = true }

abbrev both_free : State
both_free = record two_clients { heap = first ∷ second ∷ [] }

wish-Fits : Fits (join_player (codes "b"))
unfolding encode encode_item
wish-Fits = record {
  header = omega arith;
  payload = ((refl, omega arith, (omega arith, tt)), tt);
  size = omega arith;
}

request-Fits : Fits (join_request 1 (codes "a"))
unfolding encode encode_item
request-Fits = record {
  header = omega arith;
  payload = ((refl, omega arith, (omega arith, tt)), tt);
  size = omega arith;
}

game_starts_example :
    (serve_client 4 (frame (join_player (codes "b")) ++ [])
        >> packet_step
        >> command_step none
        >> serve_client 5 (frame accept_join ++ [])
        >> packet_step
        >> command_step none)
      both_free
    ≡ done tt (record both_free {
      heap =
          record first { availible = false; joining_player = some 1; in_game = true }
          ∷ record second { availible = false; in_game = true }
          ∷ [];
      game_heap = new_game both_free 0 1 ∷ [];
      games = 0 ∷ [];
      max_game_id = 1;
      p_queue =
          packet_to 4 (ack 0)
          ∷ packet_to 5 (join_request 1 (codes "a"))
          ∷ packet_to 4 (game_start 0 (codes "a") (codes "b"))
          ∷ packet_to 5 (game_start 1 (codes "a") (codes "a"))
          ∷ [];
    })
unfolding ◌=s=◌
game_starts_example =
    game_starts both_free 0 1 4 5 first second [] (1 ∷ []) (0 ∷ []) [] refl refl
      (λ e. ground (arith, e)) refl tt refl refl ((first, refl, refl), tt) refl refl refl none none
      [] [] ((first, refl, refl), tt) refl wish-Fits request-Fits (start_ab-Fits 0)
      (start_aa-Fits 1)
