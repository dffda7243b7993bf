-- ===== src/Tests/Delivery.antt =====
-- Rounds up to the sending of an answer, a round that stops, and the start of a game.
use ups_server.Base.{
  length, sym, append-nil, ℕ, ◌≡◌, refl, true, none, some, [], ◌∷◌, codes, arith, get_elem?,
  Tolerated, unset_pointer,
}
use ups_server.Commands.Dispatch.{
  accept_client, handle, serve_client, packet_step, command_step, send_step,
}
use ups_server.Commands.Dispatch.Packets.{process_packet-frame}
use ups_server.Commands.Lobby.{proceed_accept_join}
use ups_server.Commands.Lobby.Registration.{packet_to, ack, proceed_new_player_connection-free}
use ups_server.Commands.Lobby.Answering.{proceed_accept_join-answers}
use ups_server.Commands.Lobby.Starting.{game_start, new_game}
use ups_server.Commands.Events.{
  accepts, receives, packets, commands, sends, run_event, Reachable, after,
}
use ups_server.Commands.Memory.Delivery.{rounds, rounds-delivers}
use ups_server.Commands.Memory.Reachable.{run_event-Tolerated}
use ups_server.Game.Player.{Player, player}
use ups_server.Server.Players.Disconnection.{proceed_player_disconnection-unknown}
use ups_server.Server.State.{State, Packet, done, crash, update, get, load, register_command}
use ups_server.Server.Players.{get_player_by_socket}
use ups_server.Server.Players
use ups_server.Queue.{pop}
use ups_server.Tests.Registration.{not_named}
use ups_server.Tests.Memory.{two_clients, two_clients-Reachable, two_clients-WellFormed}
use ups_server.Wire.Codes.{h_c_new_pl, h_c_accept_join, head_to_format, find_format}
use ups_server.Wire.Format.{Fits, frame, unsigned_frame, sum, encode, encode_item}
use ups_server.Wire.Message.{Message, message, text}

closed_unknown : run_event (receives 9 []) two_clients ≡ crash unset_pointer
unfolding run_event serve_client
closed_unknown =
    proceed_player_disconnection-unknown two_clients 9
      ((player true 4, refl, refl), ((player true 5, refl, refl), tt))

run_event-Tolerated_example : Tolerated unset_pointer
run_event-Tolerated_example =
    run_event-Tolerated two_clients (receives 9 []) unset_pointer two_clients-Reachable
      closed_unknown

-- The first client registers.
abbrev registration : Message
registration = record (message h_c_new_pl (codes "s")) { payload = text (codes "a") ∷ [] }

pub registration-Fits : Fits registration
unfolding encode encode_item
registration-Fits = record {
  header = omega arith;
  payload = ((refl, omega arith, (omega arith, tt)), tt);
  size = omega arith;
}

abbrev its_packet : Packet
its_packet = record { socket = 4; size = length (frame registration); bytes = frame registration }

abbrev received : State
received = record two_clients { packet_queue = its_packet ∷ [] }

abbrev queued : State
queued = record two_clients { command_queue = record registration { player = some 0 } ∷ [] }

abbrev answered : State
answered = record two_clients {
  heap =
      record (player true 4) { name = codes "a"; name_set = true; availible = true }
      ∷ player true 5
      ∷ [];
  p_queue = packet_to 4 (ack 0) ∷ [];
}

receiving : run_event (receives 4 (frame registration)) two_clients ≡ done tt received
unfolding run_event serve_client frame unsigned_frame encode encode_item sum update
receiving = refl

parsing : run_event packets received ≡ done tt queued
unfolding run_event packet_step pop get update get_player_by_socket Players.first_player load
    register_command head_to_format find_format
parsing =
    process_packet-frame its_packet registration [] two_clients registration-Fits refl
      (sym (append-nil (frame registration)))

answering : run_event (commands none) queued ≡ done tt answered
unfolding run_event command_step pop get update handle
answering =
    proceed_new_player_connection-free two_clients (record registration { player = some 0 }) 0
      (player true 4) (codes "a") two_clients-WellFormed refl refl refl
      (not_named 0, (not_named 1, tt))

answered-Reachable : Reachable answered
answered-Reachable =
    after {s = queued} (commands none)
      (after {s = received} packets
        (after {s = two_clients} (receives 4 (frame registration)) two_clients-Reachable receiving)
        parsing)
      answering

abbrev later : State
later = record answered {
  heap =
      record (player true 4) { name = codes "a"; name_set = true; availible = true }
      ∷ player true 5
      ∷ player true 6
      ∷ [];
  players = 0 ∷ 1 ∷ 2 ∷ [];
  client_socks = 6 ∷ 5 ∷ 4 ∷ [];
  p_queue = [];
}

-- Another client connects before the answer is sent.
accepting_and_sending :
    rounds (accepts true 6 ∷ sends ∷ []) answered ≡ done (packet_to 4 (ack 0) ∷ []) later
unfolding rounds run_event accept_client send_step get update pop
accepting_and_sending = refl

rounds-delivers_example : get_elem? (packet_to 4 (ack 0) ∷ []) 0 ≡ some (packet_to 4 (ack 0))
rounds-delivers_example =
    rounds-delivers (accepts true 6 ∷ sends ∷ []) answered later (packet_to 4 (ack 0) ∷ []) 0
      (packet_to 4 (ack 0)) answered-Reachable accepting_and_sending refl (omega arith)

-- The first client asked the second one, who says yes.
abbrev asking_player : Player
asking_player = record (player true 4) { name = codes "a"; joining_player = some 1 }

abbrev asked_player : Player
asked_player = record (player true 5) { name = codes "b"; asked_for_joining_by = some 0 }

abbrev asked : State
asked = record two_clients { heap = asking_player ∷ asked_player ∷ [] }

abbrev yes_of_second : Message
yes_of_second = record (message h_c_accept_join []) { player = some 1 }

pub start_ab-Fits : (a : ℕ) → Fits (game_start a (codes "a") (codes "b"))
unfolding encode encode_item
start_ab-Fits a = record {
  header = omega arith;
  payload = ((refl, omega arith, (omega arith, tt)), ((refl, omega arith, (omega arith, tt)), tt));
  size = omega arith;
}

pub start_aa-Fits : (a : ℕ) → Fits (game_start a (codes "a") (codes "a"))
unfolding encode encode_item
start_aa-Fits a = record {
  header = omega arith;
  payload = ((refl, omega arith, (omega arith, tt)), ((refl, omega arith, (omega arith, tt)), tt));
  size = omega arith;
}

proceed_accept_join-answers_example :
    proceed_accept_join yes_of_second asked
    ≡ done tt (record asked {
      heap =
          record asking_player { in_game = true }
          ∷ record asked_player { in_game = true; asked_for_joining_by = none }
          ∷ [];
      game_heap = new_game asked 0 1 ∷ [];
      games = 0 ∷ [];
      max_game_id = 1;
      p_queue =
          packet_to 4 (game_start 0 (codes "a") (codes "b"))
          ∷ packet_to 5 (game_start 1 (codes "a") (codes "a"))
          ∷ [];
    })
proceed_accept_join-answers_example =
    proceed_accept_join-answers asked yes_of_second 0 1 asking_player asked_player refl refl
      (λ e. ground (arith, e)) refl refl (start_ab-Fits 0) (start_aa-Fits 1)
