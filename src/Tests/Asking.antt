-- ===== src/Tests/Asking.antt =====
-- Clients who look for a partner.
use ups_server.Base.{◌≡◌, refl, true, false, some, [], ◌∷◌, codes, arith, ◌=s=◌}
use ups_server.Base.Separated.{joined, followed}
use ups_server.Commands.Lobby.{proceed_player_list_request, proceed_decline_join}
use ups_server.Commands.Lobby.Declining.{declined, proceed_decline_join-frees}
use ups_server.Commands.Lobby.Listing.{
  list_answer, objects, offered_names, proceed_player_list_request-lists,
}
use ups_server.Commands.Lobby.Registration.{packet_to}
use ups_server.Game.Player.{Player, player}
use ups_server.Server.Memory.{WellFormed}
use ups_server.Server.State.{State, done}
use ups_server.Tests.Memory.{two_clients, two_clients-WellFormed}
use ups_server.Wire.Codes.{h_c_pl_list_req, h_c_declin_join}
use ups_server.Wire.Format.{Fits, encode, encode_item}
use ups_server.Wire.Message.{Message, message}

-- Two clients with names, of whom the second is free.
abbrev first : Player
first = record (player true 4) { name = codes "a" }

abbrev second : Player
second = record (player true 5) { name = codes "b"; availible = true }

abbrev both_named : State
both_named = record two_clients { heap = first ∷ second ∷ [] }

both_named-WellFormed : WellFormed both_named
both_named-WellFormed = record {
  heap_size = refl;
  links = (record { joining = tt; asked = tt }, (record { joining = tt; asked = tt }, tt));
  game_size = refl;
  boards = tt;
  ids = tt;
  next_id = refl;
  listed = two_clients-WellFormed.listed;
  running = tt;
  waiting = tt;
}

abbrev wants_list : Message
wants_list = record (message h_c_pl_list_req []) { player = some 0 }

list-Fits : Fits (list_answer 0 (codes "b" ∷ []))
unfolding encode encode_item joined followed
list-Fits = record {
  header = omega arith;
  payload = ((refl, omega arith), ((refl, omega arith, (omega arith, tt)), tt));
  size = omega arith;
}

proceed_player_list_request-lists_example :
    proceed_player_list_request wants_list both_named
    ≡ done tt (record both_named { p_queue = packet_to 4 (list_answer 0 (codes "b" ∷ [])) ∷ [] })
unfolding objects offered_names ◌=s=◌
proceed_player_list_request-lists_example =
    proceed_player_list_request-lists both_named 0 first refl wants_list both_named-WellFormed refl
      list-Fits

-- The first one has asked the second one, who says no.
abbrev asking : Player
asking = record first { joining_player = some 1 }

abbrev asked : Player
asked = record second { availible = false; asked_for_joining_by = some 0 }

abbrev question : State
question = record two_clients { heap = asking ∷ asked ∷ [] }

abbrev no_of_second : Message
no_of_second = record (message h_c_declin_join []) { player = some 1 }

proceed_decline_join-frees_example :
    proceed_decline_join no_of_second question
    ≡ done tt (record question {
      heap = record asking { availible = true } ∷ second ∷ [];
      p_queue = packet_to 4 (declined 0) ∷ [];
    })
proceed_decline_join-frees_example =
    proceed_decline_join-frees question no_of_second 0 1 asking asked refl refl
      (λ e. ground (arith, e)) refl refl
