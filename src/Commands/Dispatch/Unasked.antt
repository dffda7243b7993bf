-- ===== src/Commands/Dispatch/Unasked.antt =====
-- Commands that a client sends where they make no sense.
use ups_server.Base.{
  lt_of_get_elem?, ℕ, ◌≡◌, refl, [], none, some, null_pointer, get_elem?, get_elem?-set_self,
}
use ups_server.Commands.Dispatch.{handle}
use ups_server.Commands.Lobby.{proceed_accept_join}
use ups_server.Commands.Match.{process_game_move}
use ups_server.Game.Control.{Fallen}
use ups_server.Game.Player.{Player}
use ups_server.Server.Games.{get_game_by_player, game_loop}
use ups_server.Server.State.{State, crash, load, modify, load_game, get, and_then}
use ups_server.Wire.Codes.{h_c_game_move, h_c_accept_join}
use ups_server.Wire.Message.{Message}

-- Where no game runs, a move of any client makes the server read through a null pointer.
handle-game_move-no_game :
    (fallen : Fallen) (s : State) (m : Message)
    → m.header ≡ h_c_game_move
    → s.games ≡ []
    → handle fallen m s ≡ crash null_pointer
unfolding handle process_game_move get_game_by_player game_loop get load_game
handle-game_move-no_game fallen s m e empty =
    rw (handle, e, process_game_move, get_game_by_player, empty) refl

-- A client that is there, and that accepts a request where nobody has asked it, makes the server
-- write through a null pointer.
handle-accept_join-not_asked :
    (fallen : Fallen) (s : State) (m : Message) (a : ℕ) (p : Player)
    → m.header ≡ h_c_accept_join
    → m.player ≡ some a
    → get_elem? s.heap a ≡ some p
    → p.asked_for_joining_by ≡ none
    → handle fallen m s ≡ crash null_pointer
unfolding handle proceed_accept_join load modify
handle-accept_join-not_asked fallen s m a p e player at not_asked =
    let first : Player = record p { asked_for_joining_by = none } in
    let again = get_elem?-set_self s.heap a first (lt_of_get_elem? s.heap a p at) in
    rw
      (
        handle, e, proceed_accept_join, player, load, at, and_then, modify, at, and_then, modify,
        again, and_then, not_asked,
      )
      refl
