-- ===== src/Tests/Returning.antt =====
-- A client who comes back to a game.
use ups_server.Base.{
  none, zero, suc, ℕ, ◌≡◌, refl, sym, ap, true, false, Bytes, codes, [], ◌∷◌, some, arith, ◌=s=◌,
}
use ups_server.Commands.Events.{start}
use ups_server.Commands.Lobby.Joining.{refusal}
use ups_server.Commands.Lobby.Registration.{packet_to, are_bytes, are_bytes-AreBytes}
use ups_server.Commands.Match.{proceed_player_reconnection}
use ups_server.Commands.Match.Reconnection.{
  NotLost, proceed_player_reconnection-refuses, proceed_player_reconnection-returns,
}
use ups_server.Commands.Match.Resuming.{game_con}
use ups_server.Commands.Match.Seat.{returned}
use ups_server.Game.Board.{Game, game}
use ups_server.Game.Decimal.{get_game_string}
use ups_server.Game.Player.{Player, player}
use ups_server.Server.Games.{get_game_by_player, game_loop, plays_in, same_name}
use ups_server.Server.State.{State, done, load, load_game, get}
use ups_server.Tests.Memory.{two_clients, two_clients-WellFormed}
use ups_server.Wire.Codes.{h_c_pl_reconn}
use ups_server.Wire.Format.{Fits, encode, encode_item}
use ups_server.Wire.Message.{Message, message, text}

abbrev comes_back : Bytes → Message
comes_back name = record (message h_c_pl_reconn (codes "s")) {
  payload = text name ∷ [];
  player = some 0;
}

-- The lost player, the opponent, and their game, in which the lost one is on turn.
abbrev lost : Player
lost = record (player true 4) { name = codes "ab"; in_game = true; lost = true; socket_set = false }

abbrev waits : Player
waits = record (player true 5) { name = codes "c"; in_game = true }

abbrev open_game : Game
open_game = record (game none 0) { p1 = some 1; p2 = some 2; player_on_turn = some 1 }

abbrev one_lost : State
one_lost = record start {
  heap = player true 6 ∷ lost ∷ waits ∷ [];
  players = 1 ∷ 2 ∷ 0 ∷ [];
  game_heap = open_game ∷ [];
  games = 0 ∷ [];
  max_game_id = 1;
  client_socks = 6 ∷ 5 ∷ [];
}

its_game : get_game_by_player (some 1) one_lost ≡ done (some 0) one_lost
unfolding get_game_by_player game_loop plays_in same_name load load_game get ◌=s=◌
its_game = refl

different : (codes "c" =s= codes "ab") ≡ false
unfolding ◌=s=◌
different = refl

first_Fits : Fits (game_con 0 (codes "ab") (codes "c") open_game.field)
unfolding encode encode_item get_game_string are_bytes
first_Fits = record {
  header = omega arith;
  payload = (
    (refl, omega arith, are_bytes-AreBytes (codes "ab") refl),
    (
      (refl, omega arith, are_bytes-AreBytes (codes "c") refl),
      ((refl, omega arith, are_bytes-AreBytes (get_game_string open_game.field) refl), tt),
    ),
  );
  size = omega arith;
}

second_Fits : Fits (game_con 2 (codes "ab") (codes "ab") open_game.field)
unfolding encode encode_item get_game_string are_bytes
second_Fits = record {
  header = omega arith;
  payload = (
    (refl, omega arith, are_bytes-AreBytes (codes "ab") refl),
    (
      (refl, omega arith, are_bytes-AreBytes (codes "ab") refl),
      ((refl, omega arith, are_bytes-AreBytes (get_game_string open_game.field) refl), tt),
    ),
  );
  size = omega arith;
}

proceed_player_reconnection-returns_example :
    proceed_player_reconnection (comes_back (codes "ab")) one_lost
    ≡ done tt (record one_lost {
      heap = returned (player true 6) lost ∷ lost ∷ waits ∷ [];
      players = 2 ∷ 0 ∷ [];
      game_heap = record open_game { p1 = some 0 } ∷ [];
      p_queue =
          packet_to 6 (game_con 0 (codes "ab") (codes "c") open_game.field)
          ∷ packet_to 5 (game_con 2 (codes "ab") (codes "ab") open_game.field)
          ∷ [];
    })
proceed_player_reconnection-returns_example =
    proceed_player_reconnection-returns one_lost (comes_back (codes "ab")) 0 1 2 1 0 (player true 6)
      lost waits lost open_game true [] (2 ∷ 0 ∷ []) refl refl refl refl (λ e. ground (arith, e))
      (λ e. ground (arith, e)) (λ e. ground (arith, e)) (((λ e. cc), (λ e. cc)), tt) refl refl refl
      refl different its_game refl tt tt refl refl refl first_Fits second_Fits

nobody_lost : (c : ℕ) → NotLost two_clients (codes "a") c
unfolding ◌=s=◌
nobody_lost zero q e named = let one : player true 4 ≡ q = cc in ap (λ x. x.lost) (sym one)
nobody_lost (suc zero) q e named = let one : player true 5 ≡ q = cc in ap (λ x. x.lost) (sym one)
nobody_lost (suc (suc c)) q e named = cc

proceed_player_reconnection-refuses_example :
    proceed_player_reconnection (comes_back (codes "a")) two_clients
    ≡ done tt (record two_clients { p_queue = packet_to 4 (refusal 0) ∷ [] })
proceed_player_reconnection-refuses_example =
    proceed_player_reconnection-refuses two_clients (comes_back (codes "a")) 0 (player true 4)
      (codes "a") two_clients-WellFormed refl refl refl (nobody_lost 0, (nobody_lost 1, tt))
