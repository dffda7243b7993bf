-- ===== src/Commands/Dispatch.antt =====
-- The loops of the threads, one round at a time: `CommandManager::run`, `PacketManager::run`,
-- `Sender::run` and the cases of `Server::run`, under UPSServer/network. A round is one step: the
-- server's threads share the players and games without a lock, and a round is taken to run without
-- another between.
pub mod Packets
pub mod Unasked
pub mod Bullshit
use package.ups_server.Base.{
  ℕ, ◌+◌, ◌%◌, ◌^◌, ◌&&◌, Bytes, Bool, true, false, [], ◌∷◌, ◌++◌, Option, none, some, fault,
  out_of_bounds, ltb, leb, ◌==◌, if◌then◌else◌, length,
}
use package.ups_server.Commands.Lobby.{
  proceed_new_player_connection, proceed_player_list_request, proceed_player_joining,
  proceed_decline_join, proceed_accept_join,
}
use package.ups_server.Commands.Match.{
  proceed_player_reconnection, process_game_move, proceed_player_logout, proceed_player_lost,
}
use package.ups_server.Game.Control.{Fallen}
use package.ups_server.Game.Player.{player}
use package.ups_server.Queue.{push, pop}
use package.ups_server.Server.Players.{get_player_by_socket, proceed_player_disconnection}
use package.ups_server.Server.State.{
  M, Packet, pure, ◌>>=◌, ◌>>◌, lift, get, update, load, modify, register_command,
}
use package.ups_server.Wire.Codes.{
  h_c_new_pl, h_c_pl_reconn, h_c_pl_list_req, h_c_pl_logout, h_c_join_player, h_c_declin_join,
  h_c_accept_join, h_c_game_move, internal_pl_lost,
}
use package.ups_server.Wire.Deserialize.{deserialize}
use package.ups_server.Wire.Message.{Message}

-- The switch over the header; other messages are dropped.
unfoldable pub handle : Fallen → Message → M (Unit {0})
handle fallen mess =
    if mess.header == h_c_new_pl
    then proceed_new_player_connection mess
    else if mess.header == h_c_pl_reconn
    then proceed_player_reconnection mess
    else if mess.header == h_c_pl_list_req
    then proceed_player_list_request mess
    else if mess.header == h_c_pl_logout
    then proceed_player_logout mess
    else if mess.header == h_c_join_player
    then proceed_player_joining mess
    else if mess.header == h_c_declin_join
    then proceed_decline_join mess
    else if mess.header == h_c_accept_join
    then proceed_accept_join mess
    else if mess.header == h_c_game_move
    then process_game_move fallen mess
    else if mess.header == internal_pl_lost
    then proceed_player_lost mess
    else pure tt

-- A round of `CommandManager::run`, if a command waits.
unfoldable pub command_step : Fallen → M (Unit {0})
unfolding pop
command_step fallen = do
  s ← get
  elim s.command_queue [
    | [] ↦ pure tt
    | _ ∷ _ ↦ do
      (mess, rest) ← lift (pop s.command_queue)
      update (λ s. record s { command_queue = rest })
      handle fallen mess
  ]

-- One more message that is not of the protocol; at a count of 10 or more the
-- connection is closed. The count is an `int`.
unfoldable pub count_bullshit : ℕ → M (Unit {0})
count_bullshit socket = do
  p ← get_player_by_socket socket
  elim p [
    | none ↦ pure tt
    | some a ↦ do
      modify (some a) (λ p. record p { bullshit_messages = (p.bullshit_messages + 1) % 2 ^ 32 })
      q ← load (some a)
      elim (leb 10 q.bullshit_messages && ltb q.bullshit_messages (2 ^ 31)) [
        | true ↦ proceed_player_disconnection socket
        | false ↦ pure tt
      ]
  ]

unfoldable pub process_packet : Packet → M (Unit {0})
process_packet packet = do
  parsed ← lift (deserialize packet.bytes)
  elim parsed [
    | none ↦ count_bullshit packet.socket
    | some mess ↦ do
      p ← get_player_by_socket packet.socket
      register_command (record mess { player = p })
  ]

-- A round of `PacketManager::run`, if a packet waits.
unfoldable pub packet_step : M (Unit {0})
unfolding pop process_packet
packet_step = do
  s ← get
  elim s.packet_queue [
    | [] ↦ pure tt
    | _ ∷ _ ↦ do
      (packet, rest) ← lift (pop s.packet_queue)
      update (λ s. record s { packet_queue = rest })
      process_packet packet
  ]

-- A round of `Sender::run`: the packet that is handed to `send`, if one waits.
unfoldable pub send_step : M (Option Packet)
unfolding pop
send_step = do
  s ← get
  elim s.p_queue [
    | [] ↦ pure none
    | _ ∷ _ ↦ do
      (packet, rest) ← lift (pop s.p_queue)
      update (λ s. record s { p_queue = rest })
      pure (some packet)
  ]

-- `FD_SETSIZE`; the set `clientSocks` has no place for a descriptor from there on.
abbrev pub fd_setsize : ℕ
fd_setsize = 1024

-- `Server::run` at the listening socket, with the descriptor that `acceptNewConnection` gave;
-- `held` is what the new player's memory held in place of `nameSet`.
unfoldable pub accept_client : Bool → ℕ → M (Unit {0})
accept_client held fd =
    if ltb fd fd_setsize
    then update (λ s. record s {
      client_socks = fd ∷ s.client_socks;
      heap = s.heap ++ player held fd ∷ [];
      players = s.players ++ length s.heap ∷ [];
    })
    else lift (fault out_of_bounds)

-- `PacketManager::registerPacket`
register_packet : Packet → M (Unit {0})
register_packet packet = update λ s. record s { packet_queue = push s.packet_queue packet }

-- `Server::run` at a client's socket, with the bytes that wait there: `processData`, or the end of
-- the connection if there are none.
unfoldable pub serve_client : ℕ → Bytes → M (Unit {0})
unfolding register_packet
serve_client fd [] = proceed_player_disconnection fd
serve_client fd (b ∷ bytes) =
    register_packet (record { socket = fd; size = length (b ∷ bytes); bytes = b ∷ bytes })
