-- ===== src/Commands/Journey.antt =====
-- What a client sends on its way through the threads of UPSServer/network: `Server::run` reads it,
-- `PacketManager::run` parses it, `CommandManager::run` handles it, `Sender::run` sends the answer.
pub mod Registration
pub mod GameStart
use mathlib.Core.Path.{subst}
use package.ups_server.Base.{
  ℕ, ◌≡◌, refl, sym, ap, ◌∙◌, Bytes, true, List, [], ◌∷◌, ◌++◌, some, All, get_elem?, length,
}
use package.ups_server.Commands.Dispatch.{
  handle, serve_client, packet_step, command_step, process_packet,
}
use package.ups_server.Commands.Dispatch.Bullshit.{found-sender}
use package.ups_server.Commands.Dispatch.Packets.{process_packet-frame}
use package.ups_server.Game.Control.{Fallen}
use package.ups_server.Game.Player.{Player}
use package.ups_server.Queue.{pop}
use package.ups_server.Server.Players.{has_this_socket}
use package.ups_server.Server.Players.Lookup.{Fails}
use package.ups_server.Server.State.{
  State, Packet, done, and_then, get, update, register_command, ◌>>◌,
}
use package.ups_server.Wire.Codes.{head_to_format}
use package.ups_server.Wire.Format.{frame, unsigned_frame, Fits}
use package.ups_server.Wire.Message.{Message}

-- Nothing waits for the packet manager and the command manager.
idle : State → State
idle s = record s { packet_queue = []; command_queue = [] }

idle-idle : (s : State) → s.packet_queue ≡ [] → s.command_queue ≡ [] → idle s ≡ s
unfolding idle
idle-idle s packets commands =
    ap (λ q. record (idle s) { packet_queue = q }) (sym packets)
    ∙ ap (λ q. record s { command_queue = q }) (sym commands)

module _ (s : State) (fd a : ℕ) (p : Player) (before after : List ℕ)
    (e : s.players ≡ before ++ a ∷ after) (fails : All (Fails s (has_this_socket fd)) before)
    (here : get_elem? s.heap a ≡ some p) (hit : has_this_socket fd p ≡ true) where
  -- Where no packet and no command waits, and the first listed player with a socket is there: if what
  -- waits at the socket begins with the packet of a message that the protocol can carry, and whose
  -- format is the table's for its header, a round each of `Server::run`, `PacketManager::run` and
  -- `CommandManager::run` does what the handler does with the message of this player, and no more:
  -- bytes behind the packet, and with them any further packet of the same read, are dropped.
  pub serve_client-handle :
      (fallen : Fallen) (m : Message) (rest : Bytes)
      → s.packet_queue ≡ []
      → s.command_queue ≡ []
      → Fits m
      → head_to_format m.header ≡ some m.msg_format
      → (serve_client fd (frame m ++ rest) >> packet_step >> command_step fallen) s
        ≡ handle fallen (record m { player = some a }) s
  unfolding idle serve_client packet_step command_step frame unsigned_frame pop get update
      register_command
  serve_client-handle fallen m rest packets commands fits known =
      let packet : Packet = record {
        socket = fd;
        size = length (frame m ++ rest);
        bytes = frame m ++ rest;
      } in
      let command : Message = record m { player = some a } in
      let parsed : process_packet packet (idle s)
          ≡ done tt (record (idle s) { command_queue = command ∷ [] }) =
        process_packet-frame packet m rest (idle s) fits known refl
        ∙ ap (λ r. and_then r (λ q. register_command (record m { player = q })))
            (found-sender (idle s) fd a p before after e fails here hit) in
      subst
        (λ t.
          (serve_client fd (frame m ++ rest) >> packet_step >> command_step fallen) t
          ≡ handle fallen command t)
        (idle-idle s packets commands) (ap (λ r. and_then r (λ _. command_step fallen)) parsed)
