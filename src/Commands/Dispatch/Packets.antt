-- ===== src/Commands/Dispatch/Packets.antt =====
-- Messages on their way between the network and the handlers.
use ups_server.Base.{ℕ, ◌≡◌, refl, Bytes, [], ◌∷◌, ◌++◌, some, get_elem?, length}
use ups_server.Commands.Dispatch.{process_packet}
use ups_server.Game.Player.{Player}
use ups_server.Server.Players.{get_player_by_socket}
use ups_server.Server.State.{
  State, Packet, done, ◌>>=◌, load, update, register_message, register_command,
}
use ups_server.Wire.Codes.{head_to_format}
use ups_server.Wire.Deserialize.RoundTrip.{deserialize-frame}
use ups_server.Wire.Format.{frame, Fits}
use ups_server.Wire.Message.{Message}
use ups_server.Wire.Serialize.Frame.{serialize-frame}

-- A message that the protocol can carry, to a player who is there, is queued for the sender as its
-- packet, behind those that wait, for the socket that the player has; nothing else changes.
pub register_message-frame :
    (s : State) (m : Message) (a : ℕ) (p : Player)
    → Fits m
    → m.player ≡ some a
    → get_elem? s.heap a ≡ some p
    → register_message m s
      ≡ done tt (record s {
        p_queue =
            s.p_queue
            ++ record { socket = p.socket; size = length (frame m); bytes = frame m } ∷ [];
      })
unfolding register_message load update
register_message-frame s m a p fits e at =
    rw (register_message, serialize-frame m fits, e, load, at, update) refl

-- The packet of a message that the protocol can carry, and whose format is the table's for its
-- header, becomes a command of the player who has the socket, or of no player; bytes behind it, and
-- with them any further packet that came in the same read, are dropped.
pub process_packet-frame :
    (packet : Packet) (m : Message) (rest : Bytes) (s : State)
    → Fits m
    → head_to_format m.header ≡ some m.msg_format
    → packet.bytes ≡ frame m ++ rest
    → process_packet packet s
      ≡ (get_player_by_socket packet.socket >>= λ p. register_command (record m { player = p })) s
unfolding process_packet
process_packet-frame packet m rest s fits known e =
    rw (process_packet, e, deserialize-frame m rest fits known) refl
