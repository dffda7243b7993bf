-- ===== src/Commands/Journey/Registration.antt =====
-- A new player's registration, from the bytes that arrive to the answer that leaves.
use mathlib.Core.Path.{subst}
use ups_server.Base.{
  ℕ, ◌≡◌, ◌↔◌, refl, sym, ap, ◌∙◌, Bool, true, false, Bytes, codes, List, [], ◌∷◌, ◌++◌, some, All,
  get_elem?, set, if◌then◌else◌, arith,
}
use ups_server.Commands.Dispatch.{handle, serve_client, packet_step, command_step, send_step}
use ups_server.Commands.Journey.{serve_client-handle}
use ups_server.Commands.Lobby.Names.{NotNamed}
use ups_server.Commands.Lobby.Registration.{
  packet_to, ack, nack, proceed_new_player_connection-answers,
}
use ups_server.Game.Control.{Fallen}
use ups_server.Game.Player.{Player}
use ups_server.Queue.{pop}
use ups_server.Server.Memory.{WellFormed}
use ups_server.Server.Players.{has_this_socket}
use ups_server.Server.Players.Lookup.{Fails}
use ups_server.Server.State.{State, Packet, Run, done, and_then, get, update, ◌>>◌}
use ups_server.Wire.Codes.{h_c_new_pl, head_to_format, find_format}
use ups_server.Wire.Format.{frame, Fits}
use ups_server.Wire.Message.{Message, message, text}

-- A client's wish to be registered by a name.
abbrev pub new_player : Bytes → Message
new_player name = record (message h_c_new_pl (codes "s")) { payload = text name ∷ [] }

has_this_socket-socket : (fd : ℕ) (p : Player) → has_this_socket fd p ≡ true → p.socket ≡ fd
has_this_socket-socket fd p hit = ground (arith, hit)

-- The answer leaves at once where no packet waited for the sender.
send_step-only :
    (s : State) (packet : Packet)
    → s.p_queue ≡ []
    → send_step (record s { p_queue = s.p_queue ++ packet ∷ [] }) ≡ done (some packet) s
unfolding send_step get update pop
send_step-only s packet nothing =
    subst
      (λ q.
        send_step (record s { p_queue = q ++ packet ∷ [] })
        ≡ done (some packet) (record s { p_queue = q }))
      (sym nothing) refl

module _ (s : State) (fd a : ℕ) (p : Player) (before after : List ℕ)
    (e : s.players ≡ before ++ a ∷ after) (fails : All (Fails s (has_this_socket fd)) before)
    (here : get_elem? s.heap a ≡ some p) (hit : has_this_socket fd p ≡ true) where
  -- In a well formed memory where no packet and no command waits: if what waits at a socket begins
  -- with the packet in which a client asks for a name, a round of each thread hands the answer to
  -- `send`, for this socket. If no listed player has the name, the first listed player with the socket
  -- gets it and is free for a game from then on, and the answer is an acknowledgement; if one has it,
  -- the answer says so. Nothing else changes.
  pub registration-answered :
      (fallen : Fallen) (name rest : Bytes)
      → WellFormed s
      → s.packet_queue ≡ []
      → s.command_queue ≡ []
      → s.p_queue ≡ []
      → Fits (new_player name)
      → (free : Bool) × ((free ≡ true) ↔ All (NotNamed s name) s.players)
        × ((serve_client fd (frame (new_player name) ++ rest)
                >> packet_step
                >> command_step fallen
                >> send_step)
              s
            ≡ done (some (packet_to fd (if free then ack a else nack a))) (
                if free
                then record s {
                  heap = set s.heap a (record p { name = name; name_set = true; availible = true });
                }
                else s))
  unfolding handle head_to_format find_format
  registration-answered fallen name rest w packets commands nothing fits =
      let m : Message = record (new_player name) { player = some a } in
      let (free, iff, answers) =
        proceed_new_player_connection-answers s m a p name w refl refl here in
      let run =
        serve_client-handle s fd a p before after e fails here hit fallen (new_player name) rest
          packets commands fits refl
        ∙ answers in
      (free, iff, sent free run)
    where
      named : State
      named = record s {
        heap = set s.heap a (record p { name = name; name_set = true; availible = true });
      }

      sent :
          (free : Bool) {r : Run (Unit {0})}
          → r
            ≡ done tt (
                if free
                then record named { p_queue = s.p_queue ++ packet_to p.socket (ack a) ∷ [] }
                else record s { p_queue = s.p_queue ++ packet_to p.socket (nack a) ∷ [] })
          → and_then r (λ _. send_step)
            ≡ done
                (some (packet_to fd (if free then ack a else nack a)))
                (if free then named else s)
      sent true run =
          ap (λ r. and_then r (λ _. send_step)) run
          ∙ send_step-only named (packet_to p.socket (ack a)) nothing
          ∙ ap (λ d. done (some (packet_to d (ack a))) named) (has_this_socket-socket fd p hit)
      sent false run =
          ap (λ r. and_then r (λ _. send_step)) run
          ∙ send_step-only s (packet_to p.socket (nack a)) nothing
          ∙ ap (λ d. done (some (packet_to d (nack a))) s) (has_this_socket-socket fd p hit)
