-- ===== src/Commands/Memory/Steps.antt =====
-- The rounds of the threads, and the memory after them.
use ups_server.Base.{
  ◌&&◌, ltb, ◌^◌, ok, ◌≡◌, sym, ap, ◌∙◌, refl, inl, inr, ==_iff, drop, ℕ, ◌==◌, Bytes, Bool, List,
  [], ◌∷◌, Option, none, some, true, false, All, arith, if◌then◌else◌, leb,
}
use ups_server.Commands.Dispatch.{
  handle, command_step, count_bullshit, process_packet, packet_step, send_step, serve_client,
}
use ups_server.Commands.Memory.Lobby.{
  proceed_new_player_connection-Keeps, proceed_player_list_request-Keeps,
}
use ups_server.Commands.Memory.Joining.{
  proceed_player_joining-Keeps, proceed_accept_join-Keeps, proceed_decline_join-Keeps,
}
use ups_server.Commands.Memory.Match.{process_game_move-Keeps}
use ups_server.Commands.Memory.Return.{
  proceed_player_reconnection-Keeps, proceed_player_logout-Keeps, proceed_player_lost-Keeps,
}
use ups_server.Game.Control.{Fallen}
use ups_server.Queue.{pop}
use ups_server.Server.Memory.{MessageOk, Valid, Safe, safe, Keeps, Any}
use ups_server.Server.Memory.Lists.{bool_Keeps, option_Keeps}
use ups_server.Server.Memory.Managers.{Ptr-some}
use ups_server.Server.Memory.Players.{
  get_player_by_socket-Keeps, proceed_player_disconnection-Keeps,
}
use ups_server.Server.Memory.Rules.{
  then_Keeps, pure-Keeps, lift-Keeps, load-Keeps, modify-Keeps, register_command-Keeps, Valid-lists,
  Valid-network, Later-refl, Safe-Later,
}
use ups_server.Server.Players.{get_player_by_socket}
use ups_server.Server.State.{
  State, Packet, M, ◌>>=◌, ◌>>◌, lift, update, pure, get, register_command,
}
use ups_server.Wire.Codes.{
  h_c_new_pl, h_c_pl_reconn, h_c_pl_list_req, h_c_pl_logout, h_c_join_player, h_c_declin_join,
  h_c_accept_join, h_c_game_move, internal_pl_lost, head_to_format,
}
use mathlib.Core.Path.{subst}
use ups_server.Wire.Deserialize.{deserialize}
use ups_server.Wire.Deserialize.Faults.{deserialize-Tolerable}
use ups_server.Wire.Deserialize.Shape.{HasTypes, deserialize-HasTypes}
use ups_server.Wire.Message.{Message}

if_Keeps :
    {A : Type 0} {n k : ℕ} {Q : ℕ → A → Type 0} (b : Bool) (x y : M A)
    → (b ≡ true → Keeps n k Q x)
    → Keeps n k Q y
    → Keeps n k Q (if b then x else y)
if_Keeps true x y hx hy = hx refl
if_Keeps false x y hx hy = hy

-- The items of a command from the network are those of its code's format.
command_items :
    (n : ℕ) (m : Message) (header : ℕ) (format : Bytes)
    → MessageOk n m
    → (m.header == header) ≡ true
    → (header == internal_pl_lost) ≡ false
    → head_to_format header ≡ some format
    → HasTypes format m.payload
command_items n m header format (_, inr lost) same other e =
    absurd (ground (arith, lost, same, other))
command_items n m header format (_, inl (known, typed)) same other e =
    let here : m.header ≡ header = (==_iff m.header header).0 same in
    let formats : some m.msg_format ≡ some format = sym known ∙ (ap head_to_format here ∙ e) in
    let one : m.msg_format ≡ format = cc in subst (λ f. HasTypes f m.payload) one typed

module _ {n k : ℕ} where
  handle-Keeps : (fallen : Fallen) (m : Message) → MessageOk n m → Keeps n k Any (handle fallen m)
  unfolding handle head_to_format
  handle-Keeps fallen m h =
      let items = command_items n m in
      if_Keeps (m.header == h_c_new_pl) _ _
        (λ e. proceed_new_player_connection-Keeps m h.0 (items h_c_new_pl _ h e refl refl))
        (if_Keeps (m.header == h_c_pl_reconn) _ _
          (λ e. proceed_player_reconnection-Keeps m h.0 (items h_c_pl_reconn _ h e refl refl))
          (if_Keeps (m.header == h_c_pl_list_req) _ _ (λ e. proceed_player_list_request-Keeps m h.0)
            (if_Keeps (m.header == h_c_pl_logout) _ _ (λ e. proceed_player_logout-Keeps m h.0)
              (if_Keeps (m.header == h_c_join_player) _ _
                (λ e. proceed_player_joining-Keeps m h.0 (items h_c_join_player _ h e refl refl))
                (if_Keeps (m.header == h_c_declin_join) _ _ (λ e. proceed_decline_join-Keeps m h.0)
                  (if_Keeps (m.header == h_c_accept_join) _ _ (λ e. proceed_accept_join-Keeps m h.0)
                    (if_Keeps (m.header == h_c_game_move) _ _
                      (λ e.
                        process_game_move-Keeps m h.0 fallen (items h_c_game_move _ h e refl refl))
                      (if_Keeps (m.header == internal_pl_lost) _ _
                        (λ e. proceed_player_lost-Keeps m h.0) (pure-Keeps tt tt)))))))))

  pub command_step-Keeps : (fallen : Fallen) → Keeps n k Any (command_step fallen)
  unfolding command_step get update pop
  command_step-Keeps fallen s v = on_queue s.command_queue v.waiting s v
    where
      on_queue :
          (queue : List Message)
          → All (MessageOk n) queue
          → Keeps n k Any (elim queue as (λ _. M (Unit {0})) [
            | [] ↦ pure tt
            | _ ∷ _ ↦ do
              (mess, rest) ← lift (pop queue)
              update (λ s. record s { command_queue = rest })
              handle fallen mess
          ])
      on_queue [] h t w = pure-Keeps tt tt t w
      on_queue (m ∷ queue) (h, hs) t w =
          Safe-Later (omega arith) (Later-refl t) (
            handle-Keeps fallen m h _ (Valid-lists w t.players t.games queue w.listed w.running hs))

  count_bullshit-Keeps : (socket : ℕ) → Keeps n k Any (count_bullshit socket)
  unfolding count_bullshit
  count_bullshit-Keeps socket = then_Keeps _ _ (get_player_by_socket-Keeps socket) λ k1 p l1 hp.
      option_Keeps p _ _ (λ _. pure-Keeps tt tt)
        (λ a e.
          let ha = Ptr-some n p a e hp in
          then_Keeps _ _
            (modify-Keeps (some a) _ ha
              (λ x x_ok. record { joining = x_ok.joining; asked = x_ok.asked }))
            λ k2 _ l2 _. then_Keeps _ _ (load-Keeps (some a) ha) λ k3 q l3 _.
              bool_Keeps (leb 10 q.bullshit_messages && ltb q.bullshit_messages (2 ^ 31)) _ _
                (λ _. proceed_player_disconnection-Keeps socket) (λ _. pure-Keeps tt tt))

  on_parsed-Keeps :
      (socket : ℕ) (bytes : Bytes) (parsed : Option Message)
      → deserialize bytes ≡ ok parsed
      → Keeps n k Any (elim parsed [
        | none ↦ count_bullshit socket
        | some mess ↦ do
          p ← get_player_by_socket socket
          register_command (record mess { player = p })
      ])
  on_parsed-Keeps socket bytes none e = count_bullshit-Keeps socket
  on_parsed-Keeps socket bytes (some m) e =
      then_Keeps _ _ (get_player_by_socket-Keeps socket) λ k2 p l2 hp.
        register_command-Keeps (record m { player = p }) (hp, inl (deserialize-HasTypes bytes m e))

module _ {n k : ℕ} where
  process_packet-Keeps : (packet : Packet) → Keeps n k Any (process_packet packet)
  unfolding process_packet
  process_packet-Keeps packet =
      then_Keeps (lift (deserialize packet.bytes)) _
        (lift-Keeps (deserialize packet.bytes) (deserialize-Tolerable packet.bytes))
        λ k1 parsed l1 e. on_parsed-Keeps packet.socket packet.bytes parsed e

  pub packet_step-Keeps : Keeps n k Any packet_step
  unfolding packet_step get update pop
  packet_step-Keeps s v = on_queue s.packet_queue s v
    where
      on_queue :
          (queue : List Packet)
          → Keeps n k Any (elim queue as (λ _. M (Unit {0})) [
            | [] ↦ pure tt
            | _ ∷ _ ↦ do
              (packet, rest) ← lift (pop queue)
              update (λ s. record s { packet_queue = rest })
              process_packet packet
          ])
      on_queue [] t w = pure-Keeps tt tt t w
      on_queue (packet ∷ queue) t w =
          Safe-Later (omega arith) (Later-refl t) (
            process_packet-Keeps packet _ (Valid-network w queue t.p_queue t.client_socks t.closed))

  -- The sender takes one packet, and what follows it stays.
  pub send_step-Valid :
      (s : State)
      → Valid n k s
      → Safe n k (record s { p_queue = drop 1 s.p_queue }) Any (send_step s)
  unfolding send_step get update pop
  send_step-Valid s v = on_queue s.p_queue s v
    where
      on_queue :
          (queue : List Packet) (t : State)
          → Valid n k t
          → Safe n k
              (record t { p_queue = drop 1 queue })
              Any
              (elim queue as (λ _. M (Option Packet)) [
                | [] ↦ pure none
                | _ ∷ _ ↦ do
                  (packet, rest) ← lift (pop queue)
                  update (λ s. record s { p_queue = rest })
                  pure (some packet)
              ]
                t)
      on_queue [] t w = safe (omega arith) w (t.p_queue, refl) tt
      on_queue (packet ∷ queue) t w =
          let left = record t { p_queue = queue } in
          safe (omega arith) (Valid-network w t.packet_queue queue t.client_socks t.closed)
            (Later-refl left) tt

  pub serve_client-Keeps : (fd : ℕ) (bytes : Bytes) → Keeps n k Any (serve_client fd bytes)
  unfolding serve_client update
  serve_client-Keeps fd [] s v = proceed_player_disconnection-Keeps fd s v
  serve_client-Keeps fd (b ∷ bytes) s v =
      safe (omega arith) (Valid-network v _ s.p_queue s.client_socks s.closed) (Later-refl s) tt
