-- ===== src/Commands/Journey/GameStart.antt =====
-- A game of two clients, from the request of one and the consent of the other as they arrive.
use ups_server.Base.{
  ◌%◌, ◌^◌, not, ◌&&◌, ℕ, ◌+◌, ◌≡◌, ◌≢◌, refl, sym, ap, ◌∙◌, true, false, Bytes, codes, List, [],
  ◌∷◌, ◌++◌, some, none, arith, All, ◌=s=◌, =s=_iff, get_elem?, get_elem?-set_self,
  get_elem?-set_ne, lt_of_get_elem?, set, set-set_twice, length,
}
use ups_server.Commands.Dispatch.{handle, serve_client, packet_step, command_step}
use ups_server.Commands.Journey.{serve_client-handle}
use ups_server.Commands.Lobby.Joining.{proceed_player_joining-answers}
use ups_server.Commands.Lobby.Registration.{packet_to, ack}
use ups_server.Commands.Lobby.Requests.{join_request}
use ups_server.Commands.Lobby.Answering.{proceed_accept_join-answers}
use ups_server.Commands.Lobby.Starting.{game_start, new_game}
use ups_server.Game.Control.{Fallen}
use ups_server.Game.Player.{Player}
use ups_server.Server.Players.{has_this_socket}
use ups_server.Server.Players.Lookup.{Fails, Fails-unchanged}
use ups_server.Server.State.{State, done, and_then, ◌>>◌}
use ups_server.Wire.Codes.{h_c_join_player, h_c_accept_join, head_to_format, find_format}
use ups_server.Wire.Format.{frame, encode, Fits}
use ups_server.Wire.Message.{Message, message, text}

-- A client's wish to play with the player of a name, and the consent to such a wish.
abbrev pub join_player : Bytes → Message
join_player name = record (message h_c_join_player (codes "s")) { payload = text name ∷ [] }

abbrev pub accept_join : Message
accept_join = message h_c_accept_join []

module _ (s : State) (a b fd fd' : ℕ) (p q : Player) (before after before' after' : List ℕ)
    (here : get_elem? s.heap a ≡ some p) (there : get_elem? s.heap b ≡ some q) (apart : a ≢ b)
    (listed : s.players ≡ before ++ a ∷ after) (fails : All (Fails s (has_this_socket fd)) before)
    (hit : has_this_socket fd p ≡ true) (listed' : s.players ≡ before' ++ b ∷ after')
    (fails' : All (Fails s (has_this_socket fd')) before')
    (hit' : has_this_socket fd' q ≡ true) where
  -- The players and the memory after the request.
  abbrev asking : Player
  asking = record p { availible = false; joining_player = some b }

  abbrev asked : Player
  asked = record q { asked_for_joining_by = some a; availible = false }

  abbrev waiting : State
  waiting = record s {
    heap = set (set s.heap a asking) b asked;
    p_queue =
        (s.p_queue ++ packet_to p.socket (ack a) ∷ [])
        ++ packet_to q.socket (join_request b p.name) ∷ [];
  }

  -- The players and the memory once the game has started.
  abbrev asking_plays : Player
  asking_plays = record asking { in_game = true }

  abbrev asked_plays : Player
  asked_plays = record asked { in_game = true; asked_for_joining_by = none; joining_player = none }

  abbrev started : State
  started = record s {
    heap = set (set s.heap a asking_plays) b asked_plays;
    game_heap = s.game_heap ++ new_game s a b ∷ [];
    games = s.games ++ length s.game_heap ∷ [];
    max_game_id = (s.max_game_id + 1) % 2 ^ 32;
    p_queue =
        (((s.p_queue ++ packet_to p.socket (ack a) ∷ [])
            ++ packet_to q.socket (join_request b p.name) ∷ [])
          ++ packet_to p.socket (game_start a p.name q.name) ∷ [])
        ++ packet_to q.socket (game_start b p.name p.name) ∷ [];
  }

  asked_before : get_elem? (set s.heap a asking) b ≡ some q
  asked_before = get_elem?-set_ne s.heap a b asking apart ∙ there

  asked_here : get_elem? waiting.heap b ≡ some asked
  asked_here =
      get_elem?-set_self (set s.heap a asking) b asked
        (lt_of_get_elem? (set s.heap a asking) b q asked_before)

  asking_here : get_elem? waiting.heap a ≡ some asking
  asking_here =
      get_elem?-set_ne (set s.heap a asking) b a asked (λ e. apart (sym e))
      ∙ get_elem?-set_self s.heap a asking (lt_of_get_elem? s.heap a p here)

  still : All (Fails waiting (has_this_socket fd')) before'
  still =
      Fails-unchanged (record s { heap = set s.heap a asking }) (has_this_socket fd') b q asked
        before' asked_before refl
        (Fails-unchanged s (has_this_socket fd') a p asking before' here refl fails')

  module _ (packets : s.packet_queue ≡ []) (commands : s.command_queue ≡ []) where
    request-waits :
        (fallen : Fallen) (rest : Bytes)
        → All (Fails s (λ x. x.name =s= q.name)) before'
        → (q.availible && (q.socket_set && not q.in_game)) ≡ true
        → Fits (join_player q.name)
        → Fits (join_request b p.name)
        → (serve_client fd (frame (join_player q.name) ++ rest)
              >> packet_step
              >> command_step fallen)
            s
          ≡ done tt waiting
    unfolding handle head_to_format find_format
    request-waits fallen rest unnamed joinable fits asks =
        serve_client-handle s fd a p before after listed fails here hit fallen (join_player q.name)
          rest packets commands fits refl
        ∙ (proceed_player_joining-answers s (record (join_player q.name) { player = some a }) a b
              q.name before' after' p q here there apart listed' unnamed
              ((=s=_iff q.name q.name).1 refl) refl refl asks
            ∙ rw joinable refl)

    consent-starts :
        (fallen : Fallen) (rest : Bytes)
        → Fits (game_start a p.name q.name)
        → Fits (game_start b p.name p.name)
        → (serve_client fd' (frame accept_join ++ rest) >> packet_step >> command_step fallen)
            waiting
          ≡ done tt started
    unfolding handle head_to_format find_format encode
    consent-starts fallen rest starts starts' =
        serve_client-handle waiting fd' b asked before' after' listed' still asked_here hit' fallen
          accept_join rest packets commands
          record { header = omega arith; payload = tt; size = omega arith } refl
        ∙ (proceed_accept_join-answers waiting (record accept_join { player = some b }) a b asking
              asked asking_here asked_here apart refl refl starts starts'
            ∙ ap (λ h. done tt (record started { heap = h }))
                (set-set_twice s.heap a b asking asked asking_plays asked_plays apart))

    -- Where no packet and no command waits, and two different clients are the first listed players
    -- with their sockets: if the first one asks for a game with the name of the second one, who is the
    -- first listed player of this name and is free for a game, has a socket and is in none, and if
    -- next the second one agrees, and the messages with their names fit packets, then the three
    -- threads' rounds over each of the two, whatever bytes follow them, start a game of the two: it is
    -- put behind the others with an empty board and the one who asked on turn, both are in a game and
    -- not free, and the one who asked is acknowledged, the other one is sent the request, and each is
    -- told of the start, in this order. Nothing else changes, but that the one who asked still
    -- points to the other.
    pub game_starts :
        (fallen fallen' : Fallen) (rest rest' : Bytes)
        → All (Fails s (λ x. x.name =s= q.name)) before'
        → (q.availible && (q.socket_set && not q.in_game)) ≡ true
        → Fits (join_player q.name)
        → Fits (join_request b p.name)
        → Fits (game_start a p.name q.name)
        → Fits (game_start b p.name p.name)
        → (serve_client fd (frame (join_player q.name) ++ rest)
              >> packet_step
              >> command_step fallen
              >> serve_client fd' (frame accept_join ++ rest')
              >> packet_step
              >> command_step fallen')
            s
          ≡ done tt started
    game_starts fallen fallen' rest rest' unnamed joinable fits asks starts starts' =
        ap
          (λ r.
            and_then
              (and_then (and_then r (λ _. serve_client fd' (frame accept_join ++ rest')))
                (λ _. packet_step))
              (λ _. command_step fallen'))
          (request-waits fallen rest unnamed joinable fits asks)
        ∙ consent-starts fallen' rest' starts starts'
