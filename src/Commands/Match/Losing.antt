-- ===== src/Commands/Match/Losing.antt =====
-- What the end of the connection of a player in a game does.
use ups_server.Base.{
  Option, ℕ, ◌≡◌, ◌≢◌, refl, ap, ◌∙◌, true, false, List, [], ◌∷◌, ◌++◌, some, All, arith, get_elem?,
  get_elem?-set_self, get_elem?-set_ne, lt_of_get_elem?, set, set-set,
}
use ups_server.Commands.Dispatch.{handle, command_step}
use ups_server.Commands.Dispatch.Packets.{register_message-frame}
use ups_server.Commands.Lobby.{tell}
use ups_server.Commands.Lobby.Registration.{packet_to}
use ups_server.Commands.Match.{proceed_player_lost}
use ups_server.Game.Board.{Game}
use ups_server.Game.Control.{Fallen}
use ups_server.Game.Player.{Player}
use ups_server.Queue.{pop}
use ups_server.Server.Access.{load-at, modify-at, load_game-at}
use ups_server.Server.Seating.{name_at, seating}
use ups_server.Server.Seating.Changes.{
  name_at-same, seats-names, seating-ext, get_game_by_player-seating, oponent_in-names,
}
use ups_server.Server.Games.{get_game_by_player, oponent_in}
use ups_server.Server.Players.Parting.{cut, unplugged}
use ups_server.Server.Players.{has_this_socket, proceed_player_disconnection}
use ups_server.Server.Players.Disconnection.{proceed_player_disconnection-in_game}
use ups_server.Server.Players.Lookup.{Fails}
use ups_server.Server.State.{State, ◌>>◌, done, and_then, get, update}
use ups_server.Wire.Codes.{h_s_pl_loss, internal_pl_lost, head_to_format, find_format}
use ups_server.Wire.Format.{Fits, encode}
use ups_server.Wire.Message.{Message, message}

-- The message that the opponent is lost.
abbrev pub player_loss : ℕ → Message
player_loss b = record (message h_s_pl_loss []) { player = some b }

player_loss-Fits : (b : ℕ) → Fits (player_loss b)
unfolding encode
player_loss-Fits b = record { header = omega arith; payload = tt; size = omega arith }

-- The command that a player is lost.
abbrev lost_command : ℕ → Message
lost_command a = record (message internal_pl_lost []) { player = some a }

proceed_player_lost-tells :
    (s : State) (a b g : ℕ) (p q : Player) (x : Game)
    → get_elem? s.heap a ≡ some p
    → get_elem? s.heap b ≡ some q
    → a ≢ b
    → get_game_by_player (some a) s ≡ done (some g) s
    → get_elem? s.game_heap g ≡ some x
    → oponent_in x (some a) s ≡ done (some b) s
    → q.lost ≡ false
    → proceed_player_lost (lost_command a) s
      ≡ done tt (record s {
        heap = set s.heap a (record p { lost = true });
        p_queue = s.p_queue ++ packet_to q.socket (player_loss b) ∷ [];
      })
unfolding proceed_player_lost tell head_to_format find_format
proceed_player_lost-tells s a b g p q x here there apart plays found other stays =
    let marked : State = record s { heap = set s.heap a (record p { lost = true }) } in
    let still = get_elem?-set_ne s.heap a b (record p { lost = true }) apart ∙ there in
    rw
      (
        proceed_player_lost,
        plays,
        and_then,
        load_game-at s g x found,
        and_then,
        other,
        and_then,
        modify-at s a p (λ p. record p { lost = true }) here,
        and_then,
        load-at marked b q still,
        and_then,
        stays,
      )
      (register_message-frame marked (player_loss b) b q (player_loss-Fits b) refl still)

module _ (fallen : Fallen) (s : State) (fd a b g : ℕ) (before after : List ℕ) (p q : Player)
    (x : Game) (e : s.players ≡ before ++ a ∷ after)
    (fails : All (Fails s (has_this_socket fd)) before) (here : get_elem? s.heap a ≡ some p)
    (hit : has_this_socket fd p ≡ true) (there : get_elem? s.heap b ≡ some q) (apart : a ≢ b) where
  -- The memory when the command manager takes the command.
  abbrev cut_off : State
  cut_off = record (cut fd s) { heap = set s.heap a (unplugged p); command_queue = [] }

  cut_off-names : (c : Option ℕ) → name_at cut_off c ≡ name_at s c
  cut_off-names = name_at-same s cut_off a p (unplugged p) here refl refl

  cut_off-seating : seating cut_off s.games ≡ seating s s.games
  cut_off-seating =
      seating-ext s cut_off
        (seats-names s cut_off refl (λ g x e. (cut_off-names x.p1, cut_off-names x.p2))) s.games

  -- Where no command waits, and the connection at a socket ends, whose first listed player is in a
  -- game, and the lookups give this game and an opponent, who is a different player that is there and
  -- not lost: the next round of the command manager marks the player as lost and tells the opponent.
  -- The player stays in the vector and in the game, without the socket, which is closed; nothing else
  -- changes.
  pub command_step-lost :
      s.command_queue ≡ []
      → p.in_game ≡ true
      → get_game_by_player (some a) s ≡ done (some g) s
      → get_elem? s.game_heap g ≡ some x
      → oponent_in x (some a) s ≡ done (some b) s
      → q.lost ≡ false
      → (proceed_player_disconnection fd >> command_step fallen) s
        ≡ done tt (record (cut fd s) {
          heap = set s.heap a (record (unplugged p) { lost = true });
          command_queue = [];
          p_queue = s.p_queue ++ packet_to q.socket (player_loss b) ∷ [];
        })
  unfolding command_step get update pop handle
  command_step-lost idle playing plays found other stays =
      let away : Player = unplugged p in
      let lost : Player = record away { lost = true } in
      let waiting : State = record cut_off { command_queue = lost_command a ∷ [] } in
      let ended : proceed_player_disconnection fd s ≡ done tt waiting =
        proceed_player_disconnection-in_game s fd a p before after e fails here hit playing
        ∙ ap (λ c. done tt (record cut_off { command_queue = c ++ lost_command a ∷ [] })) idle in
      let end : State = record cut_off {
        p_queue = s.p_queue ++ packet_to q.socket (player_loss b) ∷ [];
      } in
      ap (λ r. and_then r (λ _. command_step fallen)) ended
      ∙ (proceed_player_lost-tells cut_off a b g away q x
            (get_elem?-set_self s.heap a away (lt_of_get_elem? s.heap a p here))
            (get_elem?-set_ne s.heap a b away apart ∙ there) apart
            (get_game_by_player-seating s cut_off (some a) (some a) (some g)
              (cut_off-names (some a)) cut_off-seating plays)
            found
            (oponent_in-names s cut_off x (some a) (some b) (cut_off-names x.p1)
              (cut_off-names (some a)) other)
            stays
          ∙ ap (λ h. done tt (record end { heap = h })) (set-set s.heap a away lost))
