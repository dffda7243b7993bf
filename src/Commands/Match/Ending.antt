-- ===== src/Commands/Match/Ending.antt =====
-- What a player who leaves a running game does.
use ups_server.Base.{
  ◌%◌, ◌^◌, ℕ, ◌≡◌, ◌≢◌, refl, Bool, true, false, List, [], ◌∷◌, ◌++◌, Option, some, All, arith,
  get_elem?, set,
}
use ups_server.Commands.Dispatch.Packets.{register_message-frame}
use ups_server.Commands.Lobby.{tell, set_availible, set_in_game}
use ups_server.Commands.Lobby.Registration.{packet_to}
use ups_server.Server.Access.{load-at, load_game-at}
use ups_server.Commands.Match.{proceed_game_ending}
use ups_server.Commands.Match.Freeing.{freed, free_both, freed-at, set_players-WellFormed}
use ups_server.Game.Board.{Game}
use ups_server.Game.Player.{Player}
use ups_server.Server.Games.{get_game_by_player, oponent_in, delete_game}
use ups_server.Server.Games.Removal.{delete_game-removes}
use ups_server.Server.Memory.{WellFormed}
use ups_server.Server.Players.{delete_player}
use ups_server.Server.State.{State, M, ◌>>◌, done, modify, and_then}
use ups_server.Wire.Codes.{h_s_game_ended, head_to_format, find_format}
use ups_server.Wire.Format.{Fits, encode}
use ups_server.Wire.Message.{Message, message}

-- The message that the game has ended.
abbrev pub game_ended : ℕ → Message
game_ended b = record (message h_s_game_ended []) { player = some b }

game_ended-Fits : (b : ℕ) → Fits (game_ended b)
unfolding encode
game_ended-Fits b = record { header = omega arith; payload = tt; size = omega arith }

module _ (s : State) (m : Message) (a b g : ℕ) (p q : Player) (x : Game) (xs ys : List ℕ)
    (here : get_elem? s.heap a ≡ some p) (there : get_elem? s.heap b ≡ some q) (apart : a ≢ b) where
  -- Where a player leaves a game of a well formed memory whose opponent is a different player who is
  -- not lost, and the lookups give this game and this opponent: both are in no game and free for
  -- another, the opponent is told, and the first entry with the game's id is taken from the list of games;
  -- nothing else changes.
  pub proceed_game_ending-frees :
      WellFormed s
      → m.player ≡ some a
      → get_game_by_player (some a) s ≡ done (some g) s
      → get_elem? s.game_heap g ≡ some x
      → oponent_in x (some a) s ≡ done (some b) s
      → q.lost ≡ false
      → s.games ≡ xs ++ g ∷ ys
      → All (λ h. h % 2 ^ 32 ≢ g % 2 ^ 32) xs
      → proceed_game_ending m s
        ≡ done tt (record s {
          heap = set (set s.heap a (freed p)) b (freed q);
          games = xs ++ ys;
          p_queue = s.p_queue ++ packet_to q.socket (game_ended b) ∷ [];
        })
  unfolding proceed_game_ending tell head_to_format find_format
  proceed_game_ending-frees w sender plays game other stays listed first =
      rw
        (
          proceed_game_ending,
          sender,
          plays,
          and_then,
          load_game-at s g x game,
          and_then,
          other,
          and_then,
          load-at s b q there,
          and_then,
        )
        (free m.player q.lost sender stays)
    where
      free :
          (self : Option ℕ) (lost : Bool)
          → self ≡ some a
          → lost ≡ false
          → and_then
              ((elim lost as (λ _. M (Unit {0})) [
                | true ↦ do
                  delete_player (some b)
                  modify self (set_availible true)
                  modify self (set_in_game false)
                | false ↦ do
                  modify self (set_in_game false)
                  modify (some b) (set_in_game false)
                  modify self (set_availible true)
                  modify (some b) (set_availible true)
                  tell (some b) h_s_game_ended []
              ])
                s)
              (λ _. delete_game (some g))
            ≡ done tt (record s {
              heap = set (set s.heap a (freed p)) b (freed q);
              games = xs ++ ys;
              p_queue = s.p_queue ++ packet_to q.socket (game_ended b) ∷ [];
            })
      free self lost own stays =
          let end = set (set s.heap a (freed p)) b (freed q) in
          let packets = s.p_queue ++ packet_to q.socket (game_ended b) ∷ [] in
          let formed =
            set_players-WellFormed s a b p q (freed p) (freed q) packets w here there
              (λ ok. record { joining = ok.joining; asked = ok.asked })
              (λ ok. record { joining = ok.joining; asked = ok.asked }) in
          rw
            (
              stays,
              own,
              free_both s a b p q (tell (some b) h_s_game_ended []) here there apart,
              register_message-frame (record s { heap = end }) (game_ended b) b (freed q)
                  (game_ended-Fits b) refl (freed-at s a b p q there apart),
              and_then,
            )
            (delete_game-removes (record s { heap = end; p_queue = packets }) xs ys g formed listed
              first)
