-- ===== src/Commands/Match/Leaving.antt =====
-- What a player who leaves a game does whether the opponent is lost or not.
use mathlib.Core.Path.{subst}
use ups_server.Base.{
  ◌%◌, ◌^◌, ℕ, ◌≡◌, ◌≢◌, refl, Bool, true, false, ◌=s=◌, =s=-refl, List, [], ◌∷◌, ◌++◌, Option,
  some, All, All-without, get_elem?, get_elem?-set_self, lt_of_get_elem?, set, set-set,
}
use ups_server.Commands.Lobby.{tell, set_availible, set_in_game}
use ups_server.Commands.Lobby.Registration.{packet_to}
use ups_server.Commands.Match.{proceed_game_ending}
use ups_server.Commands.Match.Ending.{game_ended, proceed_game_ending-frees}
use ups_server.Commands.Match.Freeing.{freed, set_players-WellFormed}
use ups_server.Game.Board.{Game}
use ups_server.Game.Player.{Player}
use ups_server.Server.Access.{load-at, modify-at, load_game-at}
use ups_server.Server.Games.{get_game_by_player, oponent_in, delete_game}
use ups_server.Server.Games.Removal.{delete_game-removes}
use ups_server.Server.Memory.{Below, WellFormed}
use ups_server.Server.Memory.Rules.{Valid-lists}
use ups_server.Server.Players.{delete_player}
use ups_server.Server.Players.Deletion.{delete_player-first}
use ups_server.Server.Players.Lookup.{Fails}
use ups_server.Server.State.{State, M, ◌>>◌, done, modify, and_then}
use ups_server.Wire.Codes.{h_s_game_ended}
use ups_server.Wire.Message.{Message}

module _ (s : State) (m : Message) (a b g : ℕ) (p q : Player) (x : Game)
    (xs ys before after : List ℕ) (here : get_elem? s.heap a ≡ some p)
    (there : get_elem? s.heap b ≡ some q) (apart : a ≢ b) (w : WellFormed s)
    (sender : m.player ≡ some a) (plays : get_game_by_player (some a) s ≡ done (some g) s)
    (game : get_elem? s.game_heap g ≡ some x) (other : oponent_in x (some a) s ≡ done (some b) s)
    (games : s.games ≡ xs ++ g ∷ ys) (first : All (λ h. h % 2 ^ 32 ≢ g % 2 ^ 32) xs)
    (listed : s.players ≡ before ++ b ∷ after)
    (fails : All (Fails s (λ y. y.name =s= q.name)) before) where
  -- The memory with the opponent out of the vector, and with the player free again as well.
  abbrev shorter : State
  shorter = record s { players = before ++ after }

  abbrev on_its_own : State
  on_its_own = record shorter { heap = set s.heap a (freed p) }

  on_its_own-WellFormed : WellFormed on_its_own
  on_its_own-WellFormed =
      let formed : WellFormed (record s { heap = set s.heap a (freed p) }) =
        subst (λ h. WellFormed (record s { heap = h })) (set-set s.heap a p (freed p))
          (set_players-WellFormed s a a p p p (freed p) s.p_queue w here here (λ ok. ok)
            (λ ok. record { joining = ok.joining; asked = ok.asked })) in
      Valid-lists formed (before ++ after) s.games s.command_queue
        (All-without _ before after b (subst (All (Below _)) listed formed.listed)) formed.running
        formed.waiting

  free_again :
      (modify (some a) (set_availible true) >> modify (some a) (set_in_game false)) shorter
      ≡ done tt on_its_own
  free_again =
      let ready : Player = set_availible true p in
      rw
        (
          modify-at shorter a p (set_availible true) here,
          and_then,
          modify-at (record shorter { heap = set s.heap a ready }) a ready (set_in_game false)
              (get_elem?-set_self s.heap a ready (lt_of_get_elem? s.heap a p here)),
          set-set s.heap a ready (freed p),
        )
        refl

  -- The memory after the end of the game.
  abbrev pub ended : Bool → State
  ended true = record on_its_own { games = xs ++ ys }
  ended false = record s {
    heap = set (set s.heap a (freed p)) b (freed q);
    games = xs ++ ys;
    p_queue = s.p_queue ++ packet_to q.socket (game_ended b) ∷ [];
  }

  alone : q.lost ≡ true → proceed_game_ending m s ≡ done tt (ended true)
  unfolding proceed_game_ending
  alone away =
      rw
        (
          proceed_game_ending,
          sender,
          plays,
          and_then,
          load_game-at s g x game,
          and_then,
          other,
          and_then,
          load-at s b q there,
          and_then,
        )
        (end m.player q.lost sender away)
    where
      end :
          (self : Option ℕ) (lost : Bool)
          → self ≡ some a
          → lost ≡ true
          → and_then
              ((elim lost as (λ _. M (Unit {0})) [
                | true ↦ do
                  delete_player (some b)
                  modify self (set_availible true)
                  modify self (set_in_game false)
                | false ↦ do
                  modify self (set_in_game false)
                  modify (some b) (set_in_game false)
                  modify self (set_availible true)
                  modify (some b) (set_availible true)
                  tell (some b) h_s_game_ended []
              ])
                s)
              (λ _. delete_game (some g))
            ≡ done tt (ended true)
      end self lost own gone =
          rw
            (
              gone,
              own,
              delete_player-first s b q before after b there listed fails
                  (q, there, =s=-refl q.name),
              and_then,
              free_again,
              and_then,
            )
            (delete_game-removes on_its_own xs ys g on_its_own-WellFormed games first)

  leaves : (lost : Bool) → q.lost ≡ lost → proceed_game_ending m s ≡ done tt (ended lost)
  leaves true h = alone h
  leaves false h =
      proceed_game_ending-frees s m a b g p q x xs ys here there apart w sender plays game other h
        games first

  -- Where a player leaves a game of a well formed memory whose opponent is a different player, the
  -- first listed one of that name, and the lookups give this game and this opponent: the player is in
  -- no game and free for another, and the first entry with the game's id is taken from the list of games. An
  -- opponent who is lost leaves the vector; one who is not is free as well, and is told. Nothing else
  -- changes.
  pub proceed_game_ending-ends : proceed_game_ending m s ≡ done tt (ended q.lost)
  proceed_game_ending-ends = leaves q.lost refl
