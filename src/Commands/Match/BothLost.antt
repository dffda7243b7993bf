-- ===== src/Commands/Match/BothLost.antt =====
-- What the loss of a player does whose opponent is lost already.
use mathlib.Core.Path.{subst}
use ups_server.Base.{
  ◌%◌, ◌^◌, ℕ, ◌≡◌, ◌≢◌, refl, sym, ap, ◌∙◌, Bool, true, false, Bytes, Option, ◌=s=◌, =s=-refl,
  List, [], ◌∷◌, ◌++◌, some, All, get_elem?, get_elem?-set_self, get_elem?-set_ne, lt_of_get_elem?,
  set, set-set, set-set_ne,
}
use ups_server.Commands.Lobby.{tell, set_in_game}
use ups_server.Commands.Match.{proceed_player_lost}
use ups_server.Commands.Match.Freeing.{set_players-WellFormed}
use ups_server.Game.Board.{Game}
use ups_server.Game.Player.{Player}
use ups_server.Server.Access.{load-at, modify-at, load_game-at}
use ups_server.Server.Games.{get_game_by_player, oponent_in, delete_game}
use ups_server.Server.Players.{delete_player}
use ups_server.Wire.Codes.{h_s_pl_loss}
use ups_server.Server.Games.Removal.{delete_game-removes}
use ups_server.Server.Memory.{WellFormed}
use ups_server.Server.Players.Deletion.{delete_player-first}
use ups_server.Server.Players.Lookup.{Fails, Fails-unchanged}
use ups_server.Server.State.{State, M, ◌>>◌, done, modify, and_then}
use ups_server.Wire.Message.{Message}

module _ (s : State) (a b g : ℕ) (p q : Player) (x : Game) (xs ys : List ℕ)
    (here : get_elem? s.heap a ≡ some p) (there : get_elem? s.heap b ≡ some q) (apart : a ≢ b) where
  abbrev marked : Player
  marked = record p { lost = true }

  abbrev left : Player
  left = set_in_game false marked

  abbrev left' : Player
  left' = set_in_game false q

  -- The memory once the player is marked as lost.
  abbrev noted : State
  noted = record s { heap = set s.heap a marked }

  -- The memory once the game is gone, with some players listed.
  abbrev over : List ℕ → State
  over players = record s {
    heap = set (set s.heap a left) b left';
    games = xs ++ ys;
    players = players;
  }

  back : b ≢ a
  back e = apart (sym e)

  noted-WellFormed : WellFormed s → WellFormed noted
  noted-WellFormed w =
      subst (λ h. WellFormed (record s { heap = h })) (set-set s.heap a p marked)
        (set_players-WellFormed s a a p p p marked s.p_queue w here here (λ ok. ok)
          (λ ok. record { joining = ok.joining; asked = ok.asked }))

  still : get_elem? noted.heap b ≡ some q
  still = get_elem?-set_ne s.heap a b marked apart ∙ there

  marked_here : get_elem? (set noted.heap b left') a ≡ some marked
  marked_here =
      get_elem?-set_ne noted.heap b a left' back
      ∙ get_elem?-set_self s.heap a marked (lt_of_get_elem? s.heap a p here)

  left_both : set (set noted.heap b left') a left ≡ set (set s.heap a left) b left'
  left_both =
      set-set_ne noted.heap b a left' left back
      ∙ ap (λ h. set h b left') (set-set s.heap a marked left)

  first_left : get_elem? (set s.heap a left) b ≡ some q
  first_left = get_elem?-set_ne s.heap a b left apart ∙ there

  second_there : get_elem? (set (set s.heap a left) b left') b ≡ some left'
  second_there =
      get_elem?-set_self (set s.heap a left) b left'
        (lt_of_get_elem? (set s.heap a left) b q first_left)

  first_there : get_elem? (set (set s.heap a left) b left') a ≡ some left
  first_there =
      get_elem?-set_ne (set s.heap a left) b a left' back
      ∙ get_elem?-set_self s.heap a left (lt_of_get_elem? s.heap a p here)

  -- Who has another name has it after the game as well.
  others :
      (players : List ℕ) (name : Bytes) (listed : List ℕ)
      → All (Fails s (λ y. y.name =s= name)) players
      → All (Fails (over listed) (λ y. y.name =s= name)) players
  others players name listed h =
      Fails-unchanged (record s { heap = set s.heap a left }) (λ y. y.name =s= name) b q left'
        players first_left refl
        (Fails-unchanged s (λ y. y.name =s= name) a p left players here refl h)

  -- Where a player of a game of a well formed memory is lost whose opponent is a different player who
  -- is lost already, and the lookups give this game and this opponent: if the opponent is the first
  -- listed player of that name, and the player the first of that name among the others, both are in
  -- no game and leave the vector, the player is marked as lost, and the first entry with the game's id is taken
  -- from the list of games; nothing else changes, and nobody is told.
  pub proceed_player_lost-ends :
      (m : Message) (before after before' after' : List ℕ)
      → WellFormed s
      → m.player ≡ some a
      → get_game_by_player (some a) s ≡ done (some g) s
      → get_elem? s.game_heap g ≡ some x
      → oponent_in x (some a) s ≡ done (some b) s
      → q.lost ≡ true
      → s.games ≡ xs ++ g ∷ ys
      → All (λ h. h % 2 ^ 32 ≢ g % 2 ^ 32) xs
      → s.players ≡ before ++ b ∷ after
      → All (Fails s (λ y. y.name =s= q.name)) before
      → before ++ after ≡ before' ++ a ∷ after'
      → All (Fails s (λ y. y.name =s= p.name)) before'
      → proceed_player_lost m s
        ≡ done tt (record s {
          heap =
              set
                (set s.heap a (record p { lost = true; in_game = false }))
                b
                (record q { in_game = false });
          games = xs ++ ys;
          players = before' ++ after';
        })
  unfolding proceed_player_lost
  proceed_player_lost-ends m before after before' after' w sender plays found other away games first
        listed fails listed' fails' =
      rw
        (
          proceed_player_lost,
          sender,
          plays,
          and_then,
          load_game-at s g x found,
          and_then,
          other,
          and_then,
          modify-at s a p (λ p. record p { lost = true }) here,
          and_then,
          load-at noted b q still,
          and_then,
        )
        (end m.player q.lost sender away)
    where
      end :
          (self : Option ℕ) (lost : Bool)
          → self ≡ some a
          → lost ≡ true
          → (elim lost as (λ _. M (Unit {0})) [
            | true ↦ do
              delete_game (some g)
              modify (some b) (set_in_game false)
              modify self (set_in_game false)
              delete_player (some b)
              delete_player self
            | false ↦ tell (some b) h_s_pl_loss []
          ])
              noted
            ≡ done tt (over (before' ++ after'))
      end self lost own gone =
          rw
            (
              gone,
              own,
              delete_game-removes noted xs ys g (noted-WellFormed w) games first,
              and_then,
              modify-at (record noted { games = xs ++ ys }) b q (set_in_game false) still,
              and_then,
              modify-at (record noted { games = xs ++ ys; heap = set noted.heap b left' }) a marked
                  (set_in_game false) marked_here,
              and_then,
              left_both,
              delete_player-first (over s.players) b left' before after b second_there listed
                  (others before q.name s.players fails) (left', second_there, =s=-refl q.name),
              and_then,
            )
            (delete_player-first (over (before ++ after)) a left before' after' a first_there
              listed' (others before' p.name (before ++ after) fails')
              (left, first_there, =s=-refl p.name))
