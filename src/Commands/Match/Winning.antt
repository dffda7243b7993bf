-- ===== src/Commands/Match/Winning.antt =====
-- What a winning move leads to.
use mathlib.Core.Path.{subst}
use ups_server.Base.{
  arith, ◌%◌, ◌^◌, ℕ, ◌+◌, ◌*◌, ◌<◌, ◌≡◌, ◌≢◌, refl, sym, ◌∙◌, true, List, [], ◌∷◌, ◌++◌, some, ok,
  All, All-set, All-get, get_elem?, set, length, length-set,
}
use ups_server.Commands.Dispatch.Packets.{register_message-frame}
use ups_server.Commands.Lobby.{tell}
use ups_server.Commands.Lobby.Registration.{packet_to}
use ups_server.Commands.Match.{process_game_move, win_game}
use ups_server.Commands.Match.Freeing.{freed, free_both, set_players-WellFormed}
use ups_server.Game.Board.{Game}
use ups_server.Game.Control.{Fallen, is_game_won}
use ups_server.Game.Player.{Player}
use ups_server.Server.Access.{load-at}
use ups_server.Server.Games.{get_game_by_player, oponent_in, delete_game}
use ups_server.Server.Games.Removal.{delete_game-removes}
use ups_server.Server.Memory.{GameOk, Valid, WellFormed}
use ups_server.Server.Memory.Rules.{Valid-game_heap, IdsFrom-set}
use ups_server.Server.State.{State, done, and_then}
use ups_server.Wire.Codes.{head_to_format, find_format}
use ups_server.Wire.Format.{Fits}
use ups_server.Wire.Message.{Message}
use ups_server.Commands.Match.Turns.{move_items, game_won, placed, process_game_move-decided}

-- A game whose id, players and player on turn stay, and whose board keeps its size, leaves the
-- memory well formed.
set_game-WellFormed :
    (s : State) (g : ℕ) (x y : Game)
    → WellFormed s
    → get_elem? s.game_heap g ≡ some x
    → y.id ≡ x.id
    → (GameOk (length s.heap) x → GameOk (length s.heap) y)
    → WellFormed (record s { game_heap = set s.game_heap g y })
set_game-WellFormed s g x y w found same keep =
    let n = length s.heap in
    let games = set s.game_heap g y in
    let size : length games ≡ length s.game_heap = length-set s.game_heap g y in
    let boards =
      All-set (GameOk n) s.game_heap g y w.boards
        (keep (All-get (GameOk n) s.game_heap g x w.boards found)) in
    subst (λ k. Valid n k (record s { game_heap = games })) (sym size)
      (Valid-game_heap w games size boards (IdsFrom-set 0 s.game_heap g x y found same w.ids))

module _ (fallen : Fallen) (s : State) (m : Message) (a b g card i j : ℕ) (p q : Player) (x : Game)
    (xs ys : List ℕ) (here : get_elem? s.heap a ≡ some p) (there : get_elem? s.heap b ≡ some q)
    (apart : a ≢ b) (w : WellFormed s) (found : get_elem? s.game_heap g ≡ some x)
    (listed : s.games ≡ xs ++ g ∷ ys) (first : All (λ h. h % 2 ^ 32 ≢ g % 2 ^ 32) xs) where
  abbrev laid : State
  laid = record s { game_heap = set s.game_heap g (placed x card i j) }

  win_game-frees :
      Fits (game_won a p.name card i j)
      → win_game (some g) (some a) (some b) (move_items card i j) laid
        ≡ done tt (record laid {
          heap = set (set s.heap a (freed p)) b (freed q);
          games = xs ++ ys;
          p_queue =
              (s.p_queue ++ packet_to p.socket (game_won a p.name card i j) ∷ [])
              ++ packet_to q.socket (game_won b p.name card i j) ∷ [];
        })
  unfolding win_game tell head_to_format find_format
  win_game-frees fits =
      let told = s.p_queue ++ packet_to p.socket (game_won a p.name card i j) ∷ [] in
      let packets = told ++ packet_to q.socket (game_won b p.name card i j) ∷ [] in
      let fits' : Fits (game_won b p.name card i j) = record {
        header = fits.header;
        payload = fits.payload;
        size = fits.size;
      } in
      let board_ok = set_game-WellFormed s g x (placed x card i j) w found refl (λ ok. record {
        first = ok.first;
        second = ok.second;
        turn = ok.turn;
        board = length-set x.field (i * 8 + j) card ∙ ok.board;
      }) in
      let formed =
        set_players-WellFormed laid a b p q (freed p) (freed q) packets board_ok here there
          (λ ok. record { joining = ok.joining; asked = ok.asked })
          (λ ok. record { joining = ok.joining; asked = ok.asked }) in
      rw
        (
          win_game,
          load-at laid a p here,
          and_then,
          register_message-frame laid (game_won a p.name card i j) a p fits refl here,
          and_then,
          register_message-frame (record laid { p_queue = told }) (game_won b p.name card i j) b q
              fits' refl there,
          and_then,
        )
        (free_both (record laid { p_queue = packets }) a b p q (delete_game (some g)) here there
            apart
          ∙ delete_game-removes
              (record laid { heap = set (set s.heap a (freed p)) b (freed q); p_queue = packets })
              xs ys g formed listed first)

  -- Where the memory is well formed, the sender and the opponent are different players that are
  -- there, the lookups give their game, which is in the list of games, and this opponent, the row and
  -- the column of the move are below 8, `isGameWon` answers true on the board with the card on this
  -- square, and the message of it fits a packet: the card lies there, both are in no game and free for
  -- another, each is told of the move with the sender's name, and the first entry with the game's id
  -- is taken from the list of games; nothing else changes.
  pub process_game_move-wins :
      m.player ≡ some a
      → m.payload ≡ move_items card i j
      → get_game_by_player (some a) s ≡ done (some g) s
      → oponent_in x (some a) s ≡ done (some b) s
      → i < 8
      → j < 8
      → Fits (game_won a p.name card i j)
      → is_game_won fallen (placed x card i j) (i, j) ≡ ok true
      → process_game_move fallen m s
        ≡ done tt (record s {
          heap = set (set s.heap a (freed p)) b (freed q);
          game_heap = set s.game_heap g (placed x card i j);
          games = xs ++ ys;
          p_queue =
              (s.p_queue ++ packet_to p.socket (game_won a p.name card i j) ∷ [])
              ++ packet_to q.socket (game_won b p.name card i j) ∷ [];
        })
  process_game_move-wins sender payload plays other row column fits verdict =
      process_game_move-decided fallen s m a b g card i j p q x here there sender payload plays
        found other (omega (arith, row, column)) true verdict
      ∙ win_game-frees fits
