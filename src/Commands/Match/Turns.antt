-- ===== src/Commands/Match/Turns.antt =====
-- What a move on the board leads to.
use ups_server.Base.{
  ◌/◌, ◌%◌, ◌≤◌, ℕ, ◌+◌, ◌*◌, ◌<◌, ◌^◌, ◌≡◌, refl, ◌∙◌, true, false, Bool, Bytes, codes, List, [],
  ◌∷◌, ◌++◌, some, ok, Option, ap, arith, get_elem?, get_elem?-set_self, lt_of_get_elem?, set,
  set-set,
}
use ups_server.Commands.Dispatch.Packets.{register_message-frame}
use ups_server.Commands.Lobby.{tell}
use ups_server.Commands.Lobby.Registration.{packet_to}
use ups_server.Commands.Match.{process_game_move, win_game, word_at}
use ups_server.Commands.Match.Moves.{place_card-inside}
use ups_server.Game.Board.{Game}
use ups_server.Game.Control.{Fallen, is_game_won}
use ups_server.Game.Control.Verdict.{is_game_won-outside}
use ups_server.Game.Player.{Player}
use ups_server.Server.Access.{load_game-at}
use ups_server.Server.Games.{get_game_by_player, oponent_in}
use ups_server.Server.State.{State, M, ◌>>◌, done, and_then, modify_game}
use ups_server.Wire.Codes.{h_s_game_move, h_s_game_won, head_to_format, find_format}
use ups_server.Wire.Format.{Fits, encode, encode_item}
use ups_server.Wire.Message.{Item, Message, message, word, text}
use ups_server.Wire.Serialize.{at, as_word}

-- The items of a move: the card, its row and its column.
abbrev pub move_items : ℕ → ℕ → ℕ → List Item
move_items card i j = word card ∷ word i ∷ word j ∷ []

-- The move, told to the player who is on turn then.
abbrev pub game_move : ℕ → ℕ → ℕ → ℕ → Message
game_move b card i j = record (message h_s_game_move (codes "iii")) {
  payload = move_items card i j;
  player = some b;
}

-- The winning move, told to a player with the winner's name.
abbrev pub game_won : ℕ → Bytes → ℕ → ℕ → ℕ → Message
game_won a winner card i j = record (message h_s_game_won (codes "siii")) {
  payload = text winner ∷ move_items card i j;
  player = some a;
}

game_move-Fits : (b card i j : ℕ) → card < 2 ^ 32 → i * 8 + j < 64 → Fits (game_move b card i j)
unfolding encode encode_item
game_move-Fits b card i j fits lands = record {
  header = omega arith;
  payload = ((refl, fits), ((refl, omega arith), ((refl, omega arith), tt)));
  size = omega arith;
}

-- The game with a card on the board.
abbrev pub placed : Game → ℕ → ℕ → ℕ → Game
placed x card i j = record x { field = set x.field (i * 8 + j) card }

same_square : (i j : ℕ) → i * 8 + j ≡ (i + j / 8) * 8 + j % 8
same_square i j = omega arith

module _ (fallen : Fallen) (s : State) (m : Message) (a b g card i j : ℕ) (p q : Player) (x : Game)
    (here : get_elem? s.heap a ≡ some p) (there : get_elem? s.heap b ≡ some q)
    (sender : m.player ≡ some a) (payload : m.payload ≡ move_items card i j)
    (plays : get_game_by_player (some a) s ≡ done (some g) s)
    (found : get_elem? s.game_heap g ≡ some x) (other : oponent_in x (some a) s ≡ done (some b) s)
    (lands : i * 8 + j < 64) where
  abbrev pub board : State
  board = record s { game_heap = set s.game_heap g (placed x card i j) }

  placed-at : get_elem? board.game_heap g ≡ some (placed x card i j)
  placed-at =
      get_elem?-set_self s.game_heap g (placed x card i j) (lt_of_get_elem? s.game_heap g x found)

  -- A move whose card gets to the board is decided by `isGameWon`.
  pub process_game_move-decided :
      (won : Bool)
      → is_game_won fallen (placed x card i j) (i, j) ≡ ok won
      → process_game_move fallen m s
        ≡ (elim won as (λ _. M (Unit {0})) [
          | true ↦ win_game (some g) (some a) (some b) (move_items card i j)
          | false ↦ do
            modify_game (some g) (λ g. record g { player_on_turn = some b })
            tell (some b) h_s_game_move (move_items card i j)
        ])
            board
  unfolding process_game_move word_at at as_word
  process_game_move-decided won verdict =
      rw
        (
          process_game_move,
          sender,
          payload,
          plays,
          and_then,
          load_game-at s g x found,
          and_then,
          other,
          and_then,
          word_at,
          place_card-inside s g card i j x found lands,
          and_then,
          load_game-at board g (placed x card i j) placed-at,
          and_then,
          verdict,
        )
        (ap (λ self. decide won self board) sender)
    where
      decide : Bool → Option ℕ → M (Unit {0})
      decide won self = elim won as (λ _. M (Unit {0})) [
        | true ↦ win_game (some g) self (some b) (move_items card i j)
        | false ↦ do
          modify_game (some g) (λ g. record g { player_on_turn = some b })
          tell (some b) h_s_game_move (move_items card i j)
      ]

  -- Where the sender and the opponent are players that are there, the lookups give their game and
  -- this opponent, row and column of the move lead to one of the 64 squares and the card is below
  -- 2^32, and `isGameWon` answers false on the board with the card on this square: the card lies there, the
  -- opponent is on turn, and is told the move, whoever's turn it was and whatever lay on the square;
  -- nothing else changes.
  pub process_game_move-passes :
      card < 2 ^ 32
      → is_game_won fallen (placed x card i j) (i, j) ≡ ok false
      → process_game_move fallen m s
        ≡ done tt (record s {
          game_heap =
              set s.game_heap g
                (record x { field = set x.field (i * 8 + j) card; player_on_turn = some b });
          p_queue = s.p_queue ++ packet_to q.socket (game_move b card i j) ∷ [];
        })
  unfolding modify_game tell head_to_format find_format
  process_game_move-passes fits verdict =
      let y : Game = placed x card i j in
      let z : Game = record y { player_on_turn = some b } in
      let turned : modify_game (some g) (λ g. record g { player_on_turn = some b }) board
          ≡ done tt (record s { game_heap = set s.game_heap g z }) =
        rw (modify_game, placed-at, set-set s.game_heap g y z) refl in
      process_game_move-decided false verdict
      ∙ rw (turned, and_then)
          (register_message-frame (record s { game_heap = set s.game_heap g z })
            (game_move b card i j) b q (game_move-Fits b card i j fits lands) refl there)

  -- Where the sender and the opponent are players that are there, the lookups give their game and
  -- this opponent, and the column of a move is 8 or more but row and column still lead to one of the
  -- 64 squares, with a card below 2^32: the card lies in a row further down, where the columns are
  -- counted on, whatever lay there; no line is looked for, and the opponent is on turn and is told
  -- the row and the column as they came. Nothing else changes.
  pub process_game_move-astray :
      card < 2 ^ 32
      → 8 ≤ j
      → process_game_move fallen m s
        ≡ done tt (record s {
          game_heap = set s.game_heap g (record x {
            field = set x.field ((i + j / 8) * 8 + j % 8) card;
            player_on_turn = some b;
          });
          p_queue = s.p_queue ++ packet_to q.socket (game_move b card i j) ∷ [];
        })
  process_game_move-astray fits far =
      process_game_move-passes fits (is_game_won-outside fallen (placed x card i j) i j far)
      ∙ ap
          (λ k. done tt (record s {
            game_heap =
                set s.game_heap g
                  (record x { field = set x.field k card; player_on_turn = some b });
            p_queue = s.p_queue ++ packet_to q.socket (game_move b card i j) ∷ [];
          }))
          (same_square i j)
