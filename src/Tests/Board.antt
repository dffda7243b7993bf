-- ===== src/Tests/Board.antt =====
-- A move on a board.
use ups_server.Game.Decimal.{get_game_string}
use ups_server.Game.Decimal.Reading.{read_board, read_board-get_game_string}
use ups_server.Base.{
  true, [], ℕ, zero, suc, ◌<◌, ◌^◌, ◌≡◌, ◌∷◌, All, ◌≢◌, refl, false, arith, ok, none, set,
  replicate,
}
use ups_server.Game.Board.{Game, game, Square, square}
use ups_server.Game.Control.{is_game_won}
use ups_server.Game.Control.Wins.{WhiteLine, is_game_won-Line}
use ups_server.Game.Control.Verdict.{Decided, is_game_won-Decided, is_game_won-ne-false}

-- One black card, at row 3 and column 4.
abbrev one_card : Game
one_card = record (game none 0) { field = set (replicate 64 0) 28 1 }

abbrev its_place : Square
its_place = (3, 4)

is_game_won-ne-false_example : is_game_won none one_card its_place ≢ ok false
is_game_won-ne-false_example =
    is_game_won-ne-false one_card 3 4 (omega arith) (omega arith) card_there
  where
    card_there : square one_card.field its_place ≢ 0
    card_there e = ground (arith, e)

is_game_won-Decided_example : Decided none (is_game_won none one_card its_place)
is_game_won-Decided_example = is_game_won-Decided none one_card its_place

zeros : (n : ℕ) → All (λ v. v < 2 ^ 32) (replicate n 0)
zeros zero = tt
zeros (suc n) = (omega arith, zeros n)

read_board-get_game_string_example :
    read_board (get_game_string (5 ∷ replicate 63 0)) ≡ 5 ∷ replicate 63 0
read_board-get_game_string_example =
    read_board-get_game_string 5 (replicate 63 0) (omega arith, zeros 63)

-- Four cards whose white lines make a circle.
abbrev circle : Game
circle = record (game none 0) { field = set (set (set (set (replicate 64 0) 27 5) 28 4) 35 6) 36 3 }

circle_won : is_game_won none circle (3, 3) ≡ ok true
unfolding is_game_won
circle_won = refl

is_game_won-Line_example : WhiteLine circle.field (3, 3) (3, 3) []
is_game_won-Line_example = is_game_won-Line circle (3, 3) circle_won
