-- ===== src/Game/Board.antt =====
-- UPSServer/game/Game.h and Game.cpp. The field is one list of 64 squares, row by row; an access
-- behind the last of them is a fault.
use ups_server.Base.{
  ℕ, ◌+◌, ◌*◌, List, Option, none, some, Result, ok, fault, out_of_bounds, ltb, if◌then◌else◌,
  get_elem?, set, replicate,
}

abbrev pub Square : Type 0
Square = ℕ × ℕ

abbrev pub place : Square → ℕ
place (i, j) = i * 8 + j

-- `playerOnTurn`, `p1` and `p2` are addresses of players.
pub record Game : Type 0 where
  pub id : ℕ
  pub field : List ℕ
  pub player_on_turn : Option ℕ
  pub p1 : Option ℕ
  pub p2 : Option ℕ

-- The constructor leaves the three pointers unset: they are what the memory held.
abbrev pub game : Option ℕ → ℕ → Game
game held id = record {
  id = id;
  field = replicate 64 0;
  player_on_turn = held;
  p1 = held;
  p2 = held;
}

abbrev pub square : List ℕ → Square → ℕ
square field s = elim (get_elem? field (place s)) [ none ↦ 0 | some v ↦ v ]

-- `field[i][j] = v`: a column of 8 or more leads on into the rows below.
unfoldable pub put : List ℕ → Square → ℕ → Result (List ℕ)
put field (i, j) v =
    if ltb (place (i, j)) 64 then ok (set field (place (i, j)) v) else fault out_of_bounds
