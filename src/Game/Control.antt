-- ===== src/Game/Control.antt =====
-- `controlBlack`, `controlWhite` and `isGameWon` of UPSServer/game/GameManager.cpp. The two
-- controls differ in the neighbours that they follow from each card, so they are one function of
-- that table. An `int` is its 32-bit pattern, so -1 is 2 ^ 32 - 1.
pub mod Fuel
pub mod Verdict
pub mod Lines
pub mod Wins
use package.ups_server.Base.{
  ℕ, zero, suc, ◌+◌, ◌*◌, ◌%◌, ◌^◌, Bool, true, false, ◌&&◌, ◌||◌, List, [], ◌∷◌, Option, none,
  some, Result, ok, fault, no_return, out_of_fuel, ◌>>=◌, ltb, leb, ◌==◌, if◌then◌else◌, get_elem?,
  set, replicate,
}
use package.ups_server.Game.Board.{Square, place, Game, square}

pub data Turn : Type 0 where
  up down left right : Turn

pub toward : Turn → Square → Square
toward up (i, j) = ((i + 0xffff_ffff) % 2 ^ 32, j)
toward down (i, j) = ((i + 1) % 2 ^ 32, j)
toward left (i, j) = (i, (j + 0xffff_ffff) % 2 ^ 32)
toward right (i, j) = (i, (j + 1) % 2 ^ 32)

-- The neighbours that a case of the switch tries, in its order; none for other cards.
abbrev pub Turns : Type 0
Turns = ℕ → Option (Turn × Turn)

pub black_turns : Turns
black_turns card =
    if card == 1
    then some (up, down)
    else if card == 2
    then some (left, right)
    else if card == 3
    then some (down, right)
    else if card == 4
    then some (up, right)
    else if card == 5
    then some (up, left)
    else if card == 6
    then some (down, left)
    else none

pub white_turns : Turns
white_turns card =
    if card == 1
    then some (left, right)
    else if card == 2
    then some (up, down)
    else if card == 3
    then some (up, left)
    else if card == 4
    then some (down, left)
    else if card == 5
    then some (down, right)
    else if card == 6
    then some (up, right)
    else none

abbrev pub Marks : Type 0
Marks = List Bool

-- `ctrlField`, all false.
abbrev pub no_marks : Marks
no_marks = replicate 64 false

abbrev pub is_marked : Marks → Square → Bool
is_marked marks s = elim (get_elem? marks (place s)) [ none ↦ false | some b ↦ b ]

abbrev pub outside : Square → Bool
outside (i, j) = leb (2 ^ 31) i || (ltb 7 i || (leb (2 ^ 31) j || ltb 7 j))

abbrev pub same : Square → Square → Bool
same (i, j) (i', j') = (i == i') && (j == j')

-- What the caller reads when a control runs off its end, with no `return`: nothing that the
-- standard defines (`none`), or the value that the compiler's code happens to leave.
abbrev pub Fallen : Type 0
Fallen = Option Bool

abbrev pub Found : Type 0
Found = Result (Bool × Marks)

pub run_off : Fallen → Marks → Found
run_off none marks = fault no_return
run_off (some b) marks = ok (b, marks)

-- A condition `(from != to) && control(…)`, where `rec` is the recursive call.
pub attempt : (Square → Square → Marks → Found) → Square → Square → Square → Marks → Found
attempt rec to at from marks =
    let call = rec to at marks in if same from to then ok (false, marks) else call

-- The switch, with the marks as they are after the square was marked.
pub follow :
    Fallen
    → (Square → Square → Marks → Found)
    → Option (Turn × Turn)
    → Square
    → Square
    → Marks
    → Found
unfolding attempt run_off toward
follow fallen rec none at from marks = run_off fallen marks
follow fallen rec (some (first, second)) at from marks =
    attempt rec (toward first at) at from marks >>= λ (found, marks'). elim found [
      | true ↦ ok (true, marks')
      | false ↦ attempt rec (toward second at) at from marks' >>= λ (found', marks''). elim found' [
        | true ↦ ok (true, marks'')
        | false ↦ run_off fallen marks''
      ]
    ]

-- The body of a control.
pub visit :
    Turns → Fallen → List ℕ → (Square → Square → Marks → Found) → Square → Square → Marks → Found
unfolding follow
visit turns fallen field rec at from marks =
    let card = square field at in
    let deeper = follow fallen rec (turns card) at from (set marks (place at) true) in
    if outside at
    then ok (false, marks)
    else if card == 0
    then ok (false, marks)
    else if is_marked marks at
    then ok (true, marks)
    else deeper

-- `control(game, ctrlField, i, j, fromI, fromJ)` on fuel.
pub control : Turns → Fallen → List ℕ → ℕ → Square → Square → Marks → Found
unfolding visit
control turns fallen field zero at from marks = fault out_of_fuel
control turns fallen field (suc n) at from marks =
    visit turns fallen field (control turns fallen field n) at from marks

-- Each call but the last marks one of 64 squares, so 65 calls nest at most.
abbrev pub control_fuel : ℕ
control_fuel = 65

pub control_black : Fallen → List ℕ → Square → Square → Marks → Found
unfolding control black_turns
control_black fallen field = control black_turns fallen field control_fuel

pub control_white : Fallen → List ℕ → Square → Square → Marks → Found
unfolding control white_turns
control_white fallen field = control white_turns fallen field control_fuel

unfoldable pub is_game_won : Fallen → Game → Square → Result Bool
unfolding control_black control_white
is_game_won fallen g move = control_white fallen g.field move move no_marks >>= λ (white, _).
    elim white [
      | true ↦ ok true
      | false ↦ control_black fallen g.field move move no_marks >>= λ (black, _). ok black
    ]
