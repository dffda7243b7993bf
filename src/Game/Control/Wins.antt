-- ===== src/Game/Control/Wins.antt =====
-- What a win is: a white line over the cards of the board that comes back to itself.
use ups_server.Base.{
  ℕ, zero, suc, ◌*◌, ◌+◌, ◌<◌, ◌≡◌, ◌≢◌, ◌⊎◌, refl, ap, ◌∙◌, sym, inl, inr, Bool, true, false, not,
  ◌&&◌, ◌||◌, List, [], ◌∷◌, Option, none, some, Result, ok, ◌>>=◌, >>=-eq-ok, arith, ◌==◌, leb,
  get_elem?,
}
use ups_server.Game.Board.{Square, Game, square}
use ups_server.Game.Control.{
  Turn, up, down, left, right, Marks, no_marks, control_fuel, outside, same, toward, control,
  control_black, control_white, black_turns, white_turns, is_game_won,
}
use ups_server.Game.Control.Lines.{
  In, Side, Trail, closes, leads, control-Trail, control-misses, control-nothing,
}

-- The cards are numbered from 1 to 6. Each has a black line between two of its edges and a white one
-- between the two others.
abbrev black_edge : Turn → ℕ → Bool
black_edge up card = card == 1 || (card == 4 || card == 5)
black_edge down card = card == 1 || (card == 3 || card == 6)
black_edge left card = card == 2 || (card == 5 || card == 6)
black_edge right card = card == 2 || (card == 3 || card == 4)

abbrev white_edge : Turn → ℕ → Bool
white_edge turn card = leb 1 card && (leb card 6 && not (black_edge turn card))

abbrev OnBoard : Square → Type 0
OnBoard (i, j) = (i < 8) × (j < 8)

-- The second square is the neighbour of the first one at an edge.
abbrev Next : Turn → Square → Square → Type 0
Next up (i, j) (i', j') = (i ≡ suc i') × (j ≡ j')
Next down (i, j) (i', j') = (suc i ≡ i') × (j ≡ j')
Next left (i, j) (i', j') = (i ≡ i') × (j ≡ suc j')
Next right (i, j) (i', j') = (i ≡ i') × (suc j ≡ j')

abbrev Passed : Square → List Square → Type 0
Passed s [] = ⊥
Passed s (x ∷ passed) = (s ≡ x) ⊎ Passed s passed

-- A white line on the board that goes on from `at`, where it came from `from` and passed some
-- squares: it leaves each card over a white edge to the neighbour there, never straight back, and it
-- ends at a square that it passed.
pub data WhiteLine (field : List ℕ) : Square → Square → List Square → Type 0 where
  ends :
      {from at : Square} {passed : List Square}
      → OnBoard at
      → Passed at passed
      → WhiteLine field from at passed
  goes_on :
      {from at to : Square} {passed : List Square} (edge : Turn) (card : ℕ)
      → OnBoard at
      → get_elem? field (at.0 * 8 + at.1) ≡ some card
      → white_edge edge card ≡ true
      → Next edge at to
      → from ≢ to
      → WhiteLine field at to (at ∷ passed)
      → WhiteLine field from at passed

outside-OnBoard : (at : Square) → outside at ≡ false → OnBoard at
outside-OnBoard (i, j) h = (ground (arith, h), ground (arith, h))

toward-Next :
    (turn : Turn) (at : Square)
    → OnBoard at
    → OnBoard (toward turn at)
    → Next turn at (toward turn at)
unfolding toward
toward-Next up (i, j) (h, _) (h', _) = (omega (arith, h, h'), refl)
toward-Next down (i, j) (h, _) (h', _) = (omega (arith, h, h'), refl)
toward-Next left (i, j) (_, h) (_, h') = (refl, omega (arith, h, h'))
toward-Next right (i, j) (_, h) (_, h') = (refl, omega (arith, h, h'))

ahead-≢ : (s t : Square) → same s t ≡ false → s ≢ t
ahead-≢ (i, j) (i', j') apart e =
    let row : i ≡ i' = ap (λ x. x.0) e in
    let column : j ≡ j' = ap (λ x. x.1) e in ground (arith, apart)

edge_of :
    (card : ℕ) (turn first second a b : Turn)
    → (let sides : Option (Turn × Turn) = some (a, b) in sides ≡ some (first, second))
    → white_edge a card ≡ true
    → white_edge b card ≡ true
    → Side turn first second
    → white_edge turn card ≡ true
edge_of card turn first second a b e ha hb (inl same) =
    let here : first ≡ a = cc in ap (λ t. white_edge t card) (same ∙ here) ∙ ha
edge_of card turn first second a b e ha hb (inr same) =
    let here : second ≡ b = cc in ap (λ t. white_edge t card) (same ∙ here) ∙ hb

no_card : (n : ℕ) → white_turns (suc (suc (suc (suc (suc (suc (suc n))))))) ≡ none
unfolding white_turns
no_card n =
    let card : ℕ = suc (suc (suc (suc (suc (suc (suc n)))))) in
    let e1 : (card == 1) ≡ false = ground arith in
    let e2 : (card == 2) ≡ false = ground arith in
    let e3 : (card == 3) ≡ false = ground arith in
    let e4 : (card == 4) ≡ false = ground arith in
    let e5 : (card == 5) ≡ false = ground arith in
    let e6 : (card == 6) ≡ false = ground arith in rw (e1, e2, e3, e4, e5, e6) refl

-- The table of `controlWhite` has the white edges of each card.
white_turns-edge :
    (card : ℕ) (turn first second : Turn)
    → white_turns card ≡ some (first, second)
    → Side turn first second
    → white_edge turn card ≡ true
unfolding white_turns
white_turns-edge zero turn f s h side = absurd (cc)
white_turns-edge (suc zero) turn f s h side = edge_of 1 turn f s left right h refl refl side
white_turns-edge (suc (suc zero)) turn f s h side = edge_of 2 turn f s up down h refl refl side
white_turns-edge (suc (suc (suc zero))) turn f s h side =
    edge_of 3 turn f s up left h refl refl side
white_turns-edge (suc (suc (suc (suc zero)))) turn f s h side =
    edge_of 4 turn f s down left h refl refl side
white_turns-edge (suc (suc (suc (suc (suc zero))))) turn f s h side =
    edge_of 5 turn f s down right h refl refl side
white_turns-edge (suc (suc (suc (suc (suc (suc zero)))))) turn f s h side =
    edge_of 6 turn f s up right h refl refl side
white_turns-edge (suc (suc (suc (suc (suc (suc (suc n))))))) turn f s h side =
    let nothing = sym (no_card n) ∙ h in absurd (cc)

card_at :
    (field : List ℕ) (at : Square) (first second : Turn)
    → white_turns (square field at) ≡ some (first, second)
    → get_elem? field (at.0 * 8 + at.1) ≡ some (square field at)
unfolding white_turns
card_at field (i, j) first second h = found (get_elem? field (i * 8 + j)) h
  where
    found :
        (o : Option ℕ)
        → white_turns (elim o [ none ↦ 0 | some v ↦ v ]) ≡ some (first, second)
        → o ≡ some (elim o [ none ↦ 0 | some v ↦ v ])
    found none h = absurd (cc)
    found (some v) h = refl

In-Passed : (s : Square) (passed : List Square) → In s passed → Passed s passed
In-Passed s [] h = h
In-Passed s (x ∷ passed) (inl e) = inl e
In-Passed s (x ∷ passed) (inr h) = inr (In-Passed s passed h)

Trail-inside :
    {turns : _} {field : List ℕ} {from at : Square} {passed : List Square}
    → Trail turns field from at passed
    → outside at ≡ false
Trail-inside (closes inside h) = inside
Trail-inside (leads turn first second inside sides side ahead rest) = inside

-- What the search for white finds is a white line.
Trail-WhiteLine :
    (field : List ℕ) (from at : Square) (passed : List Square)
    → Trail white_turns field from at passed
    → WhiteLine field from at passed
Trail-WhiteLine field from at passed (closes inside h) =
    ends (outside-OnBoard at inside) (In-Passed at passed h)
Trail-WhiteLine field from at passed (leads turn first second inside sides side ahead rest) =
    let here = outside-OnBoard at inside in
    goes_on turn (square field at) here (card_at field at first second sides)
      (white_turns-edge (square field at) turn first second sides side)
      (toward-Next turn at here (outside-OnBoard (toward turn at) (Trail-inside rest)))
      (ahead-≢ from (toward turn at) ahead)
      (Trail-WhiteLine field at (toward turn at) (at ∷ passed) rest)

-- Where `isGameWon` says that a game is won and no control ran off its end, a white line goes out
-- from the square of the move, over neighbouring squares of the board and the white edges of their
-- cards, never straight back, and comes back to a square that it passed. So a black line alone never
-- wins without a control that runs off its end before.
pub is_game_won-Line :
    (g : Game) (move : Square) → is_game_won none g move ≡ ok true → WhiteLine g.field move move []
unfolding is_game_won control_white control_black
is_game_won-Line g move h =
    let ((white, marks), searched, rest) =
      >>=-eq-ok (control white_turns none g.field control_fuel move move no_marks) _ h in
    on_white white marks searched rest
  where
    on_white :
        (white : Bool) (marks : Marks)
        → control white_turns none g.field control_fuel move move no_marks ≡ ok (white, marks)
        → (elim white as (λ _. Result Bool) [
          | true ↦ ok true
          | false ↦ control_black none g.field move move no_marks >>= λ (black, _). ok black
        ])
          ≡ ok true
        → WhiteLine g.field move move []
    on_white true marks searched e =
        Trail-WhiteLine g.field move move []
          (control-Trail white_turns g.field control_fuel move marks searched)
    on_white false marks searched e =
        let nothing =
          control-nothing black_turns g.field 64 move
            (control-misses white_turns g.field 64 move marks searched) in
        let lost = sym (ap (λ r. r >>= λ (black, _). ok black) nothing) ∙ e in absurd (cc)
