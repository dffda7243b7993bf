-- ===== src/Game/Control/Verdict.antt =====
-- What `isGameWon` can answer.
use ups_server.Base.{
  ◌≤◌, ℕ, zero, suc, ◌≡◌, ◌<◌, ◌≢◌, ◌⊎◌, refl, inl, inr, Bool, true, false, List, Option, none,
  some, Result, ok, fault, no_return, ◌>>=◌, arith, set,
}
use ups_server.Game.Board.{Square, Game, place, square}
use ups_server.Game.Control.{
  Turn, Turns, Marks, Fallen, Found, no_marks, control_fuel, outside, run_off, follow, visit,
  control, control_black, control_white, black_turns, white_turns, is_game_won,
}
use ups_server.Game.Control.Fuel.{Ends, search-Ends}

-- A verdict, or none where a control ran off its end and that has no value.
abbrev pub Decided : Fallen → Result Bool → Type 0
Decided fallen r = ((b : Bool) × (r ≡ ok b)) ⊎ (r ≡ fault no_return) × (fallen ≡ none)

verdict :
    (fallen : Fallen) (k : ℕ) (r : Found) (next : Bool → Result Bool)
    → Ends fallen k r
    → ((b : Bool) → Decided fallen (next b))
    → Decided fallen (r >>= λ (b, _). next b)
verdict fallen k (ok (b, marks)) next e rest = rest b
verdict fallen k (fault no_return) next e rest = inr (refl, e)
verdict fallen k (fault _) next e rest = absurd e

-- `isGameWon` always ends, on any board and for any move: with a verdict, or by running off the
-- end of a control. The latter only where that is taken to have no value.
pub is_game_won-Decided :
    (fallen : Fallen) (g : Game) (move : Square) → Decided fallen (is_game_won fallen g move)
unfolding is_game_won
is_game_won-Decided fallen g move =
    verdict fallen 64 _ _ (search-Ends white_turns fallen g.field move) after_white
  where
    after_white :
        (white : Bool)
        → Decided fallen (elim white [
          | true ↦ ok true
          | false ↦ control_black fallen g.field move move no_marks >>= λ (black, _). ok black
        ])
    after_white true = inl (true, refl)
    after_white false =
        verdict fallen 64 _ _ (search-Ends black_turns fallen g.field move) (λ b. inl (b, refl))

follow-ne-false :
    (rec : Square → Square → Marks → Found) (card : Option (Turn × Turn)) (at from : Square)
    (marks out : Marks)
    → follow none rec card at from marks ≢ ok (false, out)
unfolding follow run_off
follow-ne-false rec none at from marks out e = cc
follow-ne-false rec (some (first, second)) at from marks out e = ground arith

-- On a card that is on the board and not marked yet, no control returns false.
control-ne-false :
    (turns : Turns) (field : List ℕ) (n : ℕ) (at from : Square) (marks : Marks)
    → outside at ≡ false
    → square field at ≢ 0
    → (out : Marks) → control turns none field n at from marks ≢ ok (false, out)
unfolding control visit
control-ne-false turns field zero at from marks inside card out e = cc
control-ne-false turns field (suc n) at from marks inside card out e = ground (
  arith,
  follow-ne-false (control turns none field n) (turns (square field at)) at from
      (set marks (place at) true) out,
)

verdict-ne-false :
    (white black : Found)
    → ((out : Marks) → black ≢ ok (false, out))
    → (white >>= λ (w, _). elim w [ true ↦ ok true | false ↦ black >>= λ (b, _). ok b ]) ≢ ok false
verdict-ne-false (ok (true, m)) black h e = cc
verdict-ne-false (ok (false, m)) (ok (true, m')) h e = cc
verdict-ne-false (ok (false, m)) (ok (false, m')) h e = h m' refl
verdict-ne-false (ok (false, m)) (fault f) h e = cc
verdict-ne-false (fault f) black h e = cc

-- Where running off the end of a control has no value, `isGameWon` never answers false for a card
-- that lies on the board.
pub is_game_won-ne-false :
    (g : Game) (i j : ℕ)
    → i < 8
    → j < 8
    → square g.field (i, j) ≢ 0
    → is_game_won none g (i, j) ≢ ok false
unfolding is_game_won
is_game_won-ne-false g i j row column card =
    let move : Square = (i, j) in
    let inside : outside move ≡ false = ground (arith, row, column) in
    verdict-ne-false (control_white none g.field move move no_marks)
      (control_black none g.field move move no_marks)
      (control-ne-false black_turns g.field control_fuel move move no_marks inside card)

control-outside :
    (turns : Turns) (fallen : Fallen) (field : List ℕ) (n : ℕ) (at from : Square) (marks : Marks)
    → outside at ≡ true
    → control turns fallen field (suc n) at from marks ≡ ok (false, marks)
unfolding control visit
control-outside turns fallen field n at from marks beyond = rw beyond refl

-- No line is looked for from outside of the board.
pub is_game_won-outside :
    (fallen : Fallen) (g : Game) (i j : ℕ) → 8 ≤ j → is_game_won fallen g (i, j) ≡ ok false
unfolding is_game_won control_white control_black
is_game_won-outside fallen g i j far =
    let beyond : outside (i, j) ≡ true = ground (arith, far) in
    rw
      (
        control-outside white_turns fallen g.field 64 (i, j) (i, j) no_marks beyond,
        control-outside black_turns fallen g.field 64 (i, j) (i, j) no_marks beyond,
      )
      refl
