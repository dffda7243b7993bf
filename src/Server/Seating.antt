-- ===== src/Server/Seating.antt =====
-- Who plays in which game, by name: what `getGameByPlayer` and the choice of the opponent read of the
-- memory, described apart from the code.
pub mod Changes
use package.ups_server.Base.{
  ℕ, ◌≡◌, ◌≢◌, refl, sym, ap, ◌∙◌, Bool, true, false, Bytes, List, [], ◌∷◌, map, Option, none, some,
  Fault, null_pointer, get_elem?, get_elem?-set_ne, set, ◌=s=◌, if◌then◌else◌,
}
use package.ups_server.Game.Board.{Game}
use package.ups_server.Game.Player.{Player}
use package.ups_server.Server.Games.{same_name, plays_in, game_loop, get_game_by_player, oponent_in}
use package.ups_server.Server.State.{
  State, Run, done, crash, dangling, M, pure, ◌>>=◌, and_then, load, load_game, get,
}

-- What a read comes to.
pub data Outcome (A : Type 0) : Type 0 where
  value : A → Outcome A
  stops : Fault → Outcome A
  astray : Outcome A

abbrev pub outcome_in : {A : Type 0} → State → Outcome A → Run A
outcome_in s (value a) = done a s
outcome_in s (stops e) = crash e
outcome_in s astray = dangling

abbrev pub then_outcome : {A B : Type 0} → Outcome A → (A → Outcome B) → Outcome B
then_outcome (value a) f = f a
then_outcome (stops e) f = stops e
then_outcome astray f = astray

-- The name of the player that a pointer leads to.
unfoldable pub name_at : State → Option ℕ → Outcome Bytes
name_at s none = stops null_pointer
name_at s (some a) = elim (get_elem? s.heap a) [ none ↦ astray | some p ↦ value p.name ]

abbrev pub names_equal : Outcome Bytes → Outcome Bytes → Outcome Bool
names_equal u v = then_outcome u (λ n. then_outcome v (λ n'. value (n =s= n')))

-- The names of a game's players.
abbrev Seats : Type 0
Seats = Outcome (Outcome Bytes × Outcome Bytes)

unfoldable pub seats : State → ℕ → Seats
seats s g = elim (get_elem? s.game_heap g) [
  | none ↦ astray
  | some x ↦ value (name_at s x.p1, name_at s x.p2)
]

abbrev has_name : Outcome Bytes → Outcome Bytes → Bool → Outcome Bool
has_name second n true = value true
has_name second n false = names_equal second n

abbrev pub plays : Seats → Outcome Bytes → Outcome Bool
plays seats n =
    then_outcome seats (λ (first, second). then_outcome (names_equal first n) (has_name second n))

abbrev found_then : Bool → ℕ → Option ℕ → Option ℕ
found_then true g found = some g
found_then false g found = found

-- The last game with a player of the name.
abbrev pub last_game : Outcome Bytes → List (ℕ × Seats) → Option ℕ → Outcome (Option ℕ)
last_game n [] found = value found
last_game n ((g, seats) ∷ games) found =
    then_outcome (plays seats n) (λ hit. last_game n games (found_then hit g found))

unfoldable pub seating : State → List ℕ → List (ℕ × Seats)
seating s [] = []
seating s (g ∷ games) = (g, seats s g) ∷ seating s games

-- What is read from one memory is read from another where it comes to the same.
pub done-outcome :
    {A : Type 0} (s t : State) (m m' : M A) (r : Outcome A) (a : A)
    → m s ≡ outcome_in s r
    → m' t ≡ outcome_in t r
    → m s ≡ done a s
    → m' t ≡ done a t
done-outcome s t m m' (value b) a e e' d =
    let same : done b s ≡ done a s = sym e ∙ d in
    let same' : b ≡ a = cc in e' ∙ ap (λ x. done x t) same'
done-outcome s t m m' (stops f) a e e' d = cc
done-outcome s t m m' astray a e e' d = cc

module _ {A B : Type 0} (s : State) where
  then-outcome :
      (m : M A) (f : A → M B) (r : Outcome A) (k : A → Outcome B)
      → m s ≡ outcome_in s r
      → ((a : A) → f a s ≡ outcome_in s (k a))
      → (m >>= f) s ≡ outcome_in s (then_outcome r k)
  then-outcome m f (value a) k e h = ap (λ z. and_then z f) e ∙ h a
  then-outcome m f (stops x) k e h = ap (λ z. and_then z f) e
  then-outcome m f astray k e h = ap (λ z. and_then z f) e

module _ (s : State) where
  -- A player of whom only the name is used.
  load-outcome :
      {B : Type 0} (p : Option ℕ) (f : Bytes → M B) (k : Bytes → Outcome B)
      → ((name : Bytes) → f name s ≡ outcome_in s (k name))
      → (load p >>= λ x. f x.name) s ≡ outcome_in s (then_outcome (name_at s p) k)
  unfolding load name_at
  load-outcome none f k h = refl
  load-outcome {B} (some a) f k h = there (get_elem? s.heap a) refl
    where
      there :
          (x : Option Player)
          → get_elem? s.heap a ≡ x
          → (load (some a) >>= λ x. f x.name) s ≡ outcome_in s (then_outcome (name_at s (some a)) k)
      there none e = rw (load, name_at, e) refl
      there (some p) e = rw (load, name_at, e) (h p.name)

  same_name-outcome :
      (p q : Option ℕ) → same_name p q s ≡ outcome_in s (names_equal (name_at s p) (name_at s q))
  unfolding same_name
  same_name-outcome p q =
      load-outcome p (λ n. load q >>= λ y. pure (n =s= y.name))
        (λ n. then_outcome (name_at s q) (λ n'. value (n =s= n')))
        λ n. load-outcome q (λ n'. pure (n =s= n')) (λ n'. value (n =s= n')) λ n'. refl

  plays_in-outcome :
      (p : Option ℕ) (g : ℕ) → plays_in p g s ≡ outcome_in s (plays (seats s g) (name_at s p))
  unfolding plays_in load_game seats
  plays_in-outcome p g = there (get_elem? s.game_heap g) refl
    where
      second : Game → Bool → M Bool
      second x first = elim first as (λ _. M Bool) [ true ↦ pure true | false ↦ same_name x.p2 p ]

      either :
          (x : Game) (first : Bool)
          → second x first s ≡ outcome_in s (has_name (name_at s x.p2) (name_at s p) first)
      either x true = refl
      either x false = same_name-outcome x.p2 p

      there :
          (x : Option Game)
          → get_elem? s.game_heap g ≡ x
          → plays_in p g s ≡ outcome_in s (plays (seats s g) (name_at s p))
      there none e = rw (plays_in, load_game, seats, e) refl
      there (some x) e =
          rw (plays_in, load_game, seats, e)
            (then-outcome s (same_name x.p1 p) (second x)
              (names_equal (name_at s x.p1) (name_at s p)) (has_name (name_at s x.p2) (name_at s p))
              (same_name-outcome x.p1 p) (either x))

  game_loop-outcome :
      (p : Option ℕ) (games : List ℕ) (found : Option ℕ)
      → game_loop p games found s ≡ outcome_in s (last_game (name_at s p) (seating s games) found)
  unfolding game_loop seating
  game_loop-outcome p [] found = refl
  game_loop-outcome p (g ∷ games) found =
      then-outcome s (plays_in p g)
        (λ hit. game_loop p games (elim hit as (λ _. Option ℕ) [ true ↦ some g | false ↦ found ]))
        (plays (seats s g) (name_at s p))
        (λ hit. last_game (name_at s p) (seating s games) (found_then hit g found))
        (plays_in-outcome p g) (next (game_loop-outcome p games))
    where
      next :
          ((found : Option ℕ)
            → game_loop p games found s
              ≡ outcome_in s (last_game (name_at s p) (seating s games) found))
          → (hit : Bool)
          → game_loop p games (elim hit as (λ _. Option ℕ) [ true ↦ some g | false ↦ found ]) s
            ≡ outcome_in s (last_game (name_at s p) (seating s games) (found_then hit g found))
      next rest true = rest (some g)
      next rest false = rest found

  -- `getGameByPlayer` gives the last game with a player of the name, or what the reads of the names
  -- before it come to.
  pub get_game_by_player-outcome :
      (p : Option ℕ)
      → get_game_by_player p s ≡ outcome_in s (last_game (name_at s p) (seating s s.games) none)
  unfolding get_game_by_player get
  get_game_by_player-outcome p = game_loop-outcome p s.games none

  pub oponent_in-outcome :
      (x : Game) (p : Option ℕ)
      → oponent_in x p s
        ≡ outcome_in s (
            then_outcome
              (names_equal (name_at s x.p1) (name_at s p))
              (λ first. value (if first then x.p2 else x.p1)))
  unfolding oponent_in
  oponent_in-outcome x p =
      then-outcome s (same_name x.p1 p)
        (λ first. pure (elim first as (λ _. Option ℕ) [ true ↦ x.p2 | false ↦ x.p1 ]))
        (names_equal (name_at s x.p1) (name_at s p)) (λ first. value (if first then x.p2 else x.p1))
        (same_name-outcome x.p1 p) next
    where
      next :
          (first : Bool)
          → pure (elim first as (λ _. Option ℕ) [ true ↦ x.p2 | false ↦ x.p1 ]) s
            ≡ outcome_in s (value (if first then x.p2 else x.p1))
      next true = refl
      next false = refl
