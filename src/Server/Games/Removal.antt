-- ===== src/Server/Games/Removal.antt =====
-- What `deleteGame` takes from the list of games.
use mathlib.Core.Path.{subst}
use ups_server.Base.{
  ℕ, zero, suc, ◌+◌, ◌%◌, ◌^◌, ◌<◌, ◌≡◌, ◌≢◌, refl, ap, ◌∙◌, ◌==◌, ==-refl, false, List, [], ◌∷◌,
  ◌++◌, Option, none, some, All, All-get, All-middle, get_elem?, get_elem?-lt, length, arith,
}
use ups_server.Game.Board.{Game}
use ups_server.Game.Player.{Player}
use ups_server.Server.Games.{has_id, delete_game}
use ups_server.Server.Memory.{IdsFrom, Below, Object, GameOk, WellFormed}
use ups_server.Server.State.{
  State, done, load_game, load, get, update, position, erase_at, remove_at,
}

-- The id of a game is its address, modulo 2 ^ 32.
IdsFrom-get :
    (j : ℕ) (games : List Game) (i : ℕ) (x : Game)
    → IdsFrom j games
    → get_elem? games i ≡ some x
    → x.id ≡ (j + i) % 2 ^ 32
IdsFrom-get j [] i x h e = cc
IdsFrom-get j (g ∷ games) zero x h e =
    let same : g ≡ x = cc in omega (arith, h.0, ap (λ y. y.id) same)
IdsFrom-get j (g ∷ games) (suc i) x h e = omega (arith, IdsFrom-get (suc j) games i x h.1 e)

module _ (s : State) (w : WellFormed s) where
  has_id-done : (id a : ℕ) → a < length s.game_heap → has_id id a s ≡ done ((a % 2 ^ 32) == id) s
  unfolding has_id load_game
  has_id-done id a lt =
      let (x, e) = get_elem?-lt s.game_heap a lt in
      let same : x.id ≡ a % 2 ^ 32 = omega (arith, IdsFrom-get 0 s.game_heap a x w.ids e) in
      rw (e, has_id, load_game, same) refl

  position-done :
      (xs ys : List ℕ) (g i : ℕ)
      → All (Below (length s.game_heap)) (xs ++ g ∷ ys)
      → All (λ a. a % 2 ^ 32 ≢ g % 2 ^ 32) xs
      → position (has_id (g % 2 ^ 32)) (xs ++ g ∷ ys) i s ≡ done (suc (i + length xs)) s
  unfolding position
  position-done [] ys g i h apart =
      rw (has_id-done (g % 2 ^ 32) g h.0, ==-refl (g % 2 ^ 32))
        (ap (λ j. done (suc j) s) (omega arith))
  position-done (x ∷ xs) ys g i h apart =
      let other : ((x % 2 ^ 32) == (g % 2 ^ 32)) ≡ false = ground (arith, apart.0) in
      rw (has_id-done (g % 2 ^ 32) x h.0, other)
        (position-done xs ys g (suc i) h.1 apart.1 ∙ ap (λ j. done (suc j) s) (omega arith))

remove_at-append : (xs ys : List ℕ) (g : ℕ) → remove_at (xs ++ g ∷ ys) (length xs) ≡ xs ++ ys
unfolding remove_at
remove_at-append [] ys g = refl
remove_at-append (x ∷ xs) ys g = ap (λ zs. x ∷ zs) (remove_at-append xs ys g)

get_elem?-here : (xs ys : List ℕ) (g : ℕ) → get_elem? (xs ++ g ∷ ys) (length xs) ≡ some g
get_elem?-here [] ys g = refl
get_elem?-here (x ∷ xs) ys g = get_elem?-here xs ys g

pub erase_at-here :
    (xs ys : List ℕ) (g : ℕ) (s : State)
    → erase_at (xs ++ g ∷ ys) (suc (length xs)) s ≡ done (xs ++ ys) s
unfolding erase_at
erase_at-here xs ys g s =
    rw (get_elem?-here xs ys g, erase_at) (ap (λ zs. done zs s) (remove_at-append xs ys g))

Object-load :
    (s : State) (p : Option ℕ) → Object (length s.heap) p → (x : Player) × (load p s ≡ done x s)
unfolding load
Object-load s none h = absurd h
Object-load s (some a) h = let (x, e) = get_elem?-lt s.heap a h in (x, rw (e, load) refl)

game_load :
    (s : State) (g : ℕ)
    → g < length s.game_heap
    → (x : Game) × (get_elem? s.game_heap g ≡ some x) × (load_game (some g) s ≡ done x s)
unfolding load_game
game_load s g h = let (x, e) = get_elem?-lt s.game_heap g h in (x, e, rw (e, load_game) refl)

-- In a well formed memory the deletion of a game that is in the list of games takes its first entry
-- from the list, and changes nothing else.
pub delete_game-removes :
    (s : State) (xs ys : List ℕ) (g : ℕ)
    → WellFormed s
    → s.games ≡ xs ++ g ∷ ys
    → All (λ a. a % 2 ^ 32 ≢ g % 2 ^ 32) xs
    → delete_game (some g) s ≡ done tt (record s { games = xs ++ ys })
unfolding delete_game get update
delete_game-removes s xs ys g w e apart =
    let below = subst (All (Below (length s.game_heap))) e w.running in
    let (x, at, loaded) = game_load s g (All-middle _ xs ys g below) in
    let x_ok = All-get (GameOk (length s.heap)) s.game_heap g x w.boards at in
    let (p, first) = Object-load s x.p1 x_ok.first in
    let (q, second) = Object-load s x.p2 x_ok.second in
    let same : x.id ≡ g % 2 ^ 32 = omega (arith, IdsFrom-get 0 s.game_heap g x w.ids at) in
    let found : position (has_id x.id) s.games 0 s ≡ done (suc (length xs)) s =
      ap (λ zs. position (has_id x.id) zs 0 s) e
      ∙ (ap (λ i. position (has_id i) (xs ++ g ∷ ys) 0 s) same
          ∙ (position-done s w xs ys g 0 below apart ∙ ap (λ j. done (suc j) s) (omega arith))) in
    let erased : erase_at s.games (suc (length xs)) s ≡ done (xs ++ ys) s =
      ap (λ zs. erase_at zs (suc (length xs)) s) e ∙ erase_at-here xs ys g s in
    rw (loaded, first, second, found, erased) refl
