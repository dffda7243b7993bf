-- ===== src/Server/Games.antt =====
-- The list of games: `getGameByPlayer`, `getPlayersOponent`, `registerGame` and `deleteGame` of
-- UPSServer/game/GameManager.cpp. Each holds `gameMutex` while it reads or writes the list.
pub mod Removal
pub mod Finding
use package.ups_server.Base.{
  ℕ, ◌+◌, ◌%◌, ◌^◌, Bool, true, false, List, [], ◌∷◌, ◌++◌, Option, none, some, ◌==◌, ◌=s=◌, length,
}
use package.ups_server.Game.Board.{Game, game}
use package.ups_server.Server.State.{
  M, pure, ◌>>=◌, ◌>>◌, get, update, load, load_game, position, erase_at,
}

-- `a->getName() == b->getName()`.
unfoldable pub same_name : Option ℕ → Option ℕ → M Bool
same_name a b = do p ← load a; q ← load b; pure (p.name =s= q.name)

-- Whether the player is one of the two of the game, told by name.
unfoldable pub plays_in : Option ℕ → ℕ → M Bool
unfolding same_name
plays_in p g = do
  x ← load_game (some g)
  first ← same_name x.p1 p
  elim first [ true ↦ pure true | false ↦ same_name x.p2 p ]

-- The loop of `getGameByPlayer` has no `break`: the last game found is the result.
unfoldable pub game_loop : Option ℕ → List ℕ → Option ℕ → M (Option ℕ)
unfolding plays_in
game_loop p [] found = pure found
game_loop p (g ∷ games) found = do
  hit ← plays_in p g
  game_loop p games (elim hit [ true ↦ some g | false ↦ found ])

unfoldable pub get_game_by_player : Option ℕ → M (Option ℕ)
unfolding game_loop
get_game_by_player p = do s ← get; game_loop p s.games none

-- The player of the game who is not `p`, told by name: the first is the opponent of everyone but
-- of the player with the first's name.
unfoldable pub oponent_in : Game → Option ℕ → M (Option ℕ)
unfolding same_name
oponent_in x p = do first ← same_name x.p1 p; pure (elim first [ true ↦ x.p2 | false ↦ x.p1 ])

unfoldable pub get_players_oponent : Option ℕ → M (Option ℕ)
unfolding oponent_in get_game_by_player
get_players_oponent p = do
  g ← get_game_by_player p
  elim g [ none ↦ pure none | some a ↦ load_game (some a) >>= λ x. oponent_in x p ]

-- The new game is put behind the others; its address is the result.
unfoldable pub register_game : Option ℕ → Option ℕ → M ℕ
register_game p1 p2 = do
  s ← get
  let a = length s.game_heap
  update (λ s. record s {
    game_heap = s.game_heap ++ record (game (s.unset a) s.max_game_id) { p1 = p1; p2 = p2 } ∷ [];
    games = s.games ++ a ∷ [];
    max_game_id = (s.max_game_id + 1) % 2 ^ 32;
  })
  pure a

unfoldable pub has_id : ℕ → ℕ → M Bool
has_id id g = load_game (some g) >>= λ x. pure (x.id == id)

-- The log line reads both names.
unfoldable pub delete_game : Option ℕ → M (Unit {0})
unfolding has_id
delete_game g = do
  x ← load_game g
  _ ← load x.p1
  _ ← load x.p2
  s ← get
  k ← position (has_id x.id) s.games 0
  rest ← erase_at s.games k
  update (λ s. record s { games = rest })
