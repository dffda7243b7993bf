-- ===== src/Server/Games/Finding.antt =====
-- The memory with a game more.
use ups_server.Base.{ℕ, ◌+◌, ◌%◌, ◌^◌, ◌≡◌, refl, List, [], ◌∷◌, ◌++◌, some, get_elem?, length}
use ups_server.Game.Board.{game}
use ups_server.Server.State.{State}

pub get_elem?-last {ℓ} :
    {A : Type ℓ} (xs : List A) (x : A) → get_elem? (xs ++ x ∷ []) (length xs) ≡ some x
get_elem?-last [] x = refl
get_elem?-last (y ∷ xs) x = get_elem?-last xs x

-- The memory with a game of the two players more.
abbrev pub registered : State → ℕ → ℕ → State
registered s a b = record s {
  game_heap =
      s.game_heap
      ++ record (game (s.unset (length s.game_heap)) s.max_game_id) { p1 = some a; p2 = some b }
        ∷ [];
  games = s.games ++ length s.game_heap ∷ [];
  max_game_id = (s.max_game_id + 1) % 2 ^ 32;
}
