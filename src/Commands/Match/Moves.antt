-- ===== src/Commands/Match/Moves.antt =====
-- What a move does to the board.
use ups_server.Base.{◌<◌, ℕ, ◌+◌, ◌*◌, ◌≡◌, refl, some, get_elem?, set, ltb, arith, true}
use ups_server.Commands.Match.{place_card}
use ups_server.Game.Board.{Game, put}
use ups_server.Server.State.{State, done, load_game, modify_game}

pub place_card-inside :
    (s : State) (g card i j : ℕ) (x : Game)
    → get_elem? s.game_heap g ≡ some x
    → i * 8 + j < 64
    → place_card (some g) card i j s
      ≡ done tt (record s {
        game_heap = set s.game_heap g (record x { field = set x.field (i * 8 + j) card });
      })
unfolding place_card put load_game modify_game
place_card-inside s g card i j x e lands =
    let inside : ltb (i * 8 + j) 64 ≡ true = ground (arith, lands) in
    rw (place_card, load_game, e, put, inside, modify_game, e) refl
