-- ===== src/Server/Access.antt =====
-- Reads and writes through a pointer that leads to an object.
use ups_server.Base.{ℕ, ◌≡◌, refl, some, get_elem?, set, ◌=s=◌}
use ups_server.Game.Board.{Game}
use ups_server.Game.Player.{Player}
use ups_server.Server.Games.{same_name}
use ups_server.Server.State.{State, done, load, modify, load_game, and_then}

pub load-at :
    (s : State) (a : ℕ) (x : Player) → get_elem? s.heap a ≡ some x → load (some a) s ≡ done x s
unfolding load
load-at s a x e = rw (load, e) refl

pub modify-at :
    (s : State) (a : ℕ) (x : Player) (f : Player → Player)
    → get_elem? s.heap a ≡ some x
    → modify (some a) f s ≡ done tt (record s { heap = set s.heap a (f x) })
unfolding modify
modify-at s a x f e = rw (modify, e) refl

pub load_game-at :
    (s : State) (g : ℕ) (x : Game)
    → get_elem? s.game_heap g ≡ some x
    → load_game (some g) s ≡ done x s
unfolding load_game
load_game-at s g x e = rw (load_game, e) refl

pub same_name-at :
    (s : State) (a b : ℕ) (p q : Player)
    → get_elem? s.heap a ≡ some p
    → get_elem? s.heap b ≡ some q
    → same_name (some a) (some b) s ≡ done (p.name =s= q.name) s
unfolding same_name load
same_name-at s a b p q e e' = rw (same_name, load, e, and_then, e') refl
