-- ===== src/Server/Memory/Managers.antt =====
-- The operations of UPSServer/game/GameManager.cpp, and the shape of the memory after them.
use mathlib.Core.Path.{subst}
use ups_server.Base.{
  ◌%◌, ◌^◌, ℕ, suc, ◌+◌, ◌≤◌, ◌<◌, ◌≡◌, ◌∙◌, Bool, true, false, List, [], ◌∷◌, ◌++◌, Option, none,
  some, All, All-append, All-mono, arith, length, length-append,
}
use ups_server.Game.Board.{Game}
use ups_server.Server.Games.{
  same_name, plays_in, game_loop, get_game_by_player, oponent_in, get_players_oponent, has_id,
  delete_game,
}
use ups_server.Server.Memory.{
  Ptr, Object, GameOk, IdsFrom, Below, Valid, safe, Keeps, Any, PlayerPtr, GamePtr,
}
use ups_server.Server.Memory.Lists.{bool_Keeps, option_Keeps, position-Keeps, erase_at-Keeps}
use ups_server.Server.Memory.Rules.{
  then_Keeps, weaken_Keeps, pure-Keeps, get-Keeps, load-Keeps, load_game-Keeps, Valid-lists,
  Later-refl,
}
use ups_server.Server.State.{State, update}

pub Ptr-mono : (j k : ℕ) (p : Option ℕ) → j ≤ k → Ptr j p → Ptr k p
Ptr-mono j k none h p = p
Ptr-mono j k (some a) h p = omega arith

pub Ptr-of_Object : (n : ℕ) (p : Option ℕ) → Object n p → Ptr n p
Ptr-of_Object n none h = absurd h
Ptr-of_Object n (some a) h = h

pub Ptr-some : (n : ℕ) (p : Option ℕ) (a : ℕ) → p ≡ some a → Ptr n p → a < n
Ptr-some n p a e h = subst (Ptr n) e h

module _ {n k : ℕ} where
  pub same_name-Keeps : (a b : Option ℕ) → Ptr n a → Ptr n b → Keeps n k Any (same_name a b)
  unfolding same_name
  same_name-Keeps a b ha hb =
      then_Keeps _ _ (load-Keeps a ha)
        λ k1 p _ _. then_Keeps _ _ (load-Keeps b hb) λ k2 q _ _. pure-Keeps _ tt

module _ {n k : ℕ} where
  plays_in-Keeps : (p : Option ℕ) (g : ℕ) → Ptr n p → g < k → Keeps n k Any (plays_in p g)
  unfolding plays_in
  plays_in-Keeps p g hp hg = then_Keeps _ _ (load_game-Keeps (some g) hg) λ k1 x _ (x_ok, _).
      then_Keeps _ _ (same_name-Keeps x.p1 p (Ptr-of_Object n x.p1 x_ok.first) hp) λ k2 first _ _.
        bool_Keeps first _ _ (λ _. pure-Keeps true tt)
          (λ _. same_name-Keeps x.p2 p (Ptr-of_Object n x.p2 x_ok.second) hp)

  pub oponent_in-Keeps :
      (x : Game) (p : Option ℕ)
      → GameOk n x
      → Ptr n p
      → Keeps n k (λ k' o. Object n o) (oponent_in x p)
  unfolding oponent_in
  oponent_in-Keeps x p ok hp =
      then_Keeps _ _ (same_name-Keeps x.p1 p (Ptr-of_Object n x.p1 ok.first) hp)
        λ k1 first _ _. pure-Keeps _ (choose first)
    where
      choose : (b : Bool) → Object n (elim b [ true ↦ x.p2 | false ↦ x.p1 ])
      choose true = ok.second
      choose false = ok.first

choose-Ptr :
    (k : ℕ) (b : Bool) (g : ℕ) (found : Option ℕ)
    → g < k
    → Ptr k found
    → Ptr k (elim b [ true ↦ some g | false ↦ found ])
choose-Ptr k true g found hg hf = hg
choose-Ptr k false g found hg hf = hf

pub Below-mono : (j k : ℕ) (xs : List ℕ) → j ≤ k → All (Below j) xs → All (Below k) xs
Below-mono j k xs h = All-mono _ _ (λ a lt. omega arith) xs

game_loop-Keeps :
    {n : ℕ} (k : ℕ) (p : Option ℕ) (games : List ℕ) (found : Option ℕ)
    → Ptr n p
    → All (Below k) games
    → Ptr k found
    → Keeps n k GamePtr (game_loop p games found)
unfolding game_loop
game_loop-Keeps k p [] found hp hg hf = pure-Keeps found hf
game_loop-Keeps k p (g ∷ games) found hp (hg, hgs) hf =
    then_Keeps _ _ (plays_in-Keeps p g hp hg) λ k1 hit le _.
      game_loop-Keeps k1 p games _ hp (Below-mono k k1 games le hgs)
        (choose-Ptr k1 hit g found (omega arith) (Ptr-mono k k1 found le hf))

module _ {n k : ℕ} where
  pub get_game_by_player-Keeps : (p : Option ℕ) → Ptr n p → Keeps n k GamePtr (get_game_by_player p)
  unfolding get_game_by_player
  get_game_by_player-Keeps p hp =
      then_Keeps _ _ get-Keeps λ k1 s _ v. game_loop-Keeps k1 p s.games none hp v.running tt

module _ {n k : ℕ} where
  pub get_players_oponent-Keeps :
      (p : Option ℕ) → Ptr n p → Keeps n k (PlayerPtr n) (get_players_oponent p)
  unfolding get_players_oponent
  get_players_oponent-Keeps p hp = then_Keeps _ _ (get_game_by_player-Keeps p hp) λ k1 g _ hg.
      option_Keeps g _ _ (λ _. pure-Keeps none tt)
        (λ a e. then_Keeps _ _ (load_game-Keeps (some a) (Ptr-some k1 g a e hg)) λ k2 x _ (ok, _).
          weaken_Keeps (oponent_in x p) (λ k3 o. Ptr-of_Object n o) (oponent_in-Keeps x p ok hp))

  has_id-Keeps : (id g : ℕ) → g < k → Keeps n k Any (has_id id g)
  unfolding has_id
  has_id-Keeps id g hg = then_Keeps _ _ (load_game-Keeps (some g) hg) λ k1 x _ _. pure-Keeps _ tt

IdsFrom-append :
    (j : ℕ) (games : List Game) (g : Game)
    → g.id ≡ (j + length games) % 2 ^ 32
    → IdsFrom j games
    → IdsFrom j (games ++ g ∷ [])
IdsFrom-append j [] g e h = (omega (arith, e), tt)
IdsFrom-append j (x ∷ games) g e h = (h.0, IdsFrom-append (suc j) games g (omega (arith, e)) h.1)

-- A new game whose players are there has the number of games before it for its address and, modulo
-- 2 ^ 32, its id.
pub new_game-Valid :
    (n k : ℕ) (s : State) (g : Game)
    → Valid n k s
    → GameOk n g
    → g.id ≡ s.max_game_id
    → Valid n (suc k) (record s {
      game_heap = s.game_heap ++ g ∷ [];
      games = s.games ++ length s.game_heap ∷ [];
      max_game_id = (s.max_game_id + 1) % 2 ^ 32;
    })
new_game-Valid n k s g v ok same = record {
  heap_size = v.heap_size;
  links = v.links;
  game_size = omega (arith, v.game_size, length-append s.game_heap (g ∷ []));
  boards = All-append (GameOk n) s.game_heap (g ∷ []) v.boards (ok, tt);
  ids = IdsFrom-append 0 s.game_heap g (same ∙ v.next_id ∙ omega (arith, v.game_size)) v.ids;
  next_id = omega (arith, v.next_id);
  listed = v.listed;
  running =
      All-append (Below (suc k)) s.games (length s.game_heap ∷ [])
        (Below-mono k (suc k) s.games (omega arith) v.running) (omega (arith, v.game_size), tt);
  waiting = v.waiting;
}

set_games-Keeps :
    {n k : ℕ} (games : List ℕ)
    → All (Below k) games
    → Keeps n k Any (update λ s. record s { games = games })
unfolding update
set_games-Keeps games h t w =
    safe (omega arith) (Valid-lists w t.players games t.command_queue w.listed h w.waiting)
      (Later-refl t) tt

pub delete_game-Keeps : {n k : ℕ} (g : Option ℕ) → Ptr k g → Keeps n k Any (delete_game g)
unfolding delete_game
delete_game-Keeps {n} g hg = then_Keeps _ _ (load_game-Keeps g hg) λ k1 x _ (ok, _).
    then_Keeps _ _ (load-Keeps x.p1 (Ptr-of_Object n x.p1 ok.first)) λ k2 _ _ _.
      then_Keeps _ _ (load-Keeps x.p2 (Ptr-of_Object n x.p2 ok.second)) λ k3 _ _ _.
        then_Keeps _ _ get-Keeps λ k4 s _ v.
          then_Keeps _ _
            (position-Keeps k4 _ s.games 0
              (All-mono _ _ (λ a lt k' le. has_id-Keeps x.id a (omega arith)) s.games v.running))
            λ k5 i le _.
              then_Keeps _ _ (erase_at-Keeps k5 s.games i (Below-mono k4 k5 s.games le v.running))
                λ k6 rest le' h. set_games-Keeps rest (Below-mono k5 k6 rest le' h)
