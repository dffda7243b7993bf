-- ===== src/Commands/Lobby/Starting.antt =====
-- What the start of a game does.
use ups_server.Base.{
  ◌%◌, ◌^◌, ℕ, ◌+◌, ◌≡◌, ◌≢◌, refl, sym, ap, ◌∙◌, true, Bytes, codes, List, [], ◌∷◌, ◌++◌, some,
  get_elem?, get_elem?-set_self, get_elem?-set_ne, lt_of_get_elem?, set, replicate, length,
}
use ups_server.Commands.Dispatch.Packets.{register_message-frame}
use ups_server.Commands.Lobby.{tell, set_in_game, open_game, start_game}
use ups_server.Commands.Lobby.Registration.{packet_to}
use ups_server.Server.Access.{load-at, modify-at}
use ups_server.Game.Board.{Game, game}
use ups_server.Game.Player.{Player}
use ups_server.Server.Games.{register_game}
use ups_server.Server.Games.Finding.{get_elem?-last, registered}
use ups_server.Server.State.{State, done, modify_game, and_then, get, update}
use ups_server.Wire.Codes.{h_s_game_start, head_to_format, find_format}
use ups_server.Wire.Format.{Fits}
use ups_server.Wire.Message.{Message, message, text}

-- The start of a game, told to a player with the name of the player on turn and a second name.
abbrev pub game_start : ℕ → Bytes → Bytes → Message
game_start a on_turn other = record (message h_s_game_start (codes "ss")) {
  payload = text on_turn ∷ text other ∷ [];
  player = some a;
}

set-last {ℓ} :
    {A : Type ℓ} (xs : List A) (x y : A) → set (xs ++ x ∷ []) (length xs) y ≡ xs ++ y ∷ []
set-last [] x y = refl
set-last (z ∷ xs) x y = ap (λ zs. z ∷ zs) (set-last xs x y)

-- The game that starts: its board is empty, and the player who asked is on turn.
abbrev pub new_game : State → ℕ → ℕ → Game
new_game s a b = record {
  id = s.max_game_id;
  field = replicate 64 0;
  p1 = some a;
  p2 = some b;
  player_on_turn = some a;
}

module _ (s : State) (a b : ℕ) (p q : Player) (here : get_elem? s.heap a ≡ some p)
    (there : get_elem? (set s.heap a (set_in_game true p)) b ≡ some q) where
  turn_set :
      (heap : List Player)
      → modify_game
          (some (length s.game_heap))
          (λ g. record g { player_on_turn = some a })
          (record (registered s a b) { heap = heap })
        ≡ done tt (record (registered s a b) {
          heap = heap;
          game_heap = s.game_heap ++ new_game s a b ∷ [];
        })
  unfolding modify_game
  turn_set heap =
      let first : Game = record (game (s.unset (length s.game_heap)) s.max_game_id) {
        p1 = some a;
        p2 = some b;
      } in
      rw
        (get_elem?-last s.game_heap first, modify_game, set-last s.game_heap first (new_game s a b))
        refl

  -- The memory once the two are in a game.
  abbrev opened : State
  opened = record s {
    heap = set (set s.heap a (set_in_game true p)) b (set_in_game true q);
    game_heap = s.game_heap ++ new_game s a b ∷ [];
    games = s.games ++ length s.game_heap ∷ [];
    max_game_id = (s.max_game_id + 1) % 2 ^ 32;
  }

  pub open_game-opens : open_game (some a) (some b) s ≡ done tt opened
  unfolding open_game register_game get update
  open_game-opens =
      let s1 = registered s a b in
      let h1 = set s.heap a (set_in_game true p) in
      rw
        (
          open_game,
          modify-at s1 a p (set_in_game true) here,
          and_then,
          modify-at (record s1 { heap = h1 }) b q (set_in_game true) there,
          and_then,
          turn_set (set h1 b (set_in_game true q)),
        )
        refl

module _ (s : State) (a b : ℕ) (p q : Player) (here : get_elem? s.heap a ≡ some p)
    (there : get_elem? s.heap b ≡ some q) (apart : a ≢ b) where
  pub start_game-starts :
      Fits (game_start a p.name q.name)
      → Fits (game_start b p.name p.name)
      → start_game (some a) (some b) s
        ≡ done tt (record s {
          heap = set (set s.heap a (set_in_game true p)) b (set_in_game true q);
          game_heap = s.game_heap ++ new_game s a b ∷ [];
          games = s.games ++ length s.game_heap ∷ [];
          max_game_id = (s.max_game_id + 1) % 2 ^ 32;
          p_queue =
              (s.p_queue ++ packet_to p.socket (game_start a p.name q.name) ∷ [])
              ++ packet_to q.socket (game_start b p.name p.name) ∷ [];
        })
  unfolding start_game tell head_to_format find_format
  start_game-starts fits fits' =
      let p' : Player = set_in_game true p in
      let q' : Player = set_in_game true q in
      let h1 = set s.heap a p' in
      let h2 = set h1 b q' in
      let at_b = get_elem?-set_ne s.heap a b p' apart ∙ there in
      let at_a2 =
        get_elem?-set_ne h1 b a q' (λ e. apart (sym e))
        ∙ get_elem?-set_self s.heap a p' (lt_of_get_elem? s.heap a p here) in
      let at_b2 = get_elem?-set_self h1 b q' (lt_of_get_elem? h1 b q at_b) in
      let s3 : State = opened s a b p q here at_b in
      let q1 = s.p_queue ++ packet_to p.socket (game_start a p.name q.name) ∷ [] in
      rw
        (
          start_game,
          open_game-opens s a b p q here at_b,
          and_then,
          load-at s3 a p' at_a2,
          and_then,
          load-at s3 b q' at_b2,
          and_then,
          register_message-frame s3 (game_start a p.name q.name) a p' fits refl at_a2,
          and_then,
          register_message-frame (record s3 { p_queue = q1 }) (game_start b p.name p.name) b q'
              fits' refl at_b2,
        )
        refl
