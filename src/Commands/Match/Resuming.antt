-- ===== src/Commands/Match/Resuming.antt =====
-- The steps of a player's return.
use ups_server.Base.{
  ℕ, ◌≡◌, refl, Bool, true, false, Bytes, codes, List, [], ◌∷◌, Option, some, get_elem?,
  get_elem?-set_self, lt_of_get_elem?, set, set-set,
}
use ups_server.Commands.Lobby.{tell, set_availible, set_in_game}
use ups_server.Commands.Match.Seat.{returned, take_seat}
use ups_server.Game.Board.{Game}
use ups_server.Game.Decimal.{get_game_string}
use ups_server.Game.Player.{Player, set_name}
use ups_server.Server.Access.{modify-at}
use ups_server.Server.Games.{get_players_oponent}
use ups_server.Server.Players.{delete_player}
use ups_server.Server.State.{State, M, ◌>>◌, ◌>>=◌, and_then, load, load_game, modify, modify_game}
use ups_server.Wire.Codes.{h_s_game_con}
use ups_server.Wire.Message.{Message, message, text}

-- The game as it stands, told to a player: who is on turn, the opponent, and the board.
abbrev pub game_con : ℕ → Bytes → Bytes → List ℕ → Message
game_con c on_turn oponent field = record (message h_s_game_con (codes "sss")) {
  payload = text on_turn ∷ text oponent ∷ text (get_game_string field) ∷ [];
  player = some c;
}

-- The three settings of the new player.
pub rename :
    (s : State) (a : ℕ) (p q : Player) (rest : M (Unit {0}))
    → get_elem? s.heap a ≡ some p
    → (do
      modify (some a) (λ p. set_name p q.name)
      modify (some a) (set_availible false)
      modify (some a) (set_in_game true)
      rest)
        s
      ≡ rest (record s { heap = set s.heap a (returned p q) })
rename s a p q rest here =
    let p1 : Player = set_name p q.name in
    let p2 : Player = set_availible false p1 in
    let lt = lt_of_get_elem? s.heap a p here in
    rw
      (
        modify-at s a p (λ p. set_name p q.name) here,
        and_then,
        modify-at (record s { heap = set s.heap a p1 }) a p1 (set_availible false)
            (get_elem?-set_self s.heap a p1 lt),
        and_then,
        set-set s.heap a p1 p2,
        modify-at (record s { heap = set s.heap a p2 }) a p2 (set_in_game true)
            (get_elem?-set_self s.heap a p2 lt),
        and_then,
        set-set s.heap a p2 (returned p q),
      )
      refl

-- What follows once the seat is taken, and the part of it after the lookups.
abbrev pub inform : ℕ → ℕ → Option ℕ → List ℕ → Option ℕ → M (Unit {0})
inform a b on_turn field oponent = do
  turn ← load on_turn
  other ← load oponent
  self ← load (some a)
  tell (some a) h_s_game_con (text turn.name ∷ text other.name ∷ text (get_game_string field) ∷ [])
  tell oponent h_s_game_con (text turn.name ∷ text self.name ∷ text (get_game_string field) ∷ [])
  delete_player (some b)

abbrev pub told : ℕ → ℕ → ℕ → M (Unit {0})
told a b g = do
  oponent ← get_players_oponent (some a)
  now ← load_game (some g)
  inform a b now.player_on_turn now.field oponent

pub taking :
    (s : State) (a g : ℕ) (x : Game) (first : Bool) (rest : M (Unit {0}))
    → get_elem? s.game_heap g ≡ some x
    → ((elim first as (λ _. M (Unit {0})) [
      | true ↦ modify_game (some g) (λ g. record g { p1 = some a })
      | false ↦ modify_game (some g) (λ g. record g { p2 = some a })
    ])
          >> rest)
        s
      ≡ rest (record s { game_heap = set s.game_heap g (take_seat first a x) })
unfolding modify_game
taking s a g x true rest e = rw (modify_game, e) refl
taking s a g x false rest e = rw (modify_game, e) refl
