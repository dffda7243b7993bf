-- ===== src/Commands/Match.antt =====
-- The commands around a running game: moves, leaving, lost and returning players, of
-- UPSServer/network/CommandManager.cpp.
pub mod Moves
pub mod Freeing
pub mod Turns
pub mod Losing
pub mod BothLost
pub mod Seat
pub mod Resuming
pub mod Returning
pub mod Reconnection
pub mod Winning
pub mod Ending
pub mod Leaving
use package.ups_server.Base.{ℕ, true, false, List, [], ◌∷◌, Option, none, some}
use package.ups_server.Game.Board.{put}
use package.ups_server.Game.Control.{Fallen, is_game_won}
use package.ups_server.Game.Decimal.{get_game_string}
use package.ups_server.Game.Player.{set_name}
use package.ups_server.Server.Games.{
  same_name, get_game_by_player, get_players_oponent, oponent_in, delete_game,
}
use package.ups_server.Server.Players.{
  get_player_by_name, delete_player, proceed_player_disconnection,
}
use package.ups_server.Server.State.{M, ◌>>=◌, ◌>>◌, lift, load, modify, load_game, modify_game}
use package.ups_server.Commands.Lobby.{text_at, tell, set_availible, set_in_game}
use package.ups_server.Wire.Codes.{
  h_s_nack, h_s_game_con, h_s_game_move, h_s_game_won, h_s_game_ended, h_s_pl_loss,
}
use package.ups_server.Wire.Message.{Item, word, text, Message}
use package.ups_server.Wire.Serialize.{at, as_word}

-- The player who comes back takes the place of the lost one of that name in the game.
unfoldable pub reconnect : Option ℕ → Option ℕ → M (Unit {0})
unfolding same_name
reconnect new_p old_p = do
  old ← load old_p
  modify new_p (λ p. set_name p old.name)
  modify new_p (set_availible false)
  modify new_p (set_in_game true)
  game ← get_game_by_player old_p
  g ← load_game game
  first ← same_name g.p1 new_p
  elim first [
    | true ↦ modify_game game (λ g. record g { p1 = new_p })
    | false ↦ modify_game game (λ g. record g { p2 = new_p })
  ]
  oponent ← get_players_oponent new_p
  now ← load_game game
  turn ← load now.player_on_turn
  other ← load oponent
  self ← load new_p
  tell new_p h_s_game_con (text turn.name ∷ text other.name ∷ text (get_game_string now.field) ∷ [])
  tell oponent h_s_game_con
      (text turn.name ∷ text self.name ∷ text (get_game_string now.field) ∷ [])
  delete_player old_p

unfoldable pub proceed_player_reconnection : Message → M (Unit {0})
proceed_player_reconnection mess = do
  name ← text_at mess 0
  old_p ← get_player_by_name name
  elim old_p [
    | none ↦ tell mess.player h_s_nack []
    | some a ↦ load (some a) >>= λ p. elim p.lost [
      | true ↦ reconnect mess.player (some a)
      | false ↦ tell mess.player h_s_nack []
    ]
  ]

unfoldable pub word_at : Message → ℕ → M ℕ
unfolding at as_word
word_at m k = lift (at m.payload k) >>= λ item. lift (as_word item)

-- `game->field[moveI][moveJ] = cardType`.
unfoldable pub place_card : Option ℕ → ℕ → ℕ → ℕ → M (Unit {0})
unfolding put
place_card game card i j = do
  g ← load_game game
  field ← lift (put g.field (i, j) card)
  modify_game game (λ g. record g { field = field })

-- Both players hear of the winning move, are free again, and the game is deleted.
unfoldable pub win_game : Option ℕ → Option ℕ → Option ℕ → List Item → M (Unit {0})
win_game game turn_player oponent move = do
  p ← load turn_player
  tell turn_player h_s_game_won (text p.name ∷ move)
  tell oponent h_s_game_won (text p.name ∷ move)
  modify turn_player (set_in_game false)
  modify oponent (set_in_game false)
  modify turn_player (set_availible true)
  modify oponent (set_availible true)
  delete_game game

unfoldable pub process_game_move : Fallen → Message → M (Unit {0})
process_game_move fallen mess = do
  game ← get_game_by_player mess.player
  g ← load_game game
  oponent ← oponent_in g mess.player
  card ← word_at mess 0
  i ← word_at mess 1
  j ← word_at mess 2
  let move = word card ∷ word i ∷ word j ∷ []
  place_card game card i j
  placed ← load_game game
  won ← lift (is_game_won fallen placed (i, j))
  elim won [
    | true ↦ win_game game mess.player oponent move
    | false ↦ do
      modify_game game (λ g. record g { player_on_turn = oponent })
      tell oponent h_s_game_move move
  ]

unfoldable pub proceed_game_ending : Message → M (Unit {0})
proceed_game_ending mess = do
  game ← get_game_by_player mess.player
  g ← load_game game
  oponent ← oponent_in g mess.player
  other ← load oponent
  elim other.lost [
    | true ↦ do
      delete_player oponent
      modify mess.player (set_availible true)
      modify mess.player (set_in_game false)
    | false ↦ do
      modify mess.player (set_in_game false)
      modify oponent (set_in_game false)
      modify mess.player (set_availible true)
      modify oponent (set_availible true)
      tell oponent h_s_game_ended []
  ]
  delete_game game

unfoldable pub proceed_player_logout : Message → M (Unit {0})
proceed_player_logout mess = do
  p ← load mess.player
  elim p.in_game [ true ↦ proceed_game_ending mess | false ↦ proceed_player_disconnection p.socket ]

unfoldable pub proceed_player_lost : Message → M (Unit {0})
proceed_player_lost mess = do
  game ← get_game_by_player mess.player
  g ← load_game game
  oponent ← oponent_in g mess.player
  modify mess.player (λ p. record p { lost = true })
  other ← load oponent
  elim other.lost [
    | true ↦ do
      delete_game game
      modify oponent (set_in_game false)
      modify mess.player (set_in_game false)
      delete_player oponent
      delete_player mess.player
    | false ↦ tell oponent h_s_pl_loss []
  ]
