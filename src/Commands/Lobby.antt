-- ===== src/Commands/Lobby.antt =====
-- The commands of players who are not in a game: registration, the list of players, requests to
-- join and the answers to them, of UPSServer/network/CommandManager.cpp.
pub mod Names
pub mod Registration
pub mod Requests
pub mod Listing
pub mod Joining
pub mod Starting
pub mod Answering
pub mod Declining
use package.ups_server.Base.{
  ℕ, ◌+◌, Bool, true, false, not, ◌&&◌, Bytes, codes, List, [], ◌∷◌, ◌++◌, Option, none, some, ltb,
  ◌=s=◌, if◌then◌else◌,
}
use package.ups_server.Game.Player.{Player, set_name}
use package.ups_server.Server.Games.{register_game}
use package.ups_server.Server.Players.{get_player_by_name}
use package.ups_server.Server.State.{
  M, pure, ◌>>=◌, ◌>>◌, lift, get, load, modify, modify_game, message_to, register_message,
}
use package.ups_server.Wire.Codes.{
  h_s_ack, h_s_nack, h_s_nack_reas, h_s_pl_list_ans, h_s_join_player, h_s_game_start,
}
use package.ups_server.Wire.Message.{Item, word, text, Message}
use package.ups_server.Wire.Serialize.{at, as_text}

-- `*((std::string *) mess->getPayload()->at(k))`.
unfoldable pub text_at : Message → ℕ → M Bytes
unfolding at as_text
text_at m k = lift (at m.payload k) >>= λ item. lift (as_text item)

-- A message of the given code to a player, handed to the sender.
unfoldable pub tell : Option ℕ → ℕ → List Item → M (Unit {0})
tell p header items = register_message (message_to p header items)

abbrev pub set_availible : Bool → Player → Player
set_availible b p = record p { availible = b }

abbrev pub set_in_game : Bool → Player → Player
set_in_game b p = record p { in_game = b }

-- The loop of `isUsernameAvailible`.
unfoldable pub name_loop : Bytes → List ℕ → M Bool
name_loop username [] = pure true
name_loop username (a ∷ players) = do
  p ← load (some a)
  elim (p.name =s= username) [ true ↦ pure false | false ↦ name_loop username players ]

unfoldable pub is_username_availible : Bytes → M Bool
is_username_availible username = do s ← get; name_loop username s.players

unfoldable pub proceed_new_player_connection : Message → M (Unit {0})
proceed_new_player_connection mess = do
  username ← text_at mess 0
  free ← is_username_availible username
  elim free [
    | true ↦ do
      modify mess.player (λ p. set_name p username)
      modify mess.player (set_availible true)
      tell mess.player h_s_ack []
    | false ↦ tell mess.player h_s_nack_reas (text (codes "Username already in use!") ∷ [])
  ]

-- Whether the list shows a player: the last part reads the name of the player who asked.
unfoldable pub is_listed : Option ℕ → Player → M Bool
is_listed asker p = elim (not p.in_game && (p.availible && (p.socket_set && p.name_set))) [
  | true ↦ load asker >>= λ q. pure (not (p.name =s= q.name))
  | false ↦ pure false
]

abbrev pub join_name : ℕ → Bytes → Bytes → Bytes
join_name count result name = if ltb 0 count then result ++ (b';' ∷ name) else result ++ name

unfoldable pub list_loop : Option ℕ → List ℕ → ℕ → Bytes → M (ℕ × Bytes)
unfolding is_listed
list_loop asker [] count result = pure (count, result)
list_loop asker (a ∷ players) count result = do
  p ← load (some a)
  shown ← is_listed asker p
  elim shown [
    | true ↦ list_loop asker players (count + 1) (join_name count result p.name)
    | false ↦ list_loop asker players count result
  ]

unfoldable pub proceed_player_list_request : Message → M (Unit {0})
proceed_player_list_request mess = do
  s ← get
  (count, result) ← list_loop mess.player s.players 0 []
  tell mess.player h_s_pl_list_ans (word count ∷ text result ∷ [])

abbrev pub is_joinable : Player → Bool
is_joinable p = p.availible && (p.socket_set && not p.in_game)

-- The request to a player who is there and free.
unfoldable pub request_join : Option ℕ → Option ℕ → M (Unit {0})
request_join requesting oponent = do
  tell requesting h_s_ack []
  modify requesting (set_availible false)
  modify requesting (λ p. record p { joining_player = oponent })
  p ← load requesting
  tell oponent h_s_join_player (text p.name ∷ [])
  modify oponent (λ p. record p { asked_for_joining_by = requesting })
  modify requesting (set_availible false)
  modify oponent (set_availible false)

unfoldable pub proceed_player_joining : Message → M (Unit {0})
proceed_player_joining mess = do
  name ← text_at mess 0
  oponent ← get_player_by_name name
  elim oponent [
    | none ↦ tell mess.player h_s_nack []
    | some a ↦ load (some a) >>= λ p. elim (is_joinable p) [
      | true ↦ request_join mess.player (some a)
      | false ↦ tell mess.player h_s_nack []
    ]
  ]

-- The game of two players who agreed; the one who asked begins.
-- The two are put in a game.
unfoldable pub open_game : Option ℕ → Option ℕ → M (Unit {0})
open_game asking asked = do
  game ← register_game asking asked
  modify asking (set_in_game true)
  modify asked (set_in_game true)
  modify_game (some game) (λ g. record g { player_on_turn = asking })

unfoldable pub start_game : Option ℕ → Option ℕ → M (Unit {0})
start_game asking asked = do
  open_game asking asked
  p ← load asking
  q ← load asked
  tell asking h_s_game_start (text p.name ∷ text q.name ∷ [])
  tell asked h_s_game_start (text p.name ∷ text p.name ∷ [])

unfoldable pub proceed_accept_join : Message → M (Unit {0})
proceed_accept_join mess = do
  asked ← load mess.player
  let asking = asked.asked_for_joining_by
  modify mess.player (λ p. record p { asked_for_joining_by = none })
  modify mess.player (λ p. record p { joining_player = none })
  modify asking (set_availible false)
  modify mess.player (set_availible false)
  p ← load asking
  elim p.joining_player [
    | some _ ↦ start_game asking mess.player
    | none ↦ load mess.player >>= λ q. elim q.socket_set [
      | true ↦ tell mess.player h_s_nack_reas (text (codes "Player who asked is gone") ∷ [])
      | false ↦ pure tt
    ]
  ]

unfoldable pub proceed_decline_join : Message → M (Unit {0})
proceed_decline_join mess = do
  asked ← load mess.player
  let asking = asked.asked_for_joining_by
  modify mess.player (λ p. record p { asked_for_joining_by = none })
  modify mess.player (λ p. record p { joining_player = none })
  p ← load asking
  elim p.socket_set [
    | true ↦ tell asking h_s_nack_reas (text (codes "Oponent declined") ∷ [])
    | false ↦ pure tt
  ]
  modify asking (set_availible true)
  modify mess.player (set_availible true)
