-- ===== src/Server/State.antt =====
-- The memory that the threads of the server share, and commands over it that can go wrong.
-- A `Player *` or `Game *` is an address, that is a position in `heap` or `game_heap`: the server
-- creates players and games with `new` and deletes none. `none` is the null pointer.
use ups_server.Base.{
  ℕ, suc, Bytes, Bool, List, [], ◌∷◌, Option, none, some, Result, Fault, ok, fault, null_pointer,
  bad_erase, get_elem?, set, true, false, zero,
}
use ups_server.Game.Board.{Game}
use ups_server.Game.Player.{Player}
use ups_server.Queue.{Queue, push}
use ups_server.Wire.Codes.{head_to_format}
use ups_server.Wire.Message.{Item, Message, message, add_data}
use ups_server.Wire.Serialize.{serialize}

-- UPSServer/network/packet.h; `size` is kept beside the bytes.
pub record Packet : Type 0 where
  pub socket : ℕ
  pub size : ℕ
  pub bytes : Bytes

-- `Server::players`, `GameManager::games` and `maxGameId`, the queues of the three managers, the
-- set `clientSocks` but for the listening socket, and the descriptors that were closed, latest first.
-- `unset` is what the memory of the game at an address holds before the game is made.
pub record State : Type 0 where
  pub heap : List Player
  pub players : List ℕ
  pub game_heap : List Game
  pub games : List ℕ
  pub max_game_id : ℕ
  pub command_queue : Queue Message
  pub packet_queue : Queue Packet
  pub p_queue : Queue Packet
  pub client_socks : List ℕ
  pub closed : List ℕ
  pub unset : ℕ → Option ℕ

-- The end of a run: a result and the memory then, a fault of the code, or an access through an
-- address that holds no object.
pub data Run (A : Type 0) : Type 0 where
  done : A → State → Run A
  crash : Fault → Run A
  dangling : Run A

abbrev pub M : Type 0 → Type 0
M A = State → Run A

abbrev pub pure : {A : Type 0} → A → M A
pure a s = done a s

abbrev pub and_then : {A B : Type 0} → Run A → (A → M B) → Run B
and_then (done a s) f = f a s
and_then (crash e) f = crash e
and_then dangling f = dangling

infixl 5 ◌>>=◌ ◌>>◌
abbrev pub ◌>>=◌ : {A B : Type 0} → M A → (A → M B) → M B
◌>>=◌ m f s = and_then (m s) f

abbrev pub ◌>>◌ : {B : Type 0} → M (Unit {0}) → M B → M B
m >> k = m >>= λ _. k

abbrev pub lift : {A : Type 0} → Result A → M A
lift (ok a) s = done a s
lift (fault e) s = crash e

unfoldable pub get : M State
get s = done s s

unfoldable pub update : (State → State) → M (Unit {0})
update f s = done tt (f s)

-- `p->…` where it is read.
unfoldable pub load : Option ℕ → M Player
load none s = crash null_pointer
load (some a) s = elim (get_elem? s.heap a) [ none ↦ dangling | some x ↦ done x s ]

-- `p->… = …`, one or several fields.
unfoldable pub modify : Option ℕ → (Player → Player) → M (Unit {0})
modify none f s = crash null_pointer
modify (some a) f s = elim (get_elem? s.heap a) [
  | none ↦ dangling
  | some x ↦ done tt (record s { heap = set s.heap a (f x) })
]

unfoldable pub load_game : Option ℕ → M Game
load_game none s = crash null_pointer
load_game (some a) s = elim (get_elem? s.game_heap a) [ none ↦ dangling | some x ↦ done x s ]

unfoldable pub modify_game : Option ℕ → (Game → Game) → M (Unit {0})
modify_game none f s = crash null_pointer
modify_game (some a) f s = elim (get_elem? s.game_heap a) [
  | none ↦ dangling
  | some x ↦ done tt (record s { game_heap = set s.game_heap a (f x) })
]

-- `(*headToFormatMap)[header]`.
abbrev pub format_of : ℕ → Bytes
format_of header = elim (head_to_format header) [ none ↦ [] | some format ↦ format ]

abbrev pub add_all : Message → List Item → Message
add_all m [] = m
add_all m (x ∷ items) = add_all (add_data m x) items

-- A message made by `new`, `addData` for each item, and the setting of `player`.
abbrev pub message_to : Option ℕ → ℕ → List Item → Message
message_to p header items = record (add_all (message header (format_of header)) items) {
  player = p;
}

-- `Sender::registerMessage` of UPSServer/network/Sender.cpp, with `registerPacket`: the socket is
-- the one that the player has now.
unfoldable pub register_message : Message → M (Unit {0})
unfolding load
register_message m = do
  (bytes, size) ← lift (serialize m)
  player ← load m.player
  update (λ s. record s {
    p_queue = push s.p_queue (record { socket = player.socket; size = size; bytes = bytes });
  })

-- `CommandManager::registerCommand` of UPSServer/network/CommandManager.cpp.
unfoldable pub register_command : Message → M (Unit {0})
register_command m = update (λ s. record s { command_queue = push s.command_queue m })

-- A loop with `break` over a vector of pointers that keeps the index of the element it is at: one
-- more than the index when it ends, so 0 if the vector is empty.
unfoldable pub position : (ℕ → M Bool) → List ℕ → ℕ → M ℕ
position test [] k = pure k
position test (x ∷ xs) k = do
  hit ← test x
  elim hit [ true ↦ pure (suc k) | false ↦ position test xs (suc k) ]

unfoldable pub remove_at : List ℕ → ℕ → List ℕ
remove_at [] i = []
remove_at (x ∷ xs) zero = xs
remove_at (x ∷ xs) (suc i) = x ∷ remove_at xs i

-- `xs.erase(xs.begin() + index)`, where `k` is one more than the index.
unfoldable pub erase_at : List ℕ → ℕ → M (List ℕ)
unfolding remove_at
erase_at xs zero = lift (fault bad_erase)
erase_at xs (suc i) = elim (get_elem? xs i) [
  | none ↦ lift (fault bad_erase)
  | some _ ↦ pure (remove_at xs i)
]
