-- ===== src/Server/Memory.antt =====
-- The memory is well formed: every address that is stored anywhere is that of an object, every game
-- has two players, one on turn or none, and a whole board, the games' ids are their addresses, modulo
-- 2 ^ 32, and the commands that wait have items of the right types. `Safe` is the end of a run that
-- keeps this, takes no packet from the sender, follows no address that holds no object, and stops at
-- no fault that these rule out.
pub mod Rules
pub mod Lists
pub mod Managers
pub mod Players
use package.ups_server.Base.{
  ◌%◌, ◌^◌, ◌++◌, ◌⊎◌, Tolerated, ℕ, zero, suc, ◌≤◌, ◌<◌, ◌≡◌, List, [], ◌∷◌, Option, none, some,
  Fault, All, length,
}
use package.ups_server.Game.Board.{Game}
use package.ups_server.Game.Player.{Player}
use package.ups_server.Server.State.{State, Packet, Run, done, crash, dangling, M}
use package.ups_server.Wire.Message.{Message}
use package.ups_server.Wire.Codes.{head_to_format, internal_pl_lost}
use package.ups_server.Wire.Deserialize.Shape.{HasTypes}

-- A pointer is null, or to one of `n` objects.
abbrev pub Ptr : ℕ → Option ℕ → Type 0
Ptr n none = Unit {0}
Ptr n (some a) = a < n

-- A pointer to one of `n` objects.
abbrev pub Object : ℕ → Option ℕ → Type 0
Object n none = ⊥
Object n (some a) = a < n

pub record PlayerOk (n : ℕ) (p : Player) : Type 0 where
  pub joining : Ptr n p.joining_player
  pub asked : Ptr n p.asked_for_joining_by

pub record GameOk (n : ℕ) (g : Game) : Type 0 where
  pub first : Object n g.p1
  pub second : Object n g.p2
  pub turn : Ptr n g.player_on_turn
  pub board : length g.field ≡ 64

abbrev pub IdsFrom : ℕ → List Game → Type 0
IdsFrom k [] = Unit {0}
IdsFrom k (g ∷ games) = (g.id ≡ k % 2 ^ 32) × IdsFrom (suc k) games

abbrev pub Below : ℕ → ℕ → Type 0
Below n a = a < n

-- A message of the table's format for its code, with items of the right types.
abbrev Known : Message → Type 0
Known m = (head_to_format m.header ≡ some m.msg_format) × HasTypes m.msg_format m.payload

-- A command came from the network, or it tells of a lost player.
abbrev pub MessageOk : ℕ → Message → Type 0
MessageOk n m = Ptr n m.player × (Known m ⊎ (m.header ≡ internal_pl_lost))

-- With `n` players and `k` games created so far.
pub record Valid (n k : ℕ) (s : State) : Type 0 where
  pub heap_size : length s.heap ≡ n
  pub links : All (PlayerOk n) s.heap
  pub game_size : length s.game_heap ≡ k
  pub boards : All (GameOk n) s.game_heap
  pub ids : IdsFrom 0 s.game_heap
  pub next_id : s.max_game_id ≡ k % 2 ^ 32
  pub listed : All (Below n) s.players
  pub running : All (Below k) s.games
  pub waiting : All (MessageOk n) s.command_queue

-- The memory is well formed, whatever its size.
abbrev pub WellFormed : State → Type 0
WellFormed s = Valid (length s.heap) (length s.game_heap) s

-- Packets were queued for the sender, behind those that waited, and none was taken.
abbrev pub Later : State → State → Type 0
Later s t = (more : List Packet) × (t.p_queue ≡ s.p_queue ++ more)

-- The end of a run from `s`; `Q` is what the result is, where the run ends with `k` games.
pub data Safe {A : Type 0} (n k : ℕ) (s : State) (Q : ℕ → A → Type 0) : Run A → Type 0 where
  safe :
      {k' : ℕ} {a : A} {t : State}
      → k ≤ k'
      → Valid n k' t
      → Later s t
      → Q k' a
      → Safe n k s Q (done a t)
  crashes : {e : Fault} → Tolerated e → Safe n k s Q (crash e)

-- From a well formed memory the command runs safely.
abbrev pub Keeps : {A : Type 0} → ℕ → ℕ → (ℕ → A → Type 0) → M A → Type 0
Keeps n k Q m = (s : State) → Valid n k s → Safe n k s Q (m s)

-- Nothing is said of the result.
abbrev pub Any : {A : Type 0} → ℕ → A → Type 0
Any k a = Unit {0}

-- A result that is a pointer to a player, or to a game.
abbrev pub PlayerPtr : ℕ → ℕ → Option ℕ → Type 0
PlayerPtr n k p = Ptr n p

abbrev pub GamePtr : ℕ → Option ℕ → Type 0
GamePtr k g = Ptr k g
