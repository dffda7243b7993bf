-- ===== src/Server/Players.antt =====
-- The vector of players: `getPlayerBySocket`, `getPlayerByName`, `deletePlayer` and
-- `proceedPlayerDisconnection` of UPSServer/network/Server.cpp.
pub mod Lookup
pub mod Deletion
pub mod Parting
pub mod Disconnection
use package.ups_server.Base.{
  ℕ, Bool, true, false, Bytes, List, [], ◌∷◌, Option, none, some, fault, unset_pointer, ◌==◌, ◌=s=◌,
  ◌&&◌, if◌then◌else◌,
}
use package.ups_server.Game.Player.{Player, remove_socket}
use package.ups_server.Server.Games.{same_name}
use package.ups_server.Server.State.{
  State, M, pure, ◌>>=◌, ◌>>◌, lift, get, update, load, modify, register_command, position,
  erase_at,
}
use package.ups_server.Wire.Codes.{internal_pl_lost}
use package.ups_server.Wire.Message.{message}

-- A loop that returns the first player that passes the test.
unfoldable pub first_player : (Player → Bool) → List ℕ → M (Option ℕ)
first_player test [] = pure none
first_player test (a ∷ players) = do
  p ← load (some a)
  elim (test p) [ true ↦ pure (some a) | false ↦ first_player test players ]

abbrev pub has_this_socket : ℕ → Player → Bool
has_this_socket socket p = p.socket_set && (p.socket == socket)

unfoldable pub get_player_by_socket : ℕ → M (Option ℕ)
unfolding first_player
get_player_by_socket socket = do s ← get; first_player (has_this_socket socket) s.players

unfoldable pub get_player_by_name : Bytes → M (Option ℕ)
unfolding first_player
get_player_by_name name = do s ← get; first_player (λ p. p.name =s= name) s.players

-- The first player of that name leaves the vector; if there is none, the last player does.
unfoldable pub delete_player : Option ℕ → M (Unit {0})
delete_player p = do
  s ← get
  k ← position (λ a. same_name (some a) p) s.players 0
  rest ← erase_at s.players k
  update (λ s. record s { players = rest })

abbrev pub without : ℕ → List ℕ → List ℕ
without fd [] = []
without fd (x ∷ fds) = if x == fd then without fd fds else x ∷ without fd fds

-- `close(socket)` and `FD_CLR(socket, &clientSocks)`.
abbrev pub close_socket : ℕ → State → State
close_socket socket s = record s {
  closed = socket ∷ s.closed;
  client_socks = without socket s.client_socks;
}

-- `pl` is set where the loop finds the socket, and read in any case.
unfoldable pub proceed_player_disconnection : ℕ → M (Unit {0})
unfolding get_player_by_socket
proceed_player_disconnection socket = do
  update (close_socket socket)
  s ← get
  k ← position (λ a. load (some a) >>= λ p. pure (has_this_socket socket p)) s.players 0
  found ← get_player_by_socket socket
  elim found [
    | none ↦ lift (fault unset_pointer)
    | some pl ↦ do
      p ← load (some pl)
      elim p.in_game [
        | false ↦ do
          modify (some pl) (λ p. record (remove_socket p) { joining_player = none })
          rest ← erase_at s.players k
          update (λ s. record s { players = rest })
        | true ↦ do
          modify (some pl) remove_socket
          register_command (record (message internal_pl_lost []) { player = some pl })
      ]
  ]
