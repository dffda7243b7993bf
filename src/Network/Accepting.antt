-- ===== src/Network/Accepting.antt =====
-- `Server::acceptNewConnection` of UPSServer/network/Server.cpp.
pub mod Options
use package.ups_server.Base.{ℕ, List, [], ◌∷◌, ◌++◌, if◌then◌else◌, leb}
use package.ups_server.Network.Calls.{
  Call, SocketOption, so_keepalive, tcp_keepidle, tcp_keepcnt, tcp_keepintvl, setsockopt, close,
  is_negative, Setup, returns, exits,
}

module _ (results : SocketOption → ℕ) (client_socket : ℕ) where
  -- One `setsockopt` with its test; where it fails, the connection is closed.
  abbrev set_option : SocketOption → ℕ → List Call → (List Call → Setup) → Setup
  set_option option optval calls next =
      let made = calls ++ setsockopt client_socket option optval ∷ [] in
      if is_negative (results option) then exits (made ++ close client_socket ∷ []) else next made

  -- `results` is what `setsockopt` returns for each option, and `client_socket` what `accept` gave.
  unfoldable pub accept_new_connection : Setup
  accept_new_connection = set_option so_keepalive 1 [] λ calls.
      set_option tcp_keepidle 3 calls λ calls.
        set_option tcp_keepcnt 2 calls
          λ calls. set_option tcp_keepintvl 2 calls λ calls. returns client_socket calls
