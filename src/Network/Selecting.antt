-- ===== src/Network/Selecting.antt =====
-- A round of the loop of `Server::run` of UPSServer/network/Server.cpp.
pub mod Served
use package.ups_server.Base.{
  ℕ, zero, suc, ◌+◌, Bool, Bytes, fault, exit_called, ◌==◌, leb, if◌then◌else◌,
}
use package.ups_server.Commands.Dispatch.{accept_client, serve_client}
use package.ups_server.Network.Calls.{SocketOption, is_negative, Setup, returns, exits}
use package.ups_server.Network.Accepting.{accept_new_connection}
use package.ups_server.Server.State.{M, pure, ◌>>=◌, ◌>>◌, lift}

-- What the system gives in a round: which descriptors of `readSocks` are ready, the bytes that wait
-- at each, the connection that `accept` gives, with what `setsockopt` returns for it, and what the
-- new player's memory held.
pub record Ready : Type 0 where
  pub server_socket : ℕ
  pub is_set : ℕ → Bool
  pub waiting : ℕ → Bytes
  pub accepted : ℕ
  pub option_results : SocketOption → ℕ
  pub held : Bool

-- The part for the listening socket.
unfoldable pub new_connection : Ready → M (Unit {0})
unfolding accept_new_connection
new_connection r = elim (accept_new_connection r.option_results r.accepted) [
  | returns client_socket calls ↦ accept_client r.held client_socket
  | exits calls ↦ lift (fault exit_called)
]

-- The body of the loop over the descriptors.
unfoldable pub serve_descriptor : Ready → ℕ → M (Unit {0})
unfolding new_connection
serve_descriptor r fd =
    if r.is_set fd
    then (if fd == r.server_socket then new_connection r else serve_client fd (r.waiting fd))
    else pure tt

-- The loop, with so many descriptors left, from this one on.
unfoldable pub serve_loop : Ready → ℕ → ℕ → M (Unit {0})
unfolding serve_descriptor
serve_loop r zero fd = pure tt
serve_loop r (suc n) fd = serve_descriptor r fd >> serve_loop r n (fd + 1)

-- A round, where `select` returned this; the descriptors are those from 3 to 1023.
unfoldable pub select_round : ℕ → Ready → M (Unit {0})
unfolding serve_loop
select_round return_value r =
    if is_negative return_value then lift (fault exit_called) else serve_loop r 1021 3
