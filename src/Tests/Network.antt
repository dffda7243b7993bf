-- ===== src/Tests/Network.antt =====
-- Sockets and a round of the `select` loop.
use ups_server.Base.{◌≡◌, true, [], ◌∷◌, ◌++◌, if◌then◌else◌, ◌==◌, ◌||◌}
use ups_server.Network.Accepting.{accept_new_connection}
use ups_server.Network.Accepting.Options.{keepalive, attempts, accept_new_connection-attempts}
use ups_server.Network.Calls.{returns, exits, close}
use ups_server.Network.Selecting.{Ready}

accept_new_connection-attempts_example : accept_new_connection (λ option. 0) 6 ≡ (
    let (calls, succeeded) = attempts (λ option. 0) 6 keepalive in
    if succeeded then returns 6 calls else exits (calls ++ close 6 ∷ []))
accept_new_connection-attempts_example = accept_new_connection-attempts (λ option. 0) 6

-- A third client connects, and the second one has sent a byte.
abbrev busy : Ready
busy = record {
  server_socket = 3;
  is_set = λ fd. fd == 3 || fd == 5;
  waiting = λ fd. 1 ∷ [];
  accepted = 6;
  option_results = λ option. 0;
  held = true;
}
