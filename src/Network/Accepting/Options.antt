-- ===== src/Network/Accepting/Options.antt =====
-- The options of a new connection.
use ups_server.Base.{ℕ, ◌≡◌, List, [], ◌∷◌, ◌++◌, Bool, true, false, if◌then◌else◌, arith}
use ups_server.Network.Accepting.{accept_new_connection}
use ups_server.Network.Calls.{
  Call, SocketOption, so_keepalive, tcp_keepidle, tcp_keepcnt, tcp_keepintvl, setsockopt, close,
  is_negative, returns, exits,
}

-- The options with their values, in the order in which they are set.
abbrev pub keepalive : List (SocketOption × ℕ)
keepalive = (so_keepalive, 1) ∷ (tcp_keepidle, 3) ∷ (tcp_keepcnt, 2) ∷ (tcp_keepintvl, 2) ∷ []

-- The calls for these options, up to the first that fails, and whether all succeed.
pub attempts : (SocketOption → ℕ) → ℕ → List (SocketOption × ℕ) → List Call × Bool
attempts results socket [] = ([], true)
attempts results socket ((option, value) ∷ options) =
    let rest = attempts results socket options in
    let call = setsockopt socket option value in
    if is_negative (results option) then (call ∷ [], false) else (call ∷ rest.0, rest.1)

-- A new connection gets its options in their order until one fails; if none fails, it is returned,
-- else it is closed and the program ends.
pub accept_new_connection-attempts :
    (results : SocketOption → ℕ) (socket : ℕ)
    → accept_new_connection results socket ≡ (
        let (calls, succeeded) = attempts results socket keepalive in
        if succeeded then returns socket calls else exits (calls ++ close socket ∷ []))
unfolding accept_new_connection attempts
accept_new_connection-attempts results socket = ground arith
