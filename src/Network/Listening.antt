-- ===== src/Network/Listening.antt =====
-- `Server::init` of UPSServer/network/Server.cpp. A failure of the first `setsockopt` is logged and
-- has no other effect.
use ups_server.Base.{ℕ, ◌%◌, ◌^◌, [], ◌∷◌, ◌==◌, if◌then◌else◌}
use ups_server.Network.Calls.{so_reuseaddr, setsockopt, bind, listen, htons, Setup, returns, exits}

-- `queueSize`
abbrev queue_size : ℕ
queue_size = 10

-- `socket` is what the call of that name gave, and `bound` what `bind` returned; the argument is a
-- `uint16_t`. The function leaves the socket in `serverSocket`.
unfoldable pub init : (socket bound port : ℕ) → Setup
init socket bound port =
    let listening_port = port % 2 ^ 16 in
    let calls = setsockopt socket so_reuseaddr 1 ∷ bind socket (htons listening_port) ∷ [] in
    if bound == 0
    then returns socket (
        setsockopt socket so_reuseaddr 1
        ∷ bind socket (htons listening_port)
        ∷ listen socket queue_size
        ∷ [])
    else exits calls
