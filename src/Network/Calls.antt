-- ===== src/Network/Calls.antt =====
-- The system calls of UPSServer/network/Server.cpp that set up a socket, with what they are given.
use ups_server.Base.{ℕ, Bool, Bytes, List, [], ◌∷◌, ◌/◌, ◌%◌, ◌^◌, leb}

pub data SocketOption : Type 0 where
  so_reuseaddr so_keepalive tcp_keepidle tcp_keepcnt tcp_keepintvl : SocketOption

pub data Call : Type 0 where
  -- socket, option and value
  setsockopt : ℕ → SocketOption → ℕ → Call
  -- socket, and `sin_port` as its bytes lie in the memory; the address is `INADDR_ANY`
  bind : ℕ → Bytes → Call
  -- socket and backlog
  listen : ℕ → ℕ → Call
  close : ℕ → Call

-- `result < 0`
abbrev pub is_negative : ℕ → Bool
is_negative result = leb (2 ^ 31) result

-- `htons`
abbrev pub htons : ℕ → Bytes
htons port = port / 256 ∷ port % 256 ∷ []

-- The end of a function: it returns, or the program ends by `_exit(-1)`; with the calls so far.
pub data Setup : Type 0 where
  returns : ℕ → List Call → Setup
  exits : List Call → Setup
