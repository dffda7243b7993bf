-- ===== src/Commands/Events.antt =====
-- The threads of the server, as main.cpp of UPSServer starts them: their rounds in any order.
use ups_server.Base.{Option, none, ℕ, Bytes, Bool, [], ◌≡◌}
use ups_server.Commands.Dispatch.{command_step, packet_step, send_step, accept_client, serve_client}
use ups_server.Game.Control.{Fallen}
use ups_server.Server.State.{State, M, done, pure, ◌>>=◌}

-- What the memory is when the threads start, but for what memory that is not in use holds.
abbrev pub start : State
start = record {
  heap = [];
  players = [];
  game_heap = [];
  games = [];
  max_game_id = 0;
  command_queue = [];
  packet_queue = [];
  p_queue = [];
  client_socks = [];
  closed = [];
  unset = λ _. none;
}

-- A round of one of the threads, with what the network gave it.
pub data Event : Type 0 where
  accepts : Bool → ℕ → Event
  receives : ℕ → Bytes → Event
  packets : Event
  commands : Fallen → Event
  sends : Event

unfoldable pub run_event : Event → M (Unit {0})
run_event (accepts held fd) = accept_client held fd
run_event (receives fd bytes) = serve_client fd bytes
run_event packets = packet_step
run_event (commands fallen) = command_step fallen
run_event sends = send_step >>= λ sent. pure tt

-- The states that the server comes to, whatever the memory held that is not in use.
pub data Reachable : State → Type 0 where
  starts : (held : ℕ → Option ℕ) → Reachable (record start { unset = held })
  after :
      {s t : State} {u : Unit {0}} (e : Event)
      → Reachable s
      → run_event e s ≡ done u t
      → Reachable t
