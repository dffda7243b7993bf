-- ===== src/Start/Main.antt =====
-- `main` of UPSServer/main.cpp. The threads that it starts are modelled by their rounds.
pub mod Ports
use package.ups_server.Base.{
  ℕ, Bytes, List, Result, ok, fault, ◌>>=◌, no_return, ◌==◌, if◌then◌else◌,
}
use package.ups_server.Network.Calls.{Setup}
use package.ups_server.Network.Listening.{init}
use package.ups_server.Start.Logger.{Logger, LogLevel, debug, info, warning, error}
use package.ups_server.Start.Logger
use package.ups_server.Start.Output.{Line}
use package.ups_server.Start.Parameters.{Settings, Outcome, goes_on, exits, do_parameters}

-- The `switch` over `loglevel`. `Logger::Logger` leaves the level at what the memory held.
unfoldable pub init_logger : Logger → ℕ → Logger
init_logger held loglevel =
    if loglevel == 0
    then Logger.init debug
    else if loglevel == 1
    then Logger.init info
    else if loglevel == 2
    then Logger.init warning
    else if loglevel == 3
    then Logger.init error
    else held

-- `CommandManager::start`, which has a result and no `return`.
unfoldable start_command_manager : Result (Unit {0})
start_command_manager = fault no_return

-- How `main` goes: the options end the program, or the socket is set up.
pub data Launch : Type 0 where
  ended : ℕ → List Line → Launch
  set_up : Logger → Setup → List Line → Launch

-- `socket` and `bound` are what the system calls of `Server::init` return.
unfoldable main : (held : Logger) (socket bound : ℕ) (argv : List Bytes) → Result Launch
unfolding do_parameters init_logger start_command_manager init
main held socket bound argv = do
  outcome ← do_parameters argv
  elim outcome [
    | exits status lines ↦ ok (ended status lines)
    | goes_on s lines ↦ do
      _ ← start_command_manager
      ok (set_up (init_logger held s.loglevel) (init socket bound s.port) lines)
  ]
