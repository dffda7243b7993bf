-- ===== src/Start/Main/Ports.antt =====
-- The level of the log, and the port that the server listens on.
use ups_server.Start.Logger.{Logger, LogLevel, debug, info, warning, error, rank}
use ups_server.Start.Logger
use ups_server.Start.Main.{init_logger}
use mathlib.Core.Path.{subst}
use ups_server.Base.{
  zero, suc, ℕ, ◌%◌, ◌^◌, ◌≡◌, ◌≤◌, refl, Bytes, List, [], ◌∷◌, ok, arith, ◌==◌, if◌then◌else◌,
}
use ups_server.Network.Calls.{Call, so_reuseaddr, setsockopt, bind, listen, htons, returns, exits}
use ups_server.Network.Listening.{init}
use ups_server.Start.Output.{Line}
use ups_server.Start.Parameters.{Settings, goes_on, do_parameters}
use ups_server.Start.Parameters.Ranges.{Ranges, InRanges, do_parameters-InRanges}

-- The calls that set up a socket to listen on a port, where `bind` succeeds.
abbrev listening : ℕ → ℕ → List Call
listening socket port =
    setsockopt socket so_reuseaddr 1 ∷ bind socket (htons port) ∷ listen socket 10 ∷ []

-- The calls up to a `bind` that fails.
abbrev pub refused : ℕ → ℕ → List Call
refused socket port = setsockopt socket so_reuseaddr 1 ∷ bind socket (htons port) ∷ []

init_logger-level :
    (held : Logger) (loglevel : ℕ)
    → loglevel ≤ 3
    → (level : LogLevel) × (rank level ≡ loglevel) × (init_logger held loglevel ≡ Logger.init level)
unfolding init_logger
init_logger-level held zero h = (debug, refl, refl)
init_logger-level held (suc zero) h = (info, refl, refl)
init_logger-level held (suc (suc zero)) h = (warning, refl, refl)
init_logger-level held (suc (suc (suc zero))) h = (error, refl, refl)
init_logger-level held (suc (suc (suc (suc n)))) h = absurd (omega arith)

-- With the settings of any command line that the program goes on with, the log gets the level of
-- the settings, whatever its memory held, and `init` binds the socket to the port of the settings,
-- which the `uint16_t` holds whole, and listens if `bind` succeeds; if it does not, the program ends
-- without listening.
init-listening :
    (name : Bytes) (arguments : List Bytes) (s : Settings) (lines : List Line) (held : Logger)
    (socket bound : ℕ)
    → do_parameters (name ∷ arguments) ≡ ok (goes_on s lines)
    → ((level : LogLevel) × (rank level ≡ s.loglevel)
        × (init_logger held s.loglevel ≡ Logger.init level))
      × (init socket bound s.port ≡ (
          if bound == 0
          then returns socket (listening socket s.port)
          else exits (refused socket s.port)))
unfolding init
init-listening name arguments s lines held socket bound e =
    let ranges : Ranges s = subst InRanges e (do_parameters-InRanges name arguments) in
    let whole : s.port % 2 ^ 16 ≡ s.port = omega (arith, ranges.2) in
    (init_logger-level held s.loglevel ranges.0, rw (init, whole) refl)
