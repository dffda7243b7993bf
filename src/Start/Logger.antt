-- ===== src/Start/Logger.antt =====
-- UPSServer/helpers/Logger.h and Logger.cpp. The lock is held throughout, so a line is one step.
use ups_server.Base.{
  ℕ, ◌/◌, Bytes, codes, List, [], ◌∷◌, ◌++◌, Result, ok, fault, out_of_bounds, ◌>>=◌, ltb, leb,
  if◌then◌else◌, length,
}
use ups_server.Game.Decimal.{to_string}
use ups_server.Start.Output.{Line, out, err}

pub data LogLevel : Type 0 where
  debug info warning error : LogLevel

-- The enumerators' values.
abbrev pub rank : LogLevel → ℕ
rank debug = 0
rank info = 1
rank warning = 2
rank error = 3

pub record Logger : Type 0 where
  pub log_level : LogLevel

abbrev pub init : LogLevel → Logger
init level = record { log_level = level }

-- `%03d`
pad3 : ℕ → Bytes
unfolding to_string
pad3 n =
    if ltb n 10
    then b'0' ∷ b'0' ∷ to_string n
    else if ltb n 100
    then b'0' ∷ to_string n
    else to_string n

-- `sprintf` into the 84 bytes of `currentTime`, with a zero byte behind. `clock` is what `strftime`
-- put into `buffer`, and `usec` is `curTime.tv_usec`.
unfoldable current_time : Bytes → ℕ → Result Bytes
unfolding pad3
current_time clock usec =
    let text = b'[' ∷ clock ++ b':' ∷ pad3 (usec / 1000) ++ codes "]: " in
    if ltb (length text) 84 then ok text else fault out_of_bounds

abbrev severity_string : LogLevel → Bytes
severity_string debug = codes "DEBUG "
severity_string info = codes "INFO "
severity_string warning = codes "WARNING "
severity_string error = []

-- The line, where the level calls for one.
unfoldable line_of : LogLevel → Bytes → Bytes → Line
line_of error time msg = err (codes "ERROR " ++ time ++ msg)
line_of level time msg = out (severity_string level ++ time ++ msg)

-- `Logger::log`
unfoldable pub log : Logger → Bytes → ℕ → LogLevel → Bytes → Result (List Line)
unfolding current_time line_of
log logger clock usec level msg =
    let written = (current_time clock usec >>= λ time. ok (line_of level time msg ∷ [])) in
    if leb (rank logger.log_level) (rank level) then written else ok []
