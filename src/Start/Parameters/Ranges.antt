-- ===== src/Start/Parameters/Ranges.antt =====
-- The settings that a command line leads to.
use ups_server.Base.{
  ◌≤◌, ◌≡◌, refl, ◌⊎◌, inl, Bytes, codes, Bool, true, false, List, [], ◌∷◌, Result, ok, fault,
  ◌>>=◌, unrepresentable, arith,
}
use ups_server.Start.Options.{MainOptions, parse_loop, main_options, has_key}
use ups_server.Start.Output.{Line}
use ups_server.Start.Parameters.{
  Settings, defaults, Outcome, goes_on, exits, help, atoi, level_option, port_option, unless_ended,
  do_parameters,
}

-- A log level of the log, and a port that can be listened on.
abbrev pub Ranges : Settings → Type 0
Ranges s = (s.loglevel ≤ 3) × (1 ≤ s.port) × (s.port ≤ 65_535)

-- The settings are in their ranges, or the program ends with one of two statuses, or `atoi` met a
-- number that is no `int`.
abbrev pub InRanges : Result Outcome → Type 0
InRanges (ok (goes_on s lines)) = Ranges s
InRanges (ok (exits status lines)) = (status ≡ 0) ⊎ (status ≡ 255)
InRanges (fault e) = e ≡ unrepresentable

level_option-InRanges :
    (mo : MainOptions) (s : Settings) (lines : List Line)
    → Ranges s
    → InRanges (level_option mo s lines)
unfolding level_option atoi
level_option-InRanges mo s lines h = ground arith

port_option-InRanges :
    (mo : MainOptions) (s : Settings) (lines : List Line)
    → Ranges s
    → InRanges (port_option mo s lines)
unfolding port_option atoi
port_option-InRanges mo s lines h = ground arith

unless_ended-InRanges :
    (r : Result Outcome) (mo : MainOptions)
    → InRanges r
    → InRanges (r >>= λ outcome. unless_ended outcome (port_option mo))
unless_ended-InRanges (ok (goes_on s lines)) mo h = port_option-InRanges mo s lines h
unless_ended-InRanges (ok (exits status lines)) mo h = h
unless_ended-InRanges (fault e) mo h = h

helped-InRanges :
    (asked : Bool) (r : Result Outcome)
    → InRanges r
    → InRanges (elim asked [ true ↦ ok (exits 0 help) | false ↦ r ])
helped-InRanges true r h = inl refl
helped-InRanges false r h = h

-- For every command line with an application's name, the program goes on with a log level from 0 to
-- 3 and a port from 1 to 65535, or ends with status 0 or 255, or calls `atoi` with a number that is
-- no `int`.
pub do_parameters-InRanges :
    (name : Bytes) (arguments : List Bytes) → InRanges (do_parameters (name ∷ arguments))
unfolding do_parameters main_options
do_parameters-InRanges name arguments =
    let mo : MainOptions = record { app_name = name; options = parse_loop arguments ([], []) [] } in
    let level = level_option mo defaults [] in
    helped-InRanges (has_key mo (codes "-h"))
      (level >>= λ outcome. unless_ended outcome (port_option mo))
      (unless_ended-InRanges level mo (level_option-InRanges mo defaults [] (ground arith)))
