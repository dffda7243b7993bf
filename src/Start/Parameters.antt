-- ===== src/Start/Parameters.antt =====
-- `doParameters` of UPSServer/main.cpp, with `printHelp` and `isNumeric`.
pub mod Ranges
pub mod Ports
use package.ups_server.Base.{
  ℕ, zero, suc, ◌+◌, ◌-◌, ◌*◌, ◌^◌, Bytes, codes, Bool, true, false, List, [], ◌∷◌, ◌++◌, Option,
  none, some, Result, ok, fault, ◌>>=◌, unrepresentable, ltb, leb, ◌&&◌, ◌||◌, if◌then◌else◌,
}
use package.ups_server.Start.Options.{
  MainOptions, Pair, is_blank, main_options, has_key, get_param_from_key,
}
use package.ups_server.Start.Output.{Line, out, err}

-- The globals `loglevel` and `port`.
pub record Settings : Type 0 where
  pub loglevel : ℕ
  pub port : ℕ

abbrev pub defaults : Settings
defaults = record { loglevel = 1; port = 55_555 }

-- The program goes on, or it ends by `_exit`, whose status is the low byte of its argument; with
-- the lines that it has written.
pub data Outcome : Type 0 where
  goes_on : Settings → List Line → Outcome
  exits : ℕ → List Line → Outcome

abbrev pub help : List Line
help =
    out (codes "Usage: traxServer [options]")
    ∷ out (codes "\tPossible options:")
    ∷ out (codes "\t\t-p <port number>     - port to listen on")
    ∷ out (codes "\t\t-l <log level>     - log level (0 - 3)")
    ∷ []

unfoldable pub is_numeric : Bytes → Bool
is_numeric [] = true
is_numeric (c ∷ str) = let rest = is_numeric str in if ltb c b'0' || ltb b'9' c then false else rest

-- Decimal digits, behind those that make `n`.
unfoldable pub number : ℕ → Bytes → ℕ
number n [] = n
number n (c ∷ str) = number (n * 10 + (c - b'0')) str

-- `atoi` on a string of digits; it has no defined result where that is no `int`.
unfoldable pub atoi : Bytes → Result ℕ
unfolding number
atoi str = let n = number 0 str in if ltb n (2 ^ 31) then ok n else fault unrepresentable

-- `opt ? (*opt).second : ""`
abbrev pub value_of : Option Pair → Bytes
value_of none = []
value_of (some (key, value)) = value

-- The part for `-l`, with the lines so far. What `atoi` gives is not negative.
unfoldable pub level_option : MainOptions → Settings → List Line → Result Outcome
unfolding is_numeric atoi has_key get_param_from_key
level_option mo s lines = elim (has_key mo (codes "-l")) [
  | false ↦ ok (goes_on s lines)
  | true ↦
      let type = value_of (get_param_from_key mo (codes "-l")) in
      let wrong = lines ++ err (codes "Wrong log level option, using default") ∷ [] in
      elim (is_blank type) [
        | true ↦ ok (exits 255 (lines ++ help))
        | false ↦ elim (is_numeric type) [
          | false ↦ ok (goes_on s wrong)
          | true ↦ do
            n ← atoi type
            ok (if leb n 3 then goes_on (record s { loglevel = n }) lines else goes_on s wrong)
        ]
      ]
]

-- The part for `-p`.
unfoldable pub port_option : MainOptions → Settings → List Line → Result Outcome
unfolding is_numeric atoi has_key get_param_from_key
port_option mo s lines = elim (has_key mo (codes "-p")) [
  | false ↦ ok (goes_on s lines)
  | true ↦
      let type = value_of (get_param_from_key mo (codes "-p")) in
      let wrong = lines ++ err (codes "Wrong port option, using default") ∷ [] in
      elim (is_blank type) [
        | true ↦ ok (exits 255 (lines ++ help))
        | false ↦ elim (is_numeric type) [
          | false ↦ ok (goes_on s wrong)
          | true ↦ do
            n ← atoi type
            ok (
                if leb n 65_535 && ltb 0 n
                then goes_on (record s { port = n }) lines
                else goes_on s wrong)
        ]
      ]
]

-- What follows in `doParameters`, unless the program ended.
abbrev pub unless_ended : Outcome → (Settings → List Line → Result Outcome) → Result Outcome
unless_ended (exits status lines) next = ok (exits status lines)
unless_ended (goes_on s lines) next = next s lines

unfoldable pub do_parameters : List Bytes → Result Outcome
unfolding main_options has_key level_option port_option
do_parameters argv = do
  mo ← main_options argv
  elim (has_key mo (codes "-h")) [
    | true ↦ ok (exits 0 help)
    | false ↦ do outcome ← level_option mo defaults []; unless_ended outcome (port_option mo)
  ]
