-- ===== src/Start/Parameters/Ports.antt =====
-- The port that the command line asks for.
use ups_server.Base.{
  ℕ, ◌+◌, ◌-◌, ◌*◌, ◌^◌, ◌≤◌, ◌<◌, ◌≡◌, refl, ap, ◌∙◌, Bytes, codes, Bool, true, false, List, [],
  ◌∷◌, none, some, Result, ok, ◌>>=◌, arith, ltb, leb, All,
}
use ups_server.Game.Decimal.{digits, to_string}
use ups_server.Game.Decimal.Reading.{Digit, digits-Digit, value, value-digits, Cons, to_string-Cons}
use ups_server.Start.Options.{
  Pair, find, parse_loop, MainOptions, main_options, has_key, get_param_from_key, is_blank,
}
use ups_server.Start.Options.Pairs.{pairs, parse_loop-pairs}
use ups_server.Start.Output.{Line}
use ups_server.Start.Parameters.{
  Settings, defaults, Outcome, goes_on, exits, help, atoi, is_numeric, number, value_of,
  level_option, port_option, unless_ended, do_parameters,
}

is_numeric-Digits : (s : Bytes) → All Digit s → is_numeric s ≡ true
unfolding is_numeric
is_numeric-Digits [] h = refl
is_numeric-Digits (c ∷ s) h =
    let low : ltb c b'0' ≡ false = ground (arith, h.0) in
    let high : ltb b'9' c ≡ false = ground (arith, h.0) in rw (low, high) (is_numeric-Digits s h.1)

number-eq-value : (n : ℕ) (s : Bytes) → number n s ≡ value n s
unfolding number value
number-eq-value n [] = refl
number-eq-value n (c ∷ s) = number-eq-value (n * 10 + (c - b'0')) s

to_string-digits : (n : ℕ) → n < 2 ^ 31 → to_string n ≡ digits 10 n
unfolding to_string
to_string-digits n h = let plain : leb (2 ^ 31) n ≡ false = ground (arith, h) in rw plain refl

atoi-to_string : (n : ℕ) → n < 2 ^ 31 → atoi (to_string n) ≡ ok n
unfolding atoi
atoi-to_string n h =
    let back : number 0 (to_string n) ≡ n =
      ap (number 0) (to_string-digits n h)
      ∙ (number-eq-value 0 (digits 10 n) ∙ value-digits 10 n (omega (arith, h))) in
    let fits : ltb n (2 ^ 31) ≡ true = ground (arith, h) in rw (back, fits) refl

to_string-not_blank : (n : ℕ) → is_blank (to_string n) ≡ false
unfolding Cons
to_string-not_blank n = let (c, s, e) = to_string-Cons n in rw e refl

module _ (mo : MainOptions) (s : Settings) (lines : List Line) where
  has_key-absent : (key : Bytes) → find key mo.options ≡ none → has_key mo key ≡ false
  unfolding has_key
  has_key-absent key absent = rw (has_key, absent) refl

  has_key-present : (key : Bytes) {x : Pair} → find key mo.options ≡ some x → has_key mo key ≡ true
  unfolding has_key
  has_key-present key present = rw (has_key, present) refl

  level_option-absent :
      find (codes "-l") mo.options ≡ none → level_option mo s lines ≡ ok (goes_on s lines)
  unfolding level_option has_key
  level_option-absent absent = rw (level_option, absent) refl

  port_option-to_string :
      (n : ℕ)
      → find (codes "-p") mo.options ≡ some (codes "-p", to_string n)
      → 1 ≤ n
      → n ≤ 65_535
      → port_option mo s lines ≡ ok (goes_on (record s { port = n }) lines)
  unfolding port_option get_param_from_key
  port_option-to_string n asked low high =
      let given : value_of (get_param_from_key mo (codes "-p")) ≡ to_string n = ap value_of asked in
      let numeric : is_numeric (to_string n) ≡ true =
        ap is_numeric (to_string-digits n (omega (arith, high)))
        ∙ is_numeric-Digits (digits 10 n) (digits-Digit 10 n) in
      let above : ltb 0 n ≡ true = ground (arith, low) in
      let below : leb n 65_535 ≡ true = ground (arith, high) in
      rw
        (
          port_option,
          has_key-present (codes "-p") asked,
          ap is_blank given ∙ to_string-not_blank n,
          ap is_numeric given ∙ numeric,
          ap atoi given ∙ atoi-to_string n (omega (arith, high)),
          below,
          above,
        )
        refl

not_helped :
    (asked : Bool) (r : Result Outcome)
    → asked ≡ false
    → elim asked [ true ↦ ok (exits 0 help) | false ↦ r ] ≡ r
not_helped true r h = cc
not_helped false r h = refl

-- A command line that asks for no help, sets no log level, and gives `-p` a port from 1 to 65535 in
-- decimal form leads to that port and the log level 1, without a line written.
do_parameters-port :
    (name : Bytes) (arguments : List Bytes) (n : ℕ)
    → find (codes "-h") (pairs arguments) ≡ none
    → find (codes "-l") (pairs arguments) ≡ none
    → find (codes "-p") (pairs arguments) ≡ some (codes "-p", to_string n)
    → 1 ≤ n
    → n ≤ 65_535
    → do_parameters (name ∷ arguments) ≡ ok (goes_on (record { loglevel = 1; port = n }) [])
unfolding do_parameters main_options
do_parameters-port name arguments n no_help no_level asked low high =
    let mo : MainOptions = record { app_name = name; options = parse_loop arguments ([], []) [] } in
    let no_help_key =
      has_key-absent mo defaults [] (codes "-h")
        (parse_loop-pairs (codes "-h") arguments [] ∙ no_help) in
    let level =
      level_option-absent mo defaults [] (parse_loop-pairs (codes "-l") arguments [] ∙ no_level) in
    let port =
      port_option-to_string mo defaults [] n (parse_loop-pairs (codes "-p") arguments [] ∙ asked)
        low high in
    not_helped (has_key mo (codes "-h")) _ no_help_key
    ∙ (ap (λ r. r >>= λ outcome. unless_ended outcome (port_option mo)) level ∙ port)
