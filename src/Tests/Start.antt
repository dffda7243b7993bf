-- ===== src/Tests/Start.antt =====
-- Command lines, and what they lead to.
use ups_server.Base.{◌≡◌, refl, [], ◌∷◌, codes, ok, ◌>>=◌, some}
use ups_server.Start.Options.{find, main_options, get_param_from_key}
use ups_server.Start.Options.Pairs.{pairs, main_options-pairs}
use ups_server.Start.Logger.{info, warning, error, log}
use ups_server.Start.Output.{out}
use ups_server.Start.Parameters.{do_parameters}
use ups_server.Start.Parameters.Ranges.{InRanges, do_parameters-InRanges}

main_options-pairs_example :
    (main_options (codes "server" ∷ codes "-l" ∷ codes "-p" ∷ codes "80" ∷ []) >>= λ mo.
    ok (get_param_from_key mo (codes "-l")))
    ≡ ok (find (codes "-l") (pairs (codes "-l" ∷ codes "-p" ∷ codes "80" ∷ [])))
main_options-pairs_example =
    main_options-pairs (codes "server") (codes "-l") (codes "-l" ∷ codes "-p" ∷ codes "80" ∷ [])

-- A key before a key has the value `null`.
key_before_key :
    find (codes "-l") (pairs (codes "-l" ∷ codes "-p" ∷ codes "80" ∷ []))
    ≡ some (codes "-l", codes "null")
unfolding find pairs
key_before_key = refl

do_parameters-InRanges_example :
    InRanges (do_parameters (codes "server" ∷ codes "-l" ∷ codes "7" ∷ []))
do_parameters-InRanges_example =
    do_parameters-InRanges (codes "server") (codes "-l" ∷ codes "7" ∷ [])

-- A warning where the log starts at information, and information where it starts at errors.
log_example :
    (log (record { log_level = info }) (codes "12:30:59") 7_000 warning (codes "hm")
      ≡ ok (out (codes "WARNING [12:30:59:007]: hm") ∷ []))
    × (log (record { log_level = error }) (codes "12:30:59") 7_000 info (codes "hm") ≡ ok [])
unfolding log
log_example = (refl, refl)
