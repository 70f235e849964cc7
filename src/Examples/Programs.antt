-- ===== src/Examples/Programs.antt =====
-- The program from round to round (public/lobby/lobby.go, Run and runc; cmd/snap-gs/main.go).
use snap_gs.Base.{
  codes, bytes_eq, ◌≡◌, refl, pos, List, [], ◌∷◌, ◌++◌, map, Option, none, some, arith,
}
use snap_gs.Errors.{Err, other}
use snap_gs.Options.{validate}
use snap_gs.Spec.{
  no_spec, Spec, force_down_after, reason_after, force_stop_after, force_restart_after, down_after,
  stop_after, restart_after,
}
use snap_gs.Lobby.Watcher.{verdict, idle_for, up_again}
use snap_gs.Lobby.Life.{Happening, printed, Fate, cancelled, ticked, spec_set}
use snap_gs.Archive.Whole.{first_error, obstacles}
use snap_gs.Supervisor.{start}
use snap_gs.Exit.{main_code}
use snap_gs.Program.{Round, stopped, lived, Program, going, ended, drive}
use snap_gs.Program.Ends.{drive_ends}
use snap_gs.Program.Orders.{stop, reason_of, code_of, drive_order}
use snap_gs.Examples.Lobbies.{options, env}
use snap_gs.Examples.Setups.{decoders}
use snap_gs.Examples.Lives.{blank, busy, willing-alloc}
use snap_gs.Examples.Archives.{marshal, join, answers}

abbrev first : Program
first = record { options = options; disk = blank; counters = start }

abbrev asked : Spec
asked = record no_spec { stop = 125 }

abbrev later : List Happening
later = printed 1 (codes "-- BOLT -- Registered player: 1001") 131 ∷ cancelled (other 4) ∷ []

abbrev ordered : Fate
ordered = record busy { early = []; meanwhile = spec_set asked ∷ ticked 130 130 100 ∷ later }

abbrev ordered_round : Round
ordered_round = record {
  context = none;
  fate = ordered;
  files = answers;
  readings = [];
  uptime = pos 4000000000;
}

abbrev busy_round : Round
busy_round = record ordered_round { fate = busy }

no_obstacle : first_error (obstacles marshal join options answers) ≡ none
unfolding validate
no_obstacle = refl

asked-verdict :
    verdict options asked 100 [] 0 (idle_for 130 100 (up_again asked 130 100))
    ≡ some (reason_of stop)
unfolding verdict idle_for up_again force_down_after reason_after force_stop_after
    force_restart_after down_after stop_after restart_after bytes_eq
asked-verdict = refl

no_turns : drive env marshal join decoders options [] first ≡ some (going first)
unfolding drive
no_turns = refl

drive_order_example :
    (q' : Program) × (drive env marshal join decoders options
        ([] ++ lived ordered_round ∷ lived busy_round ∷ [])
        first
      ≡ some (ended (some (reason_of stop)) q'))
    × (main_code (some (reason_of stop)) none none ≡ code_of stop)
drive_order_example =
    drive_order env marshal join decoders options [] (lived busy_round ∷ []) first first
      ordered_round asked 130 130 100 stop later none no_turns refl no_obstacle willing-alloc refl
      refl refl asked-verdict

abbrev pub three_rounds : List Round
three_rounds = busy_round ∷ busy_round ∷ ordered_round ∷ []

drive_ends_example :
    (e : Option Err) × (q : Program) × (drive env marshal join decoders options
        (map lived three_rounds ++ stopped (other 1) ∷ [])
        first
      ≡ some (ended e q))
drive_ends_example =
    drive_ends env marshal join decoders options 3 three_rounds (stopped (other 1) ∷ []) first refl
      ((omega arith, refl), ((omega arith, refl), ((omega arith, refl), tt))) (omega arith)
      (omega arith)
