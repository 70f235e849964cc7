-- ===== src/Examples/Supervision.antt =====
-- Lobbies that end well, badly and too soon (public/lobby/lobby.go, Run; public/cmd/root.go).
use snap_gs.Base.{
  ◌≡◌, refl, ℕ, pos, ◌-ℤ◌, ◌≤ℤ◌, ◌<ℤ◌, [], ◌∷◌, Option, none, some, inl, inr, ◌⊎◌, ◌↔◌, arith,
  is_some, true,
}
use snap_gs.Errors.{Err, lobby_idle_timeout, lobby_disconnected, lobby_done, other}
use snap_gs.Supervisor.{
  floor, Counters, Attempt, waits, Class, classify, attempt, cancelled, finished, next_counters,
  round, supervise, run,
}
use snap_gs.Supervisor.Policy.{IsShort}
use snap_gs.Exit.{exit_code, command_result, main_code, main_code-zero_iff}

abbrev early : Attempt
early = record { err = some lobby_idle_timeout; uptime = pos 4000000000; max_fails = pos 3 }

abbrev crashed : Attempt
crashed = record { err = some lobby_disconnected; uptime = pos 90000000000; max_fails = pos 3 }

abbrev healthy : Attempt
healthy = record { err = none; uptime = pos 60000000000; max_fails = pos 3 }

abbrev single : Attempt
single = record { err = none; uptime = pos 60000000000; max_fails = pos 0 }

abbrev counted : ℕ → ℕ → Counters
counted runs fails = record { runs = runs; fails = fails }

early_waits : round (counted 4 1) early ≡ waits (pos 11000000000) (counted 5 2)
unfolding round ◌-ℤ◌
early_waits = refl

three_crashes :
    run (attempt crashed ∷ attempt crashed ∷ attempt crashed ∷ attempt healthy ∷ [])
    ≡ finished (some lobby_disconnected) (counted 3 2)
unfolding run supervise round
three_crashes = refl

early_gives_up :
    run (attempt early ∷ attempt early ∷ attempt healthy ∷ cancelled (other 9) ∷ [])
    ≡ finished (some (other 9)) (counted 3 0)
unfolding run supervise round
early_gives_up = refl

early_goes_on : next_counters (round (counted 4 1) early) ≡ some (counted 5 2)
unfolding round
early_goes_on = refl

early-IsShort : IsShort early × (early.max_fails ≡ pos 3)
early-IsShort = (inr (refl, arith_short), refl)
  where
    arith_short : pos 4000000000 <ℤ floor
    arith_short = omega arith

crashed-IsShort : IsShort crashed × (crashed.max_fails ≡ pos 3)
crashed-IsShort = (inl refl, refl)

healthy_enough :
    (classify healthy.err ≡ Class.ended) × (floor ≤ℤ healthy.uptime) × (pos 0 <ℤ healthy.max_fails)
healthy_enough = (refl, omega arith, omega arith)

stopped_softly : main_code (some (other 9)) none (some (other 9)) ≡ 0
unfolding main_code command_result exit_code
stopped_softly = refl

abbrev no_error : Option Err
no_error = none

main_code-zero_iff_example : (main_code (some (other 9)) none (some (other 9)) ≡ 0) ↔ (
    (some (other 9) ≡ none)
    ⊎ (some (other 9) ≡ some lobby_done)
    ⊎ ((no_error ≡ none) × (is_some (some (other 9)) ≡ true)))
main_code-zero_iff_example = main_code-zero_iff (some (other 9)) none (some (other 9))
