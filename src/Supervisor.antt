-- ===== src/Supervisor.antt =====
-- The loop that restarts a lobby (public/lobby/lobby.go, Run). What an attempt of `runc` returns and
-- how long it takes, the clock and the end of the context are inputs.
pub mod Policy
use snap_gs.Base.{
  ℕ, ◌+◌, ◌==◌, leb_ℤ, eq_ℤ, ℤ, pos, ◌-ℤ◌, Bool, true, false, ◌||◌, List, [], ◌∷◌, Option, none,
  some, if◌then◌else◌, is_some,
}
use snap_gs.Errors.{
  Err, lobby_idle_timeout, lobby_admin_timeout, lobby_downed, lobby_restarted, lobby_stopped,
  lobby_max_fails,
}

-- 15 seconds, in nanoseconds.
abbrev pub floor : ℤ
floor = pos 15000000000

pub record Counters : Type 0 where
  pub runs : ℕ
  pub fails : ℕ

-- One round: what `runc` returned, the uptime in nanoseconds, rounded to milliseconds, and
-- `opts.MaxFails` at that time, which the watch of --flagdir may have changed.
pub record Attempt : Type 0 where
  pub err : Option Err
  pub uptime : ℤ
  pub max_fails : ℤ

-- How a round ends: the loop returns, goes on at once, or waits before it goes on.
pub data Verdict : Type 0 where
  returns : Option Err → Verdict
  restarts : Counters → Verdict
  waits : ℤ → Counters → Verdict

-- The first `switch` of a round.
pub data Class : Type 0 where
  ended ordered failed : Class

abbrev pub classify : Option Err → Class
classify none = Class.ended
classify (some lobby_idle_timeout) = Class.ended
classify (some lobby_admin_timeout) = Class.ended
classify (some lobby_downed) = Class.ordered
classify (some lobby_restarted) = Class.ordered
classify (some lobby_stopped) = Class.ordered
classify (some _) = Class.failed

-- `fails >= opts.MaxFails`.
abbrev pub exhausted : ℕ → ℤ → Bool
exhausted fails max_fails = leb_ℤ max_fails (pos fails)

-- What follows the first `switch`, where `fails` has been reset or raised.
conclude : Attempt → ℕ → ℕ → Verdict
conclude a runs fails =
    if exhausted fails a.max_fails
    then returns (if is_some a.err || eq_ℤ a.max_fails (pos 0) then a.err else some lobby_max_fails)
    else if fails == 0
    then restarts (record { runs = runs; fails = fails })
    else waits (floor -ℤ a.uptime) (record { runs = runs; fails = fails })

judge : Class → Attempt → ℕ → ℕ → Verdict
unfolding conclude
judge Class.ordered a runs fails = returns a.err
judge Class.failed a runs fails =
    if exhausted (fails + 1) a.max_fails
    then returns a.err
    else restarts (record { runs = runs; fails = fails + 1 })
judge Class.ended a runs fails = conclude a runs (if leb_ℤ floor a.uptime then 0 else fails + 1)

unfoldable pub round : Counters → Attempt → Verdict
unfolding judge
round c a = judge (classify a.err) a (c.runs + 1) c.fails

-- What the environment does at the head of the loop: the context has ended with an error, or there
-- is an attempt. While the loop waits the context may end; the head of the loop then sees it, as the
-- `break` in the code leaves the `select` alone.
pub data Turn : Type 0 where
  cancelled : Err → Turn
  attempt : Attempt → Turn

-- How far a list of turns brings the loop.
pub data Progress : Type 0 where
  finished : Option Err → Counters → Progress
  running : Counters → Progress

-- The counters after a round that goes on.
abbrev pub next_counters : Verdict → Option Counters
next_counters (returns e) = none
next_counters (restarts c) = some c
next_counters (waits d c) = some c

unfoldable pub supervise : Counters → List Turn → Progress
unfolding round
supervise c [] = running c
supervise c (cancelled e ∷ ts) = finished (some e) c
supervise c (attempt a ∷ ts) = elim (round c a) [
  | returns e ↦ finished e (record c { runs = c.runs + 1 })
  | restarts c' ↦ supervise c' ts
  | waits d c' ↦ supervise c' ts
]

abbrev pub start : Counters
start = record { runs = 0; fails = 0 }

unfoldable pub run : List Turn → Progress
unfolding supervise
run ts = supervise start ts
