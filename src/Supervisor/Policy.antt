-- ===== src/Supervisor/Policy.antt =====
-- What the loop does with failures (public/lobby/lobby.go, Run).
use snap_gs.Base.{
  leb, map, ◌++◌, ◌∙◌, ap, if◌then◌else◌, ℕ, ◌+◌, ◌≤◌, ◌<◌, ◌≡◌, refl, ◌⊎◌, inl, inr, leb_ℤ, ℤ, pos,
  ◌-ℤ◌, ◌≤ℤ◌, ◌<ℤ◌, false, List, [], ◌∷◌, Option, some, arith, length, All, Bool-cases,
}
use snap_gs.Errors.{Err}
use snap_gs.Supervisor.{
  floor, Counters, Attempt, returns, restarts, waits, Class, classify, exhausted, round, Turn,
  attempt, finished, running, next_counters, judge, supervise,
}

-- The attempt failed, or ended before the floor of 15 seconds.
abbrev pub IsShort : Attempt → Type 0
IsShort a = (classify a.err ≡ Class.failed) ⊎ ((classify a.err ≡ Class.ended) × (a.uptime <ℤ floor))

judge_restarts :
    (k : Class) (a : Attempt) (runs fails : ℕ) (c' : Counters)
    → judge k a runs fails ≡ restarts c'
    → ((c'.fails ≡ 0) × (floor ≤ℤ a.uptime) × (k ≡ Class.ended))
      ⊎ ((c'.fails ≡ fails + 1) × (k ≡ Class.failed))
unfolding judge
judge_restarts Class.ordered a runs fails c' e = cc
judge_restarts Class.failed a runs fails c' e = inr (ground arith, refl)
judge_restarts Class.ended a runs fails c' e = inl (ground arith, ground arith, refl)

judge_waits :
    (k : Class) (a : Attempt) (runs fails : ℕ) (d : ℤ) (c' : Counters)
    → judge k a runs fails ≡ waits d c'
    → (c'.fails ≡ fails + 1) × (d ≡ floor -ℤ a.uptime) × (a.uptime <ℤ floor) × (k ≡ Class.ended)
unfolding judge
judge_waits Class.ordered a runs fails d c' e = cc
judge_waits Class.failed a runs fails d c' e = ground arith
judge_waits Class.ended a runs fails d c' e = (ground arith, ground arith, ground arith, refl)

judge_bounded :
    (k : Class) (a : Attempt) (runs fails : ℕ) (c' : Counters)
    → next_counters (judge k a runs fails) ≡ some c'
    → (pos c'.fails <ℤ a.max_fails) × (c'.runs ≡ runs)
unfolding judge
judge_bounded Class.ordered a runs fails c' e = cc
judge_bounded Class.failed a runs fails c' e = ground arith
judge_bounded Class.ended a runs fails c' e = ground arith

-- An ordered end is returned at once. A round that goes on without a wait has seen a lobby end in
-- order after 15 seconds or more and forgets the failures, or has counted one failure. A round that
-- waits has counted one, after a lobby that ended in order but too soon, and waits for the rest of the
-- 15 seconds.
pub round_paced :
    (c : Counters) (a : Attempt)
    → ((classify a.err ≡ Class.ordered) → round c a ≡ returns a.err)
      × ((c' : Counters)
          → round c a ≡ restarts c'
          → ((c'.fails ≡ 0) × (floor ≤ℤ a.uptime) × (classify a.err ≡ Class.ended))
            ⊎ ((c'.fails ≡ c.fails + 1) × (classify a.err ≡ Class.failed)))
      × ((d : ℤ) (c' : Counters)
          → round c a ≡ waits d c'
          → (c'.fails ≡ c.fails + 1)
            × (d ≡ floor -ℤ a.uptime)
            × (a.uptime <ℤ floor)
            × (classify a.err ≡ Class.ended))
unfolding round
round_paced c a = (
  (λ e. rw e refl),
  (λ c' e. judge_restarts (classify a.err) a (c.runs + 1) c.fails c' e),
  λ d c' e. judge_waits (classify a.err) a (c.runs + 1) c.fails d c' e,
)

-- The failures counted by a round that goes on stay below the limit, and the run is counted.
pub round_bounded :
    (c c' : Counters) (a : Attempt)
    → next_counters (round c a) ≡ some c'
    → (pos c'.fails <ℤ a.max_fails) × (c'.runs ≡ c.runs + 1)
unfolding round
round_bounded c c' a e = judge_bounded (classify a.err) a (c.runs + 1) c.fails c' e

-- A short attempt counts a failure, or ends the loop.
judge_short :
    (k : Class) (a : Attempt) (runs fails : ℕ)
    → (k ≡ Class.failed) ⊎ ((k ≡ Class.ended) × (a.uptime <ℤ floor))
    → ((e : Option Err) × (judge k a runs fails ≡ returns e))
      ⊎ ((c' : Counters) × (next_counters (judge k a runs fails) ≡ some c')
          × (c'.fails ≡ fails + 1)
          × (pos (fails + 1) <ℤ a.max_fails))
unfolding judge
judge_short Class.ordered a runs fails h = ground arith
judge_short Class.failed a runs fails h = elim (Bool-cases (exhausted (fails + 1) a.max_fails)) [
  | inl full ↦ inl (a.err, rw full refl)
  | inr room ↦ inr (record { runs = runs; fails = fails + 1 }, rw room refl, refl, ground arith)
]
judge_short Class.ended a runs fails h =
    let short : leb_ℤ floor a.uptime ≡ false = ground arith in
    elim (Bool-cases (exhausted (fails + 1) a.max_fails)) [
      | inl full ↦ rw (short, judge, full) (inl (_, refl))
      | inr room ↦ inr (record { runs = runs; fails = fails + 1 }, ground arith, refl, ground arith)
    ]

-- A failure is counted, and returned when it is one too many.
pub round_failed :
    (c : Counters) (a : Attempt)
    → classify a.err ≡ Class.failed
    → round c a ≡ (
        if exhausted (c.fails + 1) a.max_fails
        then returns a.err
        else restarts (record { runs = c.runs + 1; fails = c.fails + 1 }))
unfolding round judge
round_failed c a h = rw h refl

-- Whatever its error, an attempt that ends before the floor counts a failure, or ends the loop.
judge_quick :
    (k : Class) (a : Attempt) (runs fails : ℕ)
    → a.uptime <ℤ floor
    → ((e : Option Err) × (judge k a runs fails ≡ returns e))
      ⊎ ((c' : Counters) × (next_counters (judge k a runs fails) ≡ some c')
          × (c'.fails ≡ fails + 1)
          × (pos (fails + 1) <ℤ a.max_fails))
unfolding judge
judge_quick Class.ordered a runs fails h = inl (a.err, refl)
judge_quick Class.failed a runs fails h = judge_short Class.failed a runs fails (inl refl)
judge_quick Class.ended a runs fails h = judge_short Class.ended a runs fails (inr (refl, h))

pub round_quick :
    (c : Counters) (a : Attempt)
    → a.uptime <ℤ floor
    → ((e : Option Err) × (round c a ≡ returns e))
      ⊎ ((c' : Counters) × (next_counters (round c a) ≡ some c')
          × (c'.fails ≡ c.fails + 1)
          × (pos (c.fails + 1) <ℤ a.max_fails))
unfolding round
round_quick c a h = judge_quick (classify a.err) a (c.runs + 1) c.fails h

pub goes_on_to :
    (c c' : Counters) (a : Attempt) (ts : List Turn)
    → next_counters (round c a) ≡ some c'
    → supervise c (attempt a ∷ ts) ≡ supervise c' ts
unfolding supervise
goes_on_to c c' a ts e = ground arith

-- The loop ends within as many short attempts in a row as its limit leaves room for, with a limit of 0
-- after the first one. Whatever happens later, it returns some result.
pub supervise_ends :
    (m : ℕ) (c : Counters) (ts : List Attempt) (more : List Turn)
    → All (λ a. IsShort a × (a.max_fails ≡ pos m)) ts
    → 0 < length ts
    → m ≤ c.fails + length ts
    → (e : Option Err) × (c' : Counters) × (supervise c (map attempt ts ++ more) ≡ finished e c')
unfolding supervise round
supervise_ends m c [] more h some_left enough = absurd (omega arith)
supervise_ends m c (a ∷ ts) more (here, rest) some_left enough =
    elim (judge_short (classify a.err) a (c.runs + 1) c.fails here.0) [
      | inl (e, done) ↦ rw (done, supervise) (_, _, refl)
      | inr (c', goes_on, one_more, room) ↦
          let bound : c.fails + 1 < m = ground (arith, here.1) in
          let (e, c'', done) = supervise_ends m c' ts more rest (omega arith) (omega arith) in
          (e, c'', goes_on_to c c' a (map attempt ts ++ more) goes_on ∙ done)
    ]

healthy_judge :
    (k : Class) (a : Attempt) (runs fails : ℕ)
    → k ≡ Class.ended
    → floor ≤ℤ a.uptime
    → pos 0 <ℤ a.max_fails
    → judge k a runs fails ≡ restarts (record { runs = runs; fails = 0 })
unfolding judge
healthy_judge Class.ended a runs fails e h p = ground arith
healthy_judge _ a runs fails e h p = cc

-- A lobby that keeps ending in order after 15 seconds or more is restarted for ever, with no failure
-- on record.
pub supervise_healthy :
    (c : Counters) (ts : List Attempt)
    → All (λ a. (classify a.err ≡ Class.ended) × (floor ≤ℤ a.uptime) × (pos 0 <ℤ a.max_fails)) ts
    → supervise c (map attempt ts)
      ≡ running
          (record { runs = c.runs + length ts; fails = if leb 1 (length ts) then 0 else c.fails })
unfolding supervise round
supervise_healthy c [] h = ground arith
supervise_healthy c (a ∷ ts) (here, rest) =
    let fresh : Counters = record { runs = c.runs + 1; fails = 0 } in
    goes_on_to c fresh a (map attempt ts) (
      ap next_counters (healthy_judge (classify a.err) a (c.runs + 1) c.fails here.0 here.1 here.2))
    ∙ supervise_healthy fresh ts rest
    ∙ ground arith

judge_once : (k : Class) (a : Attempt) → a.max_fails ≡ pos 0 → judge k a (0 + 1) 0 ≡ returns a.err
unfolding judge
judge_once Class.ordered a h = refl
judge_once Class.failed a h = ground arith
judge_once Class.ended a h = ground arith
