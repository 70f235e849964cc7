-- ===== src/Program/Ends.antt =====
-- The program never panics, and gives up on lobbies that end too soon (public/lobby/lobby.go, Run and
-- runc; internal/lobby/lobby.go, Run).
use snap_gs.Base.{
  Bytes, ℕ, ◌+◌, ◌≤◌, ◌<◌, ◌≡◌, refl, ap, ◌∙◌, inl, inr, pos, ◌<ℤ◌, List, [], ◌∷◌, ◌++◌, map,
  Option, none, some, arith, length, All, Bool-cases,
}
use snap_gs.Errors.{Err}
use snap_gs.Options.{Options}
use snap_gs.Options.Files.{Decoders}
use snap_gs.Lobby.{Disk, Env}
use snap_gs.Lobby.Life.{Fate}
use snap_gs.Lobby.Life.Safety.{run-Ends}
use snap_gs.Lobby.Collector.{Meta}
use snap_gs.Archive.{Marshalled, has_run}
use snap_gs.Supervisor.{
  floor, Counters, Attempt, Verdict, returns, restarts, waits, next_counters, round,
}
use snap_gs.Supervisor.Policy.{round_quick}
use snap_gs.Program.{
  Reading, Round, Turn, lived, Program, Status, going, ended, enter, logged, run_logged, read_flags,
  settle, live_round, drive,
}

module _ {F : Type 0} (env : Env F) where
  enter-Returns :
      (context : Option Err) (o : Options) (disk : Disk) (w : Fate)
      → (disk' : Disk) × (result : Option Err) × (enter env context o disk w ≡ some (disk', result))
  unfolding enter
  enter-Returns (some e) o disk w = (disk, some e, refl)
  enter-Returns none o disk w =
      let (result, (l, e, v)) = run-Ends env o disk w in (l.disk, result, rw e refl)

-- A verdict that goes on.
pub settle_going :
    (v : Verdict) (p : Program) (c : Counters)
    → next_counters v ≡ some c
    → settle v p ≡ going (record p { counters = c })
settle_going (returns e) p c h = cc
settle_going (restarts c') p c h = cc
settle_going (waits d c') p c h = cc

module _ {F : Type 0} (env : Env F) (marshal : Meta → Marshalled)
    (join : Bytes → Bytes → Bytes) where
  pub run_logged-Returns :
      (o : Options) (disk : Disk) (r : Round)
      → (disk' : Disk) × (err : Option Err) × (run_logged env marshal join o disk r
          ≡ some (disk', err))
  unfolding run_logged
  run_logged-Returns o disk r =
      elim (Bool-cases (has_run (logged env marshal join o r.files none).0)) [
        | inl runs ↦
            let (disk', result, e) = enter-Returns env r.context o disk r.fate in
            (disk', (logged env marshal join o r.files result).1, rw (run_logged, runs, e) refl)
        | inr held ↦ (disk, (logged env marshal join o r.files none).1, rw (run_logged, held) refl)
      ]

module _ {F : Type 0} (env : Env F) (marshal : Meta → Marshalled) (join : Bytes → Bytes → Bytes)
    (d : Decoders) (saved : Options) where
  -- The program after a round whose lobby left `disk` and `err`, with what was read meanwhile.
  abbrev pub round_end : Round → Program → Disk → Option Err → List Reading → Status
  round_end r p disk err readings =
      let o = read_flags d saved readings p.options in
      let a : Attempt = record { err = err; uptime = r.uptime; max_fails = o.max_fails } in
      settle (round p.counters a) (record p { options = o; disk = disk })

  -- What a round comes to, by what its lobby came to.
  pub live_round_ran :
      (r : Round) (p : Program) (disk : Disk) (err : Option Err)
      → run_logged env marshal join p.options p.disk r ≡ some (disk, err)
      → live_round env marshal join d saved r p ≡ some (round_end r p disk err r.readings)
  unfolding live_round
  live_round_ran r p disk err ran = rw ran refl

  pub drive_stops :
      (r : Round) (ts : List Turn) (p q : Program) (e : Option Err)
      → live_round env marshal join d saved r p ≡ some (ended e q)
      → drive env marshal join d saved (lived r ∷ ts) p ≡ some (ended e q)
  unfolding drive
  drive_stops r ts p q e h = rw (drive, h) refl

  pub drive_goes :
      (r : Round) (ts : List Turn) (p q : Program)
      → live_round env marshal join d saved r p ≡ some (going q)
      → drive env marshal join d saved (lived r ∷ ts) p ≡ drive env marshal join d saved ts q
  unfolding drive
  drive_goes r ts p q h = rw (drive, h) refl

  -- Rounds of less than 15 seconds each, which leave the options alone, end the program by the time
  -- that their number, with the failures on record, is the limit `maxfails`; with a limit of 0 the
  -- first round does. This holds for whatever the lobbies do in them and whatever they return.
  pub drive_ends :
      (m : ℕ) (rs : List Round) (more : List Turn) (p : Program)
      → p.options.max_fails ≡ pos m
      → All (λ r. (Round.uptime r <ℤ floor) × (Round.readings r ≡ [])) rs
      → 0 < length rs
      → m ≤ p.counters.fails + length rs
      → (e : Option Err) × (q : Program) × (drive env marshal join d saved (map lived rs ++ more) p
          ≡ some (ended e q))
  drive_ends m [] more p limit h some_left enough = absurd (omega arith)
  drive_ends m (r ∷ rs) more p limit ((quick, silent), rest) some_left enough =
      let (disk, err, ran) = run_logged-Returns env marshal join p.options p.disk r in
      let a : Attempt = record { err = err; uptime = r.uptime; max_fails = p.options.max_fails } in
      let after : Program = record p { disk = disk } in
      let now : live_round env marshal join d saved r p ≡ some (settle (round p.counters a) after) =
        live_round_ran r p disk err ran ∙ ap (λ rs. some (round_end r p disk err rs)) silent in
      elim (round_quick p.counters a quick) [
        | inl (result, done) ↦ (
          result,
          _,
          drive_stops r (map lived rs ++ more) p _ result
              (now ∙ ap (λ v. some (settle v after)) done),
        )
        | inr (c', goes_on, one_more, room) ↦
            let q : Program = record after { counters = c' } in
            let bound : p.counters.fails + 1 < m = ground (arith, limit) in
            let (result, q', done) =
              drive_ends m rs more q limit rest (omega arith) (omega arith) in
            (
              result,
              q',
              drive_goes r (map lived rs ++ more) p q
                    (now ∙ ap some (settle_going (round p.counters a) after c' goes_on))
                  ∙ done,
            )
      ]
