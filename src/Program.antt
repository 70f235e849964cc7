-- ===== src/Program.antt =====
-- The program from its options to its end: the loop of public/lobby/lobby.go, Run, over the lobbies that
-- its runc runs, while the watch of --flagdir changes the options. What happens in a lobby, the answers
-- of the system, the clock and the end of the context are inputs, one turn after another.
pub mod Ends
pub mod Orders
pub mod Invalid
pub mod Main
use snap_gs.Base.{◌+◌, true, false, ℤ, Bytes, List, [], ◌∷◌, Option, none, some, if◌then◌else◌}
use snap_gs.Errors.{Err}
use snap_gs.Options.{Options}
use snap_gs.Options.Files.{Decoders, Flag, on_events}
use snap_gs.Lobby.{Lobby, Disk, Env}
use snap_gs.Lobby.Bolt.{◌>>=◌}
use snap_gs.Lobby.Life.{Fate, run}
use snap_gs.Lobby.Collector.{Meta}
use snap_gs.Archive.{Answers, Deed, Marshalled, has_run, runc}
use snap_gs.Supervisor.{Counters, Attempt, Verdict, returns, restarts, waits, round}

-- What the watch of --flagdir hands to the options.
pub record Reading : Type 0 where
  pub files : Option (List Flag)
  pub error : Option Err

-- What a round meets: the error of the context when the lobby would start, the life of the lobby, the
-- log files, what is read from --flagdir until the lobby is over, and the uptime, rounded.
pub record Round : Type 0 where
  pub context : Option Err
  pub fate : Fate
  pub files : Answers
  pub readings : List Reading
  pub uptime : ℤ

-- At the head of the loop: the context has ended, or there is a round. The options may change between
-- two rounds.
pub data Turn : Type 0 where
  stopped : Err → Turn
  flagged : List Reading → Turn
  lived : Round → Turn

pub record Program : Type 0 where
  pub options : Options
  pub disk : Disk
  pub counters : Counters

pub data Status : Type 0 where
  going : Program → Status
  ended : Option Err → Program → Status

-- What is left of a lobby.
abbrev pub remains : {F : Type 0} → Option (Lobby F × Option Err) → Option (Disk × Option Err)
remains none = none
remains (some (l, result)) = some (l.disk, result)

module _ {F : Type 0} (env : Env F) where
  -- `Run` of a lobby starts with the test of the context.
  unfoldable pub enter : Option Err → Options → Disk → Fate → Option (Disk × Option Err)
  enter (some e) o disk w = some (disk, some e)
  enter none o disk w = remains (run env o disk w)

module _ {F : Type 0} (env : Env F) (marshal : Meta → Marshalled)
    (join : Bytes → Bytes → Bytes) where
  -- The files of a run whose lobby returns `result`.
  abbrev pub logged : Options → Answers → Option Err → List Deed × Option Err
  logged o files result = runc marshal join o (record files { result = result })

  -- `runc`, with a copy of the options: none is a run-time panic.
  unfoldable pub run_logged : Options → Disk → Round → Option (Disk × Option Err)
  unfolding enter runc
  run_logged o disk r = elim (has_run (logged o r.files none).0) [
    | true ↦ (do
      (disk', result) ← enter env r.context o disk r.fate
      some (disk', (logged o r.files result).1))
    | false ↦ some (disk, (logged o r.files none).1)
  ]

abbrev pub read_flags : Decoders → Options → List Reading → Options → Options
read_flags d saved [] o = o
read_flags d saved (r ∷ rs) o =
    read_flags d saved rs (on_events d saved (Reading.files r) (Reading.error r) o)

-- The program after a round.
abbrev pub settle : Verdict → Program → Status
settle (returns e) p =
    ended e (record p { counters = record p.counters { runs = p.counters.runs + 1 } })
settle (restarts c) p = going (record p { counters = c })
settle (waits d c) p = going (record p { counters = c })

module _ {F : Type 0} (env : Env F) (marshal : Meta → Marshalled) (join : Bytes → Bytes → Bytes)
    (d : Decoders) (saved : Options) where
  -- One round of the loop. `opts.MaxFails` is read when the lobby is over.
  unfoldable pub live_round : Round → Program → Option Status
  unfolding run_logged on_events round
  live_round r p = do
    (disk, err) ← run_logged env marshal join p.options p.disk r
    let o = read_flags d saved r.readings p.options
    let a : Attempt = record { err = err; uptime = r.uptime; max_fails = o.max_fails }
    some (settle (round p.counters a) (record p { options = o; disk = disk }))

  -- `Run`, as far as the turns bring it; `saved` holds the options as they were when the watch began.
  unfoldable pub drive : List Turn → Program → Option Status
  unfolding live_round on_events
  drive [] p = some (going p)
  drive (stopped e ∷ ts) p = some (ended (some e) p)
  drive (flagged rs ∷ ts) p = drive ts (record p { options = read_flags d saved rs p.options })
  drive (lived r ∷ ts) p = elim (live_round r p) [
    | none ↦ none
    | some (ended e q) ↦ some (ended e q)
    | some (going q) ↦ drive ts q
  ]
