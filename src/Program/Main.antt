-- ===== src/Program/Main.antt =====
-- The whole of a run of `snap-gs lobby` (public/cmd/lobby.go, RunE; cmd/snap-gs/main.go, main and mainc).
-- The files that RunE prepares and the status files of the lobbies are two states.
pub mod Refused
use snap_gs.Base.{Bool, ℕ, ℤ, Bytes, List, Option, none, some}
use snap_gs.Errors.{Err}
use snap_gs.Options.{Options}
use snap_gs.Options.Files.{Decoders}
use snap_gs.Lobby.{Disk, Env}
use snap_gs.Lobby.Collector.{Meta}
use snap_gs.Archive.{Marshalled}
use snap_gs.Command.{Environment, options_of}
use snap_gs.Command.Setup.{Os, Library, Found, Result, ok, failed, setup}
use snap_gs.Supervisor.{start}
use snap_gs.Exit.{main_code}
use snap_gs.Program.{Turn, Program, Status, going, ended, drive}

-- The libraries that the command and the lobbies use.
pub record Libraries (F : Type 0) : Type 0 where
  pub env : Env F
  pub marshal : Meta → Marshalled
  pub url : Library
  pub duration : Bytes → Option ℤ

-- How the program is called: its environment, which flags are given, and their values.
pub record Call : Type 0 where
  pub variables : Environment
  pub given : Bytes → Bool
  pub flags : Options

-- RunE returns before it runs a lobby, or goes on to the loop.
pub data Outcome : Type 0 where
  refused : Err → Outcome
  came_to : Status → Outcome

abbrev pub at_loop : Option Status → Option Outcome
at_loop none = none
at_loop (some s) = some (came_to s)

module _ {F : Type 0} (libs : Libraries F) {S : Type 0} (os : Os S) (w : Found) where
  abbrev pub options : Call → Options
  options c = options_of libs.duration c.variables c.given c.flags

  -- The watch of --flagdir begins before the pid files are read, so what it has saved has them as they
  -- were given.
  abbrev pub after_setup : Options → List Turn → Disk → S × Result Options → S × Option Outcome
  after_setup saved ts disk (s, failed e) = (s, some (refused e))
  after_setup saved ts disk (s, ok o) = (
    s,
    at_loop (
        drive libs.env libs.marshal libs.url.join libs.url.decoders saved ts
          (record { options = o; disk = disk; counters = start })),
  )

  unfoldable pub run_e : Call → List Turn → Disk → S → S × Option Outcome
  unfolding options_of setup drive
  run_e c ts disk s = after_setup (options c) ts disk (setup libs.url os w (options c) s)

-- The exit code, where the program has ended; the errors of the two signal contexts are as in mainc.
unfoldable pub code_after : Option Err → Option Err → Outcome → Option ℕ
unfolding main_code
code_after hard soft (refused e) = some (main_code (some e) hard soft)
code_after hard soft (came_to (ended e p)) = some (main_code e hard soft)
code_after hard soft (came_to (going p)) = none
