-- ===== src/Program/Main/Refused.antt =====
-- A call whose options are not valid (public/cmd/lobby.go, RunE; public/options/lobby.go, Validate).
use snap_gs.Base.{
  ◌<◌, Bytes, ◌≡◌, refl, ap, ◌∙◌, pos, ◌≤ℤ◌, List, [], ◌++◌, map, Option, none, some, arith, length,
  All,
}
use snap_gs.Errors.{Err}
use snap_gs.Options.{Options, validate}
use snap_gs.Lobby.{Disk}
use snap_gs.Command.Setup.{Os, Found, ok, setup}
use snap_gs.Command.Setup.Success.{with_flags, setup-pid_file}
use snap_gs.Supervisor.{start}
use snap_gs.Program.{Round, Turn, lived, Program, ended}
use snap_gs.Program.Invalid.{validate-failed, drive_invalid}
use snap_gs.Program.Main.{
  Libraries, Call, came_to, at_loop, options, after_setup, run_e, code_after,
}

-- The set-up leaves alone what `Validate` looks at.
with_pid_file-validate :
    (o o' : Options) (file : Bytes)
    → o' ≡ record o { pid_file = file }
    → (validate o' ≡ validate o) × (o'.max_fails ≡ o.max_fails)
unfolding validate
with_pid_file-validate o o' file same = (ap validate same, ap (λ x. Options.max_fails x) same)

module _ {F : Type 0} (libs : Libraries F) {S : Type 0} (os : Os S) (w : Found) where
  -- Where the flags, the environment and the files that --flagdir held when its watch began make options
  -- that are not valid, RunE comes as far as to run the lobbies, and nothing more is read from --flagdir,
  -- no lobby is ever started: as many rounds as `maxfails`, and one at least, return the error of
  -- `Validate`, the status files are left alone, and the exit code is 1 where there was no SIGTERM.
  pub run_e_invalid :
      (c : Call) (e : Err) (rs : List Round) (more : List Turn) (disk : Disk) (s t : S)
      (o : Options) (hard : Option Err)
      → validate (with_flags libs.url w (options libs os w c)) ≡ some e
      → setup libs.url os w (options libs os w c) s ≡ (t, ok o)
      → All (λ r. Round.readings r ≡ []) rs
      → 0 < length rs
      → Options.max_fails (with_flags libs.url w (options libs os w c)) ≤ℤ pos (length rs)
      → (p : Program) × (run_e libs os w c (map lived rs ++ more) disk s
          ≡ (t, some (came_to (ended (some e) p))))
        × (p.disk ≡ disk)
        × (code_after hard none (came_to (ended (some e) p)) ≡ some 1)
  unfolding run_e code_after
  run_e_invalid c e rs more disk s t o hard bad prepared quiet some_left enough =
      let saved = options libs os w c in
      let (same, limit) =
        with_pid_file-validate (with_flags libs.url w saved) o _
          (setup-pid_file libs.url os w saved o s t prepared) in
      let begun : Program = record { options = o; disk = disk; counters = start } in
      let (k, done) =
        drive_invalid libs.env libs.marshal libs.url.join libs.url.decoders saved e rs more begun
          (same ∙ bad) quiet some_left (rw limit (omega arith)) in
      (
        record begun { counters = k },
        ap (after_setup libs os w saved (map lived rs ++ more) disk) prepared
            ∙ ap (λ x. (t, at_loop x)) done,
        refl,
        ap some (validate-failed (with_flags libs.url w saved) e hard bad).1,
      )
