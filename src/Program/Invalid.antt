-- ===== src/Program/Invalid.antt =====
-- Options that are not valid (public/options/lobby.go, Validate; public/lobby/lobby.go, runc and Run).
use snap_gs.Base.{
  ◌+◌, ◌<◌, Bytes, ◌≡◌, refl, ap, ◌∙◌, pos, ◌≤ℤ◌, not, is_some, List, [], ◌∷◌, ◌++◌, map, Option,
  none, some, arith, length, All, Bool-cases, inl, inr,
}
use snap_gs.Errors.{Err}
use snap_gs.Options.{Options, validate}
use snap_gs.Options.Files.{Decoders}
use snap_gs.Lobby.{Disk, Env}
use snap_gs.Lobby.Collector.{Meta}
use snap_gs.Archive.{Marshalled}
use snap_gs.Archive.Whole.{first_error, obstacles, or_error, runc-published}
use snap_gs.Supervisor.{Counters, Attempt, Class, classify, exhausted, round, returns, restarts}
use snap_gs.Supervisor.Policy.{round_failed}
use snap_gs.Exit.{main_code}
use snap_gs.Program.{Round, Turn, lived, Program, ended, run_logged, settle, live_round, drive}
use snap_gs.Program.Ends.{live_round_ran, round_end, drive_stops, drive_goes}

-- An error of `Validate` is a failure, and has the exit code 1.
pub validate-failed :
    (o : Options) (e : Err) (hard : Option Err)
    → validate o ≡ some e
    → (classify (some e) ≡ Class.failed) × (main_code (some e) hard none ≡ 1)
unfolding validate main_code
validate-failed o e hard h = (ground arith, ground arith)

module _ {F : Type 0} (env : Env F) (marshal : Meta → Marshalled)
    (join : Bytes → Bytes → Bytes) where
  run_logged_invalid :
      (o : Options) (disk : Disk) (r : Round) (e : Err)
      → validate o ≡ some e
      → run_logged env marshal join o disk r ≡ some (disk, some e)
  unfolding run_logged
  run_logged_invalid o disk r e h =
      let (returned, runs, _) = runc-published marshal join o (record r.files { result = none }) in
      let first : first_error (obstacles marshal join o (record r.files { result = none }))
          ≡ some e =
        rw h refl in
      let held = runs ∙ ap (λ x. not (is_some x)) first in
      let reported = returned ∙ ap (λ x. or_error marshal join x none) first in
      rw (run_logged, held, reported) refl

module _ {F : Type 0} (env : Env F) (marshal : Meta → Marshalled) (join : Bytes → Bytes → Bytes)
    (d : Decoders) (saved : Options) where
  -- Rounds on options that are not valid: each is a failure, at once and without a lobby, until there
  -- are `maxfails` of them.
  pub drive_invalid :
      (e : Err) (rs : List Round) (more : List Turn) (p : Program)
      → validate p.options ≡ some e
      → All (λ r. Round.readings r ≡ []) rs
      → 0 < length rs
      → p.options.max_fails ≤ℤ pos (p.counters.fails + length rs)
      → (c : Counters) × (drive env marshal join d saved (map lived rs ++ more) p
          ≡ some (ended (some e) (record p { counters = c })))
  drive_invalid e [] more p h silent some_left enough = absurd (omega arith)
  drive_invalid e (r ∷ rs) more p h (quiet, rest) some_left enough =
      let a : Attempt = record {
        err = some e;
        uptime = r.uptime;
        max_fails = p.options.max_fails;
      } in
      let lives : live_round env marshal join d saved r p ≡ some (settle (round p.counters a) p) =
        live_round_ran env marshal join d saved r p p.disk (some e)
          (run_logged_invalid env marshal join p.options p.disk r e h)
        ∙ ap (λ x. some (round_end env marshal join d saved r p p.disk (some e) x)) quiet in
      let counted = round_failed p.counters a (validate-failed p.options e none h).0 in
      elim (Bool-cases (exhausted (p.counters.fails + 1) p.options.max_fails)) [
        | inl full ↦
            let returned : round p.counters a ≡ returns (some e) = rw full at counted in
            (
              _,
              drive_stops env marshal join d saved r (map lived rs ++ more) p _ (some e)
                  (lives ∙ ap (λ v. some (settle v p)) returned),
            )
        | inr room ↦
            let next : Counters = record {
              runs = p.counters.runs + 1;
              fails = p.counters.fails + 1;
            } in
            let q : Program = record p { counters = next } in
            let goes_on : round p.counters a ≡ restarts next = rw room at counted in
            let (c, done) = drive_invalid e rs more q h rest (ground arith) (omega arith) in
            (
              c,
              drive_goes env marshal join d saved r (map lived rs ++ more) p q
                    (lives ∙ ap (λ v. some (settle v p)) goes_on)
                  ∙ done,
            )
      ]
