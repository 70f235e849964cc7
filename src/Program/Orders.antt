-- ===== src/Program/Orders.antt =====
-- An order in --specdir ends the program with its own exit code (internal/lobby/watch.go,
-- public/lobby/lobby.go, public/cmd/root.go and cmd/snap-gs/main.go).
use snap_gs.Base.{
  ℕ, Bytes, false, ◌≡◌, refl, ap, sym, ◌∙◌, not, is_some, List, [], ◌∷◌, ◌++◌, Option, none, some,
  arith,
}
use snap_gs.Errors.{Err, lobby_downed, lobby_stopped, lobby_restarted, is_done}
use snap_gs.Match.{Time}
use snap_gs.Options.{Options}
use snap_gs.Options.Files.{Decoders}
use snap_gs.Spec.{Spec}
use snap_gs.Lobby.{Disk, Env}
use snap_gs.Lobby.Alloc.{alloc, error_of}
use snap_gs.Lobby.Watcher.{verdict, idle_for, up_again}
use snap_gs.Lobby.Life.{Happening, ticked, spec_set}
use snap_gs.Lobby.Life.Orders.{run-verdict}
use snap_gs.Lobby.Collector.{Meta}
use snap_gs.Archive.{Marshalled}
use snap_gs.Archive.Whole.{first_error, obstacles, or_error, runc-published}
use snap_gs.Supervisor.{Attempt, Class, classify}
use snap_gs.Supervisor.Policy.{round_paced}
use snap_gs.Exit.{main_code}
use snap_gs.Program.{
  Round, Turn, stopped, flagged, lived, Program, Status, going, ended, enter, run_logged,
  read_flags, settle, live_round, drive,
}
use snap_gs.Program.Ends.{run_logged-Returns, live_round_ran, drive_stops, drive_goes}

-- What a spec can order.
pub data Order : Type 0 where
  down stop restart : Order

abbrev pub reason_of : Order → Err
reason_of down = lobby_downed
reason_of stop = lobby_stopped
reason_of restart = lobby_restarted

abbrev pub code_of : Order → ℕ
code_of down = 4
code_of stop = 5
code_of restart = 6

reason_of-ordered : (o : Order) → classify (some (reason_of o)) ≡ Class.ordered
reason_of-ordered down = refl
reason_of-ordered stop = refl
reason_of-ordered restart = refl

reason_of-is_done : (o : Order) → is_done (reason_of o) ≡ false
reason_of-is_done down = refl
reason_of-is_done stop = refl
reason_of-is_done restart = refl

main_code-reason_of :
    (o : Order) (hard : Option Err) → main_code (some (reason_of o)) hard none ≡ code_of o
unfolding main_code
main_code-reason_of down hard = ground arith
main_code-reason_of stop hard = ground arith
main_code-reason_of restart hard = ground arith

module _ {F : Type 0} (env : Env F) (marshal : Meta → Marshalled)
    (join : Bytes → Bytes → Bytes) where
  -- With nothing in the way the lobby is run, and its result returned.
  run_logged_ran :
      (o : Options) (disk disk' : Disk) (r : Round) (result : Option Err)
      → first_error (obstacles marshal join o r.files) ≡ none
      → enter env r.context o disk r.fate ≡ some (disk', result)
      → run_logged env marshal join o disk r ≡ some (disk', result)
  unfolding run_logged
  run_logged_ran o disk disk' r result clear entered =
      let (_, runs, _) = runc-published marshal join o (record r.files { result = none }) in
      let (returned, _, _) = runc-published marshal join o (record r.files { result = result }) in
      let held = runs ∙ ap (λ e. not (is_some e)) clear in
      let reported = returned ∙ ap (λ e. or_error marshal join e result) clear in
      rw (run_logged, held, entered, reported) refl

module _ {F : Type 0} (env : Env F) (marshal : Meta → Marshalled) (join : Bytes → Bytes → Bytes)
    (d : Decoders) (saved : Options) where
  going-same :
      (more : List Turn) (p q : Program)
      → some (going p) ≡ some (going q)
      → drive env marshal join d saved more p ≡ drive env marshal join d saved more q
  going-same more p q h = cc

  -- After a round, where the rest is known.
  lived-append :
      (r : Round) (ts more : List Turn) (p q : Program) (s : Status)
      → live_round env marshal join d saved r p ≡ some s
      → drive env marshal join d saved (lived r ∷ ts) p ≡ some (going q)
      → ((p' : Program)
          → drive env marshal join d saved ts p' ≡ some (going q)
          → drive env marshal join d saved (ts ++ more) p' ≡ drive env marshal join d saved more q)
      → drive env marshal join d saved (lived r ∷ ts ++ more) p
        ≡ drive env marshal join d saved more q
  lived-append r ts more p q (ended e q') lives h rest =
      let over = drive_stops env marshal join d saved r ts p q' e lives in cc
  lived-append r ts more p q (going p') lives h rest =
      drive_goes env marshal join d saved r (ts ++ more) p p' lives
      ∙ rest p' (sym (drive_goes env marshal join d saved r ts p p' lives) ∙ h)

  -- The turns after those that the program has gone through.
  drive-append :
      (before more : List Turn) (p q : Program)
      → drive env marshal join d saved before p ≡ some (going q)
      → drive env marshal join d saved (before ++ more) p ≡ drive env marshal join d saved more q
  unfolding drive
  drive-append [] more p q h = going-same more p q h
  drive-append (stopped e ∷ ts) more p q h = cc
  drive-append (flagged rs ∷ ts) more p q h = drive-append ts more _ q h
  drive-append (lived r ∷ ts) more p q h =
      let (disk, err, ran) = run_logged-Returns env marshal join p.options p.disk r in
      lived-append r ts more p q _ (live_round_ran env marshal join d saved r p disk err ran) h
        (λ p'. drive-append ts more p' q)

  -- However the program came to it: in a round that nothing keeps from its lobby, whose lobby starts, a
  -- spec comes up, and the tick after that finds the order to go down, to stop or to restart in it, for
  -- an empty lobby without a match. Then the program ends with this order, and with the exit code 4, 5
  -- or 6 where there was no SIGTERM, whatever happens in the lobby afterwards, whatever the process
  -- returns and however long the lobby has run.
  pub drive_order :
      (before more : List Turn) (p q : Program) (r : Round) (spec : Spec) (now clock last_up : Time)
      (order : Order) (hs : List Happening) (hard : Option Err)
      → drive env marshal join d saved before p ≡ some (going q)
      → r.context ≡ none
      → first_error (obstacles marshal join q.options r.files) ≡ none
      → error_of (alloc q.options r.fate.answers).1 ≡ none
      → r.fate.start_error ≡ none
      → r.fate.early ≡ []
      → r.fate.meanwhile ≡ spec_set spec ∷ ticked now clock last_up ∷ hs
      → verdict q.options spec r.fate.now [] 0
          (idle_for clock r.fate.now (up_again spec now last_up))
        ≡ some (reason_of order)
      → (q' : Program) × (drive env marshal join d saved (before ++ lived r ∷ more) p
          ≡ some (ended (some (reason_of order)) q'))
        × (main_code (some (reason_of order)) hard none ≡ code_of order)
  unfolding enter
  drive_order before more p q r spec now clock last_up order hs hard comes on clear allocates starts
        calm only due =
      let (l, ran, safe) =
        run-verdict env q.options q.disk r.fate spec now clock last_up (reason_of order) hs
          allocates starts calm only due (reason_of-is_done order) in
      let entered : enter env r.context q.options q.disk r.fate
          ≡ some (l.disk, some (reason_of order)) =
        rw (on, ran) refl in
      let logs =
        run_logged_ran env marshal join q.options q.disk l.disk r (some (reason_of order)) clear
          entered in
      let lives =
        live_round_ran env marshal join d saved r q l.disk (some (reason_of order)) logs in
      let o = read_flags d saved r.readings q.options in
      let a : Attempt = record {
        err = some (reason_of order);
        uptime = r.uptime;
        max_fails = o.max_fails;
      } in
      let returned = (round_paced q.counters a).0 (reason_of-ordered order) in
      let after : Program = record q { options = o; disk = l.disk } in
      (
        _,
        drive-append before (lived r ∷ more) p q comes
            ∙ drive_stops env marshal join d saved r more q _ (some (reason_of order))
                (lives ∙ ap (λ v. some (settle v after)) returned),
        main_code-reason_of order hard,
      )
