-- ===== src/Lobby/Life/Safety.antt =====
-- However its goroutines interleave, a lobby ends in order (internal/lobby/lobby.go, runc and Run).
use snap_gs.Base.{
  ◌≡◌, refl, inl, inr, List, [], ◌∷◌, Option, none, some, arith, Option-cases, codes,
}
use snap_gs.Errors.{Err, lobby_done}
use snap_gs.Match.{Time}
use snap_gs.Options.{Options}
use snap_gs.Players.Invariant.{no_players-IsValid}
use snap_gs.Spec.{Spec}
use snap_gs.Lobby.{Lobby, Env, Disk, Process, Content, exited, started}
use snap_gs.Lobby.Alloc.{alloc, error_of}
use snap_gs.Lobby.Stat.{new_stat, rem_stats}
use snap_gs.Lobby.Stop.{cancel}
use snap_gs.Lobby.Stop.Laws.{answer, cancel-Stopped}
use snap_gs.Lobby.Safety.{
  Stage, unbound, over, Stopped-IsSafe, Stopped-settles, IsSafe, Returns, cancel_only-settles,
  set_stat-IsSafe, rem_stat-IsSafe, new_stat-IsSafe, cancel_only-IsSafe, collect-IsSafe,
}
use snap_gs.Lobby.Line.Safety.{filter-Passes}
use snap_gs.Lobby.Watcher.{tick, verdict, idle_for, up_again}
use snap_gs.Lobby.Life.{
  Happening, printed, ticked, drained, cancelled, spec_set, Fate, new_lobby, prepare, after_tick,
  happen, live, wind_up, served, unstarted, begun, committed, allocated, noted, runc, run,
}
use snap_gs.Players.{count}

-- A run returns `result`, and leaves the lobby safe.
abbrev pub EndsWith : {F : Type 0} → Stage → Option (Lobby F × Option Err) → Option Err → Type 0
EndsWith {F} stage r result = (l : Lobby F) × (r ≡ some (l, result)) × IsSafe stage l

-- A run returns, and leaves the lobby safe, with a reason on record.
abbrev pub Ends : {F : Type 0} → Option (Lobby F × Option Err) → Type 0
Ends r = (result : Option Err) × EndsWith over r result

-- The answer of the last `Cancel`: the exit of the process counts unless a reason other than the plain
-- end of the lobby is on record.
abbrev pub outcome : Option Err → Option Err → Option Err
outcome reason none = reason
outcome reason (some e) = answer reason e

module _ {F : Type 0} {stage : Stage} (env : Env F) where
  tick-Returns :
      (now clock last_up : Time) (l : Lobby F)
      → IsSafe stage l
      → Returns stage (after_tick (tick env now clock last_up l))
  unfolding tick
  tick-Returns now clock last_up l v =
      elim (Option-cases (
        verdict l.opts l.spec l.t1 l.m.match_id (count l.players).0
          (idle_for clock l.m.timestamp (up_again l.spec now last_up)))) [
            | inl fine ↦ rw (tick, fine) (l, refl, v)
            | inr (r, due) ↦
                let (l1, e1, v1) = cancel_only-IsSafe env r l v in
                let (l2, e2, v2) = cancel_only-IsSafe env lobby_done l1 v1 in
                (l2, rw (tick, due, e1, e2) refl, v2)
          ]

  happen-Returns : (h : Happening) (l : Lobby F) → IsSafe stage l → Returns stage (happen env h l)
  unfolding happen
  happen-Returns (printed fd bs now) l v =
      let (l1, kept, e, v1) = filter-Passes env fd bs now l v in (l1, rw e refl, v1)
  happen-Returns (ticked now clock last_up) l v = tick-Returns now clock last_up l v
  happen-Returns (drained now) l v = (_, refl, collect-IsSafe env now l v)
  happen-Returns (cancelled r) l v = cancel_only-IsSafe env r l v
  happen-Returns (spec_set spec) l v = (
    _,
    refl,
    record { players = v.players; closing = v.closing; queue = v.queue; settled = v.settled },
  )

  pub live-Returns :
      (hs : List Happening) (l : Lobby F) → IsSafe stage l → Returns stage (live env hs l)
  unfolding live
  live-Returns [] l v = (l, refl, v)
  live-Returns (h ∷ hs) l v =
      let (l1, e1, v1) = happen-Returns h l v in
      let (l2, e2, v2) = live-Returns hs l1 v1 in (l2, rw e1 e2, v2)

  pub rem_stats-IsSafe : (l : Lobby F) → IsSafe stage l → IsSafe stage (rem_stats l).0
  unfolding rem_stats
  rem_stats-IsSafe l v = record {
    players = v.players;
    closing = v.closing;
    queue = v.queue;
    settled = v.settled;
  }

  with_process-IsSafe :
      (p : Process) (l : Lobby F) → IsSafe stage l → IsSafe stage (record l { process = p })
  with_process-IsSafe p l v = record {
    players = v.players;
    closing = v.closing;
    queue = v.queue;
    settled = v.settled;
  }

  pub up-IsSafe :
      (w : Fate) (l : Lobby F)
      → IsSafe stage l
      → IsSafe stage (new_stat (codes "up") w.up (record l { process = started w.pid }))
  up-IsSafe w l v = new_stat-IsSafe (codes "up") w.up _ (with_process-IsSafe (started w.pid) l v)

module _ {F : Type 0} (env : Env F) where
  pub cancel-some-EndsWith :
      {stage : Stage} (r : Err) (l : Lobby F)
      → IsSafe stage l
      → EndsWith over (cancel env (some r) l) (outcome l.reason (some r))
  unfolding cancel
  cancel-some-EndsWith r l v =
      let (l1, returned, s) = cancel-Stopped env r l v.closing in
      (l1, returned, Stopped-settles env r l l1 v s)

  pub cancel-EndsWith :
      {stage : Stage} (r : Option Err) (l : Lobby F)
      → IsSafe stage l
      → EndsWith stage (cancel env r l) (outcome l.reason r)
  unfolding cancel
  cancel-EndsWith none l v = (l, refl, v)
  cancel-EndsWith {stage} (some r) l v =
      let (l1, returned, s) = cancel-Stopped env r l v.closing in
      (l1, returned, Stopped-IsSafe env r l l1 v s)

  pub wind_up-EndsWith :
      {stage : Stage} (late : List Happening) (result : Option Err) (l : Lobby F)
      → IsSafe stage l
      → EndsWith over (wind_up env late result l) result
  unfolding wind_up
  wind_up-EndsWith late result l v =
      let (l1, e1, v1) = cancel_only-settles env lobby_done l v in
      let (l2, e2, v2) = live-Returns env late l1 v1 in
      ((rem_stats l2).0, rw (wind_up, e1, e2) refl, rem_stats-IsSafe env l2 v2)

  -- A process that runs and ends: what is returned follows the reason on record at its end.
  pub served-EndsWith :
      (w : Fate) (l l1 : Lobby F)
      → IsSafe unbound l1
      → live env w.meanwhile (new_stat (codes "up") w.up (record l { process = started w.pid }))
        ≡ some l1
      → EndsWith over (served env w l) (outcome l1.reason w.exit)
  unfolding served
  served-EndsWith w l l1 v1 e1 =
      let (l2, e2, v2) = cancel-EndsWith w.exit _ (with_process-IsSafe env exited l1 v1) in
      rw (e1, e2) (wind_up-EndsWith w.late _ _ (rem_stat-IsSafe (codes "up") l2 v2))

  served-Ends : (w : Fate) (l : Lobby F) → IsSafe unbound l → Ends (served env w l)
  served-Ends w l v =
      let (l1, e1, v1) = live-Returns env w.meanwhile _ (up-IsSafe env w l v) in
      (_, served-EndsWith w l l1 v1 e1)

  unstarted-Ends :
      (w : Fate) (e : Err) (l : Lobby F) → IsSafe unbound l → Ends (unstarted env w e l)
  unfolding unstarted
  unstarted-Ends w e l v =
      let (l1, e1, v1) = cancel-some-EndsWith e l v in
      (outcome l.reason (some e), rw e1 (wind_up-EndsWith w.late (outcome l.reason (some e)) l1 v1))

  begun-Ends : (w : Fate) (e : Option Err) (l : Lobby F) → IsSafe unbound l → Ends (begun env w e l)
  unfolding begun
  begun-Ends w none l v = served-Ends w l v
  begun-Ends w (some e) l v = unstarted-Ends w e l v

  -- Whatever the lobby was before, it is safe when it is committed to run.
  pub prepare-IsSafe :
      (spec : Spec) (now : Time) (l : Lobby F) → IsSafe unbound (prepare env spec now l)
  unfolding prepare
  prepare-IsSafe spec now l = record {
    players = no_players-IsValid;
    closing = refl;
    queue = omega arith;
    settled = tt;
  }

  committed-Ends : (w : Fate) (l : Lobby F) → Ends (committed env w l)
  unfolding committed
  committed-Ends w l =
      let clear = (rem_stats (prepare env w.spec w.now l)).0 in
      let v = rem_stats-IsSafe env _ (prepare-IsSafe w.spec w.now l) in
      let (l1, e1, v1) =
        live-Returns env w.early _
          (set_stat-IsSafe (codes "session") (some (Content.text_of clear.session)) clear v) in
      rw e1 (begun-Ends w w.start_error l1 v1)

  allocated-Ends :
      (w : Fate) (e : Option Err) (l : Lobby F) → IsSafe unbound l → Ends (allocated env w e l)
  unfolding allocated
  allocated-Ends w none l v = committed-Ends w l
  allocated-Ends w (some e) l v = (_, cancel-some-EndsWith e l v)

  -- Whatever the system answers, whatever the game server prints, and however the lines, the ticks, the
  -- cancellations and the changes of the spec interleave before the start, while the process runs and
  -- after its end: `Run` returns without a run-time panic, and leaves a safe lobby that has a reason on
  -- record, so that its channel `done`, if it was made, is closed.
  pub run-Ends : (opts : Options) (disk : Disk) (w : Fate) → Ends (run env opts disk w)
  unfolding run runc new_lobby noted
  run-Ends opts disk w =
      allocated-Ends w (error_of (alloc opts w.answers).1) _
        (record { players = no_players-IsValid; closing = tt; queue = omega arith; settled = tt })
