-- ===== src/Lobby/Life/Outcome.antt =====
-- What a run of a lobby reports (internal/lobby/lobby.go, runc, Run and Cancel).
use snap_gs.Base.{
  ◌≡◌, refl, ap, sym, ◌∙◌, inl, inr, List, [], ◌∷◌, map, Option, none, some, codes, Option-cases,
}
use snap_gs.Errors.{Err}
use snap_gs.Options.{Options}
use snap_gs.Lobby.{Lobby, Env, Disk, Content, started}
use snap_gs.Lobby.Alloc.{alloc, error_of}
use snap_gs.Lobby.Stat.{set_stat, new_stat, rem_stats}
use snap_gs.Lobby.Stop.{cancel_only}
use snap_gs.Lobby.Stop.Laws.{IsClosing, cancel_each, final_reason, cancel_each-final_reason}
use snap_gs.Lobby.Safety.{unbound, over, IsSafe, set_stat-IsSafe}
use snap_gs.Lobby.Life.{
  cancelled, Fate, new_lobby, prepare, happen, live, served, begun, committed, allocated, noted,
  runc, run,
}
use snap_gs.Lobby.Life.Safety.{
  EndsWith, outcome, live-Returns, up-IsSafe, served-EndsWith, rem_stats-IsSafe, prepare-IsSafe,
}

module _ {F : Type 0} where
  abbrev reason_of : Option (Lobby F) → Option Err
  reason_of none = none
  reason_of (some l) = l.reason

module _ {F : Type 0} (env : Env F) where
  pub live-cancel_each :
      (rs : List Err) (l : Lobby F) → live env (map cancelled rs) l ≡ cancel_each env rs l
  unfolding live happen cancel_each
  live-cancel_each [] l = refl
  live-cancel_each (r ∷ rs) l = elim (Option-cases (cancel_only env r l)) [
    | inl stuck ↦ rw (stuck, cancel_each) refl
    | inr (l', e) ↦ rw (e, cancel_each) (live-cancel_each rs l')
  ]

  -- A process that runs, where what happens meanwhile comes to calls of `Cancel`.
  pub served-outcome :
      (w : Fate) (rs : List Err) (l from : Lobby F)
      → IsSafe unbound l
      → IsClosing from.done from.reason
      → live env w.meanwhile (new_stat (codes "up") w.up (record l { process = started w.pid }))
        ≡ cancel_each env rs from
      → EndsWith over (served env w l) (outcome (final_reason from.reason rs) w.exit)
  served-outcome w rs l from v ok only =
      let (l1, e1, v1) = live-Returns env w.meanwhile _ (up-IsSafe env w l v) in
      let (l2, e2, reason, _) = cancel_each-final_reason env rs from ok in
      let same : some l1 ≡ some l2 = sym e1 ∙ only ∙ e2 in
      let agrees : l1.reason ≡ final_reason from.reason rs = ap reason_of same ∙ reason in
      let ended : EndsWith over (served env w l) (outcome l1.reason w.exit) =
        served-EndsWith env w l l1 v1 e1 in
      rw agrees at ended

  -- The lobby when its process starts, where nothing has happened before.
  abbrev pub named : Options → Disk → Fate → Lobby F
  named opts disk w =
      let clear =
        (rem_stats (prepare env w.spec w.now (noted env w (new_lobby env opts disk)))).0 in
      set_stat (codes "session") (some (Content.text_of clear.session)) clear

  pub run-served :
      (opts : Options) (disk : Disk) (w : Fate)
      → error_of (alloc opts w.answers).1 ≡ none
      → w.start_error ≡ none
      → w.early ≡ []
      → (run env opts disk w ≡ served env w (named opts disk w))
        × IsSafe unbound (named opts disk w)
  unfolding run runc live
  run-served opts disk w allocates starts calm =
      let new = noted env w (new_lobby env opts disk) in
      let ready = prepare env w.spec w.now new in
      let clear = (rem_stats ready).0 in
      (
        rw (allocates, allocated, committed, calm, starts, begun) refl,
        set_stat-IsSafe (codes "session") (some (Content.text_of clear.session)) clear
            (rem_stats-IsSafe env ready (prepare-IsSafe env w.spec w.now new)),
      )

  -- When `alloc` succeeds, the process starts, and goroutines cancel for the reasons `rs` while it
  -- runs, in any order, `Run` returns the first of them that is not `lobby done`, and leaves a safe
  -- lobby with a reason. Without one it returns the error of the process, and `lobby done` or nil when
  -- the process ended well.
  pub run-outcome :
      (opts : Options) (disk : Disk) (w : Fate) (rs : List Err)
      → error_of (alloc opts w.answers).1 ≡ none
      → w.start_error ≡ none
      → w.early ≡ []
      → w.meanwhile ≡ map cancelled rs
      → EndsWith over (run env opts disk w) (outcome (final_reason none rs) w.exit)
  unfolding prepare set_stat rem_stats new_stat
  run-outcome opts disk w rs allocates starts calm only =
      let (ran, v) = run-served opts disk w allocates starts calm in
      let up =
        new_stat (codes "up") w.up (record (named opts disk w) { process = started w.pid }) in
      rw ran (
        served-outcome w rs (named opts disk w) up v v.closing
          (ap (λ hs. live env hs up) only ∙ live-cancel_each rs up))
