-- ===== src/Lobby/Life/Orders.antt =====
-- An order in --specdir reaches the caller of a lobby (internal/lobby/watch.go, spec.go and lobby.go, runc).
use snap_gs.Base.{false, ◌≡◌, refl, ap, ◌∙◌, List, [], ◌∷◌, Option, none, some, codes}
use snap_gs.Errors.{Err, lobby_done, is_done}
use snap_gs.Match.{Time, empty_match}
use snap_gs.Options.{Options}
use snap_gs.Players.{count, no_players}
use snap_gs.Spec.{Spec}
use snap_gs.Lobby.{Lobby, Env, Disk, started}
use snap_gs.Lobby.Alloc.{alloc, error_of}
use snap_gs.Lobby.Stat.{set_stat, new_stat, rem_stats}
use snap_gs.Lobby.Safety.{IsSafe, weaken, bound, Stopped-settles, cancel_only-IsSafe, unbound, over}
use snap_gs.Lobby.Stop.Laws.{cancel_only-Stopped, next_reason}
use snap_gs.Lobby.Watcher.{tick, verdict, idle_for, up_again}
use snap_gs.Lobby.Life.{
  Happening, ticked, spec_set, Fate, prepare, noted, new_lobby, happen, live, run,
}
use snap_gs.Lobby.Life.Safety.{live-Returns, served-EndsWith, EndsWith, outcome}
use snap_gs.Lobby.Life.Outcome.{named, run-served}

-- A reason other than the end of the lobby stays: the error of the process does not count.
outcome-stays : (r : Err) (e : Option Err) → is_done r ≡ false → outcome (some r) e ≡ some r
outcome-stays r none h = refl
outcome-stays r (some e) h = rw h refl

module _ {F : Type 0} (env : Env F) where
  -- A tick whose verdict is `r`, where there was no reason: from then on `r` is the reason.
  ticked-IsSafe :
      (now clock last_up : Time) (r : Err) (hs : List Happening) (l : Lobby F)
      → IsSafe unbound l
      → l.reason ≡ none
      → verdict l.opts l.spec l.t1 l.m.match_id
          (count l.players).0
          (idle_for clock l.m.timestamp (up_again l.spec now last_up))
        ≡ some r
      → is_done r ≡ false
      → (l' : Lobby F) × (live env (ticked now clock last_up ∷ hs) l ≡ live env hs l')
        × IsSafe (bound r) l'
  unfolding live happen tick
  ticked-IsSafe now clock last_up r hs l v fresh due real =
      let (l1, e1, s) = cancel_only-Stopped env r l v.closing in
      let settles = Stopped-settles env r l l1 v s in
      let v1 : IsSafe (bound r) l1 = record {
        players = settles.players;
        closing = settles.closing;
        queue = settles.queue;
        settled = (s.reason ∙ ap (λ o. some (next_reason o r)) fresh, real);
      } in
      let (l2, e2, v2) = cancel_only-IsSafe env lobby_done l1 v1 in
      (l2, rw (live, happen, tick, due, e1, e2) refl, v2)

  -- When `alloc` succeeds and the process starts, the spec changes, and the tick after that finds a
  -- reason in it for an empty lobby without a match, `Run` returns this reason and leaves a safe lobby
  -- with a reason on record, whatever happens afterwards and whatever the process returns.
  pub run-verdict :
      (opts : Options) (disk : Disk) (w : Fate) (spec : Spec) (now clock last_up : Time) (r : Err)
      (hs : List Happening)
      → error_of (alloc opts w.answers).1 ≡ none
      → w.start_error ≡ none
      → w.early ≡ []
      → w.meanwhile ≡ spec_set spec ∷ ticked now clock last_up ∷ hs
      → verdict opts spec w.now [] 0 (idle_for clock w.now (up_again spec now last_up)) ≡ some r
      → is_done r ≡ false
      → EndsWith over (run env opts disk w) (some r)
  unfolding prepare noted new_lobby set_stat rem_stats new_stat live happen count no_players
      empty_match
  run-verdict opts disk w spec now clock last_up r hs allocates starts calm order due real =
      let (ran, v) = run-served env opts disk w allocates starts calm in
      let up =
        new_stat (codes "up") w.up (record (named env opts disk w) { process = started w.pid }) in
      let v0 : IsSafe unbound (record up { spec = spec }) = record {
        players = v.players;
        closing = v.closing;
        queue = v.queue;
        settled = tt;
      } in
      let (l1, e1, v1) = ticked-IsSafe now clock last_up r hs _ v0 refl due real in
      let (l2, e2, v2) = live-Returns env hs l1 v1 in
      let (l3, ended, safe) =
        served-EndsWith env w (named env opts disk w) l2 (weaken l2 v2)
          (ap (λ ts. live env ts up) order ∙ e1 ∙ e2) in
      let same = ap (λ o. outcome o w.exit) v2.settled.0 ∙ outcome-stays r w.exit real in
      rw ran (l3, ended ∙ ap (λ o. some (l3, o)) same, safe)
