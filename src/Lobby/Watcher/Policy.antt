-- ===== src/Lobby/Watcher/Policy.antt =====
-- When an idle lobby is ended (internal/lobby/watch.go, watcher).
use snap_gs.Base.{
  ℕ, ◌≡◌, ◌≢◌, ◌⊎◌, inl, inr, refl, Bytes, Bool, true, false, [], Option, none, some, arith,
  bytes_eq, bytes_key, Bool-cases, Option-cases, sym, ◌∙◌, ◌==◌, ℤ, pos, ◌≤ℤ◌, ◌<ℤ◌,
}
use snap_gs.Errors.{Err, lobby_admin_timeout, lobby_timeout, lobby_downed}
use snap_gs.Match.{Time}
use snap_gs.Options.{Options}
use snap_gs.Errors.{lobby_done}
use snap_gs.Players.{count}
use snap_gs.Lobby.{Lobby, Env}
use snap_gs.Lobby.Stop.Laws.{IsClosing, Stopped-IsClosing, cancel_only-Stopped}
use snap_gs.Spec.{Spec, force_down_after, reason_after}
use snap_gs.Lobby.Watcher.{
  idle_for, up_again, tick, interval, least_interval, second, verdict, with_players,
  without_players, expired,
}

some-ne_none : {r : Err} → some r ≢ none
some-ne_none e = cc

-- Where there is a timeout to watch for the lobby is looked at five times a second at most and once a
-- second at least, and never later than a positive timeout of at least 200 milliseconds asks for.
pub interval_bounds :
    (o : Options) (every : ℤ)
    → interval o ≡ some every
    → (least_interval ≤ℤ every)
      × (every ≤ℤ second)
      × (pos 0 <ℤ o.timeout → least_interval ≤ℤ o.timeout → every ≤ℤ o.timeout)
      × (pos 0 <ℤ o.admin_timeout → least_interval ≤ℤ o.admin_timeout → every ≤ℤ o.admin_timeout)
unfolding interval
interval_bounds o every e = (ground arith, ground arith, ground arith, ground arith)

module _ (o : Options) (spec : Spec) (t1 : Time) (since : ℤ) where
  -- What the spec asks for at this idle time.
  abbrev pub asked : Bool × Option Err
  asked = reason_after (some spec) t1 since o.min_uptime

  -- The grounds on which a lobby may be ended for the reason `r`.
  abbrev pub IsDue : Bytes → ℕ → Err → Type 0
  IsDue match_id players r =
      ((force_down_after (some spec) t1 ≡ true) × (r ≡ lobby_downed))
      ⊎ ((bytes_eq match_id [] ≡ true)
          × (((asked.1 ≡ some r) × ((players ≡ 0) ⊎ (asked.0 ≡ true)))
              ⊎ ((players ≢ 0) × (r ≡ lobby_admin_timeout) × (expired o.admin_timeout since ≡ true))
              ⊎ ((players ≡ 0) × (r ≡ lobby_timeout) × (expired o.timeout since ≡ true))))

  with_players_due :
      (players : ℕ) (force : Bool) (reason : Option Err) (r : Err)
      → players ≢ 0
      → with_players o since force reason ≡ some r
      → ((reason ≡ some r) × (force ≡ true))
        ⊎ ((r ≡ lobby_admin_timeout) × (expired o.admin_timeout since ≡ true))
  unfolding with_players
  with_players_due players true (some x) r some_left e = inl (e, refl)
  with_players_due players true none r some_left e = ground arith
  with_players_due players false none r some_left e = ground arith
  with_players_due players false (some x) r some_left e = ground arith

  without_players_due :
      (reason : Option Err) (r : Err)
      → without_players o since reason ≡ some r
      → (reason ≡ some r) ⊎ ((r ≡ lobby_timeout) × (expired o.timeout since ≡ true))
  unfolding without_players
  without_players_due (some x) r e = inl e
  without_players_due none r e = ground arith

  -- A tick ends a lobby only with a ground. A match in progress is ended by a forced `down` alone.
  -- Players between two matches are sent away only by a forcing file of the spec, for the reason that
  -- the spec gives, or by the admin timeout, and an empty lobby only as the spec asks or by its timeout.
  pub verdict-IsDue :
      (match_id : Bytes) (players : ℕ) (r : Err)
      → verdict o spec t1 match_id players since ≡ some r
      → IsDue match_id players r
  unfolding verdict
  verdict-IsDue match_id players r e = elim (Bool-cases (force_down_after (some spec) t1)) [
    | inl down ↦
        let stopped : some lobby_downed ≡ some r = rw (verdict, down) at e in inl (down, cc)
    | inr up ↦ elim (Bool-cases (bytes_eq match_id [])) [
      | inr playing ↦ let spared : none ≡ some r = rw (verdict, up, playing) at e in cc
      | inl idle ↦ elim (Bool-cases (players == 0)) [
        | inl empty ↦
            let nobody : players ≡ 0 = ground arith in
            elim (without_players_due asked.1 r (rw (verdict, up, idle, empty) at e)) [
              | inl spec_asks ↦ inr (idle, inl (spec_asks, inl nobody))
              | inr (named, late) ↦ inr (idle, inr (inr (nobody, named, late)))
            ]
        | inr some_left ↦
            let somebody : players ≢ 0 = λ z. ground arith in
            elim (with_players_due players asked.0 asked.1 r somebody
              (rw (verdict, up, idle, some_left) at e)) [
                | inl (spec_asks, forces) ↦ inr (idle, inl (spec_asks, inr forces))
                | inr (named, late) ↦ inr (idle, inr (inl (somebody, named, late)))
              ]
      ]
    ]
  ]

  -- An empty lobby past its timeout gets a reason, the spec's if it has one.
  verdict_late :
      (match_id : Bytes) (players : ℕ)
      → match_id ≡ []
      → players ≡ 0
      → expired o.timeout since ≡ true
      → (r : Err) × (verdict o spec t1 match_id players since ≡ some r)
  unfolding verdict without_players bytes_eq
  verdict_late match_id players idle empty late =
      elim (Bool-cases (force_down_after (some spec) t1)) [
        | inl down ↦ (lobby_downed, rw (idle, empty, verdict, down) refl)
        | inr up ↦ elim (Option-cases asked.1) [
          | inl quiet ↦ (lobby_timeout, rw (idle, empty, verdict, up, quiet, late) refl)
          | inr (r, due) ↦ (r, rw (idle, empty, verdict, up, due) refl)
        ]
      ]

module _ {F : Type 0} (env : Env F) (now clock last_up : Time) (l : Lobby F) where
  -- An empty lobby without a match whose idle time is past a positive timeout, and whose channel `done`
  -- fits its reason, is brought to an end by the next tick: it returns, leaves a reason that the channel
  -- fits, and stops the watcher.
  pub tick_ends :
      IsClosing l.done l.reason
      → l.m.match_id ≡ []
      → (count l.players).0 ≡ 0
      → expired l.opts.timeout (idle_for clock l.m.timestamp (up_again l.spec now last_up)) ≡ true
      → (l' : Lobby F) × (tick env now clock last_up l
          ≡ some (l', up_again l.spec now last_up, false))
        × (l'.reason ≢ none)
        × IsClosing l'.done l'.reason
  unfolding tick
  tick_ends ok idle empty late =
      let up = up_again l.spec now last_up in
      let since = idle_for clock l.m.timestamp up in
      let (r, due) =
        verdict_late l.opts l.spec l.t1 since l.m.match_id (count l.players).0 idle empty late in
      let (l1, e1, s1) = cancel_only-Stopped env r l ok in
      let ok1 = Stopped-IsClosing env l r l1 ok s1 in
      let (l2, e2, s2) = cancel_only-Stopped env lobby_done l1 ok1 in
      (
        l2,
        rw (tick, due, e1, e2) refl,
        (λ e. some-ne_none (sym s2.reason ∙ e)),
        Stopped-IsClosing env l1 lobby_done l2 ok1 s2,
      )
