-- ===== src/Lobby/Watcher.antt =====
-- The goroutine that ends an idle lobby (internal/lobby/watch.go, watcher). A tick reads the clock
-- twice: `now` is the time of the tick and `clock` that of `time.Since`. Durations do not overflow.
pub mod Policy
use snap_gs.Base.{
  ℕ, suc, ◌+◌, ◌-◌, ◌%◌, Bytes, Bool, true, false, ◌||◌, ◌&&◌, not, List, [], Option, none, some,
  is_some, if◌then◌else◌, bytes_eq, ◌==◌, ltb, ltb_ℤ, leb_ℤ, ℤ, pos, negsuc, sub_ℕ,
}
use snap_gs.Errors.{Err, lobby_admin_timeout, lobby_timeout, lobby_downed, lobby_done}
use snap_gs.Match.{Time}
use snap_gs.Options.{Options}
use snap_gs.Players.{count}
use snap_gs.Spec.{Spec, is_zero, force_down_after, reason_after}
use snap_gs.Lobby.{Lobby, Env}
use snap_gs.Lobby.Stop.{cancel_only}
use snap_gs.Lobby.Bolt.{◌>>=◌}

-- In nanoseconds: a second, 200 milliseconds and 100 microseconds.
abbrev pub second : ℤ
second = pos 1000000000

abbrev pub least_interval : ℤ
least_interval = pos 200000000

abbrev precision : ℕ
precision = 100000

-- `if d > 0 && d < every { every = d }`.
abbrev shorten : ℤ → ℤ → ℤ
shorten d every = if ltb_ℤ (pos 0) d && ltb_ℤ d every then d else every

-- The time between two ticks; none when there is no timeout to watch for.
unfoldable pub interval : Options → Option ℤ
interval o =
    let every = shorten o.admin_timeout (shorten o.timeout second) in
    if leb_ℤ o.timeout (pos 0) && leb_ℤ o.admin_timeout (pos 0)
    then none
    else some (if ltb_ℤ every least_interval then least_interval else every)

-- `Duration.Round`, half away from zero.
round_ℕ : ℕ → ℕ
round_ℕ n = let r = n % precision in if ltb (r + r) precision then n - r else n + precision - r

unfoldable pub round : ℤ → ℤ
unfolding round_ℕ
round (pos n) = pos (round_ℕ n)
round (negsuc n) = sub_ℕ 0 (round_ℕ (suc n))

-- `lastup` after a tick: a wish to be up, or a full peer, keeps an idle lobby from its timeout.
unfoldable pub up_again : Spec → Time → Time → Time
up_again spec now last_up =
    if not (is_zero spec.up) || not (is_zero spec.peer_full) then now else last_up

abbrev later : Time → Time → Time
later a b = if ltb a b then b else a

-- `since`: how long the lobby has been idle.
unfoldable pub idle_for : Time → Time → Time → ℤ
unfolding round
idle_for clock idle up = round (sub_ℕ clock (later idle up))

-- `timeout > 0 && timeout < since`.
abbrev pub expired : ℤ → ℤ → Bool
expired timeout since = ltb_ℤ (pos 0) timeout && ltb_ℤ timeout since

-- The reason with players in the lobby, and without, from the hint and the reason of the spec.
with_players : Options → ℤ → Bool → Option Err → Option Err
with_players o since true (some r) = some r
with_players o since force none =
    if expired o.admin_timeout since then some lobby_admin_timeout else none
with_players o since false (some r) =
    if expired o.admin_timeout since then some lobby_admin_timeout else none

without_players : Options → ℤ → Option Err → Option Err
without_players o since (some r) = some r
without_players o since none = if expired o.timeout since then some lobby_timeout else none

-- Whether a tick cancels the lobby, and why.
unfoldable pub verdict : Options → Spec → Time → Bytes → ℕ → ℤ → Option Err
unfolding with_players without_players
verdict o spec t1 match_id players since =
    let (force, reason) = reason_after (some spec) t1 since o.min_uptime in
    if force_down_after (some spec) t1
    then some lobby_downed
    else if not (bytes_eq match_id [])
    then none
    else if not (players == 0)
    then with_players o since force reason
    else without_players o since reason

module _ {F : Type 0} (env : Env F) where
  -- A tick: the lobby, the new `lastup`, and whether the watcher goes on.
  unfoldable pub tick : Time → Time → Time → Lobby F → Option (Lobby F × Time × Bool)
  tick now clock last_up l =
      let up = up_again l.spec now last_up in
      let since = idle_for clock l.m.timestamp up in
      elim (verdict l.opts l.spec l.t1 l.m.match_id (count l.players).0 since) [
        | none ↦ some (l, up, true)
        | some r ↦ cancel_only env r l >>= λ l1.
            cancel_only env lobby_done l1 >>= λ l2. some (l2, up, false)
      ]
