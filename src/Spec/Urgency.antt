-- ===== src/Spec/Urgency.antt =====
-- The order of the reasons (internal/lobby/spec.go, ReasonAfter).
use snap_gs.Base.{
  ℕ, ◌≤◌, ◌≡◌, ℤ, ◌≤ℤ◌, Bool, true, false, ◌||◌, Option, none, some, arith, ◌↔◌, inl, inr, ltb_ℤ,
  ltb_ℤ_iff, Bool-cases, not, ◌≢◌,
}
use snap_gs.Errors.{Err, lobby_downed, lobby_stopped, lobby_restarted}
use snap_gs.Match.{Time}
use snap_gs.Spec.{
  Spec, after, is_zero, reason_after, down_after, force_down_after, stop_after, force_stop_after,
  restart_after, force_restart_after,
}

-- How fast a reason pushes the server down.
abbrev pub urgency : Bool × Option Err → ℕ
urgency (true, some lobby_downed) = 6
urgency (true, some lobby_stopped) = 5
urgency (true, some lobby_restarted) = 4
urgency (false, some lobby_downed) = 3
urgency (false, some lobby_stopped) = 2
urgency (false, some lobby_restarted) = 1
urgency _ = 0

-- Every file of `r` is set in `s` too, at the same time or later.
pub record IsLaterThan (s r : Spec) : Type 0 where
  pub down : r.down ≤ s.down
  pub flag_down : r.flag_down ≤ s.flag_down
  pub peer_idle : r.peer_idle ≤ s.peer_idle
  pub force_down : r.force_down ≤ s.force_down
  pub flag_force_down : r.flag_force_down ≤ s.flag_force_down
  pub restart : r.restart ≤ s.restart
  pub flag_restart : r.flag_restart ≤ s.flag_restart
  pub force_restart : r.force_restart ≤ s.force_restart
  pub flag_force_restart : r.flag_force_restart ≤ s.flag_force_restart
  pub stop : r.stop ≤ s.stop
  pub peer_up : r.peer_up ≤ s.peer_up
  pub flag_stop : r.flag_stop ≤ s.flag_stop
  pub force_stop : r.force_stop ≤ s.force_stop
  pub flag_force_stop : r.flag_force_stop ≤ s.flag_force_stop

past_grace :
    (idle idle' grace grace' : ℤ)
    → idle ≤ℤ idle'
    → grace' ≤ℤ grace
    → ltb_ℤ idle grace ≡ false
    → ltb_ℤ idle' grace' ≡ false
past_grace idle idle' grace grace' h k e =
    let le : grace ≤ℤ idle = ground arith in
    elim (Bool-cases (ltb_ℤ idle' grace')) [
      | inl t ↦ absurd (omega (arith, (ltb_ℤ_iff idle' grace').0 t))
      | inr f ↦ f
    ]

module _ (r s : Spec) (later : IsLaterThan s r) (t u : Time) (since : u ≤ t) where
  down_mono : down_after (some r) t ≡ true → down_after (some s) u ≡ true
  unfolding down_after
  down_mono h = ground arith

  force_down_mono : force_down_after (some r) t ≡ true → force_down_after (some s) u ≡ true
  unfolding force_down_after
  force_down_mono h = ground arith

  force_stop_mono : force_stop_after (some r) t ≡ true → force_stop_after (some s) u ≡ true
  unfolding force_stop_after
  force_stop_mono h = ground arith

  restart_mono : restart_after (some r) t ≡ true → restart_after (some s) u ≡ true
  unfolding restart_after
  restart_mono h = ground arith

  force_restart_mono : force_restart_after (some r) t ≡ true → force_restart_after (some s) u ≡ true
  unfolding force_restart_after
  force_restart_mono h = ground arith

  -- The files that ask for a stop, whatever the grace.
  stop_files :
      (after r.stop t || after r.flag_stop t || not (is_zero r.peer_up)) ≡ true
      → (after s.stop u || after s.flag_stop u || not (is_zero s.peer_up)) ≡ true
  stop_files e = ground arith

  no_stop_early :
      (idle grace : ℤ) → ltb_ℤ idle grace ≡ true → stop_after (some r) t idle grace ≢ true
  unfolding stop_after
  no_stop_early idle grace early = rw early (λ e. cc)

  stop_mono :
      (idle idle' grace grace' : ℤ)
      → idle ≤ℤ idle'
      → grace' ≤ℤ grace
      → stop_after (some r) t idle grace ≡ true
      → stop_after (some s) u idle' grace' ≡ true
  unfolding stop_after
  stop_mono idle idle' grace grace' h k e = elim (Bool-cases (ltb_ℤ idle grace)) [
    | inl early ↦ absurd (no_stop_early idle grace early e)
    | inr late ↦ rw (past_grace idle idle' grace grace' h k late) (stop_files (ground arith))
  ]

  -- Setting a file or touching it again, starting the lobby earlier, staying idle for longer or a
  -- shorter grace never makes the reason that is reported less urgent.
  pub reason_after_mono :
      (idle idle' grace grace' : ℤ)
      → idle ≤ℤ idle'
      → grace' ≤ℤ grace
      → urgency (reason_after (some r) t idle grace)
        ≤ urgency (reason_after (some s) u idle' grace')
  unfolding reason_after
  reason_after_mono idle idle' grace grace' h k = ground (
    arith,
    down_mono,
    force_down_mono,
    force_stop_mono,
    restart_mono,
    force_restart_mono,
    stop_mono idle idle' grace grace' h k,
  )

-- A reason is reported exactly when some file asks for one, and the hint is given exactly when a
-- forcing file asks.
pub reason_after_iff :
    (s : Option Spec) (t : Time) (idle grace : ℤ)
    → (((reason_after s t idle grace).1 ≡ none) ↔ (
        ((force_down_after s t || force_stop_after s t || force_restart_after s t)
          || (down_after s t || stop_after s t idle grace || restart_after s t))
        ≡ false))
      × ((reason_after s t idle grace).0
          ≡ (force_down_after s t || force_stop_after s t || force_restart_after s t))
unfolding reason_after
reason_after_iff s t idle grace = ground arith
