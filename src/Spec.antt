-- ===== src/Spec.antt =====
-- The desired state of a lobby, as the files of --specdir give it (internal/lobby/spec.go).
-- A field is the time at which its file was set, and 0, Go's zero time, without one.
pub mod Urgency
pub mod Files
use snap_gs.Base.{
  ℕ, ◌-◌, ltb, leb, ltb_ℤ, ◌==◌, ℤ, Bytes, codes, Bool, true, false, not, ◌||◌, ◌&&◌, List, [], ◌∷◌,
  Option, none, some, if◌then◌else◌, bytes_key,
}
use snap_gs.Base.GoMap.{lookup}
use snap_gs.Errors.{Err, lobby_downed, lobby_stopped, lobby_restarted}
use snap_gs.Match.{Time}

pub record Spec : Type 0 where
  pub up : Time
  pub flag_up : Time
  pub peer_full : Time
  pub down : Time
  pub flag_down : Time
  pub peer_idle : Time
  pub force_down : Time
  pub flag_force_down : Time
  pub restart : Time
  pub flag_restart : Time
  pub force_restart : Time
  pub flag_force_restart : Time
  pub stop : Time
  pub peer_up : Time
  pub flag_stop : Time
  pub force_stop : Time
  pub flag_force_stop : Time

abbrev pub no_spec : Spec
no_spec = record {
  up = 0;
  flag_up = 0;
  peer_full = 0;
  down = 0;
  flag_down = 0;
  peer_idle = 0;
  force_down = 0;
  flag_force_down = 0;
  restart = 0;
  flag_restart = 0;
  force_restart = 0;
  flag_force_restart = 0;
  stop = 0;
  peer_up = 0;
  flag_stop = 0;
  force_stop = 0;
  flag_force_stop = 0;
}

-- `a.After(t)` and `t.IsZero()`.
abbrev pub after : Time → Time → Bool
after a t = ltb t a

abbrev pub is_zero : Time → Bool
is_zero t = t == 0

-- The receiver of these methods may be nil.
unfoldable pub down_after : Option Spec → Time → Bool
down_after none t = false
down_after (some s) t = after s.down t || after s.flag_down t || not (is_zero s.peer_idle)

unfoldable pub force_down_after : Option Spec → Time → Bool
force_down_after none t = false
force_down_after (some s) t = after s.force_down t || after s.flag_force_down t

unfoldable pub stop_after : Option Spec → Time → ℤ → ℤ → Bool
stop_after none t idle grace = false
stop_after (some s) t idle grace =
    if ltb_ℤ idle grace
    then false
    else after s.stop t || after s.flag_stop t || not (is_zero s.peer_up)

unfoldable pub force_stop_after : Option Spec → Time → Bool
force_stop_after none t = false
force_stop_after (some s) t = after s.force_stop t || after s.flag_force_stop t

unfoldable pub restart_after : Option Spec → Time → Bool
restart_after none t = false
restart_after (some s) t = after s.restart t || after s.flag_restart t

unfoldable pub force_restart_after : Option Spec → Time → Bool
force_restart_after none t = false
force_restart_after (some s) t = after s.force_restart t || after s.flag_force_restart t

-- The `force` hint and the reason to end the lobby, if there is one.
unfoldable pub reason_after : Option Spec → Time → ℤ → ℤ → Bool × Option Err
reason_after s t idle grace =
    if force_down_after s t
    then (true, some lobby_downed)
    else if force_stop_after s t
    then (true, some lobby_stopped)
    else if force_restart_after s t
    then (true, some lobby_restarted)
    else if down_after s t
    then (false, some lobby_downed)
    else if stop_after s t idle grace
    then (false, some lobby_stopped)
    else if restart_after s t
    then (false, some lobby_restarted)
    else (false, none)
