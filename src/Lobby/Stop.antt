-- ===== src/Lobby/Stop.antt =====
-- How a lobby is brought to an end (internal/lobby/lobby.go, Cancel).
pub mod Laws
use snap_gs.Base.{ℕ, Bool, true, false, List, [], ◌∷◌, ◌++◌, Option, none, some, if◌then◌else◌}
use snap_gs.Errors.{Err, is_done}
use snap_gs.Lobby.{
  Process, Signal, terminate, kill, Done, absent, opened, closed, Lobby, Env, pid_of_running,
}

-- `close(l.done)` where the channel is there; none is the panic of a second close.
abbrev pub close : Done → Option Done
close absent = some absent
close opened = some closed
close closed = none

-- What `Cancel` returns for a reason that it puts on record.
abbrev pub reported : Err → Option Err
reported r = if is_done r then none else some r

module _ {F : Type 0} (env : Env F) where
  -- The end of `Cancel`: a running process is sent a signal.
  signal : Option ℕ → Lobby F → Lobby F
  signal none l = l
  signal (some pid) l = record l {
    signals = l.signals ++ (if env.finds_process pid then terminate else kill) ∷ [];
  }

  -- `l.reason = reason` and what follows, with the channel as the deferred close leaves it.
  settle : Err → Lobby F → Option Done → Option (Lobby F × Option Err)
  unfolding signal
  settle r l none = none
  settle r l (some done) =
      some
        (signal (pid_of_running l.process) (record l { reason = some r; done = done }), reported r)

  cancel_with : Err → Lobby F → Option Err → Option (Lobby F × Option Err)
  unfolding settle
  cancel_with r l none = settle r l (close l.done)
  cancel_with r l (some old) = if is_done old then settle r l (some l.done) else some (l, some old)

  -- A nil reason asks for the one on record. none is a run-time panic.
  unfoldable pub cancel : Option Err → Lobby F → Option (Lobby F × Option Err)
  unfolding cancel_with
  cancel none l = some (l, l.reason)
  cancel (some r) l = cancel_with r l l.reason

  -- The same where the caller drops the result.
  unfoldable pub cancel_only : Err → Lobby F → Option (Lobby F)
  unfolding cancel
  cancel_only r l = elim (cancel (some r) l) [ none ↦ none | some (l', e) ↦ some l' ]
