-- ===== src/Errors.antt =====
-- The error values that the program compares by identity (internal/lobby/lobby.go, watch.go and
-- spec.go, internal/watch/watch.go, public/options/lobby.go). `other n` is the n-th error that
-- comes from elsewhere: the operating system, the child process, a library.
use snap_gs.Base.{ℕ, Bool, true, false}

pub data Err : Type 0 where
  lobby_bad lobby_bug lobby_done lobby_idle_timeout lobby_disconnected lobby_max_fails : Err
  lobby_timeout lobby_admin_timeout : Err
  lobby_downed lobby_stopped lobby_restarted : Err
  watch_filters_unconfigured watch_path_unconfigured : Err
  watch_tick_unconfigured watch_unconfigured : Err
  exe_min_len session_min_len session_max_len max_fails_min : Err
  other : ℕ → Err

-- `err == ErrLobbyDone`.
abbrev pub is_done : Err → Bool
is_done lobby_done = true
is_done _ = false
