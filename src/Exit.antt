-- ===== src/Exit.antt =====
-- The exit code of the program and its version (public/cmd/root.go, ExitCode; cmd/snap-gs/main.go, main
-- and mainc).
use snap_gs.Base.{
  Bytes, bytes_eq, codes, List, [], ◌∷◌, ℕ, ◌≡◌, ◌⊎◌, ◌↔◌, true, not, ◌&&◌, Option, none, some,
  if◌then◌else◌, is_some, arith,
}
use snap_gs.Errors.{
  Err, lobby_bad, lobby_done, lobby_idle_timeout, lobby_disconnected, lobby_max_fails,
  lobby_timeout, lobby_admin_timeout, lobby_downed, lobby_stopped, lobby_restarted,
}

unfoldable pub exit_code : Option Err → ℕ
exit_code none = 0
exit_code (some lobby_done) = 0
exit_code (some lobby_downed) = 4
exit_code (some lobby_stopped) = 5
exit_code (some lobby_restarted) = 6
exit_code (some lobby_disconnected) = 7
exit_code (some lobby_bad) = 70
exit_code (some lobby_max_fails) = 100
exit_code (some lobby_timeout) = 101
exit_code (some lobby_idle_timeout) = 102
exit_code (some lobby_admin_timeout) = 103
exit_code (some _) = 1

-- The version of the program, from its build: that of its main module, or the revision where a setting
-- names one.
unfoldable pub version : Bytes → List (Bytes × Bytes) → Bytes
version main [] = main
version main ((key, value) ∷ settings) =
    if bytes_eq key (codes "vcs.revision") then value else version main settings

-- The end of `mainc`: `hard` and `soft` are the errors of the two signal contexts when the command
-- has returned. A soft stop that ended the command is no error.
unfoldable pub command_result : Option Err → Option Err → Option Err → Option Err
command_result err hard soft =
    if is_some err && not (is_some hard) && is_some soft then none else err

-- `main` exits with 0 when `mainc` returns nil, and otherwise with `ExitCode`.
unfoldable pub main_code : Option Err → Option Err → Option Err → ℕ
unfolding command_result exit_code
main_code err hard soft = exit_code (command_result err hard soft)

-- The process succeeds exactly when the command ended without an error, or by the end of a lobby, or
-- by a SIGTERM that no harder signal followed. No other error is reported as a success.
pub main_code-zero_iff :
    (err hard soft : Option Err)
    → (main_code err hard soft ≡ 0)
      ↔ ((err ≡ none) ⊎ (err ≡ some lobby_done) ⊎ ((hard ≡ none) × (is_some soft ≡ true)))
unfolding main_code
main_code-zero_iff err hard soft = ground arith
