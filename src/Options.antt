-- ===== src/Options.antt =====
-- The options of a lobby (public/options/lobby.go). A duration is a number of nanoseconds.
pub mod Files
pub mod Laws
use snap_gs.Base.{ℕ, ltb, ltb_ℤ, ℤ, pos, Bytes, Bool, Option, none, some, if◌then◌else◌, length}
use snap_gs.Errors.{Err, exe_min_len, session_min_len, session_max_len, max_fails_min}

pub record Options : Type 0 where
  pub debug : Bool
  pub listen : Bytes
  pub session : Bytes
  pub password : Bytes
  pub log_dir : Bytes
  pub spec_dir : Bytes
  pub stat_dir : Bytes
  pub pid_file : Bytes
  pub exe : Bytes
  pub timeout : ℤ
  pub admin_timeout : ℤ
  pub max_fails : ℤ
  pub min_uptime : ℤ

abbrev pub exe_min : ℕ
exe_min = 1

abbrev pub session_min : ℕ
session_min = 1

abbrev pub session_max : ℕ
session_max = 40

abbrev pub max_fails_least : ℤ
max_fails_least = pos 0

unfoldable pub validate : Options → Option Err
validate o =
    if ltb (length o.exe) exe_min
    then some exe_min_len
    else if ltb (length o.session) session_min
    then some session_min_len
    else if ltb session_max (length o.session)
    then some session_max_len
    else if ltb_ℤ o.max_fails max_fails_least
    then some max_fails_min
    else none
