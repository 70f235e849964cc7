-- ===== src/Command.antt =====
-- The options of the command line (public/cmd/lobby.go, RunE up to line 186, and NewLobbyFlagSet). pflag's
-- results are inputs: the value of each flag, given or by default, and whether it was given (`Changed`).
-- Its getters return no error for the flags of the command. `time.ParseDuration` is a parameter, none for
-- an error.
pub mod Precedence
pub mod Setup
pub mod Search
use snap_gs.Base.{
  ℕ, pos, ◌*◌, ℤ, Bytes, codes, Bool, true, List, [], ◌∷◌, Option, none, some, if◌then◌else◌, atoi,
}
use snap_gs.Options.{Options}

-- In nanoseconds.
abbrev pub minute : ℕ
minute = 60000000000

abbrev pub hour : ℕ
hour = 3600000000000

-- `os.Getenv`, which gives the empty text for what is not set.
abbrev pub Environment : Type 0
Environment = Bytes → Bytes

abbrev pub filled : Bytes → Option Bytes
filled [] = none
filled (c ∷ s) = some (c ∷ s)

abbrev pub switched : Bytes → Option Bool
switched [] = none
switched (c ∷ s) = some true

-- `if … && !f.Changed(…) { opts.X = x }`.
abbrev pub prefer {ℓ} : {A : Type ℓ} → Bool → Option A → A → A
prefer given none flag = flag
prefer given (some v) flag = if given then flag else v

module _ (parse_duration : Bytes → Option ℤ) (env : Environment) (given : Bytes → Bool) where
  unfoldable pub options_of : Options → Options
  options_of flags = record {
    debug =
        prefer (given (codes "debug")) (switched (env (codes "SNAPGS_LOBBY_DEBUG"))) flags.debug;
    listen =
        prefer (given (codes "listen")) (filled (env (codes "SNAPGS_LOBBY_LISTEN"))) flags.listen;
    session =
        prefer (given (codes "session")) (filled (env (codes "SNAPGS_LOBBY_SESSION")))
          flags.session;
    password =
        prefer (given (codes "password")) (filled (env (codes "SNAPGS_LOBBY_PASSWORD")))
          flags.password;
    log_dir =
        prefer (given (codes "logdir")) (filled (env (codes "SNAPGS_LOBBY_LOGDIR"))) flags.log_dir;
    spec_dir =
        prefer (given (codes "specdir")) (filled (env (codes "SNAPGS_LOBBY_SPECDIR")))
          flags.spec_dir;
    stat_dir =
        prefer (given (codes "statdir")) (filled (env (codes "SNAPGS_LOBBY_STATDIR")))
          flags.stat_dir;
    pid_file =
        prefer (given (codes "pidfile")) (filled (env (codes "SNAPGS_LOBBY_PIDFILE")))
          flags.pid_file;
    exe = prefer (given (codes "exe")) (filled (env (codes "SNAPGS_LOBBY_EXE"))) flags.exe;
    timeout =
        prefer (given (codes "timeout")) (parse_duration (env (codes "SNAPGS_LOBBY_TIMEOUT")))
          flags.timeout;
    admin_timeout =
        prefer (given (codes "admintimeout"))
          (parse_duration (env (codes "SNAPGS_LOBBY_ADMINTIMEOUT"))) flags.admin_timeout;
    max_fails =
        prefer (given (codes "maxfails")) (atoi (env (codes "SNAPGS_LOBBY_MAXFAILS")))
          flags.max_fails;
    min_uptime =
        prefer (given (codes "minuptime")) (parse_duration (env (codes "SNAPGS_LOBBY_MINUPTIME")))
          flags.min_uptime;
  }

-- The defaults of the flags, by the path of the default executable.
unfoldable pub flag_defaults : Bytes → Options
flag_defaults default_exe = record {
  debug = Bool.false;
  listen = [];
  session = [];
  password = [];
  log_dir = [];
  spec_dir = [];
  stat_dir = [];
  pid_file = [];
  exe = default_exe;
  timeout = pos (15 * hour);
  admin_timeout = pos (15 * minute);
  max_fails = pos 3;
  min_uptime = pos (5 * minute);
}
