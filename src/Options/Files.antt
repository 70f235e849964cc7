-- ===== src/Options/Files.antt =====
-- How a file of --flagdir changes the options (public/options/lobby.go, Watch). The decoders of Go's
-- libraries are parameters: what is left in a value after `json.Unmarshal` of some bytes into it,
-- and what `time.ParseDuration` returns.
use snap_gs.Base.{
  ℤ, Bytes, codes, Bool, true, false, List, [], ◌∷◌, Option, none, some, strip_newline, bytes_key,
}
use snap_gs.Base.GoMap.{lookup}
use snap_gs.Errors.{Err}
use snap_gs.Options.{Options}

pub data Key : Type 0 where
  session password specdir statdir logdir maxfails : Key
  minuptime admintimeout timeout listen exe pidfile debug : Key

abbrev pub key_names : List (Bytes × Key)
key_names =
    (codes "session", session)
    ∷ (codes "password", password)
    ∷ (codes "specdir", specdir)
    ∷ (codes "statdir", statdir)
    ∷ (codes "logdir", logdir)
    ∷ (codes "maxfails", maxfails)
    ∷ (codes "minuptime", minuptime)
    ∷ (codes "admintimeout", admintimeout)
    ∷ (codes "timeout", timeout)
    ∷ (codes "listen", listen)
    ∷ (codes "exe", exe)
    ∷ (codes "pidfile", pidfile)
    ∷ (codes "debug", debug)
    ∷ []

unfoldable pub key_of : Bytes → Option Key
unfolding lookup
key_of name = lookup name key_names

pub record Decoders : Type 0 where
  pub json_string : Bytes → Bytes → Bytes
  pub json_int : Bytes → ℤ → ℤ
  pub json_bool : Bytes → Bool → Bool
  pub parse_duration : Bytes → ℤ

-- A file of --flagdir as an event found it; the content is empty where it could not be read.
pub record Flag : Type 0 where
  pub name : Bytes
  pub content : Bytes

module _ (d : Decoders) where
  open d use {json_string, json_int, json_bool, parse_duration}

  -- The three forms of the inner `switch`: `saved` is the field of `in`, `old` that of `o`.
  unfoldable pub new_string : Bool × Bytes → Bytes → Bytes → Bytes
  new_string (line, []) saved old = saved
  new_string (true, c ∷ value) saved old = c ∷ value
  new_string (false, c ∷ value) saved old = json_string (c ∷ value) old

  unfoldable pub new_duration : Bool × Bytes → ℤ → ℤ → ℤ
  new_duration (line, []) saved old = saved
  new_duration (true, c ∷ value) saved old = parse_duration (c ∷ value)
  new_duration (false, c ∷ value) saved old = json_int (c ∷ value) old

  unfoldable pub new_int : Bool × Bytes → ℤ → ℤ → ℤ
  new_int (line, []) saved old = saved
  new_int (line, c ∷ value) saved old = json_int (c ∷ value) old

  unfoldable pub new_bool : Bool × Bytes → Bool → Bool → Bool
  new_bool (line, []) saved old = saved
  new_bool (line, c ∷ value) saved old = json_bool (c ∷ value) old

  unfoldable pub write : Option Key → Options → Bool × Bytes → Options → Options
  unfolding new_string new_duration new_int new_bool
  write none saved v o = o
  write (some session) saved v o = record o { session = new_string v saved.session o.session }
  write (some password) saved v o = record o { password = new_string v saved.password o.password }
  write (some specdir) saved v o = record o { spec_dir = new_string v saved.spec_dir o.spec_dir }
  write (some statdir) saved v o = record o { stat_dir = new_string v saved.stat_dir o.stat_dir }
  write (some logdir) saved v o = record o { log_dir = new_string v saved.log_dir o.log_dir }
  write (some maxfails) saved v o = record o { max_fails = new_int v saved.max_fails o.max_fails }
  write (some minuptime) saved v o = record o {
    min_uptime = new_duration v saved.min_uptime o.min_uptime;
  }
  write (some admintimeout) saved v o = record o {
    admin_timeout = new_duration v saved.admin_timeout o.admin_timeout;
  }
  write (some timeout) saved v o = record o { timeout = new_duration v saved.timeout o.timeout }
  write (some listen) saved v o = record o { listen = new_string v saved.listen o.listen }
  write (some exe) saved v o = record o { exe = new_string v saved.exe o.exe }
  write (some pidfile) saved v o = record o { pid_file = new_string v saved.pid_file o.pid_file }
  write (some debug) saved v o = record o { debug = new_bool v saved.debug o.debug }

  -- `saved` holds the options as they were when the watch began.
  unfoldable pub update : Options → Flag → Options → Options
  unfolding write key_of strip_newline
  update saved f o = write (key_of f.name) saved (strip_newline f.content) o

  unfoldable pub apply : Options → List Flag → Options → Options
  unfolding update
  apply saved [] o = o
  apply saved (f ∷ fs) o = apply saved fs (update saved f o)

  -- The callback of the watch; a nil slice of events without an error is the end of the watch.
  unfoldable pub on_events : Options → Option (List Flag) → Option Err → Options → Options
  unfolding apply
  on_events saved none none o = saved
  on_events saved none (some e) o = o
  on_events saved (some fs) e o = apply saved fs o
