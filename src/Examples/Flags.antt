-- ===== src/Examples/Flags.antt =====
-- Options that a file of --flagdir changes (public/options/lobby.go).
use snap_gs.Base.{
  negsuc, atoi, Bool, Option, none, ◌≡◌, refl, ℤ, pos, Bytes, true, false, codes, List, [], ◌∷◌,
  none, some, ◌==◌, if◌then◌else◌, bytes_eq, strip_newline,
}
use snap_gs.Base.GoMap.{lookup}
use snap_gs.Command.{Environment, options_of}
use snap_gs.Command.Precedence.{variable, read_as, options_of-get}
use snap_gs.Errors.{session_max_len}
use snap_gs.Options.{Options, validate}
use snap_gs.Options.Files.{Key, key_of, Decoders, Flag, apply}
use snap_gs.Options.Laws.{name_of, get, replay, apply-get_option}

abbrev plain : Options
plain = record {
  debug = false;
  listen = codes ":27002";
  session = codes "lobby1";
  password = [];
  log_dir = [];
  spec_dir = [];
  stat_dir = codes "/run/stat";
  pid_file = [];
  exe = codes "snapshot";
  timeout = pos 0;
  admin_timeout = pos 0;
  max_fails = pos 3;
  min_uptime = pos 0;
}

abbrev long_name : Options
long_name = record plain { session = codes "a lobby with a name of more than 40 bytes" }

long_name_refused : validate long_name ≡ some session_max_len
unfolding validate
long_name_refused = refl

abbrev if_five : Bytes → ℤ → ℤ
if_five [] old = old
if_five (c ∷ bs) old = if c == b'5' then pos 5 else old

-- Decoders that know one duration and leave the rest alone.
abbrev few : Decoders
few = record {
  json_string = λ _ old. old;
  json_int = λ bs old. if_five bs old;
  json_bool = λ _ _. true;
  parse_duration = λ _. pos 9000000000;
}

abbrev changes : List Flag
changes =
    record { name = codes "session"; content = codes "lobby2\n" }
    ∷ record { name = codes "timeout"; content = codes "9s\n" }
    ∷ record { name = codes "maxfails"; content = codes "5" }
    ∷ record { name = codes "session"; content = [] }
    ∷ []

changes-apply :
    apply few plain changes plain ≡ record plain { timeout = pos 9000000000; max_fails = pos 5 }
unfolding apply key_of lookup bytes_eq strip_newline
changes-apply = refl

apply-get_option_example :
    get Key.session (apply few plain changes plain)
    ≡ replay few Key.session (get Key.session plain) changes (get Key.session plain)
apply-get_option_example = apply-get_option few Key.session plain changes plain

abbrev variables : Environment
variables name =
    if bytes_eq name (codes "SNAPGS_LOBBY_MAXFAILS")
    then codes "-4"
    else if bytes_eq name (codes "SNAPGS_LOBBY_SESSION")
    then codes "from env"
    else []

abbrev given_flags : Bytes → Bool
given_flags name = bytes_eq name (codes "session")

abbrev pub no_durations : Bytes → Option ℤ
no_durations _ = none

variables_read :
    options_of no_durations variables given_flags plain ≡ record plain { max_fails = negsuc 3 }
unfolding options_of atoi bytes_eq
variables_read = refl

options_of-get_example : get Key.session (options_of no_durations variables given_flags plain) ≡ (
    if given_flags (name_of Key.session)
    then get Key.session plain
    else read_as no_durations (get Key.session plain) (variables (variable (name_of Key.session))))
options_of-get_example = options_of-get no_durations variables given_flags plain Key.session
