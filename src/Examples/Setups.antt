-- ===== src/Examples/Setups.antt =====
-- What is prepared for a lobby (public/cmd/lobby.go, RunE; internal/lobby/lobby.go, alloc). The file
-- system is the list of the directories that were made; it refuses to write to any of them.
use snap_gs.Base.{
  pos, strip_newline, ◌≡◌, ◌≢◌, ◌≤◌, refl, Bytes, true, false, codes, Bool, List, [], ◌∷◌, ◌++◌,
  none, some, any, All, length, contains, arith, bytes_eq, bytes_eq_iff, if◌then◌else◌, decimal,
  has_prefix, ◌==◌,
}
use snap_gs.Errors.{other}
use snap_gs.Options.{Options, validate}
use snap_gs.Lobby.Alloc.{
  no_break, error_of, opened, closed, prout, pwout, prerr, pwerr, at, Answers, failed, alloc, trace,
  Schedule, alloc_pipes, alloc_spec, alloc_files, arguments,
}
use snap_gs.Lobby.Alloc.Handles.{acts, nothing, left_open, first_error, call_errors, trace-closed}
use snap_gs.Lobby.Alloc.Session.{no_break_space, with_spaces, no_break_fits}
use snap_gs.Lobby.Stat.{split_comma}
use snap_gs.Command.Setup.{
  Os, Url, ok, Library, Found, join_comma, cgroup_of, setup, mount_of, cut_space, cgroup_root,
  split_by, trim_lines, trim_hierarchy, pid_files, pid_file, cgroup_file, plain_file, write_query,
  write_values, make_dir,
}
use snap_gs.Command.Setup.Mounts.{Mount, IsEntry, text_of, first_cgroup, cgroup_of-own}
use snap_gs.Command.Setup.Directories.{IsFileSystem}
use snap_gs.Options.Files.{Decoders, apply, key_of}
use snap_gs.Base.GoMap.{lookup}
use snap_gs.Command.Setup.Success.{with_flags, renamed, setup-pid_file}
use snap_gs.Command.Setup.PidFiles.{plain_pid_file-fails}
use snap_gs.Command.Search.{linux, default_exe, among_heads, among_tails, among_matches}
use snap_gs.Examples.Lobbies.{options}

abbrev teams : Options
teams = record options {
  session = codes "red vs blue";
  exe = codes "wine,snapshot";
  password = codes "x";
}

teams-arguments :
    arguments teams
    ≡ codes "snapshot"
      ∷ codes "-nographics"
      ∷ codes "-batchmode"
      ∷ codes "--hitdetectionmode"
      ∷ codes "authoritative"
      ∷ codes "--roomname"
      ∷ no_break (codes "red vs blue")
      ∷ codes "-logMatchData"
      ∷ codes "--password"
      ∷ codes "x"
      ∷ codes "--bind-address"
      ∷ codes ":27002"
      ∷ []
unfolding arguments split_comma no_break
teams-arguments = refl

teams-valid : validate teams ≡ none
unfolding validate
teams-valid = refl

teams-plain : contains teams.session no_break_space ≡ false
unfolding contains has_prefix
teams-plain = refl

no_break_fits_example :
    (1 ≤ length (no_break teams.session))
    × (length (no_break teams.session) ≤ 80)
    × (any (λ c. c == 32) (no_break teams.session) ≡ false)
    × (with_spaces (no_break teams.session) ≡ teams.session)
no_break_fits_example = no_break_fits teams teams-valid teams-plain

-- The size of the second pipe cannot be set.
abbrev small_pipe : Answers
small_pipe = record {
  look_path = at;
  pid_error = none;
  out_pipe = none;
  out_size = none;
  err_pipe = none;
  err_size = some (other 1);
  spec_error = none;
  create_error = none;
  executable = none;
  has_preload = λ _. false;
  environ = [];
}

small_pipe-alloc : alloc teams small_pipe ≡ (
  opened prout
      ∷ opened pwout
      ∷ opened prerr
      ∷ opened pwerr
      ∷ closed prout
      ∷ closed pwout
      ∷ closed prerr
      ∷ closed pwerr
      ∷ [],
  failed (other 1),
)
unfolding alloc split_comma alloc_pipes alloc_spec alloc_files arguments
small_pipe-alloc = refl

-- A system that refuses nothing, and a scanner of the standard error that ends before `runc` closes its
-- second pipe.
abbrev ample : Answers
ample = record small_pipe { err_size = none }

abbrev in_turn : Schedule
in_turn = record { scanners = false ∷ []; deferred = true ∷ false ∷ [] }

trace-closed_example :
    (error_of (alloc teams ample).1 ≡ first_error (call_errors teams ample))
    × (acts (alloc teams ample).0 nothing ≡ some (left_open teams (alloc teams ample).1))
    × (acts (trace in_turn teams ample) nothing ≡ some nothing)
trace-closed_example = trace-closed in_turn teams ample

abbrev is_made : Bytes → List Bytes → Bool
is_made p dirs = any (bytes_eq p) dirs

abbrev pub os : Os (List Bytes)
os = record {
  mkdir_all = λ p dirs. (p ∷ dirs, none);
  write_file = λ p content dirs. (dirs, if is_made p dirs then some (other 21) else none);
}

kept : (p q : Bytes) (dirs : List Bytes) → is_made q dirs ≡ true → is_made q (p ∷ dirs) ≡ true
kept p q dirs h = ground arith

os-IsFileSystem : IsFileSystem os is_made
os-IsFileSystem = record {
  made = λ p dirs h. ground (arith, bytes_eq_iff p p);
  mkdir_keeps = kept;
  write_keeps = λ p c q dirs h. h;
  write_refuses = λ p c dirs h fine. ground arith;
}

-- An URL of the scheme `cgroup`, without a query, or a plain path.
abbrev parse : Bytes → Url
parse s =
    if has_prefix s (codes "cgroup:")
    then record { scheme = codes "cgroup"; opaque = codes "main"; path = []; raw_query = [] }
    else record { scheme = []; opaque = []; path = s; raw_query = [] }

-- Decoders that leave strings and truth values alone and read a number by its bytes.
abbrev pub decoders : Decoders
decoders = record {
  json_string = λ s old. s;
  json_int = λ s old. old;
  json_bool = λ s old. old;
  parse_duration = λ s. pos 0;
}

abbrev pub lib : Library
lib = record {
  parse = λ s. ok (parse s);
  parse_query = λ _. ok ((codes "cpu.max", codes "1000 1000" ∷ []) ∷ []);
  join = λ a b. a ++ codes "/" ++ b;
  decoders = decoders;
}

abbrev entries : List Mount
entries =
    record { device = codes "proc"; dir = codes "/proc"; rest = codes "proc rw 0 0" }
    ∷ record { device = codes "cgroup2"; dir = codes "/cg"; rest = codes "cgroup2 rw 0 0" }
    ∷ []

entries-IsEntry : All IsEntry entries
unfolding bytes_eq
entries-IsEntry = (
  record {
    device_words = refl;
    device_lines = refl;
    dir_words = refl;
    dir_lines = refl;
    dir_given = refl;
    rest_lines = refl;
  },
  (
    record {
      device_words = refl;
      device_lines = refl;
      dir_words = refl;
      dir_lines = refl;
      dir_given = refl;
      rest_lines = refl;
    },
    tt,
  ),
)

abbrev pub found : Found
found = record {
  flag_dir = [];
  watch_error = none;
  first_flags = [];
  mounts = record { content = text_of entries; error = none };
  own_cgroup = record { content = codes "0::/" ++ codes "lobby" ++ 10 ∷ []; error = none };
  pid = 7;
}

cgroup_of-own_example :
    cgroup_of lib found ≡ (lib.join (first_cgroup entries) (codes "lobby"), none)
cgroup_of-own_example =
    cgroup_of-own lib found entries b'l' (codes "obby") entries-IsEntry refl refl refl refl

-- The name of a cgroup that begins with a zero loses it.
zero_dropped : trim_hierarchy (codes "0::/07") ≡ codes "7"
unfolding trim_hierarchy
zero_dropped = refl

abbrev in_cgroup : Options
in_cgroup = record options { pid_file = codes "cgroup:main" }

-- A file of --flagdir that is there from the beginning.
abbrev flagged : Found
flagged = record found {
  flag_dir = codes "/flag";
  first_flags = record { name = codes "session"; content = codes "red" ++ 10 ∷ [] } ∷ [];
}

abbrev own_procs : Options
own_procs = record options { session = codes "red"; pid_file = codes "/cg/lobby/main/cgroup.procs" }

abbrev cgroup_dirs : List Bytes
cgroup_dirs =
    codes "/cg/lobby/main" ∷ codes "/flag" ∷ codes "/run/stat" ∷ codes "/spec" ∷ codes "/log" ∷ []

in_cgroup-setup : setup lib os flagged in_cgroup [] ≡ (cgroup_dirs, ok own_procs)
unfolding setup cgroup_of mount_of cut_space cgroup_root split_by trim_lines trim_hierarchy bytes_eq
    has_prefix split_comma join_comma make_dir pid_files pid_file cgroup_file plain_file write_query
    write_values decimal apply key_of lookup strip_newline
in_cgroup-setup = refl

setup-pid_file_example :
    let o1 = with_flags lib flagged in_cgroup in
    own_procs ≡ record o1 {
      pid_file = join_comma (renamed lib os (cgroup_of lib flagged).0 (split_comma o1.pid_file));
    }
setup-pid_file_example =
    setup-pid_file lib os flagged in_cgroup own_procs [] cgroup_dirs in_cgroup-setup

abbrev with_path : Options
with_path = record options { pid_file = codes "/run/x.pid" }

abbrev made_dirs : List Bytes
made_dirs = codes "/run/x.pid" ∷ codes "/run/stat" ∷ codes "/spec" ∷ codes "/log" ∷ []

with_path-setup : setup lib os found with_path [] ≡ (made_dirs, ok with_path)
unfolding setup cgroup_of mount_of cut_space cgroup_root split_by trim_lines trim_hierarchy bytes_eq
    has_prefix split_comma join_comma make_dir pid_files pid_file cgroup_file plain_file write_query
    write_values decimal
with_path-setup = refl

with_path-parts : split_comma (with_flags lib found with_path).pid_file ≡ codes "/run/x.pid" ∷ []
unfolding split_comma with_flags
with_path-parts = refl

with_path-made : is_made (codes "/run/x.pid") made_dirs ≡ true
unfolding bytes_eq
with_path-made = refl

with_path-scheme : bytes_eq (parse (codes "/run/x.pid")).scheme (codes "cgroup") ≡ false
unfolding bytes_eq has_prefix
with_path-scheme = refl

with_path-own : (parse (codes "/run/x.pid")).path ≡ codes "/run/x.pid"
unfolding has_prefix
with_path-own = refl

abbrev answers : Answers
answers = record small_pipe {
  err_size = none;
  pid_error = (os.write_file (codes "/run/x.pid") (decimal 7) made_dirs).1;
}

plain_pid_file-fails_example :
    (is_made (codes "/run/x.pid") made_dirs ≡ true) × (error_of (alloc with_path answers).1 ≢ none)
plain_pid_file-fails_example =
    plain_pid_file-fails lib os is_made os-IsFileSystem found with_path with_path [] made_dirs
      made_dirs b'/' (codes "run/x.pid") [] (parse (codes "/run/x.pid")) answers with_path-parts
      refl with_path-scheme with_path-own with_path-setup with_path-made refl

-- Two matches of the second pattern in the working directory.
abbrev glob : Bytes → List Bytes
glob p =
    if bytes_eq p (codes "./snapshot*/snapshot*.x86_64")
    then codes "./snapshot1/snapshot.x86_64" ∷ codes "./snapshot2/snapshot.x86_64" ∷ []
    else []

default_found : default_exe glob linux (codes "/root") [] [] ≡ codes "./snapshot1/snapshot.x86_64"
unfolding default_exe among_heads among_tails among_matches bytes_eq
default_found = refl
