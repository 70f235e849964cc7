-- ===== src/Lobby/Alloc.antt =====
-- What `alloc` prepares for a run, and what it opens (internal/lobby/lobby.go, alloc, the deferred calls
-- of runc, and Uptime). The answers of the system are inputs. A trace lists the files and pipes that are
-- opened and closed, in order.
pub mod Handles
pub mod Session
use snap_gs.Base.{
  ℕ, ◌-◌, ◌==◌, Bytes, codes, Bool, true, false, not, ◌&&◌, ◌||◌, List, [], ◌∷◌, ◌++◌, Option, none,
  some, if◌then◌else◌, is_nil, is_some,
}
use snap_gs.Errors.{Err}
use snap_gs.Match.{Time}
use snap_gs.Options.{Options}
use snap_gs.Lobby.Stat.{split_comma}
use snap_gs.Lobby.Stat.Commas.{first_of}

-- The ends of the two pipes, the watch of --specdir, and Player.log.
pub data Handle : Type 0 where
  prout pwout prerr pwerr watching outfile : Handle

-- `joined` is the end of `l.wg.Wait()`, `renamed` is Player.log that becomes Player-prev.log, and
-- `timed` is the end of the uptime.
pub data Action : Type 0 where
  opened closed : Handle → Action
  joined renamed timed : Action

-- What `exec.LookPath` returns.
pub data Looked : Type 0 where
  at : Bytes → Looked
  nowhere : Err → Looked

-- The answers of the system. `executable` is the path of the program itself, where it is known, and
-- `has_preload` says that the file beside it exists.
pub record Answers : Type 0 where
  pub look_path : Bytes → Looked
  pub pid_error : Option Err
  pub out_pipe : Option Err
  pub out_size : Option Err
  pub err_pipe : Option Err
  pub err_size : Option Err
  pub spec_error : Option Err
  pub create_error : Option Err
  pub executable : Option Bytes
  pub has_preload : Bytes → Bool
  pub environ : List Bytes

-- The command: its path, its arguments and its environment, where none is that of the program.
pub record Command : Type 0 where
  pub path : Bytes
  pub args : List Bytes
  pub env : Option (List Bytes)

pub data Result : Type 0 where
  failed : Err → Result
  ready : Command → Result

abbrev pub later_parts : List Bytes → List Bytes
later_parts [] = []
later_parts (p ∷ ps) = ps

-- `strings.ReplaceAll(session, " ", "\u00a0")`: a no-break space is two bytes.
unfoldable pub no_break : Bytes → Bytes
no_break [] = []
no_break (c ∷ s) = let rest = no_break s in if c == 32 then 0xc2 ∷ 0xa0 ∷ rest else c ∷ rest

-- A flag with its value, where there is one.
abbrev pub flag_with : Bytes → Bytes → List Bytes
flag_with flag [] = []
flag_with flag (c ∷ s) = flag ∷ (c ∷ s) ∷ []

-- `args` after its first element.
unfoldable pub arguments : Options → List Bytes
unfolding no_break split_comma
arguments o =
    later_parts (split_comma o.exe)
    ++ (codes "-nographics"
        ∷ codes "-batchmode"
        ∷ codes "--hitdetectionmode"
        ∷ codes "authoritative"
        ∷ codes "--roomname"
        ∷ no_break o.session
        ∷ [])
    ++ (if is_nil o.log_dir then [] else codes "-logMatchData" ∷ [])
    ++ flag_with (codes "--password") o.password
    ++ flag_with (codes "--bind-address") (first_of (split_comma o.listen))

-- The environment that the preloaded library reads, where all three addresses are given.
abbrev pub listen_env : List Bytes → Bytes → List Bytes → Option (List Bytes)
listen_env environ preload ((a ∷ local) ∷ (b ∷ public) ∷ (c ∷ accel) ∷ []) = some (
    environ
    ++ ((codes "LD_PRELOAD=" ++ preload)
        ∷ (codes "SNAPGS_LOBBY_LISTEN=" ++ a ∷ local)
        ∷ (codes "SNAPGS_LOBBY_LISTEN1=" ++ b ∷ public)
        ∷ (codes "SNAPGS_LOBBY_LISTEN2=" ++ c ∷ accel)
        ∷ []))
listen_env environ preload _ = none

abbrev pub preload_env : Answers → Options → Option Bytes → Option (List Bytes)
preload_env a o none = none
preload_env a o (some self) =
    let preload = self ++ codes "-preload.so" in
    if a.has_preload preload then listen_env a.environ preload (split_comma o.listen) else none

abbrev pub open_out : List Action
open_out = opened prout ∷ opened pwout ∷ []

abbrev pub open_err : List Action
open_err = opened prerr ∷ opened pwerr ∷ []

abbrev pub close_out : List Action
close_out = closed prout ∷ closed pwout ∷ []

abbrev pub close_err : List Action
close_err = closed prerr ∷ closed pwerr ∷ []

-- `specdone`.
abbrev pub spec_done : Options → List Action
spec_done o = if is_nil o.spec_dir then [] else closed watching ∷ []

abbrev pub has_outfile : Options → Bool
has_outfile o = not (is_nil o.log_dir) && o.debug

-- The function that `alloc` returns.
unfoldable pub done : Options → List Action
done o =
    if has_outfile o
    then closed outfile ∷ renamed ∷ spec_done o ++ timed ∷ []
    else spec_done o ++ timed ∷ []

-- An error of a call, after the actions that it leads to, or what follows.
abbrev pub try_call : Option Err → List Action → List Action × Result → List Action × Result
try_call (some e) cleanup rest = (cleanup, failed e)
try_call none cleanup rest = rest

abbrev pub after : List Action → List Action × Result → List Action × Result
after actions rest = (actions ++ rest.0, rest.1)

-- An error that is met only if there is a reason to make the call.
abbrev pub only_if : Bool → Option Err → Option Err
only_if true e = e
only_if false e = none

unfoldable pub alloc_files : Options → Answers → Command → List Action × Result
alloc_files o a command =
    try_call (only_if (has_outfile o) a.create_error) (close_out ++ close_err ++ spec_done o)
      (if has_outfile o then opened outfile ∷ [] else [], ready command)

unfoldable pub alloc_spec : Options → Answers → Command → List Action × Result
unfolding alloc_files
alloc_spec o a command =
    try_call (only_if (not (is_nil o.spec_dir)) a.spec_error) (close_out ++ close_err)
      (after (if is_nil o.spec_dir then [] else opened watching ∷ []) (alloc_files o a command))

unfoldable pub alloc_pipes : Options → Answers → Command → List Action × Result
unfolding alloc_spec
alloc_pipes o a command = try_call a.out_pipe [] (
    after open_out (
      try_call a.out_size close_out (
        try_call a.err_pipe close_out (
          after open_err (try_call a.err_size (close_out ++ close_err) (alloc_spec o a command))))))

-- `alloc` on the path that LookPath returned.
abbrev pub alloc_at : Options → Answers → Looked → List Action × Result
alloc_at o a (nowhere e) = ([], failed e)
alloc_at o a (at path) =
    try_call (only_if (not (is_nil (first_of (split_comma o.pid_file)))) a.pid_error) [] (
      alloc_pipes o a
        (record { path = path; args = arguments o; env = preload_env a o a.executable }))

unfoldable pub alloc : Options → Answers → List Action × Result
unfolding alloc_pipes arguments split_comma
alloc o a = alloc_at o a (a.look_path (first_of (split_comma o.exe)))

abbrev pub error_of : Result → Option Err
error_of (failed e) = some e
error_of (ready command) = none

abbrev pub is_found : Looked → Bool
is_found (at path) = true
is_found (nowhere e) = false

-- Whether `alloc` comes to write the process id of the program.
unfoldable pub writes_pid : Options → Answers → Bool
unfolding split_comma
writes_pid o a =
    is_found (a.look_path (first_of (split_comma o.exe)))
    && not (is_nil (first_of (split_comma o.pid_file)))
    && not (is_some a.pid_error)

-- The deferred calls of a scanner that close the end of the pipe that it reads.
abbrev pub scanner_closes : ℕ → List Action
scanner_closes fd = if fd == 1 then closed prout ∷ [] else if fd == 2 then closed prerr ∷ [] else []

-- What two goroutines do, one action after another: true is an action of the first, and what is left when
-- the schedule is over comes at the end.
abbrev pub interleave : List Bool → List Action → List Action → List Action
interleave bs [] ys = ys
interleave bs (x ∷ xs) [] = x ∷ xs
interleave [] (x ∷ xs) (y ∷ ys) = x ∷ xs ++ y ∷ ys
interleave (true ∷ bs) (x ∷ xs) (y ∷ ys) = x ∷ interleave bs xs (y ∷ ys)
interleave (false ∷ bs) (x ∷ xs) (y ∷ ys) = y ∷ interleave bs (x ∷ xs) ys

-- When each of the two scanners ends: against the other one, and against the calls of `runc`.
pub record Schedule : Type 0 where
  pub scanners : List Bool
  pub deferred : List Bool

-- What `runc` does after `alloc`: its deferred calls, from the last to the first, while the scanners end.
-- The scanners have ended when they were waited for.
unfoldable pub run_actions : Schedule → Options → Result → List Action
unfolding done
run_actions s o (failed e) = []
run_actions s o (ready command) =
    interleave s.deferred (closed pwout ∷ closed pwerr ∷ [])
      (interleave s.scanners (scanner_closes 1) (scanner_closes 2))
    ++ joined ∷ done o

-- All that a run opens and closes.
unfoldable pub trace : Schedule → Options → Answers → List Action
unfolding alloc run_actions
trace s o a = let (actions, result) = alloc o a in actions ++ run_actions s o result

-- `Uptime`: 0 stands for a time that is not set.
unfoldable pub uptime : Time → Time → Time → ℕ
uptime t1 t2 now = if t1 == 0 then 0 else if t2 == 0 then now - t1 else t2 - t1
