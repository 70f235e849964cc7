-- ===== src/Lobby.antt =====
-- The state of a lobby (internal/lobby/lobby.go) and what its goroutines share. A value of Go's
-- float64 is an `F`. The logs that the lobby writes are left out.
pub mod Stat
pub mod Stop
pub mod Collect
pub mod Safety
pub mod Bolt
pub mod Blob
pub mod Line
pub mod Watcher
pub mod Life
pub mod Collector
pub mod Alloc
pub mod Scanner
use snap_gs.Base.{ℕ, Bytes, Bool, List, Option, none, some}
use snap_gs.Errors.{Err}
use snap_gs.Match.{Time, Floats, Kill, Match}
use snap_gs.Options.{Options}
use snap_gs.Players.{Players}
use snap_gs.Spec.{Spec}

-- The child process: `l.c` is nil, it is set, the process runs under a process id, or has exited.
pub data Process : Type 0 where
  unset prepared exited : Process
  started : ℕ → Process

-- What was sent to the process.
pub data Signal : Type 0 where
  terminate kill : Signal

-- The channel `l.done`: nil, made, or closed.
pub data Done : Type 0 where
  absent opened closed : Done

-- What a file holds: the JSON of a time, of a number or of a text, or a process id.
pub data Content : Type 0 where
  time_of : Time → Content
  number_of : ℕ → Content
  text_of : Bytes → Content
  pid_of : ℕ → Content

-- The files that the lobby writes, those of --statdir by their name and the pid files by their path,
-- and the names that the system refuses to write.
pub record Disk : Type 0 where
  pub stats : List (Bytes × Content)
  pub pids : List (Bytes × Content)
  pub refused : Bytes → Bool

pub record Lobby (F : Type 0) : Type 0 where
  pub arena : Bytes
  pub session : Bytes
  pub changed : Bool
  pub opts : Options
  pub spec : Spec
  pub process : Process
  pub signals : List Signal
  pub m : Match F
  pub matches : List (Match F)
  pub players : Players
  pub t1 : Time
  pub done : Done
  pub reason : Option Err
  pub disk : Disk

-- The process runs: `l.c != nil && l.c.Process != nil && l.c.ProcessState == nil`.
abbrev pub pid_of_running : Process → Option ℕ
pid_of_running unset = none
pid_of_running prepared = none
pid_of_running exited = none
pid_of_running (started pid) = some pid

-- What the program takes from elsewhere: float64, `json.Unmarshal` into a new kill and a new match,
-- `time.Parse` with the layout of a match id, and whether gopsutil finds a process.
pub record Env (F : Type 0) : Type 0 where
  pub floats : Floats F
  pub decode_kill : Bytes → Option (Kill F)
  pub decode_match : Bytes → Option (Match F)
  pub parse_time : Bytes → Option Time
  pub finds_process : ℕ → Bool
