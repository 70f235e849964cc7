-- ===== src/Lobby/Stat.antt =====
-- The status files of a lobby (internal/lobby/stat.go). The directory of --statdir is flat, so its
-- files go by their names; an error of the system is `Err.other`.
pub mod Commas
pub mod Files
pub mod Laws
pub mod Clear
use snap_gs.Base.{
  ℕ, zero, suc, Bytes, codes, Bool, true, false, ◌||◌, ◌&&◌, not, List, [], ◌∷◌, ◌++◌, Option, none,
  some, is_some, if◌then◌else◌, has_prefix, bytes_eq, bytes_key, ◌==◌,
}
use snap_gs.Base.GoMap.{lookup, insert, delete}
use snap_gs.Errors.{Err, other}
use snap_gs.Match.{Time}
use snap_gs.Options.{Options}
use snap_gs.Lobby.{Process, Content, Disk, Lobby, time_of, pid_of, pid_of_running}

abbrev denied : Option Err
denied = some (other 1)

abbrev not_found : Option Err
not_found = some (other 2)

-- `os.WriteFile`, `os.Rename` and `os.RemoveAll` in the directory.
unfoldable pub write_file : Bytes → Content → Disk → Disk × Option Err
write_file name c d =
    if d.refused name then (d, denied) else (record d { stats = insert name c d.stats }, none)

unfoldable pub rename_file : Bytes → Bytes → Disk → Disk × Option Err
rename_file from to d = elim (lookup from d.stats) [
  | none ↦ (d, not_found)
  | some c ↦
      if d.refused from || d.refused to
      then (d, denied)
      else (record d { stats = insert to c (delete from d.stats) }, none)
]

unfoldable pub remove_all : Bytes → Disk → Disk × Option Err
remove_all name d =
    if d.refused name then (d, denied) else (record d { stats = delete name d.stats }, none)

-- A pid file, which no file of --statdir is: an empty path cannot be written.
unfoldable pub write_pid : Bytes → ℕ → Disk → Disk
write_pid [] pid d = d
write_pid (c ∷ path) pid d =
    if d.refused (c ∷ path) then d else record d { pids = insert (c ∷ path) (pid_of pid) d.pids }

-- `strings.Split(s, ",")`.
split_from : Bytes → Bytes → List Bytes
split_from part [] = part ∷ []
split_from part (c ∷ s) =
    let closed = part ∷ split_from [] s in
    let longer = split_from (part ++ c ∷ []) s in if c == b',' then closed else longer

unfoldable pub split_comma : Bytes → List Bytes
unfolding split_from
split_comma s = split_from [] s

-- `len(pidfile) > i && pidfile[i] != ""`, with the path.
abbrev path_at : List Bytes → ℕ → Option Bytes
path_at [] i = none
path_at ([] ∷ ps) zero = none
path_at ((c ∷ p) ∷ ps) zero = some (c ∷ p)
path_at (p ∷ ps) (suc i) = path_at ps i

-- The path alone, as `pidfile[i]` where the slice is long enough.
abbrev part_at : List Bytes → ℕ → Bytes
part_at [] i = []
part_at (p ∷ ps) zero = p
part_at (p ∷ ps) (suc i) = part_at ps i

abbrev is_up : Bytes → Bool
is_up name = bytes_eq name (codes "up")

abbrev is_idle : Bytes → Bool
is_idle name = bytes_eq name (codes "idle")

-- The pid file that a change of `up` or `idle` moves the process to, if any.
unfoldable pub pid_path : List Bytes → Bytes → Bool → Option Bytes
pid_path pidfile name set =
    if is_up name && set && is_some (path_at pidfile 1)
    then path_at pidfile 1
    else if is_idle name && not set && is_some (path_at pidfile 2)
    then some (part_at pidfile 1)
    else if is_idle name && set && is_some (path_at pidfile 2)
    then path_at pidfile 2
    else none

abbrev store_pid : Option Bytes → Option ℕ → Disk → Disk
store_pid none pid d = d
store_pid (some path) none d = d
store_pid (some path) (some pid) d = write_pid path pid d

abbrev pub last_of : Bytes → Bytes
last_of name = codes "last" ++ name

abbrev pub lock_of : Bytes → Bytes
lock_of name = name ++ codes ".lock"

-- The files of --statdir: a value goes in by a lock file, a nil value renames the file to `last…`.
pub store : Bytes → Option Content → Disk → Disk × Option Err
unfolding write_file rename_file remove_all
store name none d =
    let (renamed, err) = rename_file name (last_of name) d in
    if is_some err then remove_all name d else (renamed, none)
store name (some c) d =
    let (written, err) = write_file (lock_of name) c d in
    if is_some err then (d, err) else rename_file (lock_of name) name written

-- The process id is noted at a change of `up` or `idle` only.
pub noted : Options → Process → Bytes → Bool → Disk → Disk
unfolding pid_path split_comma
noted opts process name set d =
    store_pid (pid_path (split_comma opts.pid_file) name set) (pid_of_running process) d

-- `setstat`, on the options, the process and the files.
unfoldable pub set_disk : Options → Process → Bytes → Option Content → Disk → Disk × Option Err
unfolding store noted
set_disk opts process name c d =
    let after = noted opts process name (is_some c) d in
    if bytes_eq name [] || has_prefix name (codes "last")
    then (d, none)
    else if bytes_eq opts.stat_dir []
    then (after, none)
    else store name c after

-- The names that `remstats` finds in the directory, and the loop over them that stops at an error.
pub own_names : List (Bytes × Content) → List Bytes
own_names [] = []
own_names ((name, c) ∷ files) =
    let rest = own_names files in if has_prefix name (codes "last") then rest else name ∷ rest

-- `os.ReadDir` fails: the name of the directory itself, among its files, is the empty one.
abbrev pub is_unread : Options → Disk → Bool
is_unread opts d = not (bytes_eq opts.stat_dir []) && d.refused []

pub clear_names : Options → Process → List Bytes → Disk → Disk × Option Err
clear_names opts process [] d = (d, none)
clear_names opts process (name ∷ names) d =
    let (d', err) = set_disk opts process name none d in
    let rest = clear_names opts process names d' in if is_some err then (d', err) else rest

module _ {F : Type 0} where
  -- `setstat` where the caller drops the error, as all but `remstats` do.
  unfoldable pub set_stat : Bytes → Option Content → Lobby F → Lobby F
  set_stat name c l = record l { disk = (set_disk l.opts l.process name c l.disk).0 }

  unfoldable pub rem_stat : Bytes → Lobby F → Lobby F
  unfolding set_stat
  rem_stat name l = set_stat name none l

  -- `now` is the time at which the file is written.
  unfoldable pub new_stat : Bytes → Time → Lobby F → Lobby F
  unfolding set_stat
  new_stat name now l =
      set_stat name (some (time_of (if bytes_eq name (codes "match") then l.m.timestamp else now)))
        l

  unfoldable pub rem_stats : Lobby F → Lobby F × Option Err
  unfolding own_names clear_names
  rem_stats l =
      let names = if bytes_eq l.opts.stat_dir [] then [] else own_names l.disk.stats in
      let (disk, err) = clear_names l.opts l.process names l.disk in
      let unread = is_unread l.opts l.disk in
      (record l { disk = if unread then l.disk else disk }, if unread then denied else err)
