-- ===== src/Command/Setup.antt =====
-- What `RunE` prepares before it runs the lobbies (public/cmd/lobby.go, lines 189 to 286), and the search
-- for the default executable. The files of the system are a state `S`, with the calls that change it
-- as a parameter; url.Parse, url.ParseQuery, filepath.Join and filepath.Glob are parameters too.
pub mod Mounts
pub mod Directories
pub mod Success
pub mod PidFiles
use snap_gs.Base.{
  ℕ, zero, suc, ◌==◌, Bytes, codes, Bool, true, false, ◌||◌, List, [], ◌∷◌, ◌++◌, map, Option, none,
  some, if◌then◌else◌, is_nil, bytes_eq, decimal,
}
use snap_gs.Errors.{Err}
use snap_gs.Options.{Options}
use snap_gs.Options.Files.{Decoders, Flag, apply}
use snap_gs.Lobby.Stat.{split_comma}

-- `os.MkdirAll(path, 0o755)` and `os.WriteFile(path, content, 0o644)`.
pub record Os (S : Type 0) : Type 0 where
  pub mkdir_all : Bytes → S → S × Option Err
  pub write_file : Bytes → Bytes → S → S × Option Err

-- What `os.ReadFile` returns.
pub record Read : Type 0 where
  pub content : Bytes
  pub error : Option Err

pub record Url : Type 0 where
  pub scheme : Bytes
  pub opaque : Bytes
  pub path : Bytes
  pub raw_query : Bytes

pub data Result {ℓ} (A : Type ℓ) : Type ℓ where
  ok : A → Result A
  failed : Err → Result A

pub record Library : Type 0 where
  pub parse : Bytes → Result Url
  pub parse_query : Bytes → Result (List (Bytes × List Bytes))
  pub join : Bytes → Bytes → Bytes
  pub decoders : Decoders

-- What `RunE` is given besides its options: --flagdir, the error of its watch, the files that are in it
-- when the watch begins, the two files under /proc and the process id.
pub record Found : Type 0 where
  pub flag_dir : Bytes
  pub watch_error : Option Err
  pub first_flags : List Flag
  pub mounts : Read
  pub own_cgroup : Read
  pub pid : ℕ

-- `bytes.Split` by one byte.
abbrev pub push : ℕ → List Bytes → List Bytes
push c [] = (c ∷ []) ∷ []
push c (p ∷ ps) = (c ∷ p) ∷ ps

unfoldable pub split_by : ℕ → Bytes → List Bytes
split_by sep [] = [] ∷ []
split_by sep (c ∷ s) = let rest = split_by sep s in if c == sep then [] ∷ rest else push c rest

-- What stands before the first space, and after it.
abbrev pub push_front : ℕ → Option (Bytes × Bytes) → Option (Bytes × Bytes)
push_front c none = none
push_front c (some (head, tail)) = some (c ∷ head, tail)

unfoldable pub cut_space : Bytes → Option (Bytes × Bytes)
cut_space [] = none
cut_space (c ∷ s) = let rest = push_front c (cut_space s) in if c == 32 then some ([], s) else rest

-- The second word of a line, where it is not empty and a space follows it.
abbrev pub second_word : Option (Bytes × Bytes) → Option Bytes
second_word none = none
second_word (some ([], tail)) = none
second_word (some (c ∷ word, tail)) = some (c ∷ word)

abbrev pub mount_in : Option (Bytes × Bytes) → Option Bytes
mount_in none = none
mount_in (some (device, tail)) =
    if bytes_eq device (codes "cgroup2") then second_word (cut_space tail) else none

unfoldable pub mount_of : Bytes → Option Bytes
unfolding cut_space
mount_of line = mount_in (cut_space line)

abbrev pub or_later : Option Bytes → Bytes → Bytes
or_later none later = later
or_later (some dir) later = dir

-- The first mount of cgroup2 in some lines.
unfoldable pub cgroup_root : List Bytes → Bytes
unfolding mount_of
cgroup_root [] = codes "/sys/fs/cgroup"
cgroup_root (line ∷ lines) = or_later (mount_of line) (cgroup_root lines)

-- `bytes.TrimRight(bs, "\n")`.
abbrev pub end_line : ℕ → Bytes → Bytes
end_line c [] = if c == 10 then [] else c ∷ []
end_line c (d ∷ s) = c ∷ d ∷ s

unfoldable pub trim_lines : Bytes → Bytes
trim_lines [] = []
trim_lines (c ∷ s) = end_line c (trim_lines s)

-- `bytes.TrimLeft(bs, "0:/")`.
unfoldable pub trim_hierarchy : Bytes → Bytes
trim_hierarchy [] = []
trim_hierarchy (c ∷ s) =
    let rest = trim_hierarchy s in if c == b'0' || c == b':' || c == b'/' then rest else c ∷ s

module _ (lib : Library) where
  -- The directory of the cgroup of the program, or of all, and the error of what was read.
  abbrev pub own_path : Bytes → Read → Option Err → Bytes × Option Err
  own_path root own (some e) = (root, some e)
  own_path root own none = (lib.join root (trim_hierarchy (trim_lines own.content)), none)

  abbrev pub cgroup_by : Bytes → Read → Option Err → Bytes × Option Err
  cgroup_by root own (some e) = (root, some e)
  cgroup_by root own none = own_path root own own.error

  unfoldable pub cgroup_of : Found → Bytes × Option Err
  unfolding cgroup_root split_by trim_hierarchy trim_lines
  cgroup_of w = cgroup_by (cgroup_root (split_by 10 w.mounts.content)) w.own_cgroup w.mounts.error

module _ {S : Type 0} where
  -- Go on after a call, unless it failed.
  abbrev pub and_then {ℓ κ} :
      {A : Type ℓ} {B : Type κ} → S × Result A → (A → S → S × Result B) → S × Result B
  and_then (s, failed e) f = (s, failed e)
  and_then (s, ok a) f = f a s

  abbrev pub checked : S × Option Err → S × Result (Unit {0})
  checked (s, none) = (s, ok tt)
  checked (s, some e) = (s, failed e)

module _ {S : Type 0} (lib : Library) (os : Os S) where
  -- `os.MkdirAll` where a directory is given.
  unfoldable pub make_dir : Bytes → S → S × Result (Unit {0})
  make_dir [] s = (s, ok tt)
  make_dir (c ∷ path) s = checked (os.mkdir_all (c ∷ path) s)

  -- The inner loops: one write for each value of each key of the query.
  unfoldable pub write_values : Bytes → Bytes → List Bytes → S → S × Result (Unit {0})
  write_values dir key [] s = (s, ok tt)
  write_values dir key (v ∷ vs) s =
      and_then (checked (os.write_file (lib.join dir key) v s)) (λ _. write_values dir key vs)

  unfoldable pub write_query : Bytes → List (Bytes × List Bytes) → S → S × Result (Unit {0})
  unfolding write_values
  write_query dir [] s = (s, ok tt)
  write_query dir ((key, values) ∷ q) s =
      and_then (write_values dir key values s) (λ _. write_query dir q)

  -- The program enters the first of its cgroups, and lets the others limit the CPU.
  abbrev pub enter : Bytes → ℕ → ℕ → Bytes → S → S × Result (Unit {0})
  enter root pid (suc i) procs s = (s, ok tt)
  enter root pid zero procs s = and_then (checked (os.write_file procs (decimal pid) s)) (λ _ t.
      checked (os.write_file (lib.join root (codes "cgroup.subtree_control")) (codes "+cpu") t))

  -- The i-th pid file after its URL was parsed: the file that it becomes.
  unfoldable pub cgroup_file : Bytes → ℕ → ℕ → Url → S → S × Result Bytes
  unfolding write_query
  cgroup_file root pid i u s =
      let dir = lib.join root u.opaque in
      let procs = lib.join dir (codes "cgroup.procs") in
      if is_nil dir
      then (s, ok procs)
      else and_then (checked (os.mkdir_all dir s)) (λ _ s1.
        and_then (enter root pid i procs s1) (λ _ s2.
          and_then (s2, lib.parse_query u.raw_query)
            (λ q s3. and_then (write_query dir q s3) (λ _ s4. (s4, ok procs)))))

  unfoldable pub plain_file : Bytes → Url → S → S × Result Bytes
  unfolding make_dir
  plain_file file u s = and_then (make_dir u.path s) (λ _ t. (t, ok file))

  abbrev pub in_cgroup : Bytes × Option Err → ℕ → ℕ → Url → S → S × Result Bytes
  in_cgroup (root, some e) pid i u s = (s, failed e)
  in_cgroup (root, none) pid i u s = cgroup_file root pid i u s

  unfoldable pub pid_file : Bytes × Option Err → ℕ → ℕ → Bytes → S → S × Result Bytes
  unfolding cgroup_file plain_file
  pid_file cgroup pid i file s =
      and_then (s, lib.parse file)
        (λ u t.
          if bytes_eq u.scheme (codes "cgroup")
          then in_cgroup cgroup pid i u t
          else plain_file file u t)

  -- The loop over the pid files from the i-th on.
  unfoldable pub pid_files : Bytes × Option Err → ℕ → ℕ → List Bytes → S → S × Result (List Bytes)
  unfolding pid_file
  pid_files cgroup pid i [] s = (s, ok [])
  pid_files cgroup pid i (file ∷ files) s = and_then (pid_file cgroup pid i file s) (λ file' t.
      and_then (pid_files cgroup pid (suc i) files t) (λ files' u. (u, ok (file' ∷ files'))))

-- `strings.Join(files, ",")`.
unfoldable pub join_comma : List Bytes → Bytes
join_comma [] = []
join_comma (file ∷ []) = file
join_comma (file ∷ next ∷ files) = file ++ b',' ∷ join_comma (next ∷ files)

module _ {S : Type 0} (lib : Library) (os : Os S) (w : Found) where
  -- The directory of --flagdir, and its watch: before `opts.Watch` returns it has changed the options by
  -- the files that are there. What its goroutine reads while RunE goes on counts as read after RunE.
  abbrev pub with_first : Options → S → Option Err → S × Result Options
  with_first o s (some e) = (s, failed e)
  with_first o s none = (s, ok (apply lib.decoders o w.first_flags o))

  abbrev pub watch_flags : Bytes → Options → S → S × Result Options
  watch_flags [] o s = (s, ok o)
  watch_flags (c ∷ dir) o s =
      and_then (checked (os.mkdir_all (c ∷ dir) s)) (λ _ t. with_first o t w.watch_error)

  unfoldable pub setup : Options → S → S × Result Options
  unfolding make_dir apply pid_files cgroup_of split_comma join_comma
  setup o s = and_then (make_dir lib os o.log_dir s) (λ _ s1.
      and_then (make_dir lib os o.spec_dir s1) (λ _ s2.
        and_then (make_dir lib os o.stat_dir s2) (λ _ s3.
          and_then (watch_flags w.flag_dir o s3) (λ o1 s4.
            and_then (pid_files lib os (cgroup_of lib w) w.pid 0 (split_comma o1.pid_file) s4)
              (λ files s5. (s5, ok (record o1 { pid_file = join_comma files })))))))
