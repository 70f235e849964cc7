-- ===== src/Lobby/Stat/Laws.antt =====
-- What a change of a status file does to the files (internal/lobby/stat.go).
use snap_gs.Base.{
  ◌≢◌, ◌≡◌, refl, ap, ◌∙◌, inl, inr, Bytes, codes, Bool, true, false, ◌||◌, [], Option, none, some,
  is_some, has_prefix, bytes_eq, bytes_key, Bool-cases,
}
use snap_gs.Base.GoMap.{lookup}
use snap_gs.Options.{Options}
use snap_gs.Lobby.{pid_of_running, Process, Content, Disk}
use snap_gs.Lobby.Stat.{pid_path, split_comma, last_of, store, noted, set_disk}
use snap_gs.Lobby.Stat.Files.{
  store_pid-stats, store_pid-pids, store-pids, store_pid-refused, file, IsStat, IsApart,
  store-apart, store-none-file, IsFree, store-some-file, store-none-moves,
}

pub noted-file :
    (opts : Options) (process : Process) (name : Bytes) (set : Bool) (d : Disk)
    → (noted opts process name set d).stats ≡ d.stats
unfolding noted
noted-file opts process name set d = store_pid-stats _ _ d

-- A change of a status file leaves every file of --statdir alone but the file itself, its `last` and its
-- lock, and every pid file but the one that the change moves the process to, even where the system
-- refuses to write. The pid files are taken to lie outside of --statdir.
pub set_disk-apart :
    (opts : Options) (process : Process) (name n path : Bytes) (c : Option Content) (d : Disk)
    → IsApart n name
    → pid_path (split_comma opts.pid_file) name (is_some c) ≢ some path
    → (file n (set_disk opts process name c d).0 ≡ file n d)
      × (lookup path (set_disk opts process name c d).0.pids ≡ lookup path d.pids)
unfolding set_disk noted
set_disk-apart opts process name n path c d apart unmoved =
    let after = noted opts process name (is_some c) d in
    let kept : lookup path after.pids ≡ lookup path d.pids =
      store_pid-pids (pid_path (split_comma opts.pid_file) name (is_some c))
        (pid_of_running process) d path unmoved in
    elim (Bool-cases (bytes_eq name [] || has_prefix name (codes "last"))) [
      | inl over ↦ rw over (refl, refl)
      | inr stat ↦ elim (Bool-cases (bytes_eq opts.stat_dir [])) [
        | inl nowhere ↦
            rw (stat, nowhere) (ap (lookup n) (noted-file opts process name (is_some c) d), kept)
        | inr there ↦
            rw (stat, there)
              (
                store-apart name n c after apart
                    ∙ ap (lookup n) (noted-file opts process name (is_some c) d),
                ap (lookup path) (store-pids name c after) ∙ kept,
              )
      ]
    ]

-- A removal that reports no error leaves no file of that name.
pub set_disk-removed :
    (opts : Options) (process : Process) (name : Bytes) (d : Disk)
    → IsStat name
    → bytes_eq opts.stat_dir [] ≡ false
    → (set_disk opts process name none d).1 ≡ none
    → file name (set_disk opts process name none d).0 ≡ none
unfolding set_disk
set_disk-removed opts process name d stat there fine =
    rw (set_disk, stat, there)
      (store-none-file name (noted opts process name false d) (rw (set_disk, stat, there) at fine))

noted-IsFree :
    (opts : Options) (process : Process) (name : Bytes) (set : Bool) (d : Disk)
    → IsFree d
    → IsFree (noted opts process name set d)
unfolding noted
noted-IsFree opts process name set d free n = ap (λ f. f n) (store_pid-refused _ _ d) ∙ free n

-- With --statdir given and a system that refuses nothing, a value that is set under a name that is not
-- empty and does not start with `last` is read back, and when it is removed again its file is gone and
-- `last…` holds it.
pub set_disk-set_rem :
    (opts : Options) (process process' : Process) (name : Bytes) (c : Content) (d : Disk)
    → IsStat name
    → bytes_eq opts.stat_dir [] ≡ false
    → IsFree d
    → let after = (set_disk opts process name (some c) d).0 in
      let later = (set_disk opts process' name none after).0 in
      (file name after ≡ some c) × (file name later ≡ none) × (file (last_of name) later ≡ some c)
unfolding set_disk
set_disk-set_rem opts process process' name c d stat there free =
    let before = noted opts process name true d in
    let (read, free') =
      store-some-file name c before (noted-IsFree opts process name true d free) in
    let after = (store name (some c) before).0 in
    let still = ap (lookup name) (noted-file opts process' name false after) ∙ read in
    let moved =
      store-none-moves name c (noted opts process' name false after)
        (noted-IsFree opts process' name false after free') still in
    rw (set_disk, stat, there) (read, moved.0, moved.1)
