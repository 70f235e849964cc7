-- ===== src/Examples/Stats.antt =====
-- Status files of an idle lobby (internal/lobby/stat.go).
use snap_gs.Base.{
  ◌≡◌, refl, ℕ, Bytes, codes, false, [], ◌∷◌, none, some, ap, bytes_eq, has_prefix, bytes_key,
  arith,
}
use snap_gs.Base.GoMap.{lookup, insert, delete}
use snap_gs.Lobby.{Process, Content, Disk, Lobby}
use snap_gs.Base.{◌≢◌, true, bytes_eq}
use snap_gs.Base.GoMap.{lookup}
use snap_gs.Lobby.Stat.{pid_path, split_comma, last_of, set_disk, rem_stats, rename_file}
use snap_gs.Lobby.Stat.Files.{file, IsStat, IsApart}
use snap_gs.Lobby.Stat.Laws.{set_disk-apart, set_disk-set_rem}
use snap_gs.Lobby.Stat.Clear.{IsOwn, rem_stats-cleared}
use snap_gs.Examples.Lobbies.{options, fresh}

abbrev calm : Disk
calm = record {
  stats = (codes "idle", Content.time_of 7) ∷ (codes "lastmatch", Content.time_of 5) ∷ [];
  pids = [];
  refused = λ _. false;
}

abbrev running : Process
running = Process.started 77

full-IsStat : IsStat (codes "full")
unfolding bytes_eq has_prefix
full-IsStat = refl

options_there : bytes_eq options.stat_dir [] ≡ false
unfolding bytes_eq
options_there = refl

idle-IsApart : IsApart (codes "idle") (codes "full")
idle-IsApart = (
  (λ e. let t : 100 ≡ 117 = ap second_byte e in omega (arith, t)),
  (λ e. let t : 100 ≡ 97 = ap second_byte e in omega (arith, t)),
  (λ e. let t : 100 ≡ 117 = ap second_byte e in omega (arith, t)),
)
  where
    second_byte : Bytes → ℕ
    second_byte [] = 0
    second_byte (a ∷ []) = 0
    second_byte (a ∷ b ∷ s) = b

full-unmoved :
    pid_path (split_comma options.pid_file) (codes "full") true ≢ some (codes "/run/busy")
unfolding pid_path split_comma bytes_eq
full-unmoved e = cc

set_disk-apart_example :
    (file
        (codes "idle")
        (set_disk options running (codes "full") (some (Content.number_of 3)) calm).0
      ≡ file (codes "idle") calm)
    × (lookup
          (codes "/run/busy")
          (set_disk options running (codes "full") (some (Content.number_of 3)) calm).0.pids
        ≡ lookup (codes "/run/busy") calm.pids)
set_disk-apart_example =
    set_disk-apart options running (codes "full") (codes "idle") (codes "/run/busy")
      (some (Content.number_of 3)) calm idle-IsApart full-unmoved

set_disk-set_rem_example :
    let after = (set_disk options running (codes "full") (some (Content.number_of 3)) calm).0 in
    let later = (set_disk options Process.exited (codes "full") none after).0 in
    (file (codes "full") after ≡ some (Content.number_of 3))
    × (file (codes "full") later ≡ none)
    × (file (last_of (codes "full")) later ≡ some (Content.number_of 3))
set_disk-set_rem_example =
    set_disk-set_rem options running Process.exited (codes "full") (Content.number_of 3) calm
      full-IsStat options_there (λ _. refl)

abbrev settled : Lobby ℕ
settled = record fresh { disk = calm }

settled_cleared : rem_stats settled ≡ (
  record settled {
    disk = record calm {
      stats = (codes "lastmatch", Content.time_of 5) ∷ (codes "lastidle", Content.time_of 7) ∷ [];
    };
  },
  none,
)
unfolding rem_stats set_disk rename_file lookup insert delete bytes_eq has_prefix
settled_cleared = refl

idle-IsOwn : IsOwn (codes "idle")
unfolding has_prefix
idle-IsOwn = ((λ e. cc), refl)

rem_stats-cleared_example : file (codes "idle") (rem_stats settled).0.disk ≡ none
rem_stats-cleared_example =
    rem_stats-cleared settled (codes "idle") options_there idle-IsOwn
      (ap (λ r. r.1) settled_cleared)
