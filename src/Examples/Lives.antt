-- ===== src/Examples/Lives.antt =====
-- A lobby that is stopped while a player is there (internal/lobby/lobby.go, runc and Run).
use snap_gs.Base.{◌≡◌, refl, ℕ, Bool, codes, List, [], ◌∷◌, map, Option, none, some}
use snap_gs.Errors.{Err, lobby_done, lobby_stopped, lobby_timeout, other}
use snap_gs.Spec.{no_spec}
use snap_gs.Lobby.{Lobby, Disk, Done, closed}
use snap_gs.Lobby.Safety.{over}
use snap_gs.Lobby.Stop.Laws.{final_reason}
use snap_gs.Lobby.Life.{printed, ticked, drained, cancelled, spec_set, Fate, run}
use snap_gs.Lobby.Alloc.{
  Answers, at, no_break, alloc, alloc_pipes, alloc_spec, alloc_files, arguments, error_of,
  writes_pid,
}
use snap_gs.Lobby.Stat.{split_comma}
use snap_gs.Lobby.Life.Safety.{Ends, EndsWith, outcome, run-Ends}
use snap_gs.Lobby.Life.Outcome.{run-outcome}
use snap_gs.Lobby.Watcher.{tick, verdict, idle_for, up_again, round}
use snap_gs.Spec.{
  force_down_after, reason_after, force_stop_after, force_restart_after, down_after, stop_after,
  restart_after,
}
use snap_gs.Lobby.Stat.{set_stat, rem_stats, new_stat, rem_stat, set_disk}
use snap_gs.Base.{bytes_eq, decimal, parse_int, trim_space, contains, has_prefix, index}
use snap_gs.Match.{empty_match}
use snap_gs.Players.{count, no_players, add, least, migrate, remove, set}
use snap_gs.Base.GoMap.{delete, has, insert, lookup}
use snap_gs.Lobby.Blob.{
  accept_blob, add_kill, blob_of, dated, filter_json, set_match, time_part, truncate, update_match,
}
use snap_gs.Lobby.Bolt.{
  admin_left, arrived, classify, departed, emptied, filter_bolt, finish, handle, note_id,
  registered, set_arena, touched, tries_to_register, unregistered,
}
use snap_gs.Lobby.Collect.{collect, enqueue}
use snap_gs.Lobby.Life.{happen, live, new_lobby, prepare, runc, served, wind_up}
use snap_gs.Lobby.Line.{filter, handle_line, is_blob, is_noise, line_of}
use snap_gs.Lobby.Stop.{cancel, cancel_only}
use snap_gs.Examples.Lobbies.{options, env}

named : no_break (codes "a b") ≡ 97 ∷ 0xc2 ∷ 0xa0 ∷ 98 ∷ []
unfolding no_break
named = refl

abbrev pub blank : Disk
blank = record { stats = []; pids = []; refused = λ _. Bool.false }

-- A system that refuses nothing.
abbrev pub willing : Answers
willing = record {
  look_path = at;
  pid_error = none;
  out_pipe = none;
  out_size = none;
  err_pipe = none;
  err_size = none;
  spec_error = none;
  create_error = none;
  executable = none;
  has_preload = λ _. Bool.false;
  environ = [];
}

pub willing-alloc : error_of (alloc options willing).1 ≡ none
unfolding alloc alloc_pipes alloc_spec alloc_files arguments split_comma
willing-alloc = refl

abbrev pub busy : Fate
busy = record {
  answers = willing;
  own_pid = 7;
  spec = no_spec;
  now = 100;
  start_error = none;
  pid = 77;
  up = 110;
  exit = some (other 3);
  early = ticked 105 105 100 ∷ [];
  meanwhile =
      printed 1 (codes "-- BOLT -- Registered player: 1001") 120
      ∷ spec_set (record no_spec { force_stop = 125 })
      ∷ printed 2 (codes "ALSA lib conf.c: no") 126
      ∷ ticked 130 130 100
      ∷ printed 1 (codes "Disconnected") 131
      ∷ [];
  late = drained 140 ∷ cancelled lobby_done ∷ [];
}

abbrev seen : Option (Lobby ℕ × Option Err) → Option (Option Err × Done × Option Err)
seen none = none
seen (some (l, result)) = some (l.reason, l.done, result)

busy_stops :
    seen (run env options blank busy) ≡ some (some lobby_stopped, closed, some lobby_stopped)
unfolding run alloc alloc_pipes alloc_spec alloc_files arguments split_comma writes_pid no_break
    tick verdict force_down_after set_stat rem_stats bytes_eq empty_match count no_players
    reason_after force_stop_after force_restart_after down_after stop_after idle_for up_again
    restart_after decimal delete has insert lookup parse_int trim_space contains has_prefix index
    accept_blob add_kill blob_of dated filter_json set_match time_part truncate update_match
    admin_left arrived classify departed emptied filter_bolt finish handle note_id registered
    set_arena touched tries_to_register unregistered collect enqueue happen live new_lobby prepare
    runc served wind_up filter handle_line is_blob is_noise line_of new_stat rem_stat set_disk
    cancel cancel_only round add least migrate remove set
busy_stops = refl

run-Ends_example : Ends (run env options blank busy)
run-Ends_example = run-Ends env options blank busy

abbrev causes : List Err
causes = lobby_done ∷ lobby_stopped ∷ lobby_timeout ∷ []

abbrev stopped : Fate
stopped = record busy { early = []; meanwhile = map cancelled causes }

run-outcome_example :
    EndsWith over
      (run env options blank stopped)
      (outcome (final_reason none causes) (some (other 3)))
run-outcome_example = run-outcome env options blank stopped causes willing-alloc refl refl refl

stopped_reports : outcome (final_reason none causes) (some (other 3)) ≡ some lobby_stopped
stopped_reports = refl
