-- ===== src/Examples/Lobbies.antt =====
-- A lobby from its first player to its end (internal/lobby/scan.go, lobby.go, collect.go, watch.go).
use snap_gs.Base.{
  ◌≡◌, ◌≢◌, refl, ℕ, pos, ◌-◌, Bytes, true, false, codes, List, [], ◌∷◌, Option, none, some, length,
  arith, bytes_eq, has_prefix, contains, trim_space, parse_int, bytes_key,
}
use snap_gs.Base.GoMap.{lookup, insert, delete, has}
use snap_gs.Errors.{Err, lobby_done, lobby_timeout, lobby_disconnected, lobby_downed}
use snap_gs.Match.{Time, Floats, empty_match}
use snap_gs.Options.{Options}
use snap_gs.Players.{no_players, count, add, remove}
use snap_gs.Players.Invariant.{no_players-IsValid}
use snap_gs.Spec.{
  no_spec, reason_after, force_down_after, force_stop_after, force_restart_after, down_after,
  stop_after, restart_after,
}
use snap_gs.Lobby.{Process, Done, opened, closed, Lobby, Env}
use snap_gs.Lobby.Stop.{cancel_only}
use snap_gs.Lobby.Stop.Laws.{IsClosing, cancel_each, cancel_each-final_reason}
use snap_gs.Lobby.Collect.{collect}
use snap_gs.Lobby.Bolt.{filter_bolt, handle, classify, registered, unregistered}
use snap_gs.Lobby.Safety.{unbound, IsSafe}
use snap_gs.Lobby.Line.{filter, scan, is_noise, is_blob}
use snap_gs.Lobby.Stat.{new_stat}
use snap_gs.Lobby.Line.Safety.{scan-IsSafe}
use snap_gs.Lobby.Watcher.{interval, verdict, expired, idle_for, up_again, tick}
use snap_gs.Lobby.Watcher.Policy.{IsDue, verdict-IsDue, tick_ends}

abbrev pub options : Options
options = record {
  debug = false;
  listen = codes ":27002";
  session = codes "lobby1";
  password = [];
  log_dir = codes "/log";
  spec_dir = codes "/spec";
  stat_dir = codes "/run/stat";
  pid_file = [];
  exe = codes "snapshot";
  timeout = pos 600000000;
  admin_timeout = pos 300000000;
  max_fails = pos 3;
  min_uptime = pos 0;
}

abbrev whole : Floats ℕ
whole = record { zero = 0; sub = λ a b. a - b }

-- A decoder that takes a line for a match with the line as its id, and a clock that reads nothing.
abbrev pub env : Env ℕ
env = record {
  floats = whole;
  decode_kill = λ _. none;
  decode_match = λ bs. some (record (empty_match whole 0) { match_id = bs });
  parse_time = λ _. none;
  finds_process = λ _. true;
}

abbrev pub fresh : Lobby ℕ
fresh = record {
  arena = [];
  session = codes "lobby1";
  changed = false;
  opts = options;
  spec = no_spec;
  process = Process.started 77;
  signals = [];
  m = empty_match whole 100;
  matches = [];
  players = no_players;
  t1 = 50;
  done = opened;
  reason = none;
  disk = record { stats = []; pids = []; refused = λ _. false };
}

pub fresh-IsSafe : IsSafe unbound fresh
fresh-IsSafe = record {
  players = no_players-IsValid;
  closing = refl;
  queue = omega arith;
  settled = tt;
}

abbrev lines : List (Bytes × Time)
lines =
    (codes "Finished populating pool", 110)
    ∷ (codes "-- BOLT -- Registered player: 1001", 120)
    ∷ (codes "   ", 125)
    ∷ (codes "-- BOLT -- Unregistered player: 1001", 130)
    ∷ (codes "Disconnected", 140)
    ∷ []

-- What is seen of a lobby.
abbrev seen : Option (Lobby ℕ × List Bytes) → Option (Option Err × Done × ℕ × ℕ)
seen none = none
seen (some (l, out)) = some (l.reason, l.done, length out, (count l.players).0)

lines-seen : seen (scan env 1 lines fresh) ≡ some (some lobby_disconnected, closed, 4, 0)
unfolding scan filter trim_space has_prefix contains bytes_eq filter_bolt parse_int insert lookup
    delete has is_noise is_blob handle classify registered add count no_players new_stat
    unregistered remove collect empty_match cancel_only
lines-seen = refl

scan-IsSafe_example :
    (l' : Lobby ℕ) × (out : List Bytes) × (scan env 1 lines fresh ≡ some (l', out))
    × IsSafe unbound l'
scan-IsSafe_example = scan-IsSafe env 1 lines fresh fresh-IsSafe

abbrev reasons : List Err
reasons = lobby_done ∷ lobby_timeout ∷ lobby_done ∷ lobby_downed ∷ []

cancel_each-final_reason_example :
    (l' : Lobby ℕ) × (cancel_each env reasons fresh ≡ some l')
    × (l'.reason ≡ some lobby_timeout)
    × IsClosing l'.done l'.reason
cancel_each-final_reason_example = cancel_each-final_reason env reasons fresh refl

fresh_every : interval options ≡ some (pos 300000000)
unfolding interval
fresh_every = refl

-- An empty lobby that has been idle for 0.9 seconds.
due : verdict options no_spec 50 [] 0 (pos 900000000) ≡ some lobby_timeout
unfolding verdict reason_after force_down_after bytes_eq force_stop_after force_restart_after
    down_after stop_after restart_after
due = refl

verdict-IsDue_example : IsDue options no_spec 50 (pos 900000000) [] 0 lobby_timeout
verdict-IsDue_example = verdict-IsDue options no_spec 50 (pos 900000000) [] 0 lobby_timeout due

fresh_late :
    expired (pos 600000000) (idle_for 900000100 100 (up_again no_spec 900000100 100)) ≡ true
unfolding idle_for up_again
fresh_late = refl

nobody_there : (count no_players).0 ≡ 0
unfolding count no_players
nobody_there = refl

tick_ends_example :
    (l' : Lobby ℕ) × (tick env 900000100 900000100 100 fresh
      ≡ some (l', up_again no_spec 900000100 100, false))
    × (l'.reason ≢ none)
    × IsClosing l'.done l'.reason
unfolding empty_match
tick_ends_example = tick_ends env 900000100 900000100 100 fresh refl refl nobody_there fresh_late
