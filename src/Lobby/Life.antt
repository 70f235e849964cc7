-- ===== src/Lobby/Life.antt =====
-- A lobby from its start to its end (internal/lobby/lobby.go, alloc, runc and Run). A run starts with
-- `alloc` of Lobby.Alloc, and then with the fields that alloc sets. What the goroutines do is an input,
-- one handler after another in any order; so are the results of the calls of the system.
pub mod Safety
pub mod Outcome
pub mod Orders
use snap_gs.Base.{
  is_nil, ℕ, Bytes, codes, Bool, List, [], ◌∷◌, ◌++◌, Option, none, some, if◌then◌else◌, ◌==◌,
}
use snap_gs.Errors.{Err, lobby_done}
use snap_gs.Match.{Time, empty_match}
use snap_gs.Options.{Options}
use snap_gs.Players.{no_players}
use snap_gs.Spec.{Spec, no_spec}
use snap_gs.Lobby.{
  Process, Signal, Done, absent, opened, Content, Disk, Lobby, Env, unset, prepared, exited,
  started,
}
use snap_gs.Lobby.Alloc.{Answers, alloc, error_of, no_break, writes_pid}
use snap_gs.Lobby.Stat.Commas.{first_of}
use snap_gs.Lobby.Stat.{split_comma, write_pid, set_stat, rem_stat, new_stat, rem_stats}
use snap_gs.Lobby.Stop.{cancel, cancel_only}
use snap_gs.Lobby.Collect.{collect}
use snap_gs.Lobby.Bolt.{◌>>=◌}
use snap_gs.Lobby.Line.{filter}
use snap_gs.Lobby.Watcher.{tick}

-- What a goroutine does: a scanner reads a line of a stream, or hands over the last match at the end of
-- it, the watcher has a tick, somebody cancels, or the watch of --specdir has changed the spec.
pub data Happening : Type 0 where
  printed : ℕ → Bytes → Time → Happening
  ticked : Time → Time → Time → Happening
  drained : Time → Happening
  cancelled : Err → Happening
  spec_set : Spec → Happening

-- What a run meets: the answers of the system to `alloc`, the process id of the program, the spec and
-- the time that it finds, the error of `Start` or the process id, what `Wait` returns, and what the
-- goroutines do before the start, while the process runs and after it.
pub record Fate : Type 0 where
  pub answers : Answers
  pub own_pid : ℕ
  pub spec : Spec
  pub now : Time
  pub start_error : Option Err
  pub pid : ℕ
  pub up : Time
  pub exit : Option Err
  pub early : List Happening
  pub meanwhile : List Happening
  pub late : List Happening

module _ {F : Type 0} where
  -- The lobby after a line, and after a tick.
  abbrev pub after_line : Option (Lobby F × Bytes) → Option (Lobby F)
  after_line none = none
  after_line (some (l, kept)) = some l

  abbrev pub after_tick : Option (Lobby F × Time × Bool) → Option (Lobby F)
  after_tick none = none
  after_tick (some (l, last_up, more)) = some l

module _ {F : Type 0} (env : Env F) where
  -- `Lobby{opts: opts}`, with no match before `alloc` makes one.
  unfoldable pub new_lobby : Options → Disk → Lobby F
  new_lobby opts disk = record {
    arena = [];
    session = [];
    changed = Bool.false;
    opts = opts;
    spec = no_spec;
    process = unset;
    signals = [];
    m = empty_match env.floats 0;
    matches = [];
    players = no_players;
    t1 = 0;
    done = absent;
    reason = none;
    disk = disk;
  }

  -- `alloc` once it is committed to run.
  unfoldable pub prepare : Spec → Time → Lobby F → Lobby F
  unfolding no_break
  prepare spec now l = record l {
    spec = if is_nil l.opts.spec_dir then l.spec else spec;
    done = opened;
    session = no_break l.opts.session;
    players = no_players;
    reason = none;
    matches = [];
    m = empty_match env.floats now;
    t1 = now;
    process = prepared;
  }

  unfoldable pub happen : Happening → Lobby F → Option (Lobby F)
  happen (printed fd bs now) l = after_line (filter env fd bs now l)
  happen (ticked now clock last_up) l = after_tick (tick env now clock last_up l)
  happen (drained now) l = some (collect env now l)
  happen (cancelled r) l = cancel_only env r l
  happen (spec_set spec) l = some (record l { spec = spec })

  unfoldable pub live : List Happening → Lobby F → Option (Lobby F)
  unfolding happen
  live [] l = some l
  live (h ∷ hs) l = happen h l >>= live hs

  -- The deferred calls of `runc`, with the error that it returns.
  unfoldable pub wind_up : List Happening → Option Err → Lobby F → Option (Lobby F × Option Err)
  unfolding live
  wind_up late result l = do
    l1 ← cancel_only env lobby_done l
    l2 ← live late l1
    some ((rem_stats l2).0, result)

  -- While the process runs, and its end.
  unfoldable pub served : Fate → Lobby F → Option (Lobby F × Option Err)
  unfolding live wind_up
  served w l = do
    l1 ← live w.meanwhile (new_stat (codes "up") w.up (record l { process = started w.pid }))
    (l2, result) ← cancel env w.exit (record l1 { process = exited })
    wind_up w.late result (rem_stat (codes "up") l2)

  unstarted : Fate → Err → Lobby F → Option (Lobby F × Option Err)
  unfolding wind_up
  unstarted w e l = do (l1, result) ← cancel env (some e) l; wind_up w.late result l1

  begun : Fate → Option Err → Lobby F → Option (Lobby F × Option Err)
  unfolding served unstarted
  begun w none l = served w l
  begun w (some e) l = unstarted w e l

  -- `runc` after `alloc`.
  committed : Fate → Lobby F → Option (Lobby F × Option Err)
  unfolding prepare live begun
  committed w l = do
    let clear = (rem_stats (prepare w.spec w.now l)).0
    l1 ← live w.early (set_stat (codes "session") (some (Content.text_of clear.session)) clear)
    begun w w.start_error l1

  allocated : Fate → Option Err → Lobby F → Option (Lobby F × Option Err)
  unfolding committed
  allocated w none l = committed w l
  allocated w (some e) l = cancel env (some e) l

  -- `alloc` writes the process id of the program to the first of the pid files.
  unfoldable pub noted : Fate → Lobby F → Lobby F
  unfolding writes_pid split_comma write_pid
  noted w l = record l {
    disk =
        if writes_pid l.opts w.answers
        then write_pid (first_of (split_comma l.opts.pid_file)) w.own_pid l.disk
        else l.disk;
  }

  unfoldable pub runc : Fate → Lobby F → Option (Lobby F × Option Err)
  unfolding allocated alloc noted
  runc w l = allocated w (error_of (alloc l.opts w.answers).1) (noted w l)

  -- `Run`, where the context has not ended before it.
  unfoldable pub run : Options → Disk → Fate → Option (Lobby F × Option Err)
  unfolding new_lobby runc
  run opts disk w = runc w (new_lobby opts disk)
