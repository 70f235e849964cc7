-- ===== src/Watch/Walk.antt =====
-- How a watch begins (internal/watch/watch.go, Watch up to line 172): the walk over the root and over
-- the directories that its symbolic links lead to, which fills the table `watches`. What
-- `filepath.WalkDir` visits under a path, what `filepath.EvalSymlinks` returns and which directories
-- fsnotify refuses are parameters, and so are the results of `filepath.Abs` and `fsnotify.NewWatcher`.
pub mod Ends
pub mod Names
pub mod Heard
use snap_gs.Base.{
  ℕ, zero, suc, leb, ltb_ℤ, ℤ, pos, Bytes, codes, Bool, true, false, not, ◌&&◌, ◌||◌, List, [], ◌∷◌,
  ◌++◌, Option, none, some, if◌then◌else◌, is_nil, has_suffix, trim_prefix, bytes_eq, bytes_key,
}
use snap_gs.Base.GoMap.{lookup, insert}
use snap_gs.Errors.{
  Err, watch_filters_unconfigured, watch_path_unconfigured, watch_tick_unconfigured,
  watch_unconfigured,
}
use snap_gs.Watch.Filters.{Event}
use snap_gs.Watch.Loop.{Call, State, split_path, wrap}

-- `d.Type()`.
pub data Kind : Type 0 where
  regular directory symlink special : Kind

-- A call that WalkDir makes of its function: an entry, or an error.
pub data Visit : Type 0 where
  found : Bytes → Kind → Visit
  failed : Err → Visit

-- Why the walk ends early; a directory that two names lead to has the name that it goes by, its path
-- and the second name.
pub data Fault : Type 0 where
  system : Err → Fault
  duplicated : Bytes → Bytes → Bytes → Fault

-- `queue` holds the paths that are still to be walked, `watched` those that fsnotify watches.
pub record Table (Op : Type 0) : Type 0 where
  pub watches : List (Bytes × Bytes)
  pub events : List (Event Op)
  pub queue : List Bytes
  pub watched : List Bytes

pub data Step (Op : Type 0) : Type 0 where
  next : Table Op → Step Op
  stop : Fault → Step Op

pub data Resolved : Type 0 where
  target : Bytes → Resolved
  unresolved : Err → Resolved

abbrev pub slash : Bytes
slash = b'/' ∷ []

-- `watches[key]`, which is empty for a key that is missing.
abbrev pub or_empty : Option Bytes → Bytes
or_empty none = []
or_empty (some alias) = alias

abbrev pub or_else : Bytes → Bytes → Bytes
or_else [] other = other
or_else (c ∷ s) other = c ∷ s

-- A path that the walk leaves alone.
unfoldable pub is_bad : Bytes → Bool
is_bad path = is_nil path || has_suffix path slash

unfoldable pub is_cut : Bytes → Bool
is_cut path = let (head, tail) = split_path path in is_nil head || is_nil tail

abbrev pub alias_or : Option Bytes → Bytes → Bytes → Bytes
alias_or none tail path = path
alias_or (some alias) tail path = alias ++ tail

-- `out`, the path under the name that its directory goes by.
unfoldable pub out_name : List (Bytes × Bytes) → Bytes → Bytes
out_name watches path =
    let (head, tail) = split_path path in alias_or (lookup head watches) tail path

-- `out` with a slash, or the name that it goes by itself.
unfoldable pub dir_name : List (Bytes × Bytes) → Bytes → Bytes
dir_name watches path =
    let out = out_name watches path ++ slash in or_else (or_empty (lookup out watches)) out

-- What the walk asks of the system.
pub record System : Type 0 where
  pub list : Bytes → List Visit
  pub resolve : Bytes → Resolved
  pub refuses : Bytes → Option Err

module _ {Op : Type 0} (create : Op) (sys : System) (root : Bytes) where
  abbrev pub add_dir : Option Err → Bytes → Table Op → Step Op
  add_dir (some e) path t = stop (system e)
  add_dir none path t = next (record t {
    watches = insert (path ++ slash) (dir_name t.watches path) t.watches;
    watched = t.watched ++ path ∷ [];
  })

  -- A link to a directory that has a name already is an error.
  abbrev pub enqueue : Bytes → Bytes → Bytes → Table Op → Step Op
  enqueue (c ∷ old) path out t = stop (duplicated (c ∷ old) (path ++ slash) out)
  enqueue [] path out t =
      next
        (record t { watches = insert (path ++ slash) out t.watches; queue = t.queue ++ path ∷ [] })

  unfoldable pub follow : Resolved → Bytes → Table Op → Step Op
  follow (unresolved e) out t = stop (system e)
  follow (target path) out t =
      if is_bad path
      then next t
      else enqueue (or_empty (lookup (path ++ slash) t.watches)) path out t

  unfoldable pub place : Kind → Bytes → Bytes → Table Op → Step Op
  unfolding follow
  place regular walked path t = next (
      if bytes_eq path walked then t else record t {
        events =
            t.events
            ++ record { name = trim_prefix (out_name t.watches path) root; op = create } ∷ [];
      })
  place directory walked path t = add_dir (sys.refuses path) path t
  place special walked path t = next t
  place symlink walked path t = follow (sys.resolve path) (dir_name t.watches path) t

  -- The function that WalkDir calls.
  unfoldable pub visit : Bytes → Visit → Table Op → Step Op
  unfolding place
  visit walked (failed e) t = stop (system e)
  visit walked (found path kind) t =
      if is_bad path || is_cut path then next t else place kind walked path t

  unfoldable pub visits : Bytes → List Visit → Table Op → Step Op
  unfolding visit
  visits walked [] t = next t
  visits walked (v ∷ vs) t = elim (visit walked v t) [
    | stop e ↦ stop e
    | next t' ↦ visits walked vs t'
  ]

  -- The loop over `paths`, on fuel; none is fuel that ran out.
  unfoldable pub walk : ℕ → Table Op → Option (Step Op)
  unfolding visits
  walk zero t = none
  walk (suc fuel) t = elim t.queue [
    | [] ↦ some (next t)
    | p ∷ rest ↦ elim (visits p (sys.list p) (record t { queue = rest })) [
      | stop e ↦ some (stop e)
      | next t' ↦ walk fuel t'
    ]
  ]

  -- The walk from the path of the root.
  abbrev pub first_table : Bytes → Table Op
  first_table path = record { watches = []; events = []; queue = path ∷ []; watched = [] }

-- What `Watch` is called with, and what it finds: the error of the context, the absolute path or the
-- error of `filepath.Abs`, the error of `fsnotify.NewWatcher`.
pub record Request : Type 0 where
  pub path : Bytes
  pub tick : ℤ
  pub filters : ℕ
  pub context_error : Option Err
  pub absolute : Resolved
  pub watcher_error : Option Err

-- `Watch` returns an error, or its goroutine starts with a table and a state, after some calls of the
-- filters.
pub data Opened (Op : Type 0) : Type 0 where
  refused : Fault → Opened Op
  opened : List (Bytes × Bytes) → Bytes → State Op → List (Call Op) → Opened Op

module _ {Op : Type 0} (create : Op) (sys : System) where
  -- From line 145 on: the events of the walk are handed on at once.
  abbrev pub start : Bytes → Table Op → Opened Op
  start root t =
      let (s, calls) = wrap none true (record { pending = t.events; ticking = true }) in
      if is_nil t.watched
      then refused (system watch_unconfigured)
      else opened t.watches root s calls

  abbrev pub after_walk : Bytes → Option (Step Op) → Option (Opened Op)
  after_walk root none = none
  after_walk root (some (stop e)) = some (refused e)
  after_walk root (some (next t)) = some (start root t)

  abbrev pub on_watcher : ℕ → Bytes → Option Err → Option (Opened Op)
  on_watcher fuel path (some e) = some (refused (system e))
  on_watcher fuel path none =
      let root = path ++ slash in
      after_walk root (walk create sys root fuel (first_table create sys root path))

  abbrev pub on_path : ℕ → Option Err → Resolved → Option (Opened Op)
  on_path fuel watcher_error (unresolved e) = some (refused (system e))
  on_path fuel watcher_error (target path) =
      if is_nil path
      then some (refused (system watch_path_unconfigured))
      else if has_suffix path slash
      then some (refused (system watch_unconfigured))
      else on_watcher fuel path watcher_error

  abbrev pub on_context : ℕ → Request → Option Err → Option (Opened Op)
  on_context fuel r (some e) = some (refused (system e))
  on_context fuel r none = on_path fuel r.watcher_error r.absolute

  unfoldable pub watch : ℕ → Request → Option (Opened Op)
  unfolding walk wrap
  watch fuel r =
      if is_nil r.path
      then some (refused (system watch_path_unconfigured))
      else if not (ltb_ℤ (pos 0) r.tick)
      then some (refused (system watch_tick_unconfigured))
      else if leb r.filters 0
      then some (refused (system watch_filters_unconfigured))
      else on_context fuel r r.context_error
