-- ===== src/Watch/Loop.antt =====
-- The goroutine of a watch (internal/watch/watch.go, Watch): what it makes of the events of fsnotify,
-- of its errors, of the ticker and of the end of the context. The table `watches`, from a watched
-- directory to the name that it goes by, and the path of the root are parameters.
pub mod Delivery
pub mod Paths
use snap_gs.Base.{
  ◌&&◌, ◌||◌, ◌==◌, not, Bytes, Bool, true, false, List, [], ◌∷◌, ◌++◌, Option, none, some,
  if◌then◌else◌, has_prefix, trim_prefix, is_some, bytes_key,
}
use snap_gs.Base.GoMap.{lookup}
use snap_gs.Errors.{Err}
use snap_gs.Watch.Filters.{Event}

-- A call of the chain of filters: the events (none is the nil slice), the error and the flag `ok`.
pub record Call (Op : Type 0) : Type 0 where
  pub events : Option (List (Event Op))
  pub error : Option Err
  pub ok : Bool

-- What a filter returns, besides its effect on a state `S`.
abbrev pub Filter : Type 0 → Type 0 → Type 0
Filter S Op = S → Option (List (Event Op)) → Option Err → S × Option (List (Event Op)) × Option Err

-- `apply`: each filter is given what the one before it returned; a nil slice with no error ends a
-- chain that was called with `ok`.
module _ {Op S : Type 0} where
  unfoldable pub apply : List (Filter S Op) → Call Op → S → S
  apply [] c s = s
  apply (f ∷ fs) c s =
      let (s', events, error) = f s c.events c.error in
      let rest = apply fs (record { events = events; error = error; ok = c.ok }) s' in
      if c.ok && not (is_some events) && not (is_some error) then s' else rest

-- What the `select` receives.
pub data Input (Op : Type 0) : Type 0 where
  event : Bytes → Op → Input Op
  fault : Option Err → Input Op
  tick : Input Op
  done : Err → Input Op
  closed : Input Op

pub record State (Op : Type 0) : Type 0 where
  pub pending : List (Event Op)
  pub ticking : Bool

-- `filepath.Split` at the last slash, over the rest of the path.
split_at : Bytes → Bytes → Bytes → Bytes × Bytes
split_at head tail [] = (head, tail)
split_at head tail (c ∷ s) =
    split_at (if c == b'/' then head ++ tail ++ c ∷ [] else head)
      (if c == b'/' then [] else tail ++ c ∷ []) s

unfoldable pub split_path : Bytes → Bytes × Bytes
unfolding split_at
split_path path = split_at [] [] path

module _ {Op : Type 0} where
  flush_call : List (Event Op) → List (Call Op)
  flush_call [] = []
  flush_call (e ∷ es) = record { events = some (e ∷ es); error = none; ok = true } ∷ []

  error_call : Option Err → List (Call Op)
  error_call none = []
  error_call (some e) = record { events = none; error = some e; ok = true } ∷ []

  end_call : Bool → List (Call Op)
  end_call true = []
  end_call false = record { events = none; error = none; ok = false } ∷ []

  stop_if_any : List (Event Op) → Bool → Bool
  stop_if_any [] ticking = ticking
  stop_if_any (_ ∷ _) ticking = false

  -- `wrap`: the calls of `apply` that it makes, in order, and the state that it leaves.
  unfoldable pub wrap : Option Err → Bool → State Op → State Op × List (Call Op)
  unfolding flush_call error_call end_call stop_if_any
  wrap error ok s = (
    record { pending = []; ticking = stop_if_any s.pending s.ticking },
    flush_call s.pending ++ error_call error ++ end_call ok,
  )

module _ (watches : List (Bytes × Bytes)) (root : Bytes) where
  -- The name under which an event is passed on, if it is; a directory that is not in the table reads
  -- as the empty name there.
  watched : Bytes → Bytes → Option Bytes
  watched [] tail = none
  watched (c ∷ head) [] = none
  watched (c ∷ head) (d ∷ tail) = elim (lookup (c ∷ head) watches) [
    | none ↦ if has_prefix [] root then some (trim_prefix (d ∷ tail) root) else none
    | some alias ↦
        if has_prefix alias root then some (trim_prefix (alias ++ d ∷ tail) root) else none
  ]

  unfoldable pub event_name : Bytes → Option Bytes
  unfolding watched
  event_name path = let (head, tail) = split_path path in watched head tail

module _ {Op : Type 0} (watches : List (Bytes × Bytes)) (root : Bytes) where
  -- `if len(events) == 0 { ticker.Reset(tick) }`.
  reset_if_none : List (Event Op) → Bool → Bool
  reset_if_none [] ticking = true
  reset_if_none (_ ∷ _) ticking = ticking

  add_event : Option Bytes → Op → State Op → State Op
  add_event none op s = s
  add_event (some name) op s = record {
    pending = s.pending ++ record { name = name; op = op } ∷ [];
    ticking = reset_if_none s.pending s.ticking;
  }

  -- One round of the loop: the state, the calls of the filters, and whether the loop goes on.
  unfoldable pub round : Input Op → State Op → State Op × List (Call Op) × Bool
  unfolding add_event reset_if_none event_name wrap
  round (event path op) s = (add_event (event_name watches root path) op s, [], true)
  round (fault none) s = (s, [], true)
  round (fault (some e)) s = let (s', calls) = wrap (some e) true s in (s', calls, true)
  round tick s = let (s', calls) = wrap none true s in (s', calls, true)
  round (done e) s = let (s', calls) = wrap (some e) false s in (s', calls, false)
  round closed s = let (s', calls) = wrap none false s in (s', calls, false)

  -- The rounds of the loop over the inputs, up to its end: the state, all calls, and whether it runs.
  unfoldable pub rounds : List (Input Op) → State Op → State Op × List (Call Op) × Bool
  unfolding round
  rounds [] s = (s, [], true)
  rounds (i ∷ is) s =
      let (s', calls, more) = round i s in
      let (t, later, running) = rounds is s' in
      if more then (t, calls ++ later, running) else (s', calls, false)
