-- ===== src/Examples/Watching.antt =====
-- A lock file that becomes a file, seen through the filters (internal/watch/watch.go). The set of
-- operations is a number, and its union the larger one.
use mathlib.Core.List.Permᴰ
use snap_gs.Base.{
  ◌≡◌, refl, ℕ, Bytes, false, codes, List, [], ◌∷◌, ◌++◌, some, any, if◌then◌else◌, ltb, bytes_eq,
  trim_suffix, trim_prefix, has_prefix, bytes_key,
}
use snap_gs.Base.GoMap.{lookup, Distinct}
use snap_gs.Errors.{other}
use snap_gs.Watch.Filters.{Event, lock_names, last_names, same_names}
use snap_gs.Watch.Filters.Names.{named, entries, ops_of, union_of, same_names-gathered}
use snap_gs.Watch.Filters.Chain.{announces, named-chain}
use snap_gs.Watch.Loop.{
  Input, event, fault, tick, done, State, split_path, event_name, round, rounds,
}
use snap_gs.Watch.Loop.Delivery.{delivered, endings, ending, accepted, rounds_deliver}

abbrev larger : ℕ → ℕ → ℕ
larger a b = if ltb a b then b else a

abbrev create : ℕ
create = 1

abbrev of_name : Bytes → ℕ → Event ℕ
of_name name op = record { name = name; op = op }

abbrev moved : List (Event ℕ)
moved = of_name (codes "idle.lock") 2 ∷ of_name (codes "lastidle") 4 ∷ of_name (codes "idle") 8 ∷ []

moved_chain :
    lock_names create (last_names create moved)
    ≡ of_name (codes "idle") 1
      ∷ of_name (codes "lastidle") 4
      ∷ of_name (codes "idle") 8
      ∷ of_name (codes "idle") 1
      ∷ []
unfolding lock_names last_names trim_suffix trim_prefix has_prefix bytes_eq
moved_chain = refl

named-chain_example :
    named (codes "idle") (lock_names create (last_names create moved))
    ≡ any (λ e. announces e.name (codes "idle")) moved
named-chain_example = named-chain create (codes "idle") moved

abbrev as_given : List (Bytes × ℕ) → List (Bytes × ℕ)
as_given m = m

same_names-gathered_example :
    Distinct (entries (same_names larger as_given moved))
    × ((n : Bytes)
        → lookup n (entries (same_names larger as_given moved)) ≡ union_of larger (ops_of n moved))
same_names-gathered_example = same_names-gathered larger as_given moved Permᴰ.refl

abbrev watches : List (Bytes × Bytes)
watches = (codes "/run/spec/", []) ∷ (codes "/run/flag/", codes "flag/") ∷ []

abbrev inputs : List (Input ℕ)
inputs =
    event (codes "/run/spec/stop") 1
    ∷ event (codes "/run/flag/debug") 2
    ∷ tick
    ∷ event (codes "/run/spec/up") 4
    ∷ fault (some (other 3))
    ∷ event (codes "/run/spec/down") 1
    ∷ done (other 4)
    ∷ tick
    ∷ []

abbrev quiet : State ℕ
quiet = record { pending = []; ticking = false }

inputs-delivered :
    delivered (rounds watches [] inputs quiet).1
    ≡ of_name (codes "stop") 1
      ∷ of_name (codes "flag/debug") 2
      ∷ of_name (codes "up") 4
      ∷ of_name (codes "down") 1
      ∷ []
unfolding rounds round event_name split_path lookup trim_prefix has_prefix bytes_eq
inputs-delivered = refl

rounds_deliver_example :
    (delivered (rounds watches [] inputs quiet).1 ++ (rounds watches [] inputs quiet).0.pending
      ≡ [] ++ accepted watches [] inputs)
    × (endings (rounds watches [] inputs quiet).1 ≡ ending (rounds watches [] inputs quiet).2)
    × ((rounds watches [] inputs quiet).2 ≡ false → (rounds watches [] inputs quiet).0.pending ≡ [])
rounds_deliver_example = rounds_deliver watches [] inputs quiet
