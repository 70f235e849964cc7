-- ===== src/Watch/Filters.antt =====
-- The filters of a watch (internal/watch/watch.go, LockNames, LastNames and SameNames). fsnotify's
-- set of operations is a type `Op` with the union that `|=` forms and the operation `create`.
pub mod Names
pub mod Chain
use snap_gs.Base.{
  ◌&&◌, Bytes, codes, Bool, true, false, not, List, [], ◌∷◌, ◌++◌, map, Option, none, some,
  if◌then◌else◌, trim_suffix, trim_prefix, bytes_eq, bytes_key,
}
use snap_gs.Base.GoMap.{lookup, insert}

pub record Event (Op : Type 0) : Type 0 where
  pub name : Bytes
  pub op : Op

module _ {Op : Type 0} (create : Op) where
  lock_name : Event Op → Event Op
  lock_name e =
      let name = trim_suffix e.name (codes ".lock") in
      if bytes_eq name e.name then e else record { name = name; op = create }

  unfoldable pub lock_names : List (Event Op) → List (Event Op)
  unfolding lock_name
  lock_names events = map lock_name events

  -- The events that the loop of `LastNames` appends.
  unfoldable pub unlasted : List (Event Op) → List (Event Op)
  unlasted [] = []
  unlasted (e ∷ es) =
      let rest = unlasted es in
      let name = trim_prefix e.name (codes "last") in
      if bytes_eq name e.name then rest else record { name = name; op = create } ∷ rest

  unfoldable pub last_names : List (Event Op) → List (Event Op)
  unfolding unlasted
  last_names events = events ++ unlasted events

module _ {Op : Type 0} (union : Op → Op → Op) where
  -- `names[name] |= op`, where a missing entry is the empty set.
  merge_op : Option Op → Op → Op
  merge_op none op = op
  merge_op (some old) op = union old op

  unfoldable pub merge : List (Bytes × Op) → List (Event Op) → List (Bytes × Op)
  unfolding merge_op
  merge names [] = names
  merge names (e ∷ es) = merge (insert e.name (merge_op (lookup e.name names) e.op) names) es

  -- `order` is the order in which Go walks the map.
  unfoldable pub same_names :
      (List (Bytes × Op) → List (Bytes × Op)) → List (Event Op) → List (Event Op)
  unfolding merge
  same_names order events = map (λ p. record { name = p.0; op = p.1 }) (order (merge [] events))
