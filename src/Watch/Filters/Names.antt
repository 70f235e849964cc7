-- ===== src/Watch/Filters/Names.antt =====
-- Which names come out of the filters (internal/watch/watch.go).
use mathlib.Core.List.{Permᴰ}
use snap_gs.Base.{
  ◌≡◌, refl, ap, sym, ◌∙◌, inl, inr, Bytes, Bool, List, [], ◌∷◌, map, Option, none, some,
  if◌then◌else◌, bytes_eq, bytes_eq_iff, bytes_key, any, Bool-cases,
}
use snap_gs.Base.GoMap.{lookup, insert, Distinct, insert-Distinct, lookup-insert}
use snap_gs.Base.MapOrder.{lookup-perm}
use snap_gs.Watch.Filters.{Event, merge_op, merge, same_names}

module _ {Op : Type 0} where
  -- Some event has this name.
  abbrev pub named : Bytes → List (Event Op) → Bool
  named n events = any (λ e. bytes_eq e.name n) events

  -- The events as pairs, to look a name up in.
  abbrev pub entries : List (Event Op) → List (Bytes × Op)
  entries events = map (λ e. (e.name, e.op)) events

module _ {Op : Type 0} where
  -- The operations of the events with one name, in their order.
  abbrev pub ops_of : Bytes → List (Event Op) → List Op
  ops_of n [] = []
  ops_of n (e ∷ es) = if bytes_eq e.name n then e.op ∷ ops_of n es else ops_of n es

module _ {Op : Type 0} (union : Op → Op → Op) where
  -- The union of all of some operations, from the first to the last.
  abbrev pub unite : Op → List Op → Op
  unite op [] = op
  unite op (next ∷ ops) = unite (union op next) ops

  abbrev pub union_of : List Op → Option Op
  union_of [] = none
  union_of (op ∷ ops) = some (unite op ops)

  -- What the loop has for one name, onto `old`.
  gathered : Bytes → List (Event Op) → Option Op → Option Op
  gathered n [] old = old
  gathered n (e ∷ es) old =
      gathered n es (if bytes_eq e.name n then some (merge_op union old e.op) else old)

  lookup_merged :
      (n : Bytes) (e : Event Op) (names : List (Bytes × Op))
      → lookup n (insert e.name (merge_op union (lookup e.name names) e.op) names) ≡ (
          if bytes_eq e.name n then some (merge_op union (lookup n names) e.op) else lookup n names)
  lookup_merged n e names = lookup-insert e.name n _ names ∙ elim (Bool-cases (bytes_eq e.name n)) [
    | inl same ↦ rw (same, (bytes_eq_iff e.name n).0 same) refl
    | inr differs ↦ rw differs refl
  ]

  lookup-merge :
      (n : Bytes) (names : List (Bytes × Op)) (events : List (Event Op))
      → lookup n (merge union names events) ≡ gathered n events (lookup n names)
  unfolding merge gathered
  lookup-merge n names [] = refl
  lookup-merge n names (e ∷ es) =
      lookup-merge n (insert e.name (merge_op union (lookup e.name names) e.op) names) es
      ∙ ap (gathered n es) (lookup_merged n e names)

  merge-Distinct :
      (names : List (Bytes × Op)) (events : List (Event Op))
      → Distinct names
      → Distinct (merge union names events)
  unfolding merge
  merge-Distinct names [] d = d
  merge-Distinct names (e ∷ es) d =
      let op = merge_op union (lookup e.name names) e.op in
      merge-Distinct (insert e.name op names) es (insert-Distinct e.name op names d)

  entries-same :
      (ps : List (Bytes × Op)) → entries (map (λ p. record { name = p.0; op = p.1 }) ps) ≡ ps
  entries-same [] = refl
  entries-same (p ∷ ps) = ap (◌∷◌ p) (entries-same ps)

  gathered-some :
      (n : Bytes) (events : List (Event Op)) (old : Op)
      → gathered n events (some old) ≡ some (unite old (ops_of n events))
  unfolding gathered merge_op
  gathered-some n [] old = refl
  gathered-some n (e ∷ es) old = elim (Bool-cases (bytes_eq e.name n)) [
    | inl same ↦ rw same (gathered-some n es (union old e.op))
    | inr differs ↦ rw differs (gathered-some n es old)
  ]

  gathered-none :
      (n : Bytes) (events : List (Event Op)) → gathered n events none ≡ union_of (ops_of n events)
  unfolding gathered merge_op
  gathered-none n [] = refl
  gathered-none n (e ∷ es) = elim (Bool-cases (bytes_eq e.name n)) [
    | inl same ↦ rw same (gathered-some n es e.op)
    | inr differs ↦ rw differs (gathered-none n es)
  ]

  -- Whatever order the map of names is walked in, `SameNames` returns each name once, with the union
  -- of the operations of all events of that name, and returns no other name.
  pub same_names-gathered :
      (order : List (Bytes × Op) → List (Bytes × Op)) (events : List (Event Op))
      → ((m : List (Bytes × Op)) → Permᴰ m (order m))
      → Distinct (entries (same_names union order events))
        × ((n : Bytes)
            → lookup n (entries (same_names union order events)) ≡ union_of (ops_of n events))
  unfolding same_names lookup
  same_names-gathered order events permutes =
      let (distinct, agree) =
        lookup-perm (permutes (merge union [] events)) (merge-Distinct [] events tt) in
      rw (entries-same (order (merge union [] events)))
        (distinct, λ n. sym (agree n) ∙ lookup-merge n [] events ∙ gathered-none n events)
