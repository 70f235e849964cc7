-- ===== src/Watch/Walk/Heard/Events.antt =====
-- Every directory that a watch watches is heard: the table has a name under the root for it
-- (internal/watch/watch.go, Watch).
use mathlib.Core.Path.{subst}
use snap_gs.Base.{
  ℕ, zero, suc, ◌≡◌, refl, inl, Bytes, true, List, [], ◌∷◌, ◌++◌, Option, none, some, any,
  trim_prefix, bytes_eq, bytes_key,
}
use snap_gs.Base.GoMap.{lookup, lookup-All}
use snap_gs.Watch.Loop.{event_name}
use snap_gs.Watch.Loop.Paths.{IsPlain, event_name-known, trim_prefix-restored, has_prefix-longer}
use snap_gs.Watch.Walk.{Table, Step, next, stop, slash, System, visits, walk, first_table}
use snap_gs.Watch.Walk.Names.{
  IsNamed, IsWhole, IsFileTree, All-any, of_some, root, IsUnder, IsHeard,
}
use snap_gs.Watch.Walk.Heard.{IsInside, StaysInside, visits-StaysInside}

module _ (top : Bytes) where
  module _ {Op : Type 0} (create : Op) (sys : System) (tree : IsFileTree sys) where
    abbrev ResultIsHeard : Option (Step Op) → Type 0
    ResultIsHeard none = Unit
    ResultIsHeard (some (stop e)) = Unit
    ResultIsHeard (some (next t)) = IsHeard top t

    walk_on :
        (s : Step Op) (walked : Bytes) (fuel : ℕ)
        → StaysInside top walked [] s
        → ((t : Table Op) → IsHeard top t → ResultIsHeard (walk create sys (root top) fuel t))
        → ResultIsHeard
            (elim s [ stop e ↦ some (stop e) | next t' ↦ walk create sys (root top) fuel t' ])
    walk_on (stop e) walked fuel h rest = tt
    walk_on (next t) walked fuel h rest = rest t h.heard

    pop-IsInside :
        (p : Bytes) (rest : List Bytes) (t : Table Op)
        → t.queue ≡ p ∷ rest
        → IsHeard top t
        → IsWhole p × IsInside top p [] (record t { queue = rest })
    pop-IsInside p rest t e h =
        let queued = rw e at (h.queued) in
        let whole = rw e at (h.whole) in
        (
          whole.0,
          record {
            heard = record {
              names = h.names;
              watching = h.watching;
              queued = queued.1;
              whole = whole.1;
            };
            known = queued.0;
            dirs = tt;
          },
        )

    walk-IsHeard :
        (fuel : ℕ) (queue : List Bytes) (t : Table Op)
        → t.queue ≡ queue
        → IsHeard top t
        → ResultIsHeard (walk create sys (root top) fuel t)
    unfolding walk
    walk-IsHeard zero queue t e h = tt
    walk-IsHeard (suc fuel) [] t e h =
        rw e (record { names = h.names; watching = h.watching; queued = tt; whole = tt })
    walk-IsHeard (suc fuel) (p ∷ rest) t e h =
        let (whole, i) = pop-IsInside p rest t e h in
        let popped = record t { queue = rest } in
        rw e (
          walk_on (visits create sys (root top) p (sys.list p) popped) p fuel
            (visits-StaysInside top create sys tree p [] (sys.list p) popped (tree.ordered p whole)
              i)
            (λ t' h'. walk-IsHeard fuel t'.queue t' refl h'))

    first-IsHeard : IsWhole top → IsHeard top (first_table create sys (root top) top)
    first-IsHeard whole = record {
      names = tt;
      watching = tt;
      queued = (inl refl, tt);
      whole = (whole, tt);
    }

    -- When the walk from an absolute path succeeds, an event of any file of any directory that fsnotify
    -- watches is passed on. The root followed by the name that is passed on is the name that the table
    -- has for the directory, followed by the name of the file.
    pub walk_hears :
        (fuel : ℕ) (t : Table Op) (q : Bytes) (c : ℕ) (s : Bytes)
        → IsWhole top
        → walk create sys (root top) fuel (first_table create sys (root top) top) ≡ some (next t)
        → any (bytes_eq q) t.watched ≡ true
        → IsPlain (c ∷ s)
        → (name : Bytes) × (alias : Bytes) × (event_name t.watches (root top) (q ++ b'/' ∷ c ∷ s)
            ≡ some name)
          × (lookup (q ++ slash) t.watches ≡ some alias)
          × ((root top) ++ name ≡ alias ++ c ∷ s)
    walk_hears fuel t q c s whole done listed plain =
        let from = first_table create sys (root top) top in
        let heard : IsHeard top t =
          subst ResultIsHeard done (walk-IsHeard fuel (top ∷ []) from refl (first-IsHeard whole)) in
        let (alias, known) =
          of_some (lookup (q ++ slash) t.watches)
            (All-any (IsNamed t.watches) q t.watched heard.watching listed) in
        let under = lookup-All (λ e. IsUnder top e.1) (q ++ slash) t.watches heard.names known in
        (
          trim_prefix (alias ++ c ∷ s) (root top),
          alias,
          event_name-known t.watches (root top) q alias c s known under plain,
          known,
          trim_prefix-restored (alias ++ c ∷ s) (root top)
              (has_prefix-longer alias (c ∷ s) (root top) under),
        )
