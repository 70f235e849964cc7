-- ===== src/Watch/Walk/Heard.antt =====
-- What holds at every step of the walk that begins a watch (internal/watch/watch.go, Watch).
pub mod Events
use mathlib.Core.Path.{subst}
use snap_gs.Base.{
  ℕ, zero, suc, ◌≡◌, ◌⊎◌, refl, ap, sym, ◌∙◌, inl, inr, Bytes, Bool, true, false, ◌||◌, List, [],
  ◌∷◌, ◌++◌, Option, none, some, arith, any, is_some, if◌then◌else◌, is_nil, All, All-append,
  has_prefix, has_prefix-append, trim_prefix, bytes_eq, bytes_eq_iff, bytes_key, Bool-cases,
  Option-cases,
}
use snap_gs.Base.GoMap.{lookup, insert, lookup-insert, insert-All, lookup-All}
use snap_gs.Errors.{Err}
use snap_gs.Watch.Loop.{split_path, event_name}
use snap_gs.Watch.Loop.Paths.{IsPlain, event_name-known, trim_prefix-restored, has_prefix-longer}
use snap_gs.Watch.Walk.{
  Kind, regular, directory, symlink, special, Visit, found, failed, Fault, Table, Step, next, stop,
  Resolved, target, unresolved, slash, or_empty, or_else, is_bad, is_cut, alias_or, out_name,
  dir_name, System, add_dir, enqueue, follow, place, visit, visits, walk, first_table,
}
use snap_gs.Watch.Walk.Names.{
  IsNamed, IsWhole, with_dir, Ordered, IsFileTree, All-weaken, All-any, insert-IsNamed,
  insert-IsNamed_self, of_some, root, IsUnder, IsKnown, IsHeard, IsPlaced, dir_name-IsUnder,
}

module _ (top : Bytes) where
  insert-IsKnown :
      (key out p : Bytes) (watches : List (Bytes × Bytes))
      → IsKnown top watches p
      → IsKnown top (insert key out watches) p
  insert-IsKnown key out p watches (inl first) = inl first
  insert-IsKnown key out p watches (inr named) = inr (insert-IsNamed key out p watches named)

  -- What holds while `walked` is walked and the directories `seen` have been visited.
  pub record IsInside {Op : Type 0} (walked : Bytes) (seen : List Bytes) (t : Table Op)
      : Type 0 where
    pub heard : IsHeard top t
    pub known : IsKnown top t.watches walked
    pub dirs : All (IsNamed t.watches) seen

  module _ {Op : Type 0} where
    -- A name under the (root top) may be written for any directory.
    insert-IsInside :
        (key out walked : Bytes) (seen : List Bytes) (t : Table Op)
        → IsUnder top out
        → IsInside walked seen t
        → IsInside walked seen (record t { watches = insert key out t.watches })
    insert-IsInside key out walked seen t under i = record {
      heard = record {
        names = insert-All (λ e. IsUnder top e.1) key out t.watches under i.heard.names;
        watching =
            All-weaken (IsNamed t.watches) (IsNamed (insert key out t.watches)) t.watched
              (λ p. insert-IsNamed key out p t.watches) i.heard.watching;
        queued =
            All-weaken (IsKnown top t.watches) (IsKnown top (insert key out t.watches)) t.queue
              (λ p. insert-IsKnown key out p t.watches) i.heard.queued;
        whole = i.heard.whole;
      };
      known = insert-IsKnown key out walked t.watches i.known;
      dirs =
          All-weaken (IsNamed t.watches) (IsNamed (insert key out t.watches)) seen
            (λ p. insert-IsNamed key out p t.watches) i.dirs;
    }

    abbrev pub StaysInside : Bytes → List Bytes → Step Op → Type 0
    StaysInside walked seen (stop e) = Unit
    StaysInside walked seen (next t) = IsInside walked seen t

  module _ {Op : Type 0} (create : Op) (sys : System) (tree : IsFileTree sys) where
    add_dir-StaysInside :
        (e : Option Err) (walked path : Bytes) (seen : List Bytes) (t : Table Op)
        → IsUnder top (dir_name t.watches path)
        → IsInside walked seen t
        → StaysInside walked (path ∷ seen) (add_dir create sys (root top) e path t)
    add_dir-StaysInside (some e) walked path seen t under i = tt
    add_dir-StaysInside none walked path seen t under i =
        let name = dir_name t.watches path in
        let j = insert-IsInside (path ++ slash) name walked seen t under i in
        let self = insert-IsNamed_self path name t.watches in
        record {
          heard = record {
            names = j.heard.names;
            watching =
                All-append (IsNamed (insert (path ++ slash) name t.watches)) t.watched (path ∷ [])
                  j.heard.watching (self, tt);
            queued = j.heard.queued;
            whole = j.heard.whole;
          };
          known = j.known;
          dirs = (self, j.dirs);
        }

    enqueue-StaysInside :
        (old walked path out : Bytes) (seen : List Bytes) (t : Table Op)
        → IsUnder top out
        → IsWhole path
        → IsInside walked seen t
        → StaysInside walked seen (enqueue create sys (root top) old path out t)
    enqueue-StaysInside (c ∷ old) walked path out seen t under whole i = tt
    enqueue-StaysInside [] walked path out seen t under whole i =
        let j = insert-IsInside (path ++ slash) out walked seen t under i in
        record {
          heard = record {
            names = j.heard.names;
            watching = j.heard.watching;
            queued =
                All-append (IsKnown top (insert (path ++ slash) out t.watches)) t.queue (path ∷ [])
                  j.heard.queued (inr (insert-IsNamed_self path out t.watches), tt);
            whole = All-append IsWhole t.queue (path ∷ []) j.heard.whole (whole, tt);
          };
          known = j.known;
          dirs = j.dirs;
        }

    follow-StaysInside :
        (r : Resolved) (walked out : Bytes) (seen : List Bytes) (t : Table Op)
        → IsUnder top out
        → ((p : Bytes) → r ≡ target p → is_bad p ≡ false → is_cut p ≡ false)
        → IsInside walked seen t
        → StaysInside walked seen (follow create sys (root top) r out t)
    unfolding follow
    follow-StaysInside (unresolved e) walked out seen t under absolute i = tt
    follow-StaysInside (target p) walked out seen t under absolute i =
        elim (Bool-cases (is_bad p)) [
          | inl bad ↦ rw bad i
          | inr good ↦
              let whole : IsWhole p = ground (arith, absolute p refl good) in
              rw good (
                enqueue-StaysInside (or_empty (lookup (p ++ slash) t.watches)) walked p out seen t
                  under whole i)
        ]

    place-StaysInside :
        (kind : Kind) (walked path : Bytes) (seen : List Bytes) (t : Table Op)
        → IsPlaced top t.watches walked path seen
        → IsInside walked seen t
        → StaysInside walked
            (with_dir kind path seen)
            (place create sys (root top) kind walked path t)
    unfolding place
    place-StaysInside regular walked path seen t placed i =
        elim (Bool-cases (bytes_eq path walked)) [
          | inl same ↦ rw same i
          | inr other ↦ rw other (record {
            heard = record {
              names = i.heard.names;
              watching = i.heard.watching;
              queued = i.heard.queued;
              whole = i.heard.whole;
            };
            known = i.known;
            dirs = i.dirs;
          })
        ]
    place-StaysInside special walked path seen t placed i = i
    place-StaysInside directory walked path seen t placed i =
        add_dir-StaysInside (sys.refuses path) walked path seen t
          (dir_name-IsUnder top t.watches walked path seen i.heard.names i.known i.dirs placed) i
    place-StaysInside symlink walked path seen t placed i =
        follow-StaysInside (sys.resolve path) walked (dir_name t.watches path) seen t
          (dir_name-IsUnder top t.watches walked path seen i.heard.names i.known i.dirs placed)
          (tree.absolute path) i

    visits_on :
        (s : Step Op) (walked : Bytes) (seen : List Bytes) (vs : List Visit)
        → StaysInside walked seen s
        → ((t : Table Op)
            → IsInside walked seen t
            → StaysInside walked [] (visits create sys (root top) walked vs t))
        → StaysInside walked []
            (elim s [ stop e ↦ stop e | next t' ↦ visits create sys (root top) walked vs t' ])
    visits_on (stop e) walked seen vs h rest = tt
    visits_on (next t) walked seen vs h rest = rest t h

    visit-StaysInside :
        (walked path : Bytes) (kind : Kind) (seen : List Bytes) (t : Table Op)
        → IsWhole path
        → IsPlaced top t.watches walked path seen
        → IsInside walked seen t
        → StaysInside walked
            (with_dir kind path seen)
            (visit create sys (root top) walked (found path kind) t)
    unfolding visit
    visit-StaysInside walked path kind seen t whole placed i =
        rw whole (place-StaysInside kind walked path seen t placed i)

    pub visits-StaysInside :
        (walked : Bytes) (seen : List Bytes) (vs : List Visit) (t : Table Op)
        → Ordered walked seen vs
        → IsInside walked seen t
        → StaysInside walked [] (visits create sys (root top) walked vs t)
    unfolding visits visit
    visits-StaysInside walked seen [] t o i = record { heard = i.heard; known = i.known; dirs = tt }
    visits-StaysInside walked seen (failed e ∷ vs) t o i = tt
    visits-StaysInside walked seen (found path kind ∷ vs) t (whole, placed, o) i =
        visits_on (visit create sys (root top) walked (found path kind) t) walked
          (with_dir kind path seen) vs (visit-StaysInside walked path kind seen t whole placed i)
          (λ t'. visits-StaysInside walked (with_dir kind path seen) vs t' o)
