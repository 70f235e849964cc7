-- ===== src/Watch/Walk/Ends.antt =====
-- The walk that begins a watch comes to an end (internal/watch/watch.go, Watch).
use snap_gs.Base.{
  ℕ, zero, suc, ◌+◌, ◌≤◌, ◌<◌, ◌≡◌, refl, ap, ◌∙◌, inl, inr, Bytes, Bool, true, false, ◌||◌, List,
  [], ◌∷◌, ◌++◌, Option, none, some, arith, any, if◌then◌else◌, is_nil, length, length-append,
  bytes_eq, has_suffix, leb, ltb_ℤ, pos, bytes_eq_iff, bytes_key, Bool-cases,
}
use snap_gs.Base.GoMap.{lookup, insert, lookup-insert}
use snap_gs.Errors.{
  Err, watch_filters_unconfigured, watch_path_unconfigured, watch_tick_unconfigured,
  watch_unconfigured,
}
use snap_gs.Watch.Walk.{
  Kind, regular, directory, symlink, special, Visit, found, failed, Table, Step, next, stop,
  Resolved, target, unresolved, slash, or_empty, or_else, is_bad, is_cut, dir_name, System, add_dir,
  enqueue, follow, place, visit, visits, walk, first_table, system, Request, Opened, refused, start,
  after_walk, on_watcher, on_path, on_context, watch,
}

abbrev has_name : List (Bytes × Bytes) → Bytes → Bool
has_name watches key = is_nil (or_empty (lookup key watches))

-- How many of some paths have no name in the table.
abbrev unnamed : List Bytes → List (Bytes × Bytes) → ℕ
unnamed [] watches = 0
unnamed (p ∷ ps) watches =
    if has_name watches (p ++ slash) then suc (unnamed ps watches) else unnamed ps watches

-- What WalkDir and EvalSymlinks lead to lies among some paths.
abbrev pub LeadsTo : System → List Bytes → Type 0
LeadsTo sys targets =
    (path out : Bytes) → sys.resolve path ≡ target out → any (bytes_eq out) targets ≡ true

or_else-nonempty : (a b : Bytes) → is_nil (or_else a (b ++ slash)) ≡ false
or_else-nonempty [] [] = refl
or_else-nonempty [] (c ∷ b) = refl
or_else-nonempty (c ∷ a) b = refl

dir_name-nonempty :
    (watches : List (Bytes × Bytes)) (path : Bytes) → is_nil (dir_name watches path) ≡ false
unfolding dir_name
dir_name-nonempty watches path = or_else-nonempty _ _

unnamed_le : (ps : List Bytes) → unnamed ps [] ≤ length ps
unfolding lookup
unnamed_le [] = omega arith
unnamed_le (p ∷ ps) = omega (arith, unnamed_le ps)

-- A name that is written stays.
has_name-insert :
    (key out k : Bytes) (watches : List (Bytes × Bytes))
    → is_nil out ≡ false
    → has_name (insert key out watches) k ≡ (if bytes_eq key k then false else has_name watches k)
has_name-insert key out k watches named =
    ap (λ o. is_nil (or_empty o)) (lookup-insert key k out watches)
    ∙ elim (Bool-cases (bytes_eq key k)) [ inl same ↦ rw same named | inr other ↦ rw other refl ]

unnamed-insert :
    (key out : Bytes) (ps : List Bytes) (watches : List (Bytes × Bytes))
    → is_nil out ≡ false
    → unnamed ps (insert key out watches) ≤ unnamed ps watches
unnamed-insert key out [] watches named = omega arith
unnamed-insert key out (p ∷ ps) watches named = ground (
  arith,
  has_name-insert key out (p ++ slash) watches named,
  unnamed-insert key out ps watches named,
)

unnamed-insert_new :
    (p out : Bytes) (ps : List Bytes) (watches : List (Bytes × Bytes))
    → is_nil out ≡ false
    → has_name watches (p ++ slash) ≡ true
    → any (bytes_eq p) ps ≡ true
    → unnamed ps (insert (p ++ slash) out watches) < unnamed ps watches
unnamed-insert_new p out [] watches named absent listed = cc
unnamed-insert_new p out (q ∷ ps) watches named absent listed = elim (Bool-cases (bytes_eq p q)) [
  | inl same ↦
      let e : p ≡ q = (bytes_eq_iff p q).0 same in
      ground (
        arith,
        ap (λ k. bytes_eq (p ++ slash) (k ++ slash)) e,
        (bytes_eq_iff (p ++ slash) (p ++ slash)).1 refl,
        ap (λ k. has_name watches (k ++ slash)) e,
        has_name-insert (p ++ slash) out (q ++ slash) watches named,
        unnamed-insert (p ++ slash) out ps watches named,
      )
  | inr other ↦ ground (
    arith,
    has_name-insert (p ++ slash) out (q ++ slash) watches named,
    unnamed-insert_new p out ps watches named absent,
  )
]

module _ {Op : Type 0} (create : Op) (sys : System) (root : Bytes) (targets : List Bytes)
    (leads : LeadsTo sys targets) where
  measure : Table Op → ℕ
  measure t = length t.queue + unnamed targets t.watches

  -- A step that goes on does not raise the measure.
  abbrev Bounded : ℕ → Step Op → Type 0
  Bounded n (stop e) = Unit
  Bounded n (next t) = measure t ≤ n

  add_dir-Bounded :
      (e : Option Err) (path : Bytes) (t : Table Op)
      → Bounded (measure t) (add_dir create sys root e path t)
  unfolding measure
  add_dir-Bounded (some e) path t = tt
  add_dir-Bounded none path t = omega (
    arith,
    unnamed-insert (path ++ slash) (dir_name t.watches path) targets t.watches
        (dir_name-nonempty t.watches path),
  )

  enqueue-Bounded :
      (old path out : Bytes) (t : Table Op)
      → or_empty (lookup (path ++ slash) t.watches) ≡ old
      → is_nil out ≡ false
      → any (bytes_eq path) targets ≡ true
      → Bounded (measure t) (enqueue create sys root old path out t)
  unfolding measure
  enqueue-Bounded (c ∷ old) path out t e named listed = tt
  enqueue-Bounded [] path out t e named listed = omega (
    arith,
    length-append t.queue (path ∷ []),
    unnamed-insert_new path out targets t.watches named (ap is_nil e) listed,
  )

  follow-Bounded :
      (r : Resolved) (out : Bytes) (t : Table Op)
      → is_nil out ≡ false
      → ((path : Bytes) → r ≡ target path → any (bytes_eq path) targets ≡ true)
      → Bounded (measure t) (follow create sys root r out t)
  unfolding follow
  follow-Bounded (unresolved e) out t named listed = tt
  follow-Bounded (target path) out t named listed = elim (Bool-cases (is_bad path)) [
    | inl bad ↦ rw bad (omega arith)
    | inr good ↦ rw good (enqueue-Bounded _ path out t refl named (listed path refl))
  ]

  place-Bounded :
      (kind : Kind) (walked path : Bytes) (t : Table Op)
      → Bounded (measure t) (place create sys root kind walked path t)
  unfolding place measure
  place-Bounded regular walked path t = ground arith
  place-Bounded directory walked path t = add_dir-Bounded (sys.refuses path) path t
  place-Bounded special walked path t = omega arith
  place-Bounded symlink walked path t =
      follow-Bounded (sys.resolve path) (dir_name t.watches path) t
        (dir_name-nonempty t.watches path) (leads path)

  visit-Bounded :
      (walked : Bytes) (v : Visit) (t : Table Op)
      → Bounded (measure t) (visit create sys root walked v t)
  unfolding visit
  visit-Bounded walked (failed e) t = tt
  visit-Bounded walked (found path kind) t = elim (Bool-cases (is_bad path || is_cut path)) [
    | inl skipped ↦ rw skipped (omega arith)
    | inr kept ↦ rw kept (place-Bounded kind walked path t)
  ]

  Bounded-mono : (s : Step Op) (m n : ℕ) → m ≤ n → Bounded m s → Bounded n s
  Bounded-mono (stop e) m n h b = tt
  Bounded-mono (next t) m n h b = omega (arith, b, h)

  visits_on :
      (s : Step Op) (walked : Bytes) (vs : List Visit) (n : ℕ)
      → Bounded n s
      → ((t : Table Op) → measure t ≤ n → Bounded n (visits create sys root walked vs t))
      → Bounded n (elim s [ stop e ↦ stop e | next t' ↦ visits create sys root walked vs t' ])
  visits_on (stop e) walked vs n b rest = tt
  visits_on (next t) walked vs n b rest = rest t b

  visits-Bounded :
      (walked : Bytes) (vs : List Visit) (t : Table Op) (n : ℕ)
      → measure t ≤ n
      → Bounded n (visits create sys root walked vs t)
  unfolding visits
  visits-Bounded walked [] t n h = h
  visits-Bounded walked (v ∷ vs) t n h =
      visits_on (visit create sys root walked v t) walked vs n
        (Bounded-mono (visit create sys root walked v t) (measure t) n h (visit-Bounded walked v t))
        (λ t'. visits-Bounded walked vs t' n)

  -- The loop ends: a table is reached or the walk fails.
  abbrev pub Ended : Option (Step Op) → Type 0
  Ended none = ⊥
  Ended (some s) = Unit

  walk_on :
      (s : Step Op) (fuel n : ℕ)
      → Bounded n s
      → ((t : Table Op) → measure t ≤ n → Ended (walk create sys root fuel t))
      → Ended (elim s [ stop e ↦ some (stop e) | next t' ↦ walk create sys root fuel t' ])
  walk_on (stop e) fuel n b rest = tt
  walk_on (next t) fuel n b rest = rest t b

  walk-Ended :
      (fuel : ℕ) (queue : List Bytes) (t : Table Op)
      → t.queue ≡ queue
      → length queue + unnamed targets t.watches < fuel
      → Ended (walk create sys root fuel t)
  unfolding walk measure
  walk-Ended zero queue t e h = absurd (omega (arith, h))
  walk-Ended (suc fuel) [] t e h = rw e tt
  walk-Ended (suc fuel) (p ∷ rest) t e h =
      let popped = record t { queue = rest } in
      rw e (
        walk_on (visits create sys root p (sys.list p) popped) fuel (measure popped)
          (visits-Bounded p (sys.list p) popped (measure popped) (omega arith))
          (λ t' below. walk-Ended fuel t'.queue t' refl (omega (arith, below, h))))

  -- A walk that is given enough rounds brings `Watch` to its end.
  after_walk-some :
      (s : Option (Step Op)) → Ended s → (o : Opened Op) × (after_walk create sys root s ≡ some o)
  after_walk-some none h = absurd h
  after_walk-some (some (stop e)) h = (refused e, refl)
  after_walk-some (some (next t)) h = (start create sys root t, refl)

module _ {Op : Type 0} (create : Op) (sys : System) (targets : List Bytes)
    (leads : LeadsTo sys targets) where
  abbrev Returns : Option (Opened Op) → Type 0
  Returns o = (a : Opened Op) × (o ≡ some a)

  on_watcher-Returns :
      (path : Bytes) (e : Option Err) → Returns (on_watcher create sys (length targets + 2) path e)
  on_watcher-Returns path (some e) = (refused (system e), refl)
  on_watcher-Returns path none =
      let root = path ++ slash in
      let from = first_table create sys root path in
      after_walk-some create sys root targets leads (walk create sys root (length targets + 2) from)
        (walk-Ended create sys root targets leads (length targets + 2) (path ∷ []) from refl
          (omega (arith, unnamed_le targets)))

  on_path-Returns :
      (e : Option Err) (r : Resolved) → Returns (on_path create sys (length targets + 2) e r)
  on_path-Returns e (unresolved x) = (refused (system x), refl)
  on_path-Returns e (target []) = (refused (system watch_path_unconfigured), refl)
  on_path-Returns e (target (c ∷ path)) = elim (Bool-cases (has_suffix (c ∷ path) slash)) [
    | inl bad ↦ rw bad (refused (system watch_unconfigured), refl)
    | inr good ↦ rw good (on_watcher-Returns (c ∷ path) e)
  ]

  on_context-Returns :
      (r : Request) (e : Option Err) → Returns (on_context create sys (length targets + 2) r e)
  on_context-Returns r (some e) = (refused (system e), refl)
  on_context-Returns r none = on_path-Returns r.watcher_error r.absolute

  -- Where the links that are followed lead to some finite number of directories, Watch comes to an
  -- end, whatever it is called with and whatever the walk meets: its loop over the paths takes as many
  -- rounds as there are such directories, and two more, at most.
  pub watch_ends :
      (r : Request) → (o : Opened Op) × (watch create sys (length targets + 2) r ≡ some o)
  unfolding watch
  watch_ends r = elim (Bool-cases (is_nil r.path)) [
    | inl bad ↦ rw bad (refused (system watch_path_unconfigured), refl)
    | inr path ↦ elim (Bool-cases (ltb_ℤ (pos 0) r.tick)) [
      | inr bad ↦ rw (path, bad) (refused (system watch_tick_unconfigured), refl)
      | inl tick ↦ elim (Bool-cases (leb r.filters 0)) [
        | inl bad ↦ rw (path, tick, bad) (refused (system watch_filters_unconfigured), refl)
        | inr filters ↦ rw (path, tick, filters) (on_context-Returns r r.context_error)
      ]
    ]
  ]
