-- ===== src/Watch/Loop/Delivery.antt =====
-- No event is lost or made up between fsnotify and the filters (internal/watch/watch.go, Watch).
use mathlib.Core.List.{append_assoc, append-nil}
use native.Mathlib.Nat.{zero-add}
use snap_gs.Base.{
  ℕ, suc, ◌+◌, ◌≡◌, ◌≢◌, refl, sym, ap, ◌∙◌, inl, inr, Bool-cases, Bytes, Bool, true, false, List,
  [], ◌∷◌, ◌++◌, Option, none, some, arith, if◌then◌else◌,
}
use snap_gs.Errors.{Err}
use snap_gs.Watch.Filters.{Event}
use snap_gs.Watch.Loop.{
  Call, Input, event, fault, tick, done, closed, State, event_name, add_event, wrap, flush_call,
  error_call, end_call, reset_if_none, round, rounds,
}

splice {ℓ} :
    {A : Type ℓ} (now later left kept before here rest : List A)
    → now ++ kept ≡ before ++ here
    → later ++ left ≡ kept ++ rest
    → (now ++ later) ++ left ≡ before ++ (here ++ rest)
splice now later left kept before here rest p q =
    append_assoc now later left
    ∙ ap (◌++◌ now) q
    ∙ sym (append_assoc now kept rest)
    ∙ ap (λ l. l ++ rest) p
    ∙ append_assoc before here rest

-- One call tells the filters of the end, unless the loop goes on.
abbrev pub ending : Bool → ℕ
ending more = if more then 0 else 1

module _ {Op : Type 0} where
  -- The events that the filters are given, in the order of the calls.
  abbrev pub events_of : Option (List (Event Op)) → List (Event Op)
  events_of none = []
  events_of (some es) = es

  abbrev pub delivered : List (Call Op) → List (Event Op)
  delivered [] = []
  delivered (c ∷ cs) = events_of c.events ++ delivered cs

  -- How many calls tell the filters that the watch has ended.
  abbrev pub endings : List (Call Op) → ℕ
  endings [] = 0
  endings (c ∷ cs) = if c.ok then endings cs else suc (endings cs)

  delivered-append : (xs ys : List (Call Op)) → delivered (xs ++ ys) ≡ delivered xs ++ delivered ys
  delivered-append [] ys = refl
  delivered-append (c ∷ cs) ys =
      ap (◌++◌ (events_of c.events)) (delivered-append cs ys)
      ∙ sym (append_assoc (events_of c.events) (delivered cs) (delivered ys))

  endings-append : (xs ys : List (Call Op)) → endings (xs ++ ys) ≡ endings xs + endings ys
  endings-append [] ys = omega arith
  endings-append (c ∷ cs) ys = ground (arith, endings-append cs ys)

  delivered-calls :
      (p : List (Event Op)) (e : Option Err) (ok : Bool)
      → delivered (flush_call p ++ error_call e ++ end_call ok) ≡ p
  unfolding flush_call error_call end_call
  delivered-calls [] none true = refl
  delivered-calls [] none false = refl
  delivered-calls [] (some x) true = refl
  delivered-calls [] (some x) false = refl
  delivered-calls (x ∷ p) none true = append-nil (x ∷ p)
  delivered-calls (x ∷ p) none false = append-nil (x ∷ p)
  delivered-calls (x ∷ p) (some y) true = append-nil (x ∷ p)
  delivered-calls (x ∷ p) (some y) false = append-nil (x ∷ p)

  endings-calls :
      (p : List (Event Op)) (e : Option Err) (ok : Bool)
      → endings (flush_call p ++ error_call e ++ end_call ok) ≡ (if ok then 0 else 1)
  unfolding flush_call error_call end_call
  endings-calls [] none true = refl
  endings-calls [] none false = refl
  endings-calls [] (some y) true = refl
  endings-calls [] (some y) false = refl
  endings-calls (x ∷ p) none true = refl
  endings-calls (x ∷ p) none false = refl
  endings-calls (x ∷ p) (some y) true = refl
  endings-calls (x ∷ p) (some y) false = refl

  -- While events wait the ticker runs, so that a tick will flush them.
  abbrev pub WillFlush : State Op → Type 0
  WillFlush s = s.pending ≢ [] → s.ticking ≡ true

module _ {Op : Type 0} (watches : List (Bytes × Bytes)) (root : Bytes) where
  abbrev pub named_event : Option Bytes → Op → List (Event Op)
  named_event none op = []
  named_event (some name) op = record { name = name; op = op } ∷ []

  abbrev pub passed : Input Op → List (Event Op)
  passed (event path op) = named_event (event_name watches root path) op
  passed _ = []

  -- The events that are passed on, up to the end of the watch.
  abbrev pub accepted : List (Input Op) → List (Event Op)
  accepted [] = []
  accepted (done e ∷ is) = []
  accepted (closed ∷ is) = []
  accepted (i ∷ is) = passed i ++ accepted is

  wrapped :
      (e : Option Err) (ok : Bool) (s : State Op)
      → let (t, calls) = wrap e ok s in
        (delivered calls ++ t.pending ≡ s.pending ++ [])
        × (endings calls ≡ ending ok)
        × (t.pending ≡ [])
  unfolding wrap
  wrapped e ok s =
      (ap (λ es. es ++ []) (delivered-calls s.pending e ok), endings-calls s.pending e ok, refl)

  reset_ticks :
      (p : List (Event Op)) (ticking : Bool)
      → (p ≢ [] → ticking ≡ true)
      → reset_if_none watches root p ticking ≡ true
  unfolding reset_if_none
  reset_ticks [] ticking h = refl
  reset_ticks (x ∷ p) ticking h = h (λ e. cc)

  added_pending :
      (name : Option Bytes) (op : Op) (s : State Op)
      → (add_event watches root name op s).pending ≡ s.pending ++ named_event name op
  unfolding add_event
  added_pending none op s = sym (append-nil s.pending)
  added_pending (some name) op s = refl

  added :
      (name : Option Bytes) (op : Op) (s : State Op)
      → WillFlush s
      → ((add_event watches root name op s).pending ≡ s.pending ++ named_event name op)
        × WillFlush (add_event watches root name op s)
  unfolding add_event reset_if_none
  added none op s h = (sym (append-nil s.pending), h)
  added (some name) op s h = (refl, λ _. reset_ticks s.pending s.ticking h)

  -- A round hands on what was pending and what it received, or keeps it, in order.
  one_round :
      (i : Input Op) (s : State Op)
      → let (t, calls, more) = round watches root i s in
        (delivered calls ++ t.pending ≡ s.pending ++ passed i) × (endings calls ≡ ending more)
  unfolding round
  one_round (event path op) s = (added_pending (event_name watches root path) op s, refl)
  one_round (fault none) s = (sym (append-nil s.pending), refl)
  one_round (fault (some e)) s = let (d, n, _) = wrapped (some e) true s in (d, n)
  one_round tick s = let (d, n, _) = wrapped none true s in (d, n)
  one_round (done e) s = let (d, n, _) = wrapped (some e) false s in (d, n)
  one_round closed s = let (d, n, _) = wrapped none false s in (d, n)

  round-WillFlush :
      (i : Input Op) (s : State Op) → WillFlush s → WillFlush (round watches root i s).0
  unfolding round wrap
  round-WillFlush (event path op) s h = (added (event_name watches root path) op s h).1
  round-WillFlush (fault none) s h = h
  round-WillFlush (fault (some e)) s h = λ some_left. absurd (some_left refl)
  round-WillFlush tick s h = λ some_left. absurd (some_left refl)
  round-WillFlush (done e) s h = λ some_left. absurd (some_left refl)
  round-WillFlush closed s h = λ some_left. absurd (some_left refl)

  -- A round that goes on, followed by the rest.
  chained :
      (i : Input Op) (is : List (Input Op)) (s : State Op)
      → (round watches root i s).2 ≡ true
      → accepted (i ∷ is) ≡ passed i ++ accepted is
      → let (s', calls, _) = round watches root i s in
        let (t, later, running) = rounds watches root is s' in
        (delivered later ++ t.pending ≡ s'.pending ++ accepted is)
          × (endings later ≡ ending running)
          × (running ≡ false → t.pending ≡ [])
        → (delivered (calls ++ later) ++ t.pending ≡ s.pending ++ accepted (i ∷ is))
          × (endings (calls ++ later) ≡ ending running)
          × (running ≡ false → t.pending ≡ [])
  chained i is s more split (d, n, p) =
      let r = round watches root i s in
      let rest = rounds watches root is r.0 in
      let none_yet : endings r.1 ≡ 0 = rw more at ((one_round i s).1) in
      (
        ap (λ es. es ++ rest.0.pending) (delivered-append r.1 rest.1)
            ∙ splice (delivered r.1) _ _ _ _ _ _ (one_round i s).0 d
            ∙ ap (◌++◌ s.pending) (sym split),
        endings-append r.1 rest.1 ∙ ap (λ k. k + endings rest.1) none_yet ∙ zero-add _ ∙ n,
        p,
      )

  -- Over any inputs: what the filters are given, followed by what still waits, is what waited before
  -- followed by the accepted events up to the end of the watch, in their order. Nothing waits once the
  -- loop has ended. The filters are told of the end once when the loop has ended, and not before.
  pub rounds_deliver :
      (is : List (Input Op)) (s : State Op)
      → let (t, calls, running) = rounds watches root is s in
        (delivered calls ++ t.pending ≡ s.pending ++ accepted is)
        × (endings calls ≡ ending running)
        × (running ≡ false → t.pending ≡ [])
  unfolding rounds
  rounds_deliver [] s = (sym (append-nil s.pending), refl, λ e. cc)
  rounds_deliver (event path op ∷ is) s =
      chained (event path op) is s refl refl (rounds_deliver is _)
  rounds_deliver (fault none ∷ is) s = chained (fault none) is s refl refl (rounds_deliver is _)
  rounds_deliver (fault (some e) ∷ is) s =
      chained (fault (some e)) is s refl refl (rounds_deliver is _)
  rounds_deliver (tick ∷ is) s = chained tick is s refl refl (rounds_deliver is _)
  rounds_deliver (done e ∷ is) s = let (d, n, p) = wrapped (some e) false s in (d, n, λ _. p)
  rounds_deliver (closed ∷ is) s = let (d, n, p) = wrapped none false s in (d, n, λ _. p)

  -- A watch whose ticker runs while events wait stays so, whatever it receives; so the next tick hands
  -- the events on.
  pub rounds-WillFlush :
      (is : List (Input Op)) (s : State Op) → WillFlush s → WillFlush (rounds watches root is s).0
  unfolding rounds
  rounds-WillFlush [] s h = h
  rounds-WillFlush (i ∷ is) s h = elim (Bool-cases (round watches root i s).2) [
    | inl more ↦ rw more (rounds-WillFlush is (round watches root i s).0 (round-WillFlush i s h))
    | inr over ↦ rw over (round-WillFlush i s h)
  ]
