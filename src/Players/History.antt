-- ===== src/Players/History.antt =====
-- The ids that are present, as the set that a history of calls describes
-- (internal/lobby/players.go, Add, Update, Remove, Lookup and Count).
use snap_gs.Base.{
  ℕ, ◌+◌, ◌≡◌, refl, sym, ◌∙◌, ◌⊎◌, inl, inr, ltb_ℤ, leb_ℤ, eq_ℤ, ◌≤ℤ◌, ◌<ℤ◌, ℤ, pos, Bytes, Bool,
  true, false, not, ◌||◌, ◌&&◌, List, [], ◌∷◌, Option, none, some, if◌then◌else◌, parse_int,
  int_key, Bool-cases, Option-cases, arith,
}
use snap_gs.Base.GoMap.{
  lookup, insert, delete, has, lookup-All, lookup-insert, lookup-delete, length-insert,
  delete_absent, length-delete,
}
use snap_gs.Players.{
  Player, Players, Reply, no_players, set, add, update, remove, left, migrate, find, count, known,
  renamed,
}
use snap_gs.Players.Invariant.{
  IsValid, IsBotEntry, IsJoinEntry, no_players-IsValid, set-IsValid, remove-IsValid, find_returns,
}

-- The id is that of a bot or of a player.
abbrev pub is_present : ℤ → Players → Bool
is_present j p = has j p.bots || has j p.joins

-- How many are present.
abbrev pub size : Players → ℕ
size p = (count p).0 + (count p).1

bot_id_below :
    (p : Players) (i : ℤ) (b : Bool) → IsValid p → lookup i p.bots ≡ some b → i <ℤ pos 1000
bot_id_below p i b v e = (lookup-All IsBotEntry i p.bots v.bots_numbered e).1

player_id_above :
    (p : Players) (i : ℤ) (w : Player) → IsValid p → lookup i p.joins ≡ some w → pos 1000 ≤ℤ i
player_id_above p i w v e = (lookup-All IsJoinEntry i p.joins v.joins_numbered e).0

bots_above : (p : Players) (i : ℤ) → IsValid p → pos 1000 ≤ℤ i → lookup i p.bots ≡ none
bots_above p i v h = elim (Option-cases (lookup i p.bots)) [
  | inl e ↦ e
  | inr (b, e) ↦ absurd (omega (arith, bot_id_below p i b v e))
]

joins_below : (p : Players) (i : ℤ) → IsValid p → i <ℤ pos 1000 → lookup i p.joins ≡ none
joins_below p i v h = elim (Option-cases (lookup i p.joins)) [
  | inl e ↦ e
  | inr (w, e) ↦ absurd (omega (arith, player_id_above p i w v e))
]

migrate-joins :
    (p : Players) (i : ℤ) → ((migrate p i).0.bots ≡ p.bots) × ((migrate p i).0.joins ≡ p.joins)
unfolding migrate
migrate-joins p i = ground arith

-- `Remove` deletes its id from both maps.
remove-maps :
    (p : Players) (sid : Bytes)
    → IsValid p
    → ((remove p sid).0.bots ≡ delete (parse_int sid) p.bots)
      × ((remove p sid).0.joins ≡ delete (parse_int sid) p.joins)
unfolding remove left has
remove-maps p sid v = elim (Option-cases (lookup i p.bots)) [
  | inl no_bot ↦ elim (Option-cases (lookup i p.joins)) [
    | inl absent ↦
        rw (no_bot, absent, left)
          (sym (delete_absent i p.bots no_bot), sym (delete_absent i p.joins absent))
    | inr (w, present) ↦
        let (bots, joins) = migrate-joins (record p { joins = delete i p.joins }) i in
        rw (no_bot, present, left) (bots ∙ sym (delete_absent i p.bots no_bot), joins)
  ]
  | inr (b, bot) ↦
      rw bot (refl, sym (delete_absent i p.joins (joins_below p i v (bot_id_below p i b v bot))))
]
  where
    i : ℤ
    i = parse_int sid

-- `Add` and `Update` refuse an id below 1, and otherwise write to one of the maps.
abbrev SetMaps : Players → ℤ → Players → Type 0
SetMaps p i q =
    ((i <ℤ pos 1) × (q ≡ p))
    ⊎ ((pos 1 ≤ℤ i) × (i <ℤ pos 1000) × (q.bots ≡ insert i true p.bots) × (q.joins ≡ p.joins))
    ⊎ ((pos 1000 ≤ℤ i) × (q.bots ≡ p.bots) × (w : Player) × (q.joins ≡ insert i w p.joins))

set-maps :
    (p : Players) (sid name uuid : Bytes) (r : Players × Reply)
    → set p sid name uuid ≡ some r
    → SetMaps p (parse_int sid) r.0
unfolding set
set-maps p sid name uuid r e = elim (Bool-cases (ltb_ℤ i (pos 1))) [
  | inl low ↦ inl (ground arith, ground arith)
  | inr one ↦ elim (Bool-cases (ltb_ℤ i (pos 1000))) [
    | inl bot ↦ inr (inl (ground arith, ground arith, ground arith, ground arith))
    | inr human ↦ inr (inr (ground arith, ground arith, w, ground arith))
  ]
]
  where
    i : ℤ
    i = parse_int sid

    w : Player
    w = renamed (known i (lookup i p.joins)) name uuid

-- After `Add` or `Update` the ids that were present still are, and so is the id that the call names,
-- if that is at least 1; no other id is.
pub set-is_present :
    (p : Players) (sid name uuid : Bytes) (r : Players × Reply) (j : ℤ)
    → set p sid name uuid ≡ some r
    → is_present j r.0
      ≡ ((leb_ℤ (pos 1) (parse_int sid) && eq_ℤ (parse_int sid) j) || is_present j p)
unfolding has
set-is_present p sid name uuid r j e = elim (set-maps p sid name uuid r e) [
  | inl (low, same) ↦ rw same (ground arith)
  | inr (inl (one, bot, bots, joins)) ↦
      rw (bots, joins, lookup-insert (parse_int sid) j true p.bots) (ground arith)
  | inr (inr (human, bots, w, joins)) ↦
      rw (bots, joins, lookup-insert (parse_int sid) j w p.joins) (ground arith)
]

-- After `Remove` the id that it names is absent, and every other id is as before.
pub remove-is_present :
    (p : Players) (sid : Bytes) (j : ℤ)
    → IsValid p
    → is_present j (remove p sid).0 ≡ (if eq_ℤ (parse_int sid) j then false else is_present j p)
unfolding has
remove-is_present p sid j v =
    let (bots, joins) = remove-maps p sid v in
    rw
      (bots, joins, lookup-delete (parse_int sid) j p.bots, lookup-delete (parse_int sid) j p.joins)
      (ground arith)

-- `Count` after a call: it grows by one at a new id, and shrinks by one at a present one.
pub set-size :
    (p : Players) (sid name uuid : Bytes) (r : Players × Reply)
    → IsValid p
    → set p sid name uuid ≡ some r
    → size r.0 ≡ (
        if leb_ℤ (pos 1) (parse_int sid) && not (is_present (parse_int sid) p)
        then size p + 1
        else size p)
unfolding has count
set-size p sid name uuid r v e = elim (set-maps p sid name uuid r e) [
  | inl (low, same) ↦ rw same (ground arith)
  | inr (inl (one, bot, bots, joins)) ↦
      rw
        (
          bots,
          joins,
          length-insert (parse_int sid) true p.bots,
          joins_below p (parse_int sid) v bot,
        )
        (ground arith)
  | inr (inr (human, bots, w, joins)) ↦
      rw
        (bots, joins, length-insert (parse_int sid) w p.joins, bots_above p (parse_int sid) v human)
        (ground arith)
]

pub remove-size :
    (p : Players) (sid : Bytes)
    → IsValid p
    → size p
      ≡ (if is_present (parse_int sid) p then size (remove p sid).0 + 1 else size (remove p sid).0)
unfolding has count
remove-size p sid v =
    let i = parse_int sid in
    let (bots, joins) = remove-maps p sid v in
    let fewer_bots = length-delete i p.bots v.bots_distinct in
    let fewer_joins = length-delete i p.joins v.joins_distinct in
    elim (Option-cases (lookup i p.bots)) [
      | inl no_bot ↦ rw (bots, joins) (ground arith)
      | inr (b, bot) ↦
          let no_player = joins_below p i v (bot_id_below p i b v bot) in
          rw (bots, joins) (ground arith)
    ]

-- A call from the scanner, or one that an importer of the package may make.
pub data Call : Type 0 where
  adds removes finds : Bytes → Call
  updates : Bytes → Bytes → Bytes → Call

abbrev after_set : Option (Players × Reply) → Option Players
after_set none = none
after_set (some r) = some r.0

abbrev after_find : Players → Option Reply → Option Players
after_find p none = none
after_find p (some r) = some p

-- none is a run-time panic.
unfoldable pub step : Players → Call → Option Players
step p (adds id) = after_set (add p id)
step p (updates id name uuid) = after_set (update p id name uuid)
step p (removes id) = some (remove p id).0
step p (finds id) = after_find p (find p id)

unfoldable pub run : Option Players → List Call → Option Players
run none cs = none
run (some p) [] = some p
run (some p) (c ∷ cs) = run (step p c) cs

step-IsValid :
    (p : Players) (c : Call) → IsValid p → (q : Players) × (step p c ≡ some q) × IsValid q
unfolding step add update
step-IsValid p (adds id) v = let (r, e, w) = set-IsValid p id [] [] v in (r.0, rw e refl, w)
step-IsValid p (updates id name uuid) v =
    let (r, e, w) = set-IsValid p id name uuid v in (r.0, rw e refl, w)
step-IsValid p (removes id) v = (_, refl, remove-IsValid p id v)
step-IsValid p (finds id) v = let (r, e) = find_returns p id v in (p, rw e refl, v)

run-IsValid_from :
    (p : Players) (cs : List Call)
    → IsValid p
    → (q : Players) × (run (some p) cs ≡ some q) × IsValid q
unfolding run
run-IsValid_from p [] v = (p, refl, v)
run-IsValid_from p (c ∷ cs) v =
    let (q, e, w) = step-IsValid p c v in rw (run, e) (run-IsValid_from q cs w)

-- Every history of calls returns, with no nil dereference of the admin, and leaves valid players.
pub run-IsValid : (cs : List Call) → (q : Players) × (run (some no_players) cs ≡ some q) × IsValid q
run-IsValid cs = run-IsValid_from no_players cs no_players-IsValid
