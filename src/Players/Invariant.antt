-- ===== src/Players/Invariant.antt =====
-- What holds of the players between two calls (internal/lobby/players.go).
use snap_gs.Base.{
  ◌≡◌, refl, ◌∙◌, ◌⊎◌, inl, inr, ltb_ℤ, eq_ℤ, eq_ℤ_iff, ℤ, pos, ◌≤ℤ◌, ◌<ℤ◌, Bytes, Bool, true,
  false, List, [], ◌∷◌, Option, none, some, parse_int, parse_int_bound, max_int64, int_key, All,
  Bool-cases, Option-cases, arith,
}
use snap_gs.Base.GoMap.{
  lookup, insert, delete, has, Distinct, insert-Distinct, delete-Distinct, insert-All, delete-All,
  lookup-All, lookup-insert, lookup-delete,
}
use snap_gs.Players.{
  Player, Players, Reply, no_players, pick, least, migrate, set, remove, find, known, renamed,
  first_is_admin, left, found,
}

-- Bots are numbered from 1 to 999 and players from 1000 on, as int64; a player is filed under its id.
abbrev pub IsBotEntry : ℤ × Bool → Type 0
IsBotEntry e = (pos 1 ≤ℤ e.0) × (e.0 <ℤ pos 1000)

abbrev pub IsJoinEntry : ℤ × Player → Type 0
IsJoinEntry e = (pos 1000 ≤ℤ e.0) × (e.0 ≤ℤ pos max_int64) × (e.1.id ≡ e.0)

-- There is an admin as long as there are players, and the admin is one of them.
abbrev pub HasAdmin : Option ℤ → List (ℤ × Player) → Type 0
HasAdmin none js = js ≡ []
HasAdmin (some a) js = has a js ≡ true

pub record IsValid (p : Players) : Type 0 where
  pub bots_distinct : Distinct p.bots
  pub joins_distinct : Distinct p.joins
  pub bots_numbered : All IsBotEntry p.bots
  pub joins_numbered : All IsJoinEntry p.joins
  pub admin_present : HasAdmin p.admin p.joins

pub no_players-IsValid : IsValid no_players
unfolding no_players
no_players-IsValid = record {
  bots_distinct = tt;
  joins_distinct = tt;
  bots_numbered = tt;
  joins_numbered = tt;
  admin_present = refl;
}

has-cons :
    (a k : ℤ) (v : Player) (js : List (ℤ × Player)) → has a js ≡ true → has a ((k, v) ∷ js) ≡ true
unfolding has lookup
has-cons a k v js h = ground arith

has_head : (k : ℤ) (v : Player) (js : List (ℤ × Player)) → v.id ≡ k → has v.id ((k, v) ∷ js) ≡ true
unfolding has lookup
has_head k v js h = ground (arith, eq_ℤ_iff k v.id)

pick_cases : (acc : Option ℤ) (i : ℤ) → (pick acc i ≡ acc) ⊎ (pick acc i ≡ some i)
pick_cases none i = inr refl
pick_cases (some a) i = ground arith

has-delete :
    (i a : ℤ) (js : List (ℤ × Player))
    → eq_ℤ i a ≡ false
    → has a js ≡ true
    → has a (delete i js) ≡ true
unfolding has
has-delete i a js differs h = rw (lookup-delete i a js, differs) h

-- `migrate` touches the admin alone.
migrate-keeps :
    (p : Players) (i : ℤ) → ((migrate p i).0.bots ≡ p.bots) × ((migrate p i).0.joins ≡ p.joins)
unfolding migrate
migrate-keeps p i = ground arith

-- The loop of `migrate` keeps what it started from, or takes the id of a player.
least_cases :
    (acc : Option ℤ) (js : List (ℤ × Player))
    → All IsJoinEntry js
    → (least acc js ≡ acc) ⊎ ((a : ℤ) × (least acc js ≡ some a) × (has a js ≡ true))
unfolding least
least_cases acc [] h = inl refl
least_cases acc ((k, v) ∷ js) h = elim (least_cases (pick acc v.id) js h.1) [
  | inl e ↦ elim (pick_cases acc v.id) [
    | inl kept ↦ inl (e ∙ kept)
    | inr taken ↦ inr (v.id, e ∙ taken, has_head k v js h.0.2)
  ]
  | inr (a, e, m) ↦ inr (a, e, has-cons a k v js m)
]

-- So the admin that it elects is present.
pub least-HasAdmin : (js : List (ℤ × Player)) → All IsJoinEntry js → HasAdmin (least none js) js
unfolding least
least-HasAdmin [] h = refl
least-HasAdmin ((k, v) ∷ js) h = elim (least_cases (some v.id) js h.1) [
  | inl e ↦ rw e (has_head k v js h.0.2)
  | inr (a, e, m) ↦ rw e (has-cons a k v js m)
]

-- When the player `i` has gone, the admin is another player, or the one that `migrate` elects.
migrate-HasAdmin :
    (i : ℤ) (admin : Option ℤ) (p : Players)
    → p.admin ≡ admin
    → All IsJoinEntry (delete i p.joins)
    → HasAdmin admin p.joins
    → HasAdmin (migrate (record p { joins = delete i p.joins }) i).0.admin (delete i p.joins)
unfolding migrate delete
migrate-HasAdmin i none p e h present = rw (e, present) refl
migrate-HasAdmin i (some a) p e h present = elim (Bool-cases (eq_ℤ i a)) [
  | inl same ↦ rw (e, same, migrate) (least-HasAdmin (delete i p.joins) h)
  | inr differs ↦ rw (e, differs, migrate, e) (has-delete i a p.joins differs present)
]

left-IsValid :
    (p : Players) (i : ℤ) (player : Option Player) → IsValid p → IsValid (left p i player).0
unfolding left
left-IsValid p i none v = v
left-IsValid p i (some player) v =
    let joins = delete-Distinct i p.joins v.joins_distinct in
    let numbered = delete-All IsJoinEntry i p.joins v.joins_numbered in
    let present = migrate-HasAdmin i p.admin p refl numbered v.admin_present in
    ground (arith, migrate-keeps (record p { joins = delete i p.joins }) i)

-- A removal leaves the players valid, whatever id it names.
pub remove-IsValid : (p : Players) (sid : Bytes) → IsValid p → IsValid (remove p sid).0
unfolding remove
remove-IsValid p sid v = elim (Bool-cases (has (parse_int sid) p.bots)) [
  | inl bot ↦
      rw (bot, remove)
        (record {
          bots_distinct = delete-Distinct (parse_int sid) p.bots v.bots_distinct;
          joins_distinct = v.joins_distinct;
          bots_numbered = delete-All IsBotEntry (parse_int sid) p.bots v.bots_numbered;
          joins_numbered = v.joins_numbered;
          admin_present = v.admin_present;
        })
  | inr human ↦ rw (human, remove) (left-IsValid p (parse_int sid) _ v)
]

known_id :
    (id : ℤ) (js : List (ℤ × Player)) → All IsJoinEntry js → (known id (lookup id js)).id ≡ id
known_id id js h = elim (Option-cases (lookup id js)) [
  | inl e ↦ rw e refl
  | inr (v, e) ↦ rw e (lookup-All IsJoinEntry id js h e).2
]

has-insert :
    (i a : ℤ) (v : Player) (js : List (ℤ × Player)) → has a js ≡ true → has a (insert i v js) ≡ true
unfolding has
has-insert i a v js h = ground (arith, lookup-insert i a v js)

has-insert_self : (i : ℤ) (v : Player) (js : List (ℤ × Player)) → has i (insert i v js) ≡ true
unfolding has
has-insert_self i v js = ground (arith, lookup-insert i i v js, eq_ℤ_iff i i)

-- `join` never meets a nil admin, and the admin that it leaves is present.
first-HasAdmin :
    (i : ℤ) (v : Player) (js : List (ℤ × Player)) (admin : Option ℤ)
    → v.id ≡ i
    → HasAdmin admin js
    → (a : ℤ) × (first_is_admin js v admin ≡ some a) × (has a (insert i v js) ≡ true)
first-HasAdmin i v [] admin e h = (v.id, refl, simp e (has-insert_self i v []))
first-HasAdmin i v ((k, w) ∷ js) none e h = cc
first-HasAdmin i v ((k, w) ∷ js) (some a) e h = (a, refl, has-insert i a v ((k, w) ∷ js) h)

-- A call of `set` returns, and leaves the players valid.
pub set-IsValid :
    (p : Players) (sid name uuid : Bytes)
    → IsValid p
    → (r : Players × Reply) × (set p sid name uuid ≡ some r) × IsValid r.0
unfolding set
set-IsValid p sid name uuid v = elim (Bool-cases (ltb_ℤ id (pos 1))) [
  | inl low ↦ rw low (_, refl, v)
  | inr one ↦ elim (Bool-cases (ltb_ℤ id (pos 1000))) [
    | inl bot ↦ rw (one, bot) (_, refl, bot_valid one bot)
    | inr human ↦
        let (a, e, m) = first-HasAdmin id player p.joins p.admin same v.admin_present in
        rw (one, human, e) (_, refl, join_valid human a m)
  ]
]
  where
    id : ℤ
    id = parse_int sid

    player : Player
    player = renamed (known id (lookup id p.joins)) name uuid

    same : player.id ≡ id
    same = known_id id p.joins v.joins_numbered

    bot_valid :
        ltb_ℤ id (pos 1) ≡ false
        → ltb_ℤ id (pos 1000) ≡ true
        → IsValid (record p { bots = insert id true p.bots })
    bot_valid one bot = record {
      bots_distinct = insert-Distinct id true p.bots v.bots_distinct;
      joins_distinct = v.joins_distinct;
      bots_numbered = insert-All IsBotEntry id true p.bots (ground arith) v.bots_numbered;
      joins_numbered = v.joins_numbered;
      admin_present = v.admin_present;
    }

    join_valid :
        ltb_ℤ id (pos 1000) ≡ false
        → (a : ℤ) → has a (insert id player p.joins) ≡ true
        → IsValid (record p { joins = insert id player p.joins; admin = some a })
    join_valid human a m = record {
      bots_distinct = v.bots_distinct;
      joins_distinct = insert-Distinct id player p.joins v.joins_distinct;
      bots_numbered = v.bots_numbered;
      joins_numbered =
          insert-All IsJoinEntry id player p.joins (ground (arith, parse_int_bound sid, same))
            v.joins_numbered;
      admin_present = m;
    }

found_returns :
    (admin : Option ℤ) (js : List (ℤ × Player)) (i : ℤ)
    → HasAdmin admin js
    → (r : Reply) × (found admin (lookup i js) ≡ some r)
unfolding lookup
found_returns none js i h = rw h (_, refl)
found_returns (some a) js i h = elim (Option-cases (lookup i js)) [
  | inl e ↦ rw e (_, refl)
  | inr (v, e) ↦ rw e (_, refl)
]

-- `Lookup` returns on valid players: it meets no nil admin.
pub find_returns : (p : Players) (sid : Bytes) → IsValid p → (r : Reply) × (find p sid ≡ some r)
unfolding find
find_returns p sid v = found_returns p.admin p.joins (parse_int sid) v.admin_present
