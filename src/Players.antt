-- ===== src/Players.antt =====
-- The players of a lobby (internal/lobby/players.go): who plays, which bots, and who is admin.
-- The two maps are association lists. The admin is a pointer to a player of `joins`; the code reads
-- only the id behind it, which never changes, so the model keeps that id.
pub mod Invariant
pub mod Admin
pub mod History
use snap_gs.Base.{
  ℕ, ltb_ℤ, eq_ℤ, ℤ, pos, negsuc, Bytes, Bool, true, false, List, [], ◌∷◌, Option, none, some,
  if◌then◌else◌, length, parse_int, int_key,
}
use snap_gs.Base.GoMap.{lookup, insert, delete, has}

pub record Player : Type 0 where
  pub id : ℤ
  pub name : Bytes
  pub uuid : Bytes

pub record Players : Type 0 where
  pub bots : List (ℤ × Bool)
  pub joins : List (ℤ × Player)
  pub admin : Option ℤ

-- The four results of a call.
pub record Reply : Type 0 where
  pub id : ℤ
  pub name : Bytes
  pub uuid : Bytes
  pub admin : Bool

unfoldable pub no_players : Players
no_players = record { bots = []; joins = []; admin = none }

abbrev pub missing : Reply
missing = record { id = negsuc 0; name = []; uuid = []; admin = false }

abbrev anonymous : ℤ → Reply
anonymous id = record { id = id; name = []; uuid = []; admin = false }

abbrev pub pick : Option ℤ → ℤ → Option ℤ
pick none i = some i
pick (some a) i = if ltb_ℤ i a then some i else some a

-- The loop of `migrate` over the players, in the order that the map gives them.
unfoldable pub least : Option ℤ → List (ℤ × Player) → Option ℤ
least acc [] = acc
least acc ((k, v) ∷ js) = least (pick acc v.id) js

unfoldable pub migrate : Players → ℤ → Players × Bool
migrate p id = elim p.admin [
  | none ↦ (p, false)
  | some a ↦ if eq_ℤ id a then (record p { admin = least none p.joins }, true) else (p, false)
]

-- `if s != "" { field = s }`.
abbrev pub overwrite : Bytes → Bytes → Bytes
overwrite [] old = old
overwrite (c ∷ s) old = c ∷ s

abbrev pub known : ℤ → Option Player → Player
known id none = record { id = id; name = []; uuid = [] }
known id (some player) = player

abbrev pub renamed : Player → Bytes → Bytes → Player
renamed player name uuid = record player {
  name = overwrite name player.name;
  uuid = overwrite uuid player.uuid;
}

-- The end of `set`, which reads through the admin pointer: none is a nil dereference.
abbrev pub join : Players → ℤ → Player → Option ℤ → Option (Players × Reply)
join p id player none = none
join p id player (some a) = some (
  record p { joins = insert id player p.joins; admin = some a },
  record { id = player.id; name = player.name; uuid = player.uuid; admin = eq_ℤ player.id a },
)

abbrev pub first_is_admin : List (ℤ × Player) → Player → Option ℤ → Option ℤ
first_is_admin [] player admin = some player.id
first_is_admin (_ ∷ _) player admin = admin

unfoldable pub set : Players → Bytes → Bytes → Bytes → Option (Players × Reply)
set p sid name uuid =
    let id = parse_int sid in
    let player = renamed (known id (lookup id p.joins)) name uuid in
    if ltb_ℤ id (pos 1)
    then some (p, missing)
    else if ltb_ℤ id (pos 1000)
    then some (record p { bots = insert id true p.bots }, anonymous id)
    else join p id player (first_is_admin p.joins player p.admin)

unfoldable pub add : Players → Bytes → Option (Players × Reply)
unfolding set
add p id = set p id [] []

unfoldable pub update : Players → Bytes → Bytes → Bytes → Option (Players × Reply)
unfolding set
update p id name uuid = set p id name uuid

left : Players → ℤ → Option Player → Players × Reply
unfolding migrate
left p i none = (p, missing)
left p i (some player) =
    let (q, admin) = migrate (record p { joins = delete i p.joins }) i in
    (q, record { id = i; name = player.name; uuid = player.uuid; admin = admin })

unfoldable pub remove : Players → Bytes → Players × Reply
unfolding left has
remove p sid =
    let i = parse_int sid in
    if has i p.bots
    then (record p { bots = delete i p.bots }, anonymous i)
    else left p i (lookup i p.joins)

abbrev found : Option ℤ → Option Player → Option Reply
found admin none = some missing
found none (some player) = none
found (some a) (some player) =
    some
      (record { id = player.id; name = player.name; uuid = player.uuid; admin = eq_ℤ player.id a })

-- `Lookup`; none is a nil dereference of the admin pointer.
unfoldable pub find : Players → Bytes → Option Reply
find p sid = found p.admin (lookup (parse_int sid) p.joins)

-- `Count`: players, then bots.
unfoldable pub count : Players → ℕ × ℕ
count p = (length p.joins, length p.bots)
