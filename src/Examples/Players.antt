-- ===== src/Examples/Players.antt =====
-- A lobby that a bot and three players join, the last one with the lowest id
-- (internal/lobby/players.go).
use mathlib.Core.List.{Permᴰ}
use snap_gs.Base.{
  ◌≡◌, refl, ℤ, pos, negsuc, codes, Bytes, true, false, List, [], ◌∷◌, some, parse_int, ◌≢◌, ◌⊎◌,
  if◌then◌else◌, arith, eq_ℤ, ◌||◌, ◌&&◌, leb_ℤ,
}
use snap_gs.Base.GoMap.{insert, delete, lookup, has}
use snap_gs.Players.{Player, Players, no_players, set, add, remove, least, migrate, find, update}
use snap_gs.Players.Invariant.{IsValid}
use snap_gs.Players.Admin.{remove-admin, migrate-perm, IsElected}
use snap_gs.Players.History.{
  is_present, set-is_present, remove-is_present, Call, adds, updates, finds, step, run, run-IsValid,
}

parse_plain : parse_int (codes "1042") ≡ pos 1042
unfolding parse_int
parse_plain = refl

parse_sign : parse_int (codes "-7") ≡ negsuc 6
unfolding parse_int
parse_sign = refl

parse_junk : parse_int (codes "12x") ≡ pos 0
unfolding parse_int
parse_junk = refl

parse_huge : parse_int (codes "99999999999999999999x") ≡ pos 9223372036854775807
unfolding parse_int
parse_huge = refl

abbrev crowd : List Call
crowd =
    adds (codes "3")
    ∷ adds (codes "1007")
    ∷ adds (codes "1009")
    ∷ updates (codes "1002") (codes "ann") (codes "u")
    ∷ finds (codes "1002")
    ∷ []

abbrev named : ℤ → Bytes → Bytes → ℤ × Player
named id name uuid = (id, record { id = id; name = name; uuid = uuid })

abbrev gathered : Players
gathered = record {
  bots = (pos 3, true) ∷ [];
  joins =
      named (pos 1007) [] []
      ∷ named (pos 1009) [] []
      ∷ named (pos 1002) (codes "ann") (codes "u")
      ∷ [];
  admin = some (pos 1007);
}

crowd_gathers : run (some no_players) crowd ≡ some gathered
unfolding run step set add find parse_int insert lookup no_players update
crowd_gathers = refl

run-IsValid_example : (q : Players) × (run (some no_players) crowd ≡ some q) × IsValid q
run-IsValid_example = run-IsValid crowd

-- The same, when the bot 5 has come too.
abbrev gathered_five : Players
gathered_five = record gathered { bots = (pos 3, true) ∷ (pos 5, true) ∷ [] }

gathered-IsValid : IsValid gathered
unfolding lookup has
gathered-IsValid = ground arith

-- The admin leaves, and the lowest id takes over, though it joined last.
admin_leaves : (remove gathered (codes "1007")).0.admin ≡ some (pos 1002)
unfolding remove parse_int lookup delete least
admin_leaves = refl

remove-admin_example :
    let (q, r) = remove gathered (codes "1007") in
    ((gathered.admin ≡ some (parse_int (codes "1007"))) × (r.admin ≡ true) × IsElected q)
    ⊎ ((gathered.admin ≢ some (parse_int (codes "1007")))
        × (r.admin ≡ false)
        × (q.admin ≡ gathered.admin))
unfolding parse_int lookup
remove-admin_example =
    remove-admin gathered (codes "1007") (named (pos 1007) [] []).1 gathered-IsValid refl

migrate-perm_example :
    (migrate
      (record gathered {
        joins =
            named (pos 1009) [] []
            ∷ named (pos 1007) [] []
            ∷ named (pos 1002) (codes "ann") (codes "u")
            ∷ [];
      })
      (pos 1007)).0.admin
    ≡ (migrate gathered (pos 1007)).0.admin
migrate-perm_example = migrate-perm gathered (pos 1007) _ ∣ Permᴰ.swap refl refl ∣₁

set-is_present_example : is_present (pos 5) gathered_five ≡ (
    (leb_ℤ (pos 1) (parse_int (codes "5")) && eq_ℤ (parse_int (codes "5")) (pos 5))
    || is_present (pos 5) gathered)
unfolding set parse_int lookup insert
set-is_present_example = set-is_present gathered (codes "5") [] [] (gathered_five, _) (pos 5) refl

remove-is_present_example :
    is_present (pos 1007) (remove gathered (codes "1009")).0
    ≡ (if eq_ℤ (parse_int (codes "1009")) (pos 1007) then false else is_present (pos 1007) gathered)
remove-is_present_example = remove-is_present gathered (codes "1009") (pos 1007) gathered-IsValid
