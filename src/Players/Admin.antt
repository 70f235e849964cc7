-- ===== src/Players/Admin.antt =====
-- Who is admin after a player has left (internal/lobby/players.go, migrate and Remove).
use mathlib.Core.List.{Perm, Permᴰ}
use mathlib.Core.Logic.{∥∥₁_elim}
use native.Mathlib.Nat.{ℕ_set}
use snap_gs.Base.{
  ◌≡◌, refl, ◌∙◌, ap, sym, inl, inr, eq_ℤ, eq_ℤ_iff, ℤ, ◌≤ℤ◌, ≤ℤ_antisymm, ◌≢◌, ◌⊎◌, Bytes, true,
  false, List, [], ◌∷◌, Option, none, some, parse_int, int_key, All, Bool-cases, Option-cases,
  arith,
}
use snap_gs.Base.GoMap.{lookup, delete, has, delete-All, lookup-All}
use snap_gs.Players.{Player, Players, pick, least, migrate, remove, left}
use snap_gs.Players.Invariant.{IsValid, IsBotEntry, IsJoinEntry, least-HasAdmin}

-- `a` is at most the id of every player.
abbrev pub IsLowest : ℤ → List (ℤ × Player) → Type 0
IsLowest a js = All (λ e. a ≤ℤ e.1.id) js

abbrev Lower : ℤ → Option ℤ → Type 0
Lower a none = Unit {0}
Lower a (some b) = a ≤ℤ b

Lower-pick : (a : ℤ) (acc : Option ℤ) (i : ℤ) → Lower a (pick acc i) → Lower a acc × (a ≤ℤ i)
Lower-pick a none i h = (tt, h)
Lower-pick a (some b) i h = ground arith

le_self : (a : ℤ) → a ≤ℤ a
le_self a = omega arith

least-Lower :
    (acc : Option ℤ) (js : List (ℤ × Player)) (a : ℤ)
    → least acc js ≡ some a
    → Lower a acc × IsLowest a js
unfolding least
least-Lower acc [] a e = (rw e (le_self a), tt)
least-Lower acc ((k, v) ∷ js) a e =
    let (low, rest) = least-Lower (pick acc v.id) js a e in
    let (here, id) = Lower-pick a acc v.id low in (here, (id, rest))

pick_comm : (acc : Option ℤ) (i j : ℤ) → pick (pick acc i) j ≡ pick (pick acc j) i
pick_comm none i j = ground (arith, ≤ℤ_antisymm i j)
pick_comm (some a) i j = ground (arith, ≤ℤ_antisymm i j)

least-Permᴰ :
    (acc : Option ℤ) {xs ys : List (ℤ × Player)} → Permᴰ xs ys → least acc xs ≡ least acc ys
unfolding least
least-Permᴰ acc Permᴰ.nil = refl
least-Permᴰ acc (Permᴰ.cons {b = y} e p) = rw e (least-Permᴰ (pick acc y.1.id) p)
least-Permᴰ acc (Permᴰ.swap {a' = x} {b' = y} {l = js} e f) =
    rw (e, f) (ap (λ b. least b js) (pick_comm acc y.1.id x.1.id))
least-Permᴰ acc (Permᴰ.trans p q) = least-Permᴰ acc p ∙ least-Permᴰ acc q

Option-set : IsSet (Option ℤ)
Option-set = hlevel ℕ_set

-- Whatever order the map of players is walked in, `migrate` elects the same admin.
pub migrate-perm :
    (p : Players) (i : ℤ) (js : List (ℤ × Player))
    → Perm p.joins js
    → (migrate (record p { joins = js }) i).0.admin ≡ (migrate p i).0.admin
unfolding migrate
migrate-perm p i js same =
    let elected : least none p.joins ≡ least none js =
      ∥∥₁_elim same (Option-set _ _) (least-Permᴰ none) in
    ground arith

-- Nobody is left and there is no admin, or the admin is the player with the lowest id.
abbrev pub IsElected : Players → Type 0
IsElected q =
    ((q.joins ≡ []) × (q.admin ≡ none))
    ⊎ ((a : ℤ) × (q.admin ≡ some a) × (has a q.joins ≡ true) × IsLowest a q.joins)

IsElected-of_least :
    (q : Players) → All IsJoinEntry q.joins → q.admin ≡ least none q.joins → IsElected q
IsElected-of_least q h e = elim (Option-cases (least none q.joins)) [
  | inl nobody ↦ inl (rw nobody at (least-HasAdmin q.joins h), e ∙ nobody)
  | inr (a, found) ↦
      inr
        (a, e ∙ found, rw found at (least-HasAdmin q.joins h), (least-Lower none q.joins a found).1)
]

player-is_no_bot :
    (p : Players) (i : ℤ) (player : Player)
    → IsValid p
    → lookup i p.joins ≡ some player
    → has i p.bots ≡ false
unfolding has
player-is_no_bot p i player v e = elim (Option-cases (lookup i p.bots)) [
  | inl free ↦ rw free refl
  | inr (b, taken) ↦ absurd (
      omega (
        arith,
        lookup-All IsBotEntry i p.bots v.bots_numbered taken,
        lookup-All IsJoinEntry i p.joins v.joins_numbered e,
      ))
]

-- The same of `left`, with the admin at hand.
left-admin :
    (p : Players) (i : ℤ) (player : Player) (admin : Option ℤ)
    → p.admin ≡ admin
    → All IsJoinEntry (delete i p.joins)
    → let (q, r) = left p i (some player) in
      ((admin ≡ some i) × (r.admin ≡ true) × IsElected q)
      ⊎ ((admin ≢ some i) × (r.admin ≡ false) × (q.admin ≡ admin))
unfolding left migrate
left-admin p i player none e h = rw (e, migrate) (inr ((λ f. cc), refl, e))
left-admin p i player (some a) e h = elim (Bool-cases (eq_ℤ i a)) [
  | inl same ↦
      rw (e, same, migrate)
        (inl (
          ap some (sym ((eq_ℤ_iff i a).0 same)),
          refl,
          IsElected-of_least
              (record p { joins = delete i p.joins; admin = least none (delete i p.joins) }) h refl,
        ))
  | inr differs ↦ rw (e, differs, migrate) (inr ((λ f. ground (arith, eq_ℤ_iff i a)), refl, e))
]

-- A removed player that was admin hands over to the lowest id that is left, if any; the removal of
-- another player leaves the admin alone. The reply tells the two cases apart.
pub remove-admin :
    (p : Players) (sid : Bytes) (player : Player)
    → IsValid p
    → lookup (parse_int sid) p.joins ≡ some player
    → let (q, r) = remove p sid in
      ((p.admin ≡ some (parse_int sid)) × (r.admin ≡ true) × IsElected q)
      ⊎ ((p.admin ≢ some (parse_int sid)) × (r.admin ≡ false) × (q.admin ≡ p.admin))
unfolding remove
remove-admin p sid player v e =
    rw (player-is_no_bot p (parse_int sid) player v e, e, remove)
      (left-admin p (parse_int sid) player p.admin refl
        (delete-All IsJoinEntry _ _ v.joins_numbered))
