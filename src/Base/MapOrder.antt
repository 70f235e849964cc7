-- ===== src/Base/MapOrder.antt =====
-- What a map answers does not depend on the order in which its entries are walked.
use mathlib.Core.Path.{◌≡◌, refl, sym, ap, subst₂, ◌∙◌}
use mathlib.Core.List.{List, ◌∷◌, Permᴰ}
use mathlib.Core.Option.{none, some}
use native.Mathlib.Omega.{arith}
use snap_gs.Base.Tests.{if◌then◌else◌}
use snap_gs.Base.Equality.{Eq}
use snap_gs.Base.GoMap.{lookup, Distinct}

module _ {K V : Type 0} ⦃e : Eq K⦄ where
  lookup-swap :
      (n : K) (a b : K × V) (l : List (K × V))
      → lookup a.0 (b ∷ l) ≡ none
      → lookup n (a ∷ b ∷ l) ≡ lookup n (b ∷ a ∷ l)
  unfolding lookup
  lookup-swap n a b l h = ground (arith, e.beq_iff a.0 n, e.beq_iff b.0 n, e.beq_iff b.0 a.0)

  swap-Distinct : (a b : K × V) (l : List (K × V)) → Distinct (a ∷ b ∷ l) → Distinct (b ∷ a ∷ l)
  unfolding lookup
  swap-Distinct a b l d = ground (arith, e.beq_iff a.0 b.0, e.beq_iff b.0 a.0)

  pub lookup-perm :
      {xs ys : List (K × V)}
      → Permᴰ xs ys
      → Distinct xs
      → Distinct ys × ((n : K) → lookup n xs ≡ lookup n ys)
  unfolding lookup
  lookup-perm Permᴰ.nil d = (tt, λ n. refl)
  lookup-perm (Permᴰ.cons {a = a} {b = b} {l₁ = xs} {l₂ = ys} same p) d =
      let (rest, agree) = lookup-perm p d.1 in
      rw (← same) (
        (sym (agree a.0) ∙ d.0, rest),
        λ n. ap (λ r. if e.beq a.0 n then some a.1 else r) (agree n),
      )
  lookup-perm (Permᴰ.swap {a = a} {b = b} {l = l} p q) d =
      subst₂ (λ x y. Distinct (x ∷ y ∷ l) × ((n : K) → lookup n (a ∷ b ∷ l) ≡ lookup n (x ∷ y ∷ l)))
        q p (swap-Distinct a b l d, λ n. lookup-swap n a b l d.0)
  lookup-perm (Permᴰ.trans p q) d =
      let (middle, first) = lookup-perm p d in
      let (last, second) = lookup-perm q middle in (last, λ n. first n ∙ second n)
