-- ===== src/Base/Decimal.antt =====
-- Go's `%d` and `strconv.Itoa` on a number that is not negative.
use Prim.Native.Nat.{ℕ, zero, suc, ◌+◌, ◌-◌, ◌*◌, ◌/◌, ◌%◌, ◌<◌, ◌≤◌}
use mathlib.Core.Path.{◌≡◌, ap, ◌∙◌}
use mathlib.Core.Logic.{inl, inr}
use native.Mathlib.Omega.{arith}
use mathlib.Core.List.{[], ◌∷◌}
use mathlib.Core.Bool.{Bool, false}
use snap_gs.Base.Tests.{ltb, lt→ltb, Bool-cases}
use snap_gs.Base.Lists.{length}
use snap_gs.Base.Text.{Bytes}

-- The digits of `n` before those of `acc`; `n + 1` rounds are enough, as `n / 10` is below `n`.
digits_before : ℕ → ℕ → Bytes → Bytes
digits_before zero n acc = acc
digits_before (suc fuel) n acc = elim (ltb n 10) [
  | Bool.true ↦ (b'0' + n) ∷ acc
  | Bool.false ↦ digits_before fuel (n / 10) ((b'0' + n % 10) ∷ acc)
]

unfoldable pub decimal : ℕ → Bytes
unfolding digits_before
decimal n = digits_before (suc n) n []

-- The number that decimal digits write, after the digits of `v`.
pub value_after : ℕ → Bytes → ℕ
value_after v [] = v
value_after v (c ∷ s) = value_after (v * 10 + (c - b'0')) s

one_digit : (n : ℕ) → 0 * 10 + (b'0' + n - b'0') ≡ n
one_digit n = omega arith

last_digit : (n : ℕ) → n / 10 * 10 + (b'0' + n % 10 - b'0') ≡ n
last_digit n = omega arith

digits_before-value :
    (fuel n : ℕ) (acc : Bytes)
    → n < fuel
    → value_after 0 (digits_before fuel n acc) ≡ value_after n acc
unfolding digits_before value_after
digits_before-value zero n acc h = absurd (omega (arith, h))
digits_before-value (suc fuel) n acc h = elim (Bool-cases (ltb n 10)) [
  | inl small ↦ rw (digits_before, small) (ap (λ v. value_after v acc) (one_digit n))
  | inr large ↦
      rw (digits_before, large)
        (digits_before-value fuel (n / 10) ((b'0' + n % 10) ∷ acc) (ground arith)
          ∙ ap (λ v. value_after v acc) (last_digit n))
]

-- The digits of a number write it, whatever the number is.
pub decimal-value : (n : ℕ) → value_after 0 (decimal n) ≡ n
unfolding decimal value_after
decimal-value n = digits_before-value (suc n) n [] (omega arith)

-- The powers of ten.
abbrev pub power_of_ten : ℕ → ℕ
power_of_ten zero = 1
power_of_ten (suc k) = 10 * power_of_ten k

digits_before-length :
    (fuel n k : ℕ) (acc : Bytes)
    → n < fuel
    → n < power_of_ten (suc k)
    → length (digits_before fuel n acc) ≤ suc k + length acc
unfolding digits_before
digits_before-length zero n k acc h small = absurd (omega (arith, h))
digits_before-length (suc fuel) n zero acc h small =
    rw (digits_before, lt→ltb n 10 (omega (arith, small))) (omega arith)
digits_before-length (suc fuel) n (suc k) acc h small = elim (Bool-cases (ltb n 10)) [
  | inl one ↦ rw (digits_before, one) (omega arith)
  | inr more ↦
      rw (digits_before, more)
        (omega (
          arith,
          digits_before-length fuel (n / 10) k ((b'0' + n % 10) ∷ acc) (ground arith)
              (omega (arith, small)),
        ))
]

-- A number below a power of ten has as many digits at most.
pub length-decimal : (n k : ℕ) → n < power_of_ten (suc k) → length (decimal n) ≤ suc k
unfolding decimal
length-decimal n k small = omega (arith, digits_before-length (suc n) n k [] (omega arith) small)

one_from :
    (fuel n : ℕ) (acc : Bytes)
    → n < 10
    → n < fuel
    → length (digits_before fuel n acc) ≡ 1 + length acc
unfolding digits_before
one_from zero n acc h enough = absurd (omega (arith, enough))
one_from (suc fuel) n acc h enough = rw (digits_before, lt→ltb n 10 h) (omega arith)

two_from :
    (fuel n : ℕ) (acc : Bytes)
    → 10 ≤ n
    → n < 100
    → n < fuel
    → length (digits_before fuel n acc) ≡ 2 + length acc
unfolding digits_before
two_from zero n acc low high enough = absurd (omega (arith, enough))
two_from (suc fuel) n acc low high enough =
    let large : ltb n 10 ≡ false = ground arith in
    rw (digits_before, large)
      (omega (
        arith,
        one_from fuel (n / 10) ((b'0' + n % 10) ∷ acc) (omega (arith, high))
            (omega (arith, low, enough)),
      ))

-- One digit, and two.
pub length-decimal_one : (n : ℕ) → n < 10 → length (decimal n) ≡ 1
unfolding decimal
length-decimal_one n h = one_from (suc n) n [] h (omega arith)

pub length-decimal_two : (n : ℕ) → 10 ≤ n → n < 100 → length (decimal n) ≡ 2
unfolding decimal
length-decimal_two n low high = two_from (suc n) n [] low high (omega arith)
