-- ===== src/Base/Parse.antt =====
-- Go's `strconv.ParseInt(s, 10, 64)` with its error dropped, as every caller in the program drops
-- it: 0 on a syntax error, and the nearest end of the range when the number does not fit.
use Prim.Native.Nat.{ℕ, zero, suc, ◌+◌, ◌-◌, ◌*◌, ◌≤◌}
use mathlib.Core.Bool.{◌&&◌, ◌||◌}
use mathlib.Core.List.{[], ◌∷◌}
use mathlib.Core.Option.{Option, none, some}
use native.Mathlib.Omega.{arith}
use snap_gs.Base.Tests.{leb, ltb, ◌==◌, if◌then◌else◌}
use snap_gs.Base.Int.{ℤ, pos, negsuc, pos_part, neg_part}
use snap_gs.Base.Text.{Bytes}

abbrev pub max_uint64 : ℕ
max_uint64 = 18446744073709551615

abbrev pub max_int64 : ℕ
max_int64 = 9223372036854775807

pub data Parsed : Type 0 where
  value : ℕ → Parsed
  bad_syntax out_of_range : Parsed

-- The loop of `ParseUint`: an overflow ends it at once, before a later byte is looked at.
parse_digits : ℕ → Bytes → Parsed
parse_digits n [] = value n
parse_digits n (c ∷ s) =
    let next = n * 10 + (c - b'0') in
    let rest = parse_digits next s in
    if leb b'0' c && leb c b'9'
    then (if leb (max_uint64 + 1) (n * 10) || ltb max_uint64 next then out_of_range else rest)
    else bad_syntax

parse_uint : Bytes → Parsed
unfolding parse_digits
parse_uint [] = bad_syntax
parse_uint (c ∷ s) = parse_digits 0 (c ∷ s)

positive : Parsed → ℤ
positive bad_syntax = pos 0
positive out_of_range = pos max_int64
positive (value n) = if leb (max_int64 + 1) n then pos max_int64 else pos n

negate : ℕ → ℤ
negate zero = pos 0
negate (suc n) = negsuc n

negative : Parsed → ℤ
unfolding negate
negative bad_syntax = pos 0
negative out_of_range = negsuc max_int64
negative (value n) = if ltb (max_int64 + 1) n then negsuc max_int64 else negate n

unfoldable pub parse_int : Bytes → ℤ
unfolding parse_uint positive negative
parse_int [] = pos 0
parse_int (c ∷ s) =
    if c == b'+'
    then positive (parse_uint s)
    else if c == b'-'
    then negative (parse_uint s)
    else positive (parse_uint (c ∷ s))

positive_bound : (r : Parsed) → (pos_part (positive r) ≤ max_int64) × (neg_part (positive r) ≤ 0)
unfolding positive
positive_bound r = ground arith

negate_bound : (n : ℕ) → (neg_part (negate n) ≤ n) × (pos_part (negate n) ≤ 0)
unfolding negate
negate_bound zero = omega arith
negate_bound (suc n) = omega arith

negative_bound :
    (r : Parsed) → (neg_part (negative r) ≤ max_int64 + 1) × (pos_part (negative r) ≤ 0)
unfolding negative
negative_bound bad_syntax = omega arith
negative_bound out_of_range = omega arith
negative_bound (value n) = ground (arith, negate_bound n)

-- The result is an int64.
pub parse_int_bound :
    (s : Bytes) → (pos_part (parse_int s) ≤ max_int64) × (neg_part (parse_int s) ≤ max_int64 + 1)
unfolding parse_int
parse_int_bound [] = omega arith
parse_int_bound (c ∷ s) = ground (
  arith,
  positive_bound (parse_uint s),
  negative_bound (parse_uint s),
  positive_bound (parse_uint (c ∷ s)),
)

-- `strconv.Atoi`, with none for its errors.
in_range : ℕ → (ℕ → ℤ) → Parsed → Option ℤ
in_range most sign bad_syntax = none
in_range most sign out_of_range = none
in_range most sign (value n) = if ltb most n then none else some (sign n)

unfoldable pub atoi : Bytes → Option ℤ
unfolding parse_uint in_range negate
atoi [] = none
atoi (c ∷ s) =
    if c == b'+'
    then in_range max_int64 pos (parse_uint s)
    else if c == b'-'
    then in_range (max_int64 + 1) negate (parse_uint s)
    else in_range max_int64 pos (parse_uint (c ∷ s))
