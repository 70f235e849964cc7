-- ===== src/Base/Space.antt =====
-- Go's `bytes.TrimSpace`: it drops white space, in UTF-8, at both ends.
use Prim.Native.Nat.{ℕ}
use mathlib.Core.Bool.{Bool, ◌||◌, ◌&&◌}
use mathlib.Core.List.{List, [], ◌∷◌, ◌++◌, reverse}
use snap_gs.Base.Tests.{leb, ◌==◌, if◌then◌else◌}
use snap_gs.Base.Text.{Bytes}

-- Tab, line feed, vertical tab, form feed, carriage return, space.
is_space1 : ℕ → Bool
is_space1 c = leb 9 c && leb c 13 || c == 32

-- U+0085 and U+00A0.
is_space2 : ℕ → ℕ → Bool
is_space2 a b = a == 0xc2 && (b == 0x85 || b == 0xa0)

-- U+1680, U+2000 to U+200A, U+2028, U+2029, U+202F, U+205F and U+3000.
is_space3 : ℕ → ℕ → ℕ → Bool
is_space3 a b c =
    (a == 0xe1 && b == 0x9a && c == 0x80)
    || (a == 0xe2 && b == 0x80 && (leb 0x80 c && leb c 0x8a || c == 0xa8 || c == 0xa9 || c == 0xaf))
    || (a == 0xe2 && b == 0x81 && c == 0x9f)
    || (a == 0xe3 && b == 0x80 && c == 0x80)

-- White space at the front.
trim_front : Bytes → Bytes
unfolding is_space1 is_space2 is_space3
trim_front [] = []
trim_front (a ∷ []) = if is_space1 a then [] else a ∷ []
trim_front (a ∷ b ∷ []) =
    let one = trim_front (b ∷ []) in
    if is_space1 a then one else if is_space2 a b then [] else a ∷ b ∷ []
trim_front (a ∷ b ∷ c ∷ s) =
    let one = trim_front (b ∷ c ∷ s) in
    let two = trim_front (c ∷ s) in
    let three = trim_front s in
    if is_space1 a
    then one
    else if is_space2 a b
    then two
    else if is_space3 a b c
    then three
    else a ∷ b ∷ c ∷ s

-- The same at the end of a text that is given backwards.
trim_back : Bytes → Bytes
unfolding is_space1 is_space2 is_space3
trim_back [] = []
trim_back (a ∷ []) = if is_space1 a then [] else a ∷ []
trim_back (b ∷ a ∷ []) =
    let one = trim_back (a ∷ []) in
    if is_space1 b then one else if is_space2 a b then [] else b ∷ a ∷ []
trim_back (c ∷ b ∷ a ∷ s) =
    let one = trim_back (b ∷ a ∷ s) in
    let two = trim_back (a ∷ s) in
    let three = trim_back s in
    if is_space1 c
    then one
    else if is_space2 b c
    then two
    else if is_space3 a b c
    then three
    else c ∷ b ∷ a ∷ s

unfoldable pub trim_space : Bytes → Bytes
unfolding trim_front trim_back
trim_space s = reverse (trim_back (reverse (trim_front s)))

-- `strings.Fields`: the words between white space; `word` is the one that has begun.
end_word : Bytes → List Bytes → List Bytes
end_word [] rest = rest
end_word (c ∷ word) rest = (c ∷ word) ∷ rest

fields_from : Bytes → Bytes → List Bytes
unfolding is_space1 is_space2 is_space3 end_word
fields_from word [] = end_word word []
fields_from word (a ∷ []) = if is_space1 a then end_word word [] else end_word (word ++ a ∷ []) []
fields_from word (a ∷ b ∷ []) =
    let fresh = fields_from [] (b ∷ []) in
    let longer = fields_from (word ++ a ∷ []) (b ∷ []) in
    if is_space1 a then end_word word fresh else if is_space2 a b then end_word word [] else longer
fields_from word (a ∷ b ∷ c ∷ s) =
    let one = fields_from [] (b ∷ c ∷ s) in
    let two = fields_from [] (c ∷ s) in
    let three = fields_from [] s in
    let longer = fields_from (word ++ a ∷ []) (b ∷ c ∷ s) in
    if is_space1 a
    then end_word word one
    else if is_space2 a b
    then end_word word two
    else if is_space3 a b c
    then end_word word three
    else longer

unfoldable pub fields : Bytes → List Bytes
unfolding fields_from
fields s = fields_from [] s
