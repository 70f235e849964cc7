-- ===== src/Lobby/Stat/Commas.antt =====
-- The parts of a list with commas, as `strings.Split` gives them.
use snap_gs.Base.{
  ◌≡◌, refl, ap, sym, ◌∙◌, inl, inr, Bytes, false, List, [], ◌∷◌, ◌++◌, any, arith, ◌==◌,
  Bool-cases,
}
use mathlib.Core.List.{append_assoc, append-nil}
use snap_gs.Lobby.Stat.{split_from, split_comma}

abbrev pub first_of : List Bytes → Bytes
first_of [] = []
first_of (p ∷ ps) = p

abbrev pub HasNoComma : Bytes → Type 0
HasNoComma s = any (λ c. c == b',') s ≡ false

HasNoComma-append : (s t : Bytes) → HasNoComma s → HasNoComma t → HasNoComma (s ++ t)
HasNoComma-append [] t hs ht = ht
HasNoComma-append (c ∷ s) t hs ht = ground (arith, HasNoComma-append s t)

first_of-split_from : (part s : Bytes) → HasNoComma part → HasNoComma (first_of (split_from part s))
unfolding split_from
first_of-split_from part [] h = h
first_of-split_from part (c ∷ s) h = elim (Bool-cases (c == b',')) [
  | inl comma ↦ rw comma h
  | inr other ↦
      rw other
        (first_of-split_from (part ++ c ∷ []) s (HasNoComma-append part (c ∷ []) h (ground arith)))
]

-- The first part has no comma.
pub first_of-split_comma : (s : Bytes) → HasNoComma (first_of (split_comma s))
unfolding split_comma
first_of-split_comma s = first_of-split_from [] s refl

split_from-plain : (part s : Bytes) → HasNoComma s → split_from part s ≡ (part ++ s) ∷ []
unfolding split_from
split_from-plain part [] h = ap (λ p. p ∷ []) (sym (append-nil part))
split_from-plain part (c ∷ s) h =
    let other : (c == b',') ≡ false = ground arith in
    rw (other, split_from)
      (split_from-plain (part ++ c ∷ []) s (ground arith)
        ∙ ap (λ p. p ∷ []) (append_assoc part (c ∷ []) s))

split_from-comma :
    (part s t : Bytes)
    → HasNoComma s
    → split_from part (s ++ b',' ∷ t) ≡ (part ++ s) ∷ split_from [] t
unfolding split_from
split_from-comma part [] t h = ap (λ p. p ∷ split_from [] t) (sym (append-nil part))
split_from-comma part (c ∷ s) t h =
    let other : (c == b',') ≡ false = ground arith in
    rw (other, split_from)
      (split_from-comma (part ++ c ∷ []) s t (ground arith)
        ∙ ap (λ p. p ∷ split_from [] t) (append_assoc part (c ∷ []) s))

-- A text without a comma is one part, and is the first part before a comma.
pub split_comma-plain : (s : Bytes) → HasNoComma s → split_comma s ≡ s ∷ []
unfolding split_comma
split_comma-plain s h = split_from-plain [] s h

pub split_comma-append :
    (s t : Bytes) → HasNoComma s → split_comma (s ++ b',' ∷ t) ≡ s ∷ split_comma t
unfolding split_comma
split_comma-append s t h = split_from-comma [] s t h
