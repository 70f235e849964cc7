-- ===== src/Lobby/Alloc/Session.antt =====
-- The name of the room that the game server is given (internal/lobby/lobby.go, line 146).
use snap_gs.Base.{
  ℕ, ◌*◌, ◌≤◌, ◌≡◌, refl, ap, ◌∙◌, inl, inr, Bytes, true, false, ◌&&◌, [], ◌∷◌, none, any, arith,
  ◌==◌, if◌then◌else◌, length, contains, has_prefix, Bool-cases,
}
use snap_gs.Options.{Options, validate}
use snap_gs.Lobby.Alloc.{no_break}

-- A no-break space, in UTF-8.
abbrev pub no_break_space : Bytes
no_break_space = 0xc2 ∷ 0xa0 ∷ []

-- The reverse of the replacement.
pub with_spaces : Bytes → Bytes
with_spaces [] = []
with_spaces (a ∷ []) = a ∷ []
with_spaces (a ∷ b ∷ s) =
    let here = 32 ∷ with_spaces s in
    let later = a ∷ with_spaces (b ∷ s) in if a == 0xc2 && b == 0xa0 then here else later

with_spaces-cons :
    (a : ℕ) (s : Bytes)
    → (a == 0xc2 && has_prefix s (0xa0 ∷ [])) ≡ false
    → with_spaces (a ∷ s) ≡ a ∷ with_spaces s
unfolding with_spaces has_prefix
with_spaces-cons a [] h = refl
with_spaces-cons a (b ∷ s) h = ground (arith, has_prefix-nil s)
  where
    has_prefix-nil : (s : Bytes) → has_prefix s [] ≡ true
    has_prefix-nil [] = refl
    has_prefix-nil (c ∷ s) = refl

-- A second byte of a no-break space does not come from a space.
has_prefix-no_break : (s : Bytes) → has_prefix (no_break s) (0xa0 ∷ []) ≡ has_prefix s (0xa0 ∷ [])
unfolding no_break has_prefix
has_prefix-no_break [] = refl
has_prefix-no_break (c ∷ s) = ground (arith, has_prefix-nil s, has_prefix-nil (no_break s))
  where
    has_prefix-nil : (s : Bytes) → has_prefix s [] ≡ true
    has_prefix-nil [] = refl
    has_prefix-nil (c ∷ s) = refl

start_free :
    (c : ℕ) (s : Bytes)
    → contains (c ∷ s) no_break_space ≡ false
    → (c == 0xc2 && has_prefix s (0xa0 ∷ [])) ≡ false
unfolding contains has_prefix
start_free c s h = ground arith

rest_free :
    (c : ℕ) (s : Bytes)
    → contains (c ∷ s) no_break_space ≡ false
    → contains s no_break_space ≡ false
unfolding contains
rest_free c s h = ground arith

no_break-restored : (s : Bytes) → contains s no_break_space ≡ false → with_spaces (no_break s) ≡ s
unfolding no_break with_spaces
no_break-restored [] h = refl
no_break-restored (c ∷ s) h = elim (Bool-cases (c == 32)) [
  | inl space ↦
      let e : 32 ≡ c = ground arith in
      rw space (ap (λ t. 32 ∷ t) (no_break-restored s (rest_free c s h)) ∙ ap (λ d. d ∷ s) e)
  | inr other ↦ rw other (
      with_spaces-cons c (no_break s)
        (ap (λ b. c == 0xc2 && b) (has_prefix-no_break s) ∙ start_free c s h)
      ∙ ap (◌∷◌ c) (no_break-restored s (rest_free c s h)))
]

no_break-solid : (s : Bytes) → any (λ c. c == 32) (no_break s) ≡ false
unfolding no_break
no_break-solid [] = refl
no_break-solid (c ∷ s) = ground (arith, no_break-solid s)

length-no_break : (s : Bytes) → length s ≤ length (no_break s) × length (no_break s) ≤ 2 * length s
unfolding no_break
length-no_break [] = omega arith
length-no_break (c ∷ s) = ground (arith, length-no_break s)

session_bounds :
    (o : Options) → validate o ≡ none → (1 ≤ length o.session) × (length o.session ≤ 40)
unfolding validate
session_bounds o h = ground arith

-- Where the options are valid, the name of the room has 1 to 80 bytes and no space, and it is the
-- session again when its no-break spaces are read as spaces, where the session has none itself.
pub no_break_fits :
    (o : Options)
    → validate o ≡ none
    → contains o.session no_break_space ≡ false
    → (1 ≤ length (no_break o.session))
      × (length (no_break o.session) ≤ 80)
      × (any (λ c. c == 32) (no_break o.session) ≡ false)
      × (with_spaces (no_break o.session) ≡ o.session)
no_break_fits o valid plain =
    let (more, fewer) = length-no_break o.session in
    let (low, high) = session_bounds o valid in
    (
      omega (arith, more, low),
      omega (arith, fewer, high),
      no_break-solid o.session,
      no_break-restored o.session plain,
    )
