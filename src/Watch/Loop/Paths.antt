-- ===== src/Watch/Loop/Paths.antt =====
-- The name of an event in a watched directory (internal/watch/watch.go, Watch, lines 198 to 209).
use mathlib.Core.List.{append_assoc, append-nil}
use snap_gs.Base.{
  ℕ, ◌≡◌, refl, sym, ap, ◌∙◌, inl, inr, Bytes, true, false, List, [], ◌∷◌, ◌++◌, some, any, arith,
  ◌==◌, has_prefix, trim_prefix, bytes_key, length, drop, Bool-cases,
}
use snap_gs.Base.GoMap.{lookup}
use snap_gs.Watch.Loop.{split_at, split_path, watched, event_name}

-- A name without a slash.
abbrev pub IsPlain : Bytes → Type 0
IsPlain s = any (λ c. c == b'/') s ≡ false

split_at-plain : (head tail s : Bytes) → IsPlain s → split_at head tail s ≡ (head, tail ++ s)
unfolding split_at
split_at-plain head tail [] h = ap (λ t. (head, t)) (sym (append-nil tail))
split_at-plain head tail (c ∷ s) h =
    let other : (c == b'/') ≡ false = ground arith in
    rw other (
      split_at-plain head (tail ++ c ∷ []) s (ground arith)
      ∙ ap (λ t. (head, t)) (append_assoc tail (c ∷ []) s))

split_at-last :
    (head tail q s : Bytes)
    → IsPlain s
    → split_at head tail (q ++ b'/' ∷ s) ≡ (head ++ (tail ++ (q ++ b'/' ∷ [])), s)
unfolding split_at
split_at-last head tail [] s h =
    split_at-plain (head ++ tail ++ b'/' ∷ []) [] s h
    ∙ ap (λ t. (t, s)) (append_assoc head tail (b'/' ∷ []))
split_at-last head tail (c ∷ q) s h = elim (Bool-cases (c == b'/')) [
  | inl cut ↦
      rw (cut, split_at) (split_at-last (head ++ tail ++ c ∷ []) [] q s h ∙ simp append_assoc)
  | inr other ↦ rw (other, split_at) (split_at-last head (tail ++ c ∷ []) q s h ∙ simp append_assoc)
]

-- A file of a directory is split from the path of the directory.
pub split_path-last : (q s : Bytes) → IsPlain s → split_path (q ++ b'/' ∷ s) ≡ (q ++ b'/' ∷ [], s)
unfolding split_path
split_path-last q s h = split_at-last [] [] q s h

prefix-drop : (s p : Bytes) → has_prefix s p ≡ true → p ++ drop (length p) s ≡ s
unfolding has_prefix
prefix-drop s [] h = refl
prefix-drop [] (b ∷ p) h = cc
prefix-drop (a ∷ s) (b ∷ p) h =
    let e : a ≡ b = ground arith in
    let rest : has_prefix s p ≡ true = ground arith in
    ap (◌∷◌ b) (prefix-drop s p rest) ∙ ap (λ c. c ∷ s) (sym e)

pub trim_prefix-restored : (s p : Bytes) → has_prefix s p ≡ true → p ++ trim_prefix s p ≡ s
unfolding trim_prefix
trim_prefix-restored s p h = rw h (prefix-drop s p h)

pub has_prefix-longer : (s t p : Bytes) → has_prefix s p ≡ true → has_prefix (s ++ t) p ≡ true
unfolding has_prefix
has_prefix-longer s t [] h = ends s
  where
    ends : (s : Bytes) → has_prefix (s ++ t) [] ≡ true
    ends [] = refl
    ends (a ∷ s) = refl
has_prefix-longer [] t (b ∷ p) h = cc
has_prefix-longer (a ∷ s) t (b ∷ p) h =
    let rest : has_prefix s p ≡ true = ground arith in ground (arith, has_prefix-longer s t p rest)

-- The name that an event of a file of a known directory goes by.
pub event_name-known :
    (watches : List (Bytes × Bytes)) (root q alias : Bytes) (c : ℕ) (s : Bytes)
    → lookup (q ++ b'/' ∷ []) watches ≡ some alias
    → has_prefix alias root ≡ true
    → IsPlain (c ∷ s)
    → event_name watches root (q ++ b'/' ∷ c ∷ s) ≡ some (trim_prefix (alias ++ c ∷ s) root)
unfolding event_name watched
event_name-known watches root [] alias c s known under plain =
    rw (split_path-last [] (c ∷ s) plain) (rw (watched, known, under) refl)
event_name-known watches root (d ∷ q) alias c s known under plain =
    rw (split_path-last (d ∷ q) (c ∷ s) plain) (rw (watched, known, under) refl)
