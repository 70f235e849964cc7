-- ===== src/Watch/Filters/Chain.antt =====
-- LastNames and LockNames in a row, as every watch in the program uses them
-- (internal/watch/watch.go).
use snap_gs.Base.{
  ◌≤◌, ◌≡◌, refl, sym, ap, ◌∙◌, ◌≢◌, inl, inr, Bytes, codes, Bool, true, false, List, [], ◌∷◌, ◌++◌,
  if◌then◌else◌, trim_suffix, trim_prefix, has_prefix, bytes_eq, bytes_eq_iff, arith, ◌||◌, ◌&&◌,
  any, Bool-cases, length, drop, length-drop, beq-false, beq_refl, bytes_key,
}
use snap_gs.Watch.Filters.{Event, lock_name, lock_names, unlasted, last_names}
use snap_gs.Watch.Filters.Names.{named}

-- The file whose lock this is, or the file itself.
abbrev pub unlocked : Bytes → Bytes
unlocked name = trim_suffix name (codes ".lock")

-- An event for `name` is an event for `n`: `n` is the file, or the file without `last` before it.
abbrev pub announces : Bytes → Bytes → Bool
announces name n =
    bytes_eq (unlocked name) n
    || (has_prefix name (codes "last") && bytes_eq (unlocked (trim_prefix name (codes "last"))) n)

any-append {ℓ} :
    {A : Type ℓ} (p : A → Bool) (xs ys : List A) → any p (xs ++ ys) ≡ (any p xs || any p ys)
any-append p [] ys = refl
any-append p (x ∷ xs) ys = ground (arith, any-append p xs ys)

drop-ne : (s : Bytes) → 4 ≤ length s → drop 4 s ≢ s
drop-ne s h e = omega (arith, length-drop 4 s, ap length e)

has_prefix-length : (s p : Bytes) → has_prefix s p ≡ true → length p ≤ length s
unfolding has_prefix
has_prefix-length s [] h = omega arith
has_prefix-length [] (b ∷ p) h = cc
has_prefix-length (a ∷ s) (b ∷ p) h = ground (arith, has_prefix-length s p)

-- `strings.TrimPrefix` changes the name exactly when the prefix is there.
trimmed_same :
    (name : Bytes)
    → bytes_eq (trim_prefix name (codes "last")) name
      ≡ (if has_prefix name (codes "last") then false else true)
unfolding trim_prefix
trimmed_same name = elim (Bool-cases (has_prefix name (codes "last"))) [
  | inl starts ↦
      rw starts (beq-false _ _ (drop-ne name (has_prefix-length name (codes "last") starts)))
  | inr other ↦ rw other (beq_refl name)
]

module _ {Op : Type 0} (create : Op) where
  lock_name-name : (e : Event Op) → (lock_name create e).name ≡ unlocked e.name
  unfolding lock_name
  lock_name-name e = elim (Bool-cases (bytes_eq (unlocked e.name) e.name)) [
    | inl same ↦ rw same (sym ((bytes_eq_iff _ _).0 same))
    | inr differs ↦ rw differs refl
  ]

  named-lock_names :
      (n : Bytes) (events : List (Event Op))
      → named n (lock_names create events) ≡ any (λ e. bytes_eq (unlocked e.name) n) events
  unfolding lock_names
  named-lock_names n [] = refl
  named-lock_names n (e ∷ es) = rw (lock_name-name e, named-lock_names n es) refl

  any-unlasted :
      (n : Bytes) (events : List (Event Op))
      → any (λ e. bytes_eq (unlocked e.name) n) (unlasted create events)
        ≡ any
            (λ e.
              has_prefix e.name (codes "last")
              && bytes_eq (unlocked (trim_prefix e.name (codes "last"))) n)
            events
  unfolding unlasted
  any-unlasted n [] = refl
  any-unlasted n (e ∷ es) =
      rw (trimmed_same e.name) (elim (Bool-cases (has_prefix e.name (codes "last"))) [
        | inl starts ↦ rw (starts, any-unlasted n es) refl
        | inr other ↦ rw (other, any-unlasted n es) refl
      ])

  any_or :
      (p q : Event Op → Bool) (events : List (Event Op))
      → (any p events || any q events) ≡ any (λ e. p e || q e) events
  any_or p q [] = refl
  any_or p q (e ∷ es) = ground (arith, any_or p q es)

  -- The two filters turn events into events for the files that they announce, and for no others: the
  -- event of `x.lock` is one for `x`, and that of `lastx` is one for `x` as well as for itself.
  pub named-chain :
      (n : Bytes) (events : List (Event Op))
      → named n (lock_names create (last_names create events))
        ≡ any (λ e. announces e.name n) events
  unfolding last_names
  named-chain n events =
      named-lock_names n (events ++ unlasted create events)
      ∙ any-append _ events (unlasted create events)
      ∙ ap (◌||◌ (any (λ e. bytes_eq (unlocked e.name) n) events)) (any-unlasted n events)
      ∙ any_or _ _ events
