-- ===== src/Watch/Walk/Names.antt =====
-- The names that the table of a watch gives to directories lie under the root
-- (internal/watch/watch.go, Watch). What WalkDir and EvalSymlinks promise is stated here.
use snap_gs.Base.{
  ◌≡◌, ◌⊎◌, refl, ap, ◌∙◌, inl, inr, Bytes, true, false, ◌||◌, List, [], ◌∷◌, ◌++◌, Option, none,
  some, arith, any, is_some, All, has_prefix, bytes_eq, bytes_eq_iff, bytes_key, Bool-cases,
}
use snap_gs.Base.GoMap.{lookup, insert, lookup-insert, lookup-All}
use snap_gs.Watch.Loop.{split_path}
use snap_gs.Watch.Loop.Paths.{has_prefix-longer}
use snap_gs.Watch.Walk.{
  Kind, directory, Visit, found, failed, Table, target, slash, or_empty, or_else, is_bad, is_cut,
  alias_or, out_name, dir_name, System,
}

-- A directory has a name.
abbrev pub IsNamed : List (Bytes × Bytes) → Bytes → Type 0
IsNamed watches path = is_some (lookup (path ++ slash) watches) ≡ true

-- An absolute path with no slash at its end, but the root of the file system.
abbrev pub IsWhole : Bytes → Type 0
IsWhole path = (is_bad path || is_cut path) ≡ false

abbrev pub with_dir : Kind → Bytes → List Bytes → List Bytes
with_dir directory path seen = path ∷ seen
with_dir _ path seen = seen

-- What WalkDir promises: it visits the path that it is given, and after a directory what lies in it.
abbrev pub Ordered : Bytes → List Bytes → List Visit → Type 0
Ordered walked seen [] = Unit
Ordered walked seen (failed e ∷ vs) = Ordered walked seen vs
Ordered walked seen (found path kind ∷ vs) =
    IsWhole path
    × ((path ≡ walked) ⊎ (any (λ q. bytes_eq (q ++ slash) (split_path path).0) seen ≡ true))
    × Ordered walked (with_dir kind path seen) vs

-- WalkDir goes in order, and EvalSymlinks returns absolute paths.
pub record IsFileTree (sys : System) : Type 0 where
  pub ordered : (path : Bytes) → IsWhole path → Ordered path [] (sys.list path)
  pub absolute :
      (path out : Bytes) → sys.resolve path ≡ target out → is_bad out ≡ false → is_cut out ≡ false

pub All-weaken {ℓ κ ι} :
    {A : Type ℓ} (P : A → Type κ) (Q : A → Type ι) (xs : List A)
    → ((x : A) → P x → Q x)
    → All P xs
    → All Q xs
All-weaken P Q [] f h = tt
All-weaken P Q (x ∷ xs) f h = (f x h.0, All-weaken P Q xs f h.1)

pub All-any {ℓ} :
    (P : Bytes → Type ℓ) (x : Bytes) (xs : List Bytes) → All P xs → any (bytes_eq x) xs ≡ true → P x
All-any P x [] h m = cc
All-any P x (y ∷ ys) h m = elim (Bool-cases (bytes_eq x y)) [
  | inl same ↦ rw ((bytes_eq_iff x y).0 same) h.0
  | inr other ↦ All-any P x ys h.1 (ground arith)
]

pub insert-IsNamed :
    (key out p : Bytes) (watches : List (Bytes × Bytes))
    → IsNamed watches p
    → IsNamed (insert key out watches) p
insert-IsNamed key out p watches h =
    ap is_some (lookup-insert key (p ++ slash) out watches)
    ∙ elim (Bool-cases (bytes_eq key (p ++ slash))) [
      | inl same ↦ rw same refl
      | inr other ↦ rw other h
    ]

pub insert-IsNamed_self :
    (p out : Bytes) (watches : List (Bytes × Bytes)) → IsNamed (insert (p ++ slash) out watches) p
insert-IsNamed_self p out watches =
    ap is_some (lookup-insert (p ++ slash) (p ++ slash) out watches)
    ∙ rw ((bytes_eq_iff (p ++ slash) (p ++ slash)).1 refl) refl

pub of_some : (o : Option Bytes) → is_some o ≡ true → (v : Bytes) × (o ≡ some v)
of_some none h = cc
of_some (some v) h = (v, refl)

-- The name of the directory of an entry that was visited before.
lookup-seen :
    (watches : List (Bytes × Bytes)) (head : Bytes) (seen : List Bytes)
    → All (IsNamed watches) seen
    → any (λ q. bytes_eq (q ++ slash) head) seen ≡ true
    → is_some (lookup head watches) ≡ true
lookup-seen watches head [] h m = cc
lookup-seen watches head (q ∷ seen) h m = elim (Bool-cases (bytes_eq (q ++ slash) head)) [
  | inl same ↦ rw (← (bytes_eq_iff (q ++ slash) head).0 same) h.0
  | inr other ↦ lookup-seen watches head seen h.1 (ground arith)
]

module _ (top : Bytes) where
  abbrev pub root : Bytes
  root = top ++ slash

  abbrev pub IsUnder : Bytes → Type 0
  IsUnder alias = has_prefix alias root ≡ true

  -- A path of the queue is the root's, or it has a name.
  abbrev pub IsKnown : List (Bytes × Bytes) → Bytes → Type 0
  IsKnown watches p = (p ≡ top) ⊎ IsNamed watches p

  pub record IsHeard {Op : Type 0} (t : Table Op) : Type 0 where
    pub names : All (λ e. IsUnder e.1) t.watches
    pub watching : All (IsNamed t.watches) t.watched
    pub queued : All (IsKnown t.watches) t.queue
    pub whole : All IsWhole t.queue

  root-IsUnder : IsUnder root
  unfolding has_prefix
  root-IsUnder = has_prefix_refl root
    where
      has_prefix_refl : (s : Bytes) → has_prefix s s ≡ true
      has_prefix_refl [] = refl
      has_prefix_refl (c ∷ s) = ground (arith, has_prefix_refl s)

  nil-IsUnder : ¬ IsUnder []
  unfolding has_prefix
  nil-IsUnder h = cases top h
    where
      cases : (s : Bytes) → has_prefix [] (s ++ slash) ≡ true → ⊥
      cases [] h = cc
      cases (c ∷ s) h = cc

  -- The two cases of the name of a directory.
  or_else-IsUnder :
      (watches : List (Bytes × Bytes)) (out : Bytes)
      → All (λ e. IsUnder e.1) watches
      → IsUnder out ⊎ (is_some (lookup out watches) ≡ true)
      → IsUnder (or_else (or_empty (lookup out watches)) out)
  or_else-IsUnder watches out names h = by_entry (lookup out watches) refl h
    where
      by_entry :
          (o : Option Bytes)
          → lookup out watches ≡ o
          → IsUnder out ⊎ (is_some o ≡ true)
          → IsUnder (or_else (or_empty o) out)
      by_entry none e (inl under) = under
      by_entry none e (inr named) = cc
      by_entry (some []) e _ =
          absurd (nil-IsUnder (lookup-All (λ e. IsUnder e.1) out watches names e))
      by_entry (some (c ∷ alias)) e _ = lookup-All (λ e. IsUnder e.1) out watches names e

  -- An entry of the walk is under the root by the name of its directory, or is the path that is walked.
  abbrev pub IsPlaced : List (Bytes × Bytes) → Bytes → Bytes → List Bytes → Type 0
  IsPlaced watches walked path seen =
      (path ≡ walked) ⊎ (any (λ q. bytes_eq (q ++ slash) (split_path path).0) seen ≡ true)

  pub dir_name-IsUnder :
      (watches : List (Bytes × Bytes)) (walked path : Bytes) (seen : List Bytes)
      → All (λ e. IsUnder e.1) watches
      → IsKnown watches walked
      → All (IsNamed watches) seen
      → IsPlaced watches walked path seen
      → IsUnder (dir_name watches path)
  unfolding dir_name out_name
  dir_name-IsUnder watches walked path seen names known dirs placed =
      or_else-IsUnder watches (out_name watches path ++ slash) names
        (by_dir (lookup (split_path path).0 watches) refl placed)
    where
      none-some : false ≡ true → ⊥
      none-some h = cc

      of_walked :
          IsKnown watches walked
          → IsUnder (walked ++ slash) ⊎ (is_some (lookup (walked ++ slash) watches) ≡ true)
      of_walked (inl first) = inl (rw first root-IsUnder)
      of_walked (inr named) = inr named

      by_dir :
          (o : Option Bytes)
          → lookup (split_path path).0 watches ≡ o
          → IsPlaced watches walked path seen
          → let out = alias_or o (split_path path).1 path ++ slash in
            IsUnder out ⊎ (is_some (lookup out watches) ≡ true)
      by_dir (some alias) e _ = inl (
          has_prefix-longer (alias ++ (split_path path).1) slash root (
            has_prefix-longer alias (split_path path).1 root
              (lookup-All (λ e. IsUnder e.1) (split_path path).0 watches names e)))
      by_dir none e (inl same) = rw same (of_walked known)
      by_dir none e (inr inside) =
          let found : is_some (lookup (split_path path).0 watches) ≡ true =
            lookup-seen watches (split_path path).0 seen dirs inside in
          absurd (none-some (rw e at found))
