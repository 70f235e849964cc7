-- ===== src/Lobby/Stat/Files.antt =====
-- What one call of the system, and one change in --statdir, does to the files (internal/lobby/stat.go).
use snap_gs.Base.{
  ◌∷◌, bytes_eq_iff, ℕ, ◌≡◌, ◌≢◌, refl, sym, ap, ◌∙◌, inl, inr, Bytes, codes, Bool, true, false,
  ◌||◌, [], Option, none, some, is_some, has_prefix, bytes_eq, bytes_key, length, length-append,
  beq-false, beq_refl, Bool-cases, Option-cases, arith,
}
use snap_gs.Base.GoMap.{lookup, insert, delete, lookup-insert, lookup-delete}
use snap_gs.Lobby.{Content, Disk}
use snap_gs.Lobby.Stat.{
  write_file, rename_file, remove_all, write_pid, last_of, lock_of, denied, store, store_pid,
}

pub last-ne : (name : Bytes) → last_of name ≢ name
last-ne name e = omega (arith, ap length e, length-append (codes "last") name)

pub lock-ne : (name : Bytes) → lock_of name ≢ name
lock-ne name e = omega (arith, ap length e, length-append name (codes ".lock"))

-- The pid files are not among the status files.
pub store_pid-stats :
    (path : Option Bytes) (pid : Option ℕ) (d : Disk) → (store_pid path pid d).stats ≡ d.stats
unfolding write_pid
store_pid-stats none pid d = refl
store_pid-stats (some p) none d = refl
store_pid-stats (some []) (some pid) d = refl
store_pid-stats (some (c ∷ p)) (some pid) d = ground arith

pub store_pid-pids :
    (path : Option Bytes) (pid : Option ℕ) (d : Disk) (n : Bytes)
    → path ≢ some n
    → lookup n (store_pid path pid d).pids ≡ lookup n d.pids
unfolding write_pid
store_pid-pids none pid d n other = refl
store_pid-pids (some p) none d n other = refl
store_pid-pids (some []) (some pid) d n other = refl
store_pid-pids (some (c ∷ p)) (some pid) d n other = elim (Bool-cases (d.refused (c ∷ p))) [
  | inl refused ↦ rw refused refl
  | inr writes ↦ rw writes (
      lookup-insert (c ∷ p) n _ d.pids ∙ elim (Bool-cases (bytes_eq (c ∷ p) n)) [
        | inl same ↦ absurd (other (ap some ((bytes_eq_iff (c ∷ p) n).0 same)))
        | inr differs ↦ rw differs refl
      ])
]

-- The files of --statdir are no pid files.
pub store-pids : (name : Bytes) (c : Option Content) (d : Disk) → (store name c d).0.pids ≡ d.pids
unfolding store write_file rename_file remove_all
store-pids name none d = ground arith
store-pids name (some c) d = ground arith

pub store_pid-refused :
    (path : Option Bytes) (pid : Option ℕ) (d : Disk) → (store_pid path pid d).refused ≡ d.refused
unfolding write_pid
store_pid-refused none pid d = refl
store_pid-refused (some p) none d = refl
store_pid-refused (some p) (some pid) d = ground arith

-- A file by its name.
abbrev pub file : Bytes → Disk → Option Content
file name d = lookup name d.stats

-- A name that `setstat` does not pass over.
abbrev pub IsStat : Bytes → Type 0
IsStat name = (bytes_eq name [] || has_prefix name (codes "last")) ≡ false

-- The three names that a change of `name` may touch.
abbrev pub IsApart : Bytes → Bytes → Type 0
IsApart n name = (n ≢ name) × (n ≢ last_of name) × (n ≢ lock_of name)

pub swap_ne : {n m : Bytes} → n ≢ m → bytes_eq m n ≡ false
swap_ne h = beq-false _ _ (λ e. h (sym e))

pub rename_file-apart :
    (from to n : Bytes) (d : Disk) → n ≢ from → n ≢ to → file n (rename_file from to d).0 ≡ file n d
unfolding rename_file
rename_file-apart from to n d h k = elim (Option-cases (lookup from d.stats)) [
  | inl absent ↦ rw (rename_file, absent) refl
  | inr (c, there) ↦ elim (Bool-cases (d.refused from || d.refused to)) [
    | inl refused ↦ rw (rename_file, there, refused) refl
    | inr granted ↦
        rw
          (
            rename_file,
            there,
            granted,
            lookup-insert to n c (delete from d.stats),
            swap_ne k,
            lookup-delete from n d.stats,
            swap_ne h,
          )
          refl
  ]
]

pub write_file-apart :
    (name n : Bytes) (c : Content) (d : Disk) → n ≢ name → file n (write_file name c d).0 ≡ file n d
unfolding write_file
write_file-apart name n c d h = elim (Bool-cases (d.refused name)) [
  | inl refused ↦ rw refused refl
  | inr granted ↦ rw (granted, lookup-insert name n c d.stats, swap_ne h) refl
]

pub remove_all-apart :
    (name n : Bytes) (d : Disk) → n ≢ name → file n (remove_all name d).0 ≡ file n d
unfolding remove_all
remove_all-apart name n d h = elim (Bool-cases (d.refused name)) [
  | inl refused ↦ rw refused refl
  | inr granted ↦ rw (granted, lookup-delete name n d.stats, swap_ne h) refl
]

pub store-apart :
    (name n : Bytes) (c : Option Content) (d : Disk)
    → IsApart n name
    → file n (store name c d).0 ≡ file n d
unfolding store
store-apart name n none d (own, last, lock) =
    elim (Bool-cases (is_some (rename_file name (last_of name) d).1)) [
      | inl failed ↦ rw failed (remove_all-apart name n d own)
      | inr moved ↦ rw moved (rename_file-apart name (last_of name) n d own last)
    ]
store-apart name n (some c) d (own, last, lock) =
    elim (Bool-cases (is_some (write_file (lock_of name) c d).1)) [
      | inl failed ↦ rw failed refl
      | inr written ↦ rw written (
          rename_file-apart (lock_of name) name n (write_file (lock_of name) c d).0 lock own
          ∙ write_file-apart (lock_of name) n c d lock)
    ]

-- A removal leaves the lock of a file alone too.
pub store-none-apart :
    (name n : Bytes) (d : Disk)
    → n ≢ name
    → n ≢ last_of name
    → file n (store name none d).0 ≡ file n d
unfolding store
store-none-apart name n d own last =
    elim (Bool-cases (is_some (rename_file name (last_of name) d).1)) [
      | inl failed ↦ rw failed (remove_all-apart name n d own)
      | inr moved ↦ rw moved (rename_file-apart name (last_of name) n d own last)
    ]

pub remove_all-file :
    (name : Bytes) (d : Disk)
    → (remove_all name d).1 ≡ none
    → file name (remove_all name d).0 ≡ none
unfolding remove_all
remove_all-file name d fine = elim (Bool-cases (d.refused name)) [
  | inl refused ↦ let failed : denied ≡ none = rw (remove_all, refused) at fine in cc
  | inr granted ↦ rw (granted, lookup-delete name name d.stats, beq_refl name) refl
]

pub rename_file-file :
    (from to : Bytes) (c : Content) (d : Disk)
    → from ≢ to
    → lookup from d.stats ≡ some c
    → (d.refused from || d.refused to) ≡ false
    → ((rename_file from to d).1 ≡ none)
      × (file from (rename_file from to d).0 ≡ none)
      × (file to (rename_file from to d).0 ≡ some c)
unfolding rename_file
rename_file-file from to c d apart there granted =
    rw
      (
        rename_file,
        there,
        granted,
        lookup-insert to from c (delete from d.stats),
        swap_ne apart,
        lookup-delete from from d.stats,
        beq_refl from,
        lookup-insert to to c (delete from d.stats),
        beq_refl to,
      )
      (refl, refl, refl)

-- A rename that reports no error has taken the file away.
pub rename_file-gone :
    (from to : Bytes) (d : Disk)
    → from ≢ to
    → is_some (rename_file from to d).1 ≡ false
    → file from (rename_file from to d).0 ≡ none
unfolding rename_file
rename_file-gone from to d apart fine = elim (Option-cases (lookup from d.stats)) [
  | inl absent ↦ rw (rename_file, absent) absent
  | inr (c, there) ↦ elim (Bool-cases (d.refused from || d.refused to)) [
    | inl refused ↦ let failed : true ≡ false = rw (rename_file, there, refused) at fine in cc
    | inr granted ↦ (rename_file-file from to c d apart there granted).1
  ]
]

pub store-none-file :
    (name : Bytes) (d : Disk)
    → (store name none d).1 ≡ none
    → file name (store name none d).0 ≡ none
unfolding store
store-none-file name d fine = elim (Bool-cases (is_some (rename_file name (last_of name) d).1)) [
  | inl failed ↦ rw failed (remove_all-file name d (rw (store, failed) at fine))
  | inr moved ↦ rw moved (rename_file-gone name (last_of name) d (λ e. last-ne name (sym e)) moved)
]

-- The system refuses nothing.
abbrev pub IsFree : Disk → Type 0
IsFree d = (n : Bytes) → d.refused n ≡ false

pub either_free : (a b : Bool) → a ≡ false → b ≡ false → (a || b) ≡ false
either_free a b p q = rw (p, q) refl

rename_file-IsFree : (from to : Bytes) (d : Disk) → IsFree d → IsFree (rename_file from to d).0
unfolding rename_file
rename_file-IsFree from to d free n = elim (Option-cases (lookup from d.stats)) [
  | inl absent ↦ rw (rename_file, absent) (free n)
  | inr (c, there) ↦ rw (rename_file, there, either_free _ _ (free from) (free to)) (free n)
]

write_file_free :
    (name : Bytes) (c : Content) (d : Disk)
    → IsFree d
    → write_file name c d ≡ (record d { stats = insert name c d.stats }, none)
unfolding write_file
write_file_free name c d free = rw (free name) refl

pub store-some-file :
    (name : Bytes) (c : Content) (d : Disk)
    → IsFree d
    → (file name (store name (some c) d).0 ≡ some c) × IsFree (store name (some c) d).0
unfolding store
store-some-file name c d free =
    let lock = lock_of name in
    let written : Disk = record d { stats = insert lock c d.stats } in
    let read : lookup lock written.stats ≡ some c =
      lookup-insert lock lock c d.stats ∙ rw (beq_refl lock) refl in
    rw (store, write_file_free lock c d free)
      (
        (rename_file-file lock name c written (lock-ne name) read
            (either_free _ _ (free lock) (free name))).2,
        rename_file-IsFree lock name written free,
      )

pub store-none-moves :
    (name : Bytes) (c : Content) (d : Disk)
    → IsFree d
    → file name d ≡ some c
    → (file name (store name none d).0 ≡ none)
      × (file (last_of name) (store name none d).0 ≡ some c)
unfolding store
store-none-moves name c d free there =
    let (fine, gone, moved) =
      rename_file-file name (last_of name) c d (λ e. last-ne name (sym e)) there
        (either_free _ _ (free name) (free (last_of name))) in
    rw (store, fine) (gone, moved)
