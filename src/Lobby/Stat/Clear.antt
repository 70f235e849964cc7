-- ===== src/Lobby/Stat/Clear.antt =====
-- What is left in --statdir when a lobby has cleared it (internal/lobby/stat.go, remstats).
use snap_gs.Base.{
  ◌≡◌, ◌≢◌, refl, sym, ap, ◌∙◌, inl, inr, ◌⊎◌, Bytes, codes, Bool, true, false, ◌||◌, List, [], ◌∷◌,
  none, some, has_prefix, has_prefix-append, bytes_eq, bytes_eq_iff, bytes_key, beq-false, beq_refl,
  Bool-cases, Option-cases,
}
use snap_gs.Base.GoMap.{lookup}
use snap_gs.Options.{Options}
use snap_gs.Lobby.Stat.{denied}
use snap_gs.Lobby.{Process, Content, Disk, Lobby}
use snap_gs.Lobby.Stat.{last_of, noted, set_disk, own_names, clear_names, rem_stats}
use snap_gs.Lobby.Stat.Laws.{set_disk-removed, noted-file}
use snap_gs.Lobby.Stat.Files.{file, IsStat, store-none-apart, either_free}

set_disk-none-apart :
    (opts : Options) (process : Process) (name n : Bytes) (d : Disk)
    → n ≢ name
    → n ≢ last_of name
    → file n (set_disk opts process name none d).0 ≡ file n d
unfolding set_disk
set_disk-none-apart opts process name n d own last =
    elim (Bool-cases (bytes_eq name [] || has_prefix name (codes "last"))) [
      | inl over ↦ rw over refl
      | inr stat ↦ elim (Bool-cases (bytes_eq opts.stat_dir [])) [
        | inl nowhere ↦ rw (stat, nowhere, noted-file opts process name false d) refl
        | inr there ↦
            rw (stat, there)
              (store-none-apart name n (noted opts process name false d) own last
                ∙ ap (lookup n) (noted-file opts process name false d))
      ]
    ]

-- A name among some names.
abbrev pub among : Bytes → List Bytes → Bool
among n [] = false
among n (m ∷ ms) = bytes_eq n m || among n ms

either_true : (a : Bool) → (a || true) ≡ true
either_true true = refl
either_true false = refl

own_names-among :
    (files : List (Bytes × Content)) (n : Bytes) (c : Content)
    → has_prefix n (codes "last") ≡ false
    → lookup n files ≡ some c
    → among n (own_names files) ≡ true
unfolding own_names lookup
own_names-among [] n c own there = cc
own_names-among ((m, x) ∷ files) n c own there = elim (Bool-cases (bytes_eq m n)) [
  | inl same ↦
      let e : m ≡ n = (bytes_eq_iff m n).0 same in
      let kept : has_prefix m (codes "last") ≡ false = rw e own in
      rw (kept, own_names, sym e, beq_refl m) refl
  | inr differs ↦
      let rest = own_names-among files n c own (rw (lookup, differs) at there) in
      elim (Bool-cases (has_prefix m (codes "last"))) [
        | inl old ↦ rw (old, own_names) rest
        | inr kept ↦ rw (kept, own_names, rest) (either_true (bytes_eq n m))
      ]
]

-- Names of status files.
abbrev pub IsOwn : Bytes → Type 0
IsOwn n = (n ≢ []) × (has_prefix n (codes "last") ≡ false)

own_not-last : (n name : Bytes) → IsOwn n → n ≢ last_of name
own_not-last n name own e =
    let starts : has_prefix n (codes "last") ≡ true =
      rw e (has_prefix-append (codes "last") name) in
    cc

-- What is left to clear after one name.
next_left :
    (opts : Options) (process : Process) (name : Bytes) (names : List Bytes) (d : Disk) (n : Bytes)
    → bytes_eq opts.stat_dir [] ≡ false
    → IsOwn n
    → (among n (name ∷ names) ≡ true) ⊎ (file n d ≡ none)
    → (set_disk opts process name none d).1 ≡ none
    → (among n names ≡ true) ⊎ (file n (set_disk opts process name none d).0 ≡ none)
next_left opts process name names d n there own h done = elim (Bool-cases (bytes_eq n name)) [
  | inl same ↦
      let e : n ≡ name = (bytes_eq_iff n name).0 same in
      let stat : IsStat n = either_free _ _ (beq-false n [] own.0) own.1 in
      let fine : (set_disk opts process n none d).1 ≡ none = rw e done in
      inr (rw (sym e) (set_disk-removed opts process n d stat there fine))
  | inr differs ↦ elim h [
    | inl m ↦ inl (rw differs at m)
    | inr gone ↦ inr (
        set_disk-none-apart opts process name n d (λ e. differ n name differs e)
          (own_not-last n name own)
        ∙ gone)
  ]
]
  where
    differ : (a b : Bytes) → bytes_eq a b ≡ false → a ≢ b
    differ a b f e = let t = (bytes_eq_iff a b).1 e in cc

found_first :
    (d : Disk) (n : Bytes) → IsOwn n → (among n (own_names d.stats) ≡ true) ⊎ (file n d ≡ none)
found_first d n own = elim (Option-cases (lookup n d.stats)) [
  | inl absent ↦ inr absent
  | inr (c, there) ↦ inl (own_names-among d.stats n c own.1 there)
]

clear_names-cleared :
    (opts : Options) (process : Process) (names : List Bytes) (d : Disk) (n : Bytes)
    → bytes_eq opts.stat_dir [] ≡ false
    → IsOwn n
    → (among n names ≡ true) ⊎ (file n d ≡ none)
    → (clear_names opts process names d).1 ≡ none
    → file n (clear_names opts process names d).0 ≡ none
unfolding clear_names
clear_names-cleared opts process [] d n there own (inl m) fine = cc
clear_names-cleared opts process [] d n there own (inr gone) fine = gone
clear_names-cleared opts process (name ∷ names) d n there own h fine =
    elim (Option-cases (set_disk opts process name none d).1) [
      | inr (x, failed) ↦ let stuck : some x ≡ none = rw (clear_names, failed) at fine in cc
      | inl done ↦
          rw (clear_names, done)
            (clear_names-cleared opts process names (set_disk opts process name none d).0 n there
              own (next_left opts process name names d n there own h done)
              (rw (clear_names, done) at fine))
    ]

-- When a lobby with --statdir has cleared it without an error, no file with a name is left there but
-- those named `last…`.
pub rem_stats-cleared :
    {F : Type 0} (l : Lobby F) (n : Bytes)
    → bytes_eq l.opts.stat_dir [] ≡ false
    → IsOwn n
    → (rem_stats l).1 ≡ none
    → file n (rem_stats l).0.disk ≡ none
unfolding rem_stats
rem_stats-cleared l n there own fine = elim (Bool-cases (l.disk.refused [])) [
  | inl unread ↦ let refused : denied ≡ none = rw (rem_stats, there, unread) at fine in cc
  | inr read ↦
      rw (rem_stats, there, read)
        (clear_names-cleared l.opts l.process (own_names l.disk.stats) l.disk n there own
          (found_first l.disk n own) (rw (rem_stats, there, read) at fine))
]
