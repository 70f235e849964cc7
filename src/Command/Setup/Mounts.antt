-- ===== src/Command/Setup/Mounts.antt =====
-- Where the cgroups are mounted (public/cmd/lobby.go, lines 221 to 237).
use snap_gs.Base.{
  ℕ, ◌≡◌, refl, inl, inr, Bytes, codes, Bool, true, false, List, [], ◌∷◌, ◌++◌, none, some, any,
  All, not, ◌||◌, arith, ◌==◌, if◌then◌else◌, bytes_eq, Bool-cases,
}
use snap_gs.Command.Setup.{
  split_by, cut_space, second_word, mount_of, cgroup_root, end_line, trim_lines, trim_hierarchy,
  cgroup_of, Library, Found,
}

-- An entry of /proc/self/mounts: a device, the directory that it is mounted on, and the rest.
pub record Mount : Type 0 where
  pub device : Bytes
  pub dir : Bytes
  pub rest : Bytes

abbrev pub is_free : ℕ → Bytes → Bool
is_free sep s = not (any (λ c. c == sep) s)

-- Blanks in the words of an entry are written as escapes.
pub record IsEntry (m : Mount) : Type 0 where
  pub device_words : is_free 32 m.device ≡ true
  pub device_lines : is_free 10 m.device ≡ true
  pub dir_words : is_free 32 m.dir ≡ true
  pub dir_lines : is_free 10 m.dir ≡ true
  pub dir_given : bytes_eq m.dir [] ≡ false
  pub rest_lines : is_free 10 m.rest ≡ true

abbrev pub line_of : Mount → Bytes
line_of m = m.device ++ 32 ∷ (m.dir ++ 32 ∷ m.rest)

-- The text of the file, a line for each entry.
abbrev pub text_of : List Mount → Bytes
text_of [] = []
text_of (m ∷ ms) = line_of m ++ 10 ∷ text_of ms

-- The directory of the first entry of cgroup2.
abbrev pub first_cgroup : List Mount → Bytes
first_cgroup [] = codes "/sys/fs/cgroup"
first_cgroup (m ∷ ms) = if bytes_eq m.device (codes "cgroup2") then m.dir else first_cgroup ms

split_by-line :
    (sep : ℕ) (a s : Bytes)
    → is_free sep a ≡ true
    → split_by sep (a ++ sep ∷ s) ≡ a ∷ split_by sep s
unfolding split_by
split_by-line sep [] s free = ground arith
split_by-line sep (c ∷ a) s free =
    let other : (c == sep) ≡ false = ground arith in
    rw (other, split_by-line sep a s (ground arith)) refl

cut_space-word : (a s : Bytes) → is_free 32 a ≡ true → cut_space (a ++ 32 ∷ s) ≡ some (a, s)
unfolding cut_space
cut_space-word [] s free = refl
cut_space-word (c ∷ a) s free =
    let other : (c == 32) ≡ false = ground arith in
    rw (other, cut_space-word a s (ground arith)) refl

is_free-append :
    (sep : ℕ) (a b : Bytes)
    → is_free sep a ≡ true
    → is_free sep b ≡ true
    → is_free sep (a ++ b) ≡ true
is_free-append sep [] b ha hb = hb
is_free-append sep (c ∷ a) b ha hb = ground (arith, is_free-append sep a b)

second_word-given :
    (dir rest : Bytes) → bytes_eq dir [] ≡ false → second_word (some (dir, rest)) ≡ some dir
unfolding bytes_eq
second_word-given [] rest h = cc
second_word-given (c ∷ dir) rest h = refl

mount_of-line :
    (m : Mount)
    → IsEntry m
    → mount_of (line_of m) ≡ (if bytes_eq m.device (codes "cgroup2") then some m.dir else none)
unfolding mount_of
mount_of-line m e = rw (cut_space-word m.device (m.dir ++ 32 ∷ m.rest) e.device_words) (
    rw (cut_space-word m.dir m.rest e.dir_words)
      (rw (second_word-given m.dir m.rest e.dir_given) refl))

line_of-is_free : (m : Mount) → IsEntry m → is_free 10 (line_of m) ≡ true
line_of-is_free m e =
    is_free-append 10 m.device (32 ∷ (m.dir ++ 32 ∷ m.rest)) e.device_lines
      (is_free-append 10 m.dir (32 ∷ m.rest) e.dir_lines e.rest_lines)

-- From the text of a table of mounts the directory of its first cgroup2 is found, or the usual place
-- where the table has none.
cgroup_root-text :
    (ms : List Mount) → All IsEntry ms → cgroup_root (split_by 10 (text_of ms)) ≡ first_cgroup ms
unfolding cgroup_root split_by
cgroup_root-text [] h = refl
cgroup_root-text (m ∷ ms) h =
    rw (split_by-line 10 (line_of m) (text_of ms) (line_of-is_free m h.0)) (
      rw (mount_of-line m h.0) (elim (Bool-cases (bytes_eq m.device (codes "cgroup2"))) [
        | inl own ↦ rw own refl
        | inr other ↦ rw other (cgroup_root-text ms h.1)
      ]))

trim_lines-line : (s : Bytes) → is_free 10 s ≡ true → trim_lines (s ++ 10 ∷ []) ≡ s
unfolding trim_lines
trim_lines-line [] h = refl
trim_lines-line (c ∷ s) h =
    let other : (c == 10) ≡ false = ground arith in
    rw (trim_lines-line s (ground arith)) (kept c s other)
  where
    kept : (c : ℕ) (s : Bytes) → (c == 10) ≡ false → end_line c s ≡ c ∷ s
    kept c [] h = rw h refl
    kept c (d ∷ s) h = refl

-- A byte that `TrimLeft` drops.
abbrev pub is_hierarchy : ℕ → Bool
is_hierarchy c = c == b'0' || c == b':' || c == b'/'

-- Where the table of mounts is read and the program is in a cgroup of version 2, of a name that does
-- not begin with a zero, a colon or a slash, RunE finds its directory: the name below the mount of the
-- first cgroup2 of the table, or below the usual place where the table has none.
pub cgroup_of-own :
    (lib : Library) (w : Found) (ms : List Mount) (c : ℕ) (name : Bytes)
    → All IsEntry ms
    → is_hierarchy c ≡ false
    → is_free 10 (c ∷ name) ≡ true
    → w.mounts ≡ record { content = text_of ms; error = none }
    → w.own_cgroup ≡ record { content = codes "0::/" ++ (c ∷ name) ++ 10 ∷ []; error = none }
    → cgroup_of lib w ≡ (lib.join (first_cgroup ms) (c ∷ name), none)
unfolding cgroup_of trim_hierarchy
cgroup_of-own lib w ms c name entries begins free mounts own =
    rw (mounts, own)
      (rw (cgroup_root-text ms entries)
        (rw (trim_lines-line (codes "0::/" ++ c ∷ name) free) (rw begins refl)))
