-- ===== src/Command/Setup/PidFiles.antt =====
-- A --pidfile that is a plain path is made a directory, so that no lobby can start
-- (public/cmd/lobby.go, RunE; internal/lobby/lobby.go, alloc).
use mathlib.Core.Path.{subst}
use snap_gs.Base.{
  ℕ, ◌≡◌, ◌≢◌, ap, sym, ◌∙◌, Bytes, codes, Bool, true, false, List, [], ◌∷◌, Option, none, is_nil,
  decimal, bytes_eq,
}
use snap_gs.Errors.{Err}
use snap_gs.Options.{Options}
use snap_gs.Lobby.Stat.{split_comma}
use snap_gs.Lobby.Stat.Commas.{
  first_of, HasNoComma, first_of-split_comma, split_comma-plain, split_comma-append,
}
use snap_gs.Lobby.Alloc.{Answers, alloc, error_of}
use snap_gs.Lobby.Alloc.Handles.{alloc_blocked}
use snap_gs.Command.Setup.{
  Os, Url, ok, Library, Found, checked, make_dir, plain_file, pid_file, pid_files, cgroup_of,
  join_comma, setup,
}
use snap_gs.Command.Setup.Success.{and_then-ok, checked-ok, ok_of, with_flags, pid_files-of_setup}
use snap_gs.Command.Setup.Directories.{IsFileSystem, pid_files-Keeps}

-- The first part of a list that is joined and split again.
first_of-join_comma :
    (file : Bytes) (files : List Bytes)
    → HasNoComma file
    → first_of (split_comma (join_comma (file ∷ files))) ≡ file
unfolding join_comma
first_of-join_comma file [] h = ap first_of (split_comma-plain file h)
first_of-join_comma file (next ∷ files) h =
    ap first_of (split_comma-append file (join_comma (next ∷ files)) h)

module _ {S : Type 0} (lib : Library) (os : Os S) (is_dir : Bytes → S → Bool)
    (fs : IsFileSystem os is_dir) where
  -- A plain file that was passed is unchanged, and is a directory.
  plain_file-made :
      (c : ℕ) (f file : Bytes) (u : Url) (s t : S)
      → u.path ≡ c ∷ f
      → plain_file lib os (c ∷ f) u s ≡ (t, ok file)
      → (file ≡ c ∷ f) × (is_dir (c ∷ f) t ≡ true)
  unfolding plain_file make_dir
  plain_file-made c f file u s t own h =
      let (_, s1, made, last) = and_then-ok (make_dir lib os u.path s) _ t file h in
      let (state, same) = ok_of s1 t (c ∷ f) file last in
      let made' : checked (os.mkdir_all (c ∷ f) s) ≡ (s1, ok tt) = rw own at made in
      let (after, fine) = checked-ok (os.mkdir_all (c ∷ f) s) s1 made' in
      (sym same, rw (← state, ← after) (fs.made (c ∷ f) s fine))

  first_file-made :
      (cgroup : Bytes × Option Err) (pid c : ℕ) (f : Bytes) (rest files : List Bytes) (u : Url)
      (s t : S)
      → lib.parse (c ∷ f) ≡ ok u
      → bytes_eq u.scheme (codes "cgroup") ≡ false
      → u.path ≡ c ∷ f
      → pid_files lib os cgroup pid 0 ((c ∷ f) ∷ rest) s ≡ (t, ok files)
      → (later : List Bytes) × (files ≡ (c ∷ f) ∷ later) × (is_dir (c ∷ f) t ≡ true)
  unfolding pid_files pid_file
  first_file-made cgroup pid c f rest files u s t parsed plain own h =
      let (file, s1, first, more) =
        and_then-ok (pid_file lib os cgroup pid 0 (c ∷ f) s) _ t files h in
      let (later, s2, others, last) =
        and_then-ok (pid_files lib os cgroup pid 1 rest s1) _ t files more in
      let (state, same) = ok_of s2 t (file ∷ later) files last in
      let first' : plain_file lib os (c ∷ f) u s ≡ (s1, ok file) = rw (parsed, plain) at first in
      let (kept, dir) = plain_file-made c f file u s s1 own first' in
      let stays : is_dir (c ∷ f) (pid_files lib os cgroup pid 1 rest s1).0 ≡ true =
        pid_files-Keeps lib os is_dir fs (c ∷ f) cgroup pid 1 rest s1 dir in
      let end : (pid_files lib os cgroup pid 1 rest s1).0 ≡ t = ap (λ x. x.0) others ∙ state in
      (later, sym same ∙ ap (λ g. g ∷ later) kept, rw end at stays)

  -- Where the first entry of --pidfile, as the files that --flagdir held when its watch began leave it, is
  -- a plain path, and RunE comes as far as to run the lobbies, this path is a directory then. Whenever
  -- it still is one, and the options are still those, `alloc` fails, whatever the system answers to its
  -- other calls.
  pub plain_pid_file-fails :
      (w : Found) (o o' : Options) (s t t' : S) (c : ℕ) (f : Bytes) (rest : List Bytes) (u : Url)
      (a : Answers)
      → split_comma (with_flags lib w o).pid_file ≡ (c ∷ f) ∷ rest
      → lib.parse (c ∷ f) ≡ ok u
      → bytes_eq u.scheme (codes "cgroup") ≡ false
      → u.path ≡ c ∷ f
      → setup lib os w o s ≡ (t, ok o')
      → is_dir (c ∷ f) t' ≡ true
      → a.pid_error ≡ (os.write_file (c ∷ f) (decimal w.pid) t').1
      → (is_dir (c ∷ f) t ≡ true) × (error_of (alloc o' a).1 ≢ none)
  plain_pid_file-fails w o o' s t t' c f rest u a parts parsed plain own h still refused =
      let (files, s', e, same) = pid_files-of_setup lib os w o o' s t h in
      let (later, begins, dir) =
        first_file-made (cgroup_of lib w) w.pid c f rest files u s' t parsed plain own
          (rw parts at e) in
      let whole : HasNoComma (c ∷ f) =
        subst (λ ps. HasNoComma (first_of ps)) parts
          (first_of-split_comma (with_flags lib w o).pid_file) in
      let written : o'.pid_file ≡ join_comma ((c ∷ f) ∷ later) =
        ap (λ x. x.pid_file) same ∙ ap join_comma begins in
      let first : first_of (split_comma o'.pid_file) ≡ c ∷ f =
        ap (λ x. first_of (split_comma x)) written ∙ first_of-join_comma (c ∷ f) later whole in
      (
        dir,
        alloc_blocked o' a (ap is_nil first)
            (λ fine. fs.write_refuses (c ∷ f) (decimal w.pid) t' still (sym refused ∙ fine)),
      )
