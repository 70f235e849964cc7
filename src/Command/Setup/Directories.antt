-- ===== src/Command/Setup/Directories.antt =====
-- The directories that `RunE` makes stay while it goes on (public/cmd/lobby.go, RunE).
use snap_gs.Base.{
  ℕ, zero, suc, ◌≡◌, ◌≢◌, inl, inr, Bytes, codes, Bool, true, List, [], ◌∷◌, Option, none, some,
  is_nil, bytes_eq, Bool-cases,
}
use snap_gs.Errors.{Err}
use snap_gs.Command.Setup.{
  Os, Url, Result, ok, failed, Library, and_then, checked, make_dir, write_values, write_query,
  enter, cgroup_file, plain_file, in_cgroup, pid_file, pid_files,
}

-- What the files of a system do: MkdirAll leaves a directory where it succeeds, directories stay, and
-- no directory is written as a file.
pub record IsFileSystem {S : Type 0} (os : Os S) (is_dir : Bytes → S → Bool) : Type 0 where
  pub made :
      (p : Bytes) (s : S) → (os.mkdir_all p s).1 ≡ none → is_dir p (os.mkdir_all p s).0 ≡ true
  pub mkdir_keeps : (p q : Bytes) (s : S) → is_dir q s ≡ true → is_dir q (os.mkdir_all p s).0 ≡ true
  pub write_keeps :
      (p c q : Bytes) (s : S) → is_dir q s ≡ true → is_dir q (os.write_file p c s).0 ≡ true
  pub write_refuses : (p c : Bytes) (s : S) → is_dir p s ≡ true → (os.write_file p c s).1 ≢ none

module _ {S : Type 0} (lib : Library) (os : Os S) (is_dir : Bytes → S → Bool)
    (fs : IsFileSystem os is_dir) where
  abbrev pub Keeps {ℓ} : {A : Type ℓ} → Bytes → S × Result A → Type 0
  Keeps q r = is_dir q r.0 ≡ true

  and_then-Keeps {ℓ κ} :
      {A : Type ℓ} {B : Type κ} (q : Bytes) (r : S × Result A) (f : A → S → S × Result B)
      → Keeps q r
      → ((a : A) (s : S) → is_dir q s ≡ true → Keeps q (f a s))
      → Keeps q (and_then r f)
  and_then-Keeps q (s, failed e) f h k = h
  and_then-Keeps q (s, ok a) f h k = k a s h

  checked-Keeps : (q : Bytes) (r : S × Option Err) → is_dir q r.0 ≡ true → Keeps q (checked r)
  checked-Keeps q (s, none) h = h
  checked-Keeps q (s, some e) h = h

  make_dir-Keeps : (q p : Bytes) (s : S) → is_dir q s ≡ true → Keeps q (make_dir lib os p s)
  unfolding make_dir
  make_dir-Keeps q [] s h = h
  make_dir-Keeps q (c ∷ p) s h =
      checked-Keeps q (os.mkdir_all (c ∷ p) s) (fs.mkdir_keeps (c ∷ p) q s h)

  written-Keeps :
      (q p c : Bytes) (s : S) → is_dir q s ≡ true → Keeps q (checked (os.write_file p c s))
  written-Keeps q p c s h = checked-Keeps q (os.write_file p c s) (fs.write_keeps p c q s h)

  write_values-Keeps :
      (q dir key : Bytes) (vs : List Bytes) (s : S)
      → is_dir q s ≡ true
      → Keeps q (write_values lib os dir key vs s)
  unfolding write_values
  write_values-Keeps q dir key [] s h = h
  write_values-Keeps q dir key (v ∷ vs) s h =
      and_then-Keeps q (checked (os.write_file (lib.join dir key) v s)) _
        (written-Keeps q (lib.join dir key) v s h) (λ _ t. write_values-Keeps q dir key vs t)

  write_query-Keeps :
      (q dir : Bytes) (kvs : List (Bytes × List Bytes)) (s : S)
      → is_dir q s ≡ true
      → Keeps q (write_query lib os dir kvs s)
  unfolding write_query
  write_query-Keeps q dir [] s h = h
  write_query-Keeps q dir ((key, values) ∷ kvs) s h =
      and_then-Keeps q (write_values lib os dir key values s) _
        (write_values-Keeps q dir key values s h) (λ _ t. write_query-Keeps q dir kvs t)

  enter-Keeps :
      (q root : Bytes) (pid i : ℕ) (procs : Bytes) (s : S)
      → is_dir q s ≡ true
      → Keeps q (enter lib os root pid i procs s)
  enter-Keeps q root pid (suc i) procs s h = h
  enter-Keeps q root pid zero procs s h =
      and_then-Keeps q (checked (os.write_file procs _ s)) _ (written-Keeps q procs _ s h)
        (λ _ t. written-Keeps q (lib.join root (codes "cgroup.subtree_control")) (codes "+cpu") t)

  cgroup_file-Keeps :
      (q root : Bytes) (pid i : ℕ) (u : Url) (s : S)
      → is_dir q s ≡ true
      → Keeps q (cgroup_file lib os root pid i u s)
  unfolding cgroup_file
  cgroup_file-Keeps q root pid i u s h =
      let dir = lib.join root u.opaque in
      let procs = lib.join dir (codes "cgroup.procs") in
      elim (Bool-cases (is_nil dir)) [
        | inl given ↦ rw given h
        | inr other ↦ rw other (
            and_then-Keeps q (checked (os.mkdir_all dir s)) _
              (checked-Keeps q (os.mkdir_all dir s) (fs.mkdir_keeps dir q s h))
              (λ _ s1 h1.
                and_then-Keeps q (enter lib os root pid i procs s1) _
                  (enter-Keeps q root pid i procs s1 h1)
                  (λ _ s2 h2.
                    and_then-Keeps q (s2, lib.parse_query u.raw_query) _ h2
                      (λ kvs s3 h3.
                        and_then-Keeps q (write_query lib os dir kvs s3) _
                          (write_query-Keeps q dir kvs s3 h3) (λ _ s4 h4. h4)))))
      ]

  plain_file-Keeps :
      (q file : Bytes) (u : Url) (s : S) → is_dir q s ≡ true → Keeps q (plain_file lib os file u s)
  unfolding plain_file
  plain_file-Keeps q file u s h =
      and_then-Keeps q (make_dir lib os u.path s) _ (make_dir-Keeps q u.path s h) (λ _ t k. k)

  in_cgroup-Keeps :
      (q : Bytes) (cgroup : Bytes × Option Err) (pid i : ℕ) (u : Url) (s : S)
      → is_dir q s ≡ true
      → Keeps q (in_cgroup lib os cgroup pid i u s)
  in_cgroup-Keeps q (root, none) pid i u s h = cgroup_file-Keeps q root pid i u s h
  in_cgroup-Keeps q (root, some e) pid i u s h = h

  pid_file-Keeps :
      (q : Bytes) (cgroup : Bytes × Option Err) (pid i : ℕ) (file : Bytes) (s : S)
      → is_dir q s ≡ true
      → Keeps q (pid_file lib os cgroup pid i file s)
  unfolding pid_file
  pid_file-Keeps q cgroup pid i file s h =
      and_then-Keeps q (s, lib.parse file) _ h
        (λ u t k. elim (Bool-cases (bytes_eq u.scheme (codes "cgroup"))) [
          | inl own ↦ rw own (in_cgroup-Keeps q cgroup pid i u t k)
          | inr other ↦ rw other (plain_file-Keeps q file u t k)
        ])

  pub pid_files-Keeps :
      (q : Bytes) (cgroup : Bytes × Option Err) (pid i : ℕ) (files : List Bytes) (s : S)
      → is_dir q s ≡ true
      → Keeps q (pid_files lib os cgroup pid i files s)
  unfolding pid_files
  pid_files-Keeps q cgroup pid i [] s h = h
  pid_files-Keeps q cgroup pid i (file ∷ files) s h =
      and_then-Keeps q (pid_file lib os cgroup pid i file s) _
        (pid_file-Keeps q cgroup pid i file s h)
        (λ file' t k.
          and_then-Keeps q (pid_files lib os cgroup pid (suc i) files t) _
            (pid_files-Keeps q cgroup pid (suc i) files t k) (λ _ u l. l))
