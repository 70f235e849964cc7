-- ===== src/Command/Setup/Success.antt =====
-- What `RunE` has done when it succeeds: the pid files are those of the cgroups (public/cmd/lobby.go).
use snap_gs.Base.{
  ℕ, suc, ◌≡◌, ◌≢◌, refl, ap, sym, ◌∙◌, inl, inr, Bytes, codes, List, [], ◌∷◌, Option, none, some,
  arith, if◌then◌else◌, is_nil, bytes_eq, Bool-cases,
}
use snap_gs.Errors.{Err}
use snap_gs.Options.{Options}
use snap_gs.Options.Files.{apply}
use snap_gs.Lobby.Stat.{split_comma}
use snap_gs.Command.Setup.{
  Os, Url, Result, ok, failed, Library, Found, and_then, checked, make_dir, write_query, enter,
  cgroup_file, plain_file, in_cgroup, pid_file, pid_files, cgroup_of, join_comma, with_first,
  watch_flags, setup,
}

failed-ne-ok {ℓ} : {B : Type ℓ} (e : Err) (b : B) → ◌≢◌ {A = Result B} (failed e) (ok b)
failed-ne-ok e b h = absurd (ground arith)

-- What led to a success.
pub and_then-ok {ℓ κ} :
    {S : Type 0} {A : Type ℓ} {B : Type κ} (r : S × Result A) (f : A → S → S × Result B) (t : S)
    (b : B)
    → and_then r f ≡ (t, ok b)
    → (a : A) × (s : S) × (r ≡ (s, ok a)) × (f a s ≡ (t, ok b))
and_then-ok (s, ok a) f t b h = (a, s, refl, h)
and_then-ok (s, failed e) f t b h = absurd (failed-ne-ok e b (ap (λ x. x.1) h))

pub checked-ok :
    {S : Type 0} (r : S × Option Err) (t : S) → checked r ≡ (t, ok tt) → (r.0 ≡ t) × (r.1 ≡ none)
checked-ok (s, none) t h = (ap (λ x. x.0) h, refl)
checked-ok (s, some e) t h = absurd (failed-ne-ok e tt (ap (λ x. x.1) h))

pub ok_of {ℓ} :
    {A : Type ℓ} {S : Type 0}
    → (s t : S) (a b : A) → ◌≡◌ {A = S × Result A} (s, ok a) (t, ok b)
    → (s ≡ t) × (a ≡ b)
ok_of s t a b h = (ap (λ x. x.0) h, cc (ap (λ x. x.1) h))

-- The options after the watch of --flagdir has read what is there, where there is one.
unfoldable pub with_flags : Library → Found → Options → Options
unfolding apply
with_flags lib w o = if is_nil w.flag_dir then o else apply lib.decoders o w.first_flags o

module _ {S : Type 0} (lib : Library) (os : Os S) where
  with_first-ok :
      (w : Found) (o o' : Options) (s t : S) (e : Option Err)
      → with_first lib os w o s e ≡ (t, ok o')
      → o' ≡ apply lib.decoders o w.first_flags o
  with_first-ok w o o' s t none h = sym (ok_of s t _ o' h).1
  with_first-ok w o o' s t (some e) h = absurd (failed-ne-ok e o' (ap (λ x. x.1) h))

  watch_flags-ok :
      (w : Found) (o o' : Options) (dir : Bytes) (s t : S)
      → watch_flags lib os w dir o s ≡ (t, ok o')
      → o' ≡ (if is_nil dir then o else apply lib.decoders o w.first_flags o)
  watch_flags-ok w o o' [] s t h = sym (ok_of s t o o' h).1
  watch_flags-ok w o o' (c ∷ dir) s t h =
      let (_, s1, _, h1) = and_then-ok (checked (os.mkdir_all (c ∷ dir) s)) _ t o' h in
      with_first-ok w o o' s1 t w.watch_error h1

  -- The last step of a success.
  pub pid_files-of_setup :
      (w : Found) (o o' : Options) (s t : S)
      → setup lib os w o s ≡ (t, ok o')
      → (files : List Bytes) × (s' : S) × (pid_files lib os
            (cgroup_of lib w)
            w.pid
            0
            (split_comma (with_flags lib w o).pid_file)
            s'
          ≡ (t, ok files))
        × (o' ≡ record (with_flags lib w o) { pid_file = join_comma files })
  unfolding setup with_flags
  pid_files-of_setup w o o' s t h =
      let (_, s1, _, h1) = and_then-ok (make_dir lib os o.log_dir s) _ t o' h in
      let (_, s2, _, h2) = and_then-ok (make_dir lib os o.spec_dir s1) _ t o' h1 in
      let (_, s3, _, h3) = and_then-ok (make_dir lib os o.stat_dir s2) _ t o' h2 in
      let (o1, s4, watched, h4) = and_then-ok (watch_flags lib os w w.flag_dir o s3) _ t o' h3 in
      let (files, s5, e, h5) =
        and_then-ok (pid_files lib os (cgroup_of lib w) w.pid 0 (split_comma o1.pid_file) s4) _ t o'
          h4 in
      let (state, same) = ok_of s5 t (record o1 { pid_file = join_comma files }) o' h5 in
      let flags : o1 ≡ with_flags lib w o = watch_flags-ok w o o1 w.flag_dir s3 s4 watched in
      (
        files,
        s4,
        ap (λ x. pid_files lib os (cgroup_of lib w) w.pid 0 (split_comma (Options.pid_file x)) s4)
              (sym flags)
            ∙ e
            ∙ ap (λ x. (x, ok files)) state,
        sym same ∙ ap {A = Options} (λ x. record x { pid_file = join_comma files }) flags,
      )

  -- What becomes of an entry of --pidfile, by its URL.
  abbrev pub by_url : Bytes → Bytes → Result Url → Bytes
  by_url root file (failed e) = file
  by_url root file (ok u) =
      if bytes_eq u.scheme (codes "cgroup")
      then lib.join (lib.join root u.opaque) (codes "cgroup.procs")
      else file

  abbrev pub renamed : Bytes → List Bytes → List Bytes
  renamed root [] = []
  renamed root (file ∷ files) = by_url root file (lib.parse file) ∷ renamed root files

  cgroup_file-ok :
      (root : Bytes) (pid i : ℕ) (u : Url) (s t : S) (file : Bytes)
      → cgroup_file lib os root pid i u s ≡ (t, ok file)
      → file ≡ lib.join (lib.join root u.opaque) (codes "cgroup.procs")
  unfolding cgroup_file
  cgroup_file-ok root pid i u s t file h =
      let dir = lib.join root u.opaque in
      let procs = lib.join dir (codes "cgroup.procs") in
      elim (Bool-cases (is_nil dir)) [
        | inl given ↦ sym (ok_of s t procs file (rw given at h)).1
        | inr other ↦
            let (_, s1, _, h1) =
              and_then-ok (checked (os.mkdir_all dir s)) _ t file (rw other at h) in
            let (_, s2, _, h2) = and_then-ok (enter lib os root pid i procs s1) _ t file h1 in
            let (q, s3, _, h3) = and_then-ok (s2, lib.parse_query u.raw_query) _ t file h2 in
            let (_, s4, _, h4) = and_then-ok (write_query lib os dir q s3) _ t file h3 in
            sym (ok_of s4 t procs file h4).1
      ]

  in_cgroup-ok :
      (cgroup : Bytes × Option Err) (pid i : ℕ) (u : Url) (s t : S) (file : Bytes)
      → in_cgroup lib os cgroup pid i u s ≡ (t, ok file)
      → file ≡ lib.join (lib.join (cgroup.0) u.opaque) (codes "cgroup.procs")
  in_cgroup-ok (root, none) pid i u s t file h = cgroup_file-ok root pid i u s t file h
  in_cgroup-ok (root, some e) pid i u s t file h = absurd (failed-ne-ok e file (ap (λ x. x.1) h))

  plain_file-ok :
      (name : Bytes) (u : Url) (s t : S) (file : Bytes)
      → plain_file lib os name u s ≡ (t, ok file)
      → file ≡ name
  unfolding plain_file
  plain_file-ok name u s t file h =
      let (_, s1, _, h1) = and_then-ok (make_dir lib os u.path s) _ t file h in
      sym (ok_of s1 t name file h1).1

  pid_file-ok :
      (cgroup : Bytes × Option Err) (pid i : ℕ) (name : Bytes) (s t : S) (file : Bytes)
      → pid_file lib os cgroup pid i name s ≡ (t, ok file)
      → file ≡ by_url (cgroup.0) name (lib.parse name)
  unfolding pid_file
  pid_file-ok cgroup pid i name s t file h =
      let (u, s1, parsed, h1) = and_then-ok (s, lib.parse name) _ t file h in
      let url : lib.parse name ≡ ok u = ap (λ x. x.1) parsed in
      rw url (elim (Bool-cases (bytes_eq u.scheme (codes "cgroup"))) [
        | inl own ↦ rw own (in_cgroup-ok cgroup pid i u s1 t file (rw own at h1))
        | inr other ↦ rw other (plain_file-ok name u s1 t file (rw other at h1))
      ])

  pid_files-ok :
      (cgroup : Bytes × Option Err) (pid i : ℕ) (names files : List Bytes) (s t : S)
      → pid_files lib os cgroup pid i names s ≡ (t, ok files)
      → files ≡ renamed (cgroup.0) names
  unfolding pid_files
  pid_files-ok cgroup pid i [] files s t h = sym (ok_of s t [] files h).1
  pid_files-ok cgroup pid i (name ∷ names) files s t h =
      let (file, s1, first, h1) = and_then-ok (pid_file lib os cgroup pid i name s) _ t files h in
      let (later, s2, others, h2) =
        and_then-ok (pid_files lib os cgroup pid (suc i) names s1) _ t files h1 in
      sym (ok_of s2 t (file ∷ later) files h2).1
      ∙ ap (λ f. f ∷ later) (pid_file-ok cgroup pid i name s s1 file first)
      ∙ ap (λ gs. by_url (cgroup.0) name (lib.parse name) ∷ gs)
          (pid_files-ok cgroup pid (suc i) names later s1 s2 others)

  -- When RunE comes as far as to run the lobbies, it has changed no option but by the files that were in
  -- --flagdir when its watch began, and --pidfile. Each entry of the --pidfile that these files leave
  -- has become, if its scheme is `cgroup`, the file of the processes of its cgroup, below that of the
  -- program, and is as it was otherwise.
  pub setup-pid_file :
      (w : Found) (o o' : Options) (s t : S)
      → setup lib os w o s ≡ (t, ok o')
      → let o1 = with_flags lib w o in
        o' ≡ record o1 {
          pid_file = join_comma (renamed (cgroup_of lib w).0 (split_comma o1.pid_file));
        }
  setup-pid_file w o o' s t h =
      let (files, s', e, same) = pid_files-of_setup w o o' s t h in
      same
      ∙ ap (λ fs. record (with_flags lib w o) { pid_file = join_comma fs })
          (pid_files-ok (cgroup_of lib w) w.pid 0 (split_comma (with_flags lib w o).pid_file) files
            s' t e)
