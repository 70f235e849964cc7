-- ===== src/Lobby/Alloc/Handles.antt =====
-- What a run has opened is closed (internal/lobby/lobby.go, alloc and runc).
use snap_gs.Base.{
  ◌++◌, refl, ap, ◌∙◌, inl, inr, Option-cases, ◌≡◌, ◌≢◌, Bool, true, false, not, ◌||◌, List, [],
  ◌∷◌, Option, none, some, if◌then◌else◌, is_nil, arith,
}
use snap_gs.Errors.{Err}
use snap_gs.Options.{Options}
use snap_gs.Lobby.Stat.{split_comma}
use snap_gs.Lobby.Stat.Commas.{first_of}
use snap_gs.Lobby.Alloc.{
  Handle, prout, pwout, prerr, pwerr, watching, outfile, Action, opened, closed, joined, renamed,
  timed, Looked, at, nowhere, Answers, Result, failed, ready, has_outfile, done, alloc_files,
  alloc_spec, alloc_pipes, alloc, error_of, trace, Schedule, interleave, run_actions,
}

-- Which handles are open.
pub record Held : Type 0 where
  pub out_read : Bool
  pub out_write : Bool
  pub err_read : Bool
  pub err_write : Bool
  pub watch : Bool
  pub file : Bool

abbrev pub nothing : Held
nothing = record {
  out_read = false;
  out_write = false;
  err_read = false;
  err_write = false;
  watch = false;
  file = false;
}

abbrev pub is_held : Handle → Held → Bool
is_held prout s = s.out_read
is_held pwout s = s.out_write
is_held prerr s = s.err_read
is_held pwerr s = s.err_write
is_held watching s = s.watch
is_held outfile s = s.file

abbrev pub hold : Handle → Bool → Held → Held
hold prout b s = record s { out_read = b }
hold pwout b s = record s { out_write = b }
hold prerr b s = record s { err_read = b }
hold pwerr b s = record s { err_write = b }
hold watching b s = record s { watch = b }
hold outfile b s = record s { file = b }

-- One action, none where it cannot be done: nothing is opened or closed twice, an open file is not
-- renamed, and the scanners are not waited for while an end of a pipe is open: they would not end while
-- one that is written to is, and have closed those that they read when they have ended.
abbrev pub act : Action → Held → Option Held
act (opened h) s = if is_held h s then none else some (hold h true s)
act (closed h) s = if is_held h s then some (hold h false s) else none
act joined s = if s.out_write || s.err_write || s.out_read || s.err_read then none else some s
act renamed s = if s.file then none else some s
act timed s = some s

abbrev pub acts : List Action → Held → Option Held
acts [] s = some s
acts (x ∷ xs) s = elim (act x s) [ none ↦ none | some s' ↦ acts xs s' ]

-- What is open after `alloc`: nothing after an error, and otherwise the two pipes, with the watch and
-- Player.log where the options ask for them.
abbrev pub left_open : Options → Result → Held
left_open o (failed e) = nothing
left_open o (ready command) = record {
  out_read = true;
  out_write = true;
  err_read = true;
  err_write = true;
  watch = not (is_nil o.spec_dir);
  file = has_outfile o;
}

abbrev error_of_path : Looked → Option Err
error_of_path (nowhere e) = some e
error_of_path (at path) = none

-- The calls that the options ask for, in order, by their errors.
abbrev pub call_errors : Options → Answers → List (Option Err)
call_errors o a =
    error_of_path (a.look_path (first_of (split_comma o.exe)))
    ∷ (if is_nil (first_of (split_comma o.pid_file)) then none else a.pid_error)
    ∷ a.out_pipe
    ∷ a.out_size
    ∷ a.err_pipe
    ∷ a.err_size
    ∷ (if is_nil o.spec_dir then none else a.spec_error)
    ∷ (if has_outfile o then a.create_error else none)
    ∷ []

abbrev pub first_error : List (Option Err) → Option Err
first_error [] = none
first_error (none ∷ es) = first_error es
first_error (some e ∷ es) = some e

alloc-first_error :
    (o : Options) (a : Answers) → error_of (alloc o a).1 ≡ first_error (call_errors o a)
unfolding alloc alloc_pipes alloc_spec alloc_files
alloc-first_error o a = ground arith

-- A pid file that cannot be written stops every run.
pub alloc_blocked :
    (o : Options) (a : Answers)
    → is_nil (first_of (split_comma o.pid_file)) ≡ false
    → a.pid_error ≢ none
    → error_of (alloc o a).1 ≢ none
alloc_blocked o a given refused none_seen = let e = alloc-first_error o a in refused (ground arith)

alloc-left_open :
    (o : Options) (a : Answers) → acts (alloc o a).0 nothing ≡ some (left_open o (alloc o a).1)
unfolding alloc alloc_pipes alloc_spec alloc_files
alloc-left_open o a = ground arith

acts-append :
    (xs ys : List Action) (s t : Held) → acts xs s ≡ some t → acts (xs ++ ys) s ≡ acts ys t
acts-append [] ys s t h = ap (λ x. acts ys x) (cc h)
acts-append (x ∷ xs) ys s t h = elim (Option-cases (act x s)) [
  | inl stuck ↦ absurd (ground arith)
  | inr (s', e) ↦ rw (acts, e) (acts-append xs ys s' t (rw (acts, e) at h))
]

-- The two pipes are open, or closed.
abbrev pipes : Bool → Bool → Bool → Held
pipes b watch file = record {
  out_read = b;
  out_write = b;
  err_read = b;
  err_write = b;
  watch = watch;
  file = file;
}

-- The scanners end one after the other, between the calls of `runc`.
abbrev readers : Bool → List Action
readers true = closed prout ∷ closed prerr ∷ []
readers false = closed prerr ∷ closed prout ∷ []

scanners_first :
    (cs : List Bool)
    → (first : Bool) × (interleave cs (closed prout ∷ []) (closed prerr ∷ []) ≡ readers first)
scanners_first [] = (true, refl)
scanners_first (true ∷ cs) = (true, refl)
scanners_first (false ∷ cs) = (false, refl)

closes_all :
    (first : Bool) (bs : List Bool) (watch file : Bool)
    → acts
        (interleave bs (closed pwout ∷ closed pwerr ∷ []) (readers first))
        (pipes true watch file)
      ≡ some (pipes false watch file)
closes_all true (true ∷ false ∷ true ∷ bs) watch file = refl
closes_all true (false ∷ true ∷ false ∷ bs) watch file = refl
closes_all false (true ∷ false ∷ true ∷ bs) watch file = refl
closes_all false (false ∷ true ∷ false ∷ bs) watch file = refl
closes_all _ _ watch file = refl

run_actions-closed :
    (s : Schedule) (o : Options) (r : Result)
    → acts (run_actions s o r) (left_open o r) ≡ some nothing
unfolding run_actions done
run_actions-closed s o (failed e) = refl
run_actions-closed s o (ready command) =
    let (first, order) = scanners_first s.scanners in
    rw (run_actions, order)
      (acts-append (interleave s.deferred (closed pwout ∷ closed pwerr ∷ []) (readers first))
          (joined ∷ done o) (left_open o (ready command))
          (pipes false (not (is_nil o.spec_dir)) (has_outfile o))
          (closes_all first s.deferred (not (is_nil o.spec_dir)) (has_outfile o))
        ∙ ground arith)

-- Whatever the system answers: alloc returns the error of the first call that fails, of those that the
-- options ask for. After an error nothing is open; without one both pipes are, the watch where there
-- is a --specdir, and Player.log where there is a --logdir and --debug is set. A whole run,
-- ended by the deferred calls of runc and of the scanners, in whatever order these come, leaves nothing
-- open; on the way nothing is opened or closed twice, Player.log is closed before it is renamed, and all
-- ends of the pipes are closed when the scanners have been waited for.
pub trace-closed :
    (s : Schedule) (o : Options) (a : Answers)
    → (error_of (alloc o a).1 ≡ first_error (call_errors o a))
      × (acts (alloc o a).0 nothing ≡ some (left_open o (alloc o a).1))
      × (acts (trace s o a) nothing ≡ some nothing)
unfolding trace
trace-closed s o a =
    let opens = alloc-left_open o a in
    (
      alloc-first_error o a,
      opens,
      acts-append (alloc o a).0 (run_actions s o (alloc o a).1) nothing (left_open o (alloc o a).1)
            opens
          ∙ run_actions-closed s o (alloc o a).1,
    )
