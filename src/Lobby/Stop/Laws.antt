-- ===== src/Lobby/Stop/Laws.antt =====
-- Which reason a lobby ends with (internal/lobby/lobby.go, Cancel).
use snap_gs.Base.{
  ◌≡◌, ◌≢◌, refl, ℕ, ap, sym, ◌∙◌, inl, inr, false, List, [], ◌∷◌, Option, none, some,
  if◌then◌else◌, Bool-cases,
}
use snap_gs.Errors.{Err, is_done}
use snap_gs.Lobby.{Done, absent, opened, closed, Lobby, Env, pid_of_running}
use snap_gs.Lobby.Stop.{reported, close, settle, signal, cancel_with, cancel, cancel_only}

-- The channel is closed exactly when there is a reason, if there is a channel.
abbrev pub IsClosing : Done → Option Err → Type 0
IsClosing absent reason = Unit {0}
IsClosing opened reason = reason ≡ none
IsClosing closed reason = reason ≢ none

-- The reason on record after one more: the first one that is not the plain end of the lobby stays.
abbrev pub next_reason : Option Err → Err → Err
next_reason none r = r
next_reason (some old) r = if is_done old then r else old

abbrev pub final_reason : Option Err → List Err → Option Err
final_reason old [] = old
final_reason old (r ∷ rs) = final_reason (some (next_reason old r)) rs

-- What a call of `Cancel` returns, by the reason on record before it.
abbrev pub answer : Option Err → Err → Option Err
answer none r = reported r
answer (some old) r = if is_done old then reported r else some old

-- The channel after a reason has come.
abbrev closing : Done → Done
closing absent = absent
closing opened = closed
closing closed = closed

close_open : (d : Done) → IsClosing d none → close d ≡ some (closing d)
close_open absent h = refl
close_open opened h = refl
close_open closed h = absurd (h refl)

closing_closed : (d : Done) (old : Err) → IsClosing d (some old) → d ≡ closing d
closing_closed absent old h = refl
closing_closed opened old h = cc
closing_closed closed old h = refl

next_kept :
    (reason : Option Err) (old r : Err)
    → reason ≡ some old
    → is_done old ≡ false
    → next_reason reason r ≡ old
next_kept reason old r e final = rw (e, final) refl

closing-IsClosing :
    (d : Done) (reason : Option Err) (r : Err) → IsClosing d reason → IsClosing (closing d) (some r)
closing-IsClosing absent reason r h = tt
closing-IsClosing opened reason r h = λ e. cc
closing-IsClosing closed reason r h = λ e. cc

module _ {F : Type 0} (env : Env F) where
  -- `Cancel` sets nothing but the reason, the channel and the signals.
  pub record Stopped (l : Lobby F) (r : Err) (l' : Lobby F) : Type 0 where
    pub reason : l'.reason ≡ some (next_reason l.reason r)
    pub done : l'.done ≡ closing l.done
    pub players : l'.players ≡ l.players
    pub matches : l'.matches ≡ l.matches
    pub m : l'.m ≡ l.m
    pub disk : l'.disk ≡ l.disk
    pub changed : l'.changed ≡ l.changed
    pub opts : l'.opts ≡ l.opts
    pub session : l'.session ≡ l.session

  signal-Stopped :
      (pid : Option ℕ) (r : Err) (l : Lobby F) (done : Done)
      → next_reason l.reason r ≡ r
      → done ≡ closing l.done
      → Stopped l r (signal env pid (record l { reason = some r; done = done }))
  unfolding signal
  signal-Stopped none r l done e d = record {
    reason = ap some (sym e);
    done = d;
    players = refl;
    matches = refl;
    m = refl;
    disk = refl;
    changed = refl;
    opts = refl;
    session = refl;
  }
  signal-Stopped (some pid) r l done e d = record {
    reason = ap some (sym e);
    done = d;
    players = refl;
    matches = refl;
    m = refl;
    disk = refl;
    changed = refl;
    opts = refl;
    session = refl;
  }

  cancel_with-Stopped :
      (r : Err) (l : Lobby F) (old : Option Err)
      → l.reason ≡ old
      → IsClosing l.done old
      → (l' : Lobby F) × (cancel_with env r l old ≡ some (l', answer old r)) × Stopped l r l'
  unfolding cancel_with settle
  cancel_with-Stopped r l none same ok =
      rw (close_open l.done ok, settle)
        (
          _,
          refl,
          signal-Stopped (pid_of_running l.process) r l (closing l.done) (rw same refl) refl,
        )
  cancel_with-Stopped r l (some old) same ok = elim (Bool-cases (is_done old)) [
    | inl plain ↦ rw plain (
      _,
      refl,
      signal-Stopped (pid_of_running l.process) r l l.done (rw (same, plain) refl)
          (closing_closed l.done old ok),
    )
    | inr final ↦ rw final (
      l,
      refl,
      record {
        reason = same ∙ ap some (sym (next_kept l.reason old r same final));
        done = closing_closed l.done old ok;
        players = refl;
        matches = refl;
        m = refl;
        disk = refl;
        changed = refl;
        opts = refl;
        session = refl;
      },
    )
  ]

  -- A call of `Cancel` with a reason returns when the channel fits the reason on record: it does not
  -- close the channel twice. The first reason other than `lobby done` stays on record.
  pub cancel-Stopped :
      (r : Err) (l : Lobby F)
      → IsClosing l.done l.reason
      → (l' : Lobby F) × (cancel env (some r) l ≡ some (l', answer l.reason r)) × Stopped l r l'
  unfolding cancel
  cancel-Stopped r l ok = cancel_with-Stopped r l l.reason refl ok

  pub Stopped-IsClosing :
      (l : Lobby F) (r : Err) (l' : Lobby F)
      → IsClosing l.done l.reason
      → Stopped l r l'
      → IsClosing l'.done l'.reason
  Stopped-IsClosing l r l' ok s =
      rw (s.done, s.reason) (closing-IsClosing l.done l.reason (next_reason l.reason r) ok)

  pub cancel_only-Stopped :
      (r : Err) (l : Lobby F)
      → IsClosing l.done l.reason
      → (l' : Lobby F) × (cancel_only env r l ≡ some l') × Stopped l r l'
  unfolding cancel_only
  cancel_only-Stopped r l ok =
      let (l', returned, stopped) = cancel-Stopped r l ok in
      (l', rw (returned, cancel_only) refl, stopped)

  -- `Cancel` called for each of some reasons, by whichever goroutine.
  unfoldable pub cancel_each : List Err → Lobby F → Option (Lobby F)
  cancel_each [] l = some l
  cancel_each (r ∷ rs) l = elim (cancel_only env r l) [ none ↦ none | some l' ↦ cancel_each rs l' ]

  -- Where the channel `done` fits the reason on record, any calls of `Cancel`, in any order, return, and
  -- leave the first reason other than `lobby done`, or `lobby done` if there was no other. The channel
  -- fits that reason again: if it was made, it is closed exactly when there is a reason.
  pub cancel_each-final_reason :
      (rs : List Err) (l : Lobby F)
      → IsClosing l.done l.reason
      → (l' : Lobby F) × (cancel_each rs l ≡ some l')
        × (l'.reason ≡ final_reason l.reason rs)
        × IsClosing l'.done l'.reason
  unfolding cancel_each
  cancel_each-final_reason [] l ok = (l, refl, refl, ok)
  cancel_each-final_reason (r ∷ rs) l ok =
      let (l1, e, s) = cancel_only-Stopped r l ok in
      let (l2, e2, reason, ok2) = cancel_each-final_reason rs l1 (Stopped-IsClosing l r l1 ok s) in
      (l2, rw (e, cancel_each) e2, reason ∙ ap (λ o. final_reason o rs) s.reason, ok2)
