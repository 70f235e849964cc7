-- ===== src/Lobby/Safety.antt =====
-- What holds of a lobby between two handlers (internal/lobby/lobby.go), and the calls that all of them
-- make.
use snap_gs.Base.{
  false, ◌≤◌, ◌≡◌, ◌≢◌, refl, inl, inr, Bytes, [], Option, none, some, length, bytes_eq, Bool-cases,
}
use snap_gs.Errors.{Err, is_done}
use snap_gs.Match.{Time}
use snap_gs.Players.Invariant.{IsValid}
use snap_gs.Lobby.{Lobby, Env, Content}
use snap_gs.Lobby.Stat.{set_stat, rem_stat, new_stat}
use snap_gs.Lobby.Stop.{cancel_only}
use snap_gs.Lobby.Stop.Laws.{
  IsClosing, next_reason, Stopped, Stopped-IsClosing, cancel_only-Stopped,
}
use snap_gs.Lobby.Collect.{collect, queue_size}
use snap_gs.Lobby.Collect.Laws.{collect-bounded}

-- How far a lobby is: its reason may be anything, there is one, or it is this one, which is not the plain
-- end of the lobby.
pub data Stage : Type 0 where
  unbound over : Stage
  bound : Err → Stage

abbrev pub Settled : Stage → Option Err → Type 0
Settled unbound reason = Unit {0}
Settled over reason = reason ≢ none
Settled (bound r) reason = (reason ≡ some r) × (is_done r ≡ false)

-- A further reason leaves a lobby where it is.
next_Settled :
    (stage : Stage) (old : Option Err) (r : Err)
    → Settled stage old
    → Settled stage (some (next_reason old r))
next_Settled unbound old r h = tt
next_Settled over old r h = λ x. cc
next_Settled (bound e) old r (same, real) = (rw (same, real) refl, real)

-- The players are valid, the channel `done` fits the reason, the channel of matches its size, and the
-- reason the stage.
pub record IsSafe {F : Type 0} (stage : Stage) (l : Lobby F) : Type 0 where
  pub players : IsValid l.players
  pub closing : IsClosing l.done l.reason
  pub queue : length l.matches ≤ queue_size
  pub settled : Settled stage l.reason

-- A handler returns, and leaves the lobby safe.
abbrev pub Returns : {F : Type 0} → Stage → Option (Lobby F) → Type 0
Returns {F} stage r = (l : Lobby F) × (r ≡ some l) × IsSafe stage l

module _ {F : Type 0} where
  pub weaken : {stage : Stage} (l : Lobby F) → IsSafe stage l → IsSafe unbound l
  weaken l v = record { players = v.players; closing = v.closing; queue = v.queue; settled = tt }

module _ {F : Type 0} {stage : Stage} where
  pub set_stat-IsSafe :
      (n : Bytes) (c : Option Content) (l : Lobby F)
      → IsSafe stage l
      → IsSafe stage (set_stat n c l)
  unfolding set_stat
  set_stat-IsSafe n c l v = record {
    players = v.players;
    closing = v.closing;
    queue = v.queue;
    settled = v.settled;
  }

  pub rem_stat-IsSafe : (n : Bytes) (l : Lobby F) → IsSafe stage l → IsSafe stage (rem_stat n l)
  unfolding rem_stat
  rem_stat-IsSafe n l v = set_stat-IsSafe n none l v

  pub new_stat-IsSafe :
      (n : Bytes) (t : Time) (l : Lobby F) → IsSafe stage l → IsSafe stage (new_stat n t l)
  unfolding new_stat
  new_stat-IsSafe n t l v = set_stat-IsSafe n _ l v

module _ {F : Type 0} (env : Env F) where
  -- After a cancellation there is a reason, whatever there was before.
  pub Stopped-settles :
      {stage : Stage} (r : Err) (l l' : Lobby F)
      → IsSafe stage l
      → Stopped env l r l'
      → IsSafe over l'
  Stopped-settles r l l' v s = record {
    players = rw s.players v.players;
    closing = Stopped-IsClosing env l r l' v.closing s;
    queue = rw s.matches v.queue;
    settled = let same = s.reason in λ x. cc;
  }

  pub cancel_only-settles :
      {stage : Stage} (r : Err) (l : Lobby F) → IsSafe stage l → Returns over (cancel_only env r l)
  cancel_only-settles r l v =
      let (l', e, s) = cancel_only-Stopped env r l v.closing in (l', e, Stopped-settles r l l' v s)

module _ {F : Type 0} {stage : Stage} (env : Env F) where
  pub collect-IsSafe :
      (now : Time) (l : Lobby F) → IsSafe stage l → IsSafe stage (collect env now l)
  unfolding collect set_stat
  collect-IsSafe now l v = elim (Bool-cases (bytes_eq l.m.match_id [])) [
    | inl idle ↦
        rw (idle, collect)
          (record {
            players = v.players;
            closing = v.closing;
            queue = v.queue;
            settled = v.settled;
          })
    | inr playing ↦
        rw (playing, collect)
          (record {
            players = v.players;
            closing = v.closing;
            queue = rw (playing, collect) at (collect-bounded env now l v.queue);
            settled = v.settled;
          })
  ]

  pub Stopped-IsSafe :
      (r : Err) (l l' : Lobby F) → IsSafe stage l → Stopped env l r l' → IsSafe stage l'
  Stopped-IsSafe r l l' v s = record {
    players = rw s.players v.players;
    closing = Stopped-IsClosing env l r l' v.closing s;
    queue = rw s.matches v.queue;
    settled = rw s.reason (next_Settled stage l.reason r v.settled);
  }

  pub cancel_only-IsSafe :
      (r : Err) (l : Lobby F) → IsSafe stage l → Returns stage (cancel_only env r l)
  cancel_only-IsSafe r l v =
      let (l', e, s) = cancel_only-Stopped env r l v.closing in (l', e, Stopped-IsSafe r l l' v s)
