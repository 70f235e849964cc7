-- ===== src/Lobby/Collect/Laws.antt =====
-- What becomes of a match (internal/lobby/collect.go, collect).
use snap_gs.Base.{
  ◌≤◌, ◌≡◌, refl, inl, inr, not, ◌||◌, ltb, if◌then◌else◌, is_nil, bytes_eq_iff, List, [], ◌∷◌,
  ◌++◌, arith, length, length-append, bytes_eq, bytes_key, Bool-cases,
}
use snap_gs.Match.{Time, Kill, Match, empty_match}
use snap_gs.Lobby.{Lobby, Env}
use snap_gs.Lobby.Stat.{set_stat}
use snap_gs.Lobby.Collect.{queue_size, enqueue, queued, collect}

module _ {F : Type 0} where
  pub enqueue-bounded :
      (env : Env F) (m : Match F) (queue : List (Match F))
      → length queue ≤ queue_size
      → length (enqueue env m queue) ≤ queue_size
  unfolding enqueue
  enqueue-bounded env m queue h = ground (arith, length-append queue (m ∷ []))

  queued-bounded :
      (env : Env F) (ks : List (Kill F)) (l : Lobby F)
      → length l.matches ≤ queue_size
      → length (queued env ks l) ≤ queue_size
  queued-bounded env [] l h = h
  queued-bounded env (k ∷ ks) l h = enqueue-bounded env l.m l.matches h

  -- A channel that holds ten matches at most still does after `collect`.
  pub collect-bounded :
      (env : Env F) (now : Time) (l : Lobby F)
      → length l.matches ≤ queue_size
      → length (collect env now l).matches ≤ queue_size
  unfolding collect set_stat
  collect-bounded env now l h = elim (Bool-cases (bytes_eq l.m.match_id [])) [
    | inl idle ↦ rw (idle, collect) h
    | inr playing ↦ rw (playing, collect) (queued-bounded env l.m.kill_data l h)
  ]

module _ {F : Type 0} (env : Env F) where
  -- The channel after the match in progress was handed over, if it has an id and kills and there is room.
  abbrev pub handed_over : Lobby F → List (Match F)
  handed_over l =
      if bytes_eq l.m.match_id [] || is_nil l.m.kill_data || not (ltb (length l.matches) queue_size)
      then l.matches
      else l.matches ++ l.m ∷ []

  pub collect-idle : (now : Time) (l : Lobby F) → (collect env now l).m.match_id ≡ []
  unfolding collect set_stat empty_match
  collect-idle now l = elim (Bool-cases (bytes_eq l.m.match_id [])) [
    | inl idle ↦ rw (idle, collect) ((bytes_eq_iff l.m.match_id []).0 idle)
    | inr playing ↦ rw (playing, collect) refl
  ]

  queued-handed :
      (ks : List (Kill F)) (l : Lobby F)
      → queued env ks l ≡ (
          if is_nil ks || not (ltb (length l.matches) queue_size)
          then l.matches
          else l.matches ++ l.m ∷ [])
  unfolding enqueue
  queued-handed [] l = refl
  queued-handed (k ∷ ks) l = ground arith

  pub collect-handed : (now : Time) (l : Lobby F) → (collect env now l).matches ≡ handed_over l
  unfolding collect set_stat
  collect-handed now l = elim (Bool-cases (bytes_eq l.m.match_id [])) [
    | inl idle ↦ rw (idle, collect) refl
    | inr playing ↦ rw (playing, collect) (queued-handed l.m.kill_data l)
  ]
