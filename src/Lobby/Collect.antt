-- ===== src/Lobby/Collect.antt =====
-- How a match is handed to the collectors (internal/lobby/collect.go).
pub mod Laws
use snap_gs.Base.{ℕ, Bytes, codes, Bool, List, [], ◌∷◌, ◌++◌, if◌then◌else◌, length, ltb, bytes_eq}
use snap_gs.Match.{Time, Kill, Match, empty_match}
use snap_gs.Lobby.{Lobby, Env}
use snap_gs.Lobby.Stat.{rem_stat}

-- The size of the channel of matches.
abbrev pub queue_size : ℕ
queue_size = 10

module _ {F : Type 0} (env : Env F) where
  -- The `select` with its default: a match is discarded when the channel is full.
  unfoldable pub enqueue : Match F → List (Match F) → List (Match F)
  enqueue m queue = if ltb (length queue) queue_size then queue ++ m ∷ [] else queue

  abbrev queued : List (Kill F) → Lobby F → List (Match F)
  queued [] l = l.matches
  queued (_ ∷ _) l = enqueue l.m l.matches

  -- `now` is the time of the call.
  unfoldable pub collect : Time → Lobby F → Lobby F
  unfolding enqueue rem_stat
  collect now l =
      if bytes_eq l.m.match_id []
      then record l { m = record (l.m) { timestamp = now } }
      else rem_stat (codes "match")
          (record l { matches = queued l.m.kill_data l; m = empty_match env.floats now })
