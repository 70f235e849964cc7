-- ===== src/Lobby/Scanner.antt =====
-- The goroutine that reads a stream of the game server (internal/lobby/scan.go, scanner). The lines are
-- what bufio makes of the stream up to its end, or up to a line that is longer than its buffer.
pub mod Handover
use snap_gs.Base.{
  true, false, not, ◌&&◌, is_nil, bytes_eq, ℕ, Bytes, Bool, ◌||◌, List, [], ◌∷◌, Option, none, some,
  if◌then◌else◌, ◌==◌,
}
use snap_gs.Errors.{Err, lobby_done}
use snap_gs.Match.{Time}
use snap_gs.Lobby.{Lobby, Env}
use snap_gs.Lobby.Stop.{cancel_only}
use snap_gs.Lobby.Collect.{collect}
use snap_gs.Lobby.Bolt.{◌>>=◌}
use snap_gs.Lobby.Line.{scan}

-- `close(l.matches)`: whether the channel is closed, and none for the panic of a second close.
abbrev pub close_matches : Bool → Option Bool
close_matches false = some true
close_matches true = none

module _ {F : Type 0} (env : Env F) where
  -- `collect` comes to send the match.
  abbrev pub sends : Lobby F → Bool
  sends l = not (bytes_eq l.m.match_id []) && not (is_nil l.m.kill_data)

  -- `collect`, where a send on a closed channel is a panic.
  unfoldable pub collect_on : Bool → Time → Lobby F → Option (Lobby F)
  collect_on is_closed now l = if is_closed && sends l then none else some (collect env now l)

  -- The deferred calls at the end of a stream, at the time `now`, but those that close the end of the pipe,
  -- which are `scanner_closes` of Lobby.Alloc: the match is handed over, then the channel is closed, and the
  -- lobby is cancelled last.
  unfoldable pub finish : ℕ → Time → Bool → Lobby F → Option (Lobby F × Bool)
  unfolding collect_on
  finish fd now is_closed l = do
    l1 ← if fd == 1 then collect_on is_closed now l else some l
    closed ← if fd == 1 then close_matches is_closed else some is_closed
    l2 ← cancel_only env lobby_done l1
    some (l2, closed)

  abbrev pub finished :
      ℕ → Time → Bool → Option (Lobby F × List Bytes) → Option (Lobby F × List Bytes × Bool)
  finished fd now is_closed r = do
    (l, out) ← r
    (l', closed) ← finish fd now is_closed l
    some (l', out, closed)

  -- `scanner`: the lobby, the lines that are logged, and whether the channel of matches is closed, as
  -- `is_closed` says of it before. It reads no other streams than 1 and 2.
  unfoldable pub scanner :
      ℕ → List (Bytes × Time) → Time → Bool → Lobby F → Option (Lobby F × List Bytes × Bool)
  unfolding finish
  scanner fd lines now is_closed l =
      finished fd now is_closed (if fd == 1 || fd == 2 then scan env fd lines l else some (l, []))
