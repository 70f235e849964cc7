-- ===== src/Lobby/Scanner/Handover.antt =====
-- What a scanner leaves at the end of its stream (internal/lobby/scan.go, scanner;
-- internal/lobby/collect.go, collect).
use snap_gs.Base.{true, false, ◌≡◌, refl, ap, ◌∙◌, Bytes, List, [], some}
use snap_gs.Errors.{lobby_done}
use snap_gs.Match.{Time}
use snap_gs.Lobby.{Lobby, Env}
use snap_gs.Lobby.Stop.Laws.{cancel_only-Stopped}
use snap_gs.Lobby.Safety.{Stage, over, Stopped-settles, IsSafe, collect-IsSafe}
use snap_gs.Lobby.Collect.{collect}
use snap_gs.Lobby.Collect.Laws.{handed_over, collect-idle, collect-handed}
use snap_gs.Lobby.Line.{scan}
use snap_gs.Lobby.Line.Safety.{scan-IsSafe}
use snap_gs.Lobby.Scanner.{collect_on, finish, scanner}

module _ {F : Type 0} (env : Env F) where
  -- The scanner of the standard output, over any lines, returns for a safe lobby, whose channel of matches
  -- is open, without a run-time panic: it closes the channel once, and sends nothing to it after that. It
  -- leaves a safe lobby with a reason and no match in progress. The match that was in
  -- progress after the last line, if it has an id and kills, is the last of the channel then, unless
  -- the channel was full, and the matches before it are as they were.
  pub scanner-hands_over :
      {stage : Stage} (lines : List (Bytes × Time)) (now : Time) (l : Lobby F)
      → IsSafe stage l
      → (l' : Lobby F) × (out : List Bytes) × (before : Lobby F) × (scan env 1 lines l
          ≡ some (before, out))
        × (scanner env 1 lines now false l ≡ some (l', out, true))
        × IsSafe over l'
        × (l'.m.match_id ≡ [])
        × (l'.matches ≡ handed_over env before)
  unfolding scanner finish collect_on
  scanner-hands_over lines now l v =
      let (before, out, e, v1) = scan-IsSafe env 1 lines l v in
      let collected = collect env now before in
      let v2 = collect-IsSafe env now before v1 in
      let (l', stopped, s) = cancel_only-Stopped env lobby_done collected v2.closing in
      (
        l',
        out,
        before,
        e,
        rw (scanner, finish, e, stopped) refl,
        Stopped-settles env lobby_done collected l' v2 s,
        ap (λ m. m.match_id) s.m ∙ collect-idle env now before,
        s.matches ∙ collect-handed env now before,
      )
