-- ===== src/Lobby/Collector.antt =====
-- The goroutine that writes the files of the matches (internal/lobby/collect.go, collector;
-- internal/sync/sync.go). `filepath.Join` and the format of a time are parameters, and so is which
-- writes fail. A write is its name, the JSON of its attribute and the match as it is then.
pub mod Clean
use snap_gs.Base.{
  ℕ, Bytes, codes, Bool, true, false, ◌||◌, List, [], ◌∷◌, ◌++◌, map, Option, none, some,
  if◌then◌else◌, bytes_eq, ◌==◌, fields,
}
use snap_gs.Errors.{Err, lobby_bad, lobby_done}
use snap_gs.Match.{Time, Match, normalize, anonymize}
use snap_gs.Lobby.{Lobby, Env}
use snap_gs.Lobby.Stop.{cancel_only}
use snap_gs.Lobby.Bolt.{◌>>=◌}

pub record Meta : Type 0 where
  pub content_type : Bytes
  pub content_disposition : Bytes
  pub content_language : Bytes
  pub content_encoding : Bytes
  pub metadata : List (Bytes × Bytes)

pub record Write (F : Type 0) : Type 0 where
  pub file : Bytes
  pub meta : Meta
  pub content : Match F

-- The teams of a league match, by the four fields of the session.
abbrev pub league_of : List Bytes → List (Bytes × Bytes)
league_of (league ∷ team0 ∷ _ ∷ team1 ∷ []) =
    if bytes_eq league (codes "VRML") || bytes_eq league (codes "VXL")
    then (codes "assoc", league) ∷ (codes "team0", team0) ∷ (codes "team1", team1) ∷ []
    else []
league_of _ = []

unfoldable pub meta_of : Bytes → Meta
unfolding fields
meta_of session = record {
  content_type = codes "application/json";
  content_disposition = codes "inline";
  content_language = codes "en-US";
  content_encoding = codes "gzip";
  metadata = (codes "lobby", session) ∷ league_of (fields session);
}

-- `strings.ReplaceAll(ts, ":", "_")`.
abbrev no_colons : Bytes → Bytes
no_colons s = map (λ c. if c == b':' then b'_' else c) s

module _ {F : Type 0} (env : Env F) (stamp : Time → Bytes) (join : Bytes → Bytes → Bytes) where
  file_of : Lobby F → Match F → Bytes → Bytes
  file_of l m suffix = join l.opts.log_dir (no_colons (stamp m.timestamp) ++ suffix)

  -- The two writes of a match: normalized, and anonymized after that.
  unfoldable pub writes_of : Lobby F → Match F → List (Write F)
  unfolding file_of meta_of
  writes_of l m =
      let shifted = normalize env.floats m in
      record {
        file = file_of l m (codes "-match.json.gz");
        meta = meta_of l.session;
        content = shifted;
      }
      ∷ record {
        file = file_of l m (codes "-clean.json.gz");
        meta = meta_of l.session;
        content = anonymize shifted;
      }
      ∷ []

  -- The writes that are tried, in order; one that fails cancels the lobby.
  module _ (fails : Write F → Bool) where
    unfoldable pub attempt : List (Write F) → Lobby F → Option (Lobby F × List (Write F))
    attempt [] l = some (l, [])
    attempt (w ∷ ws) l = do
      l1 ← if fails w then cancel_only env lobby_bad l else some l
      (l2, made) ← attempt ws l1
      some (l2, w ∷ made)

    unfoldable pub publish : List (Match F) → Lobby F → Option (Lobby F × List (Write F))
    unfolding writes_of attempt
    publish [] l = do l1 ← cancel_only env lobby_done l; some (l1, [])
    publish (m ∷ ms) l = do
      (l1, made) ← attempt (writes_of l m) l
      (l2, ws) ← publish ms l1
      some (l2, made ++ ws)

    -- `collector` on the matches that it takes from the channel until that is closed.
    unfoldable pub collector : List (Match F) → Lobby F → Option (Lobby F × List (Write F))
    unfolding publish
    collector ms l = if bytes_eq l.opts.log_dir [] then some (l, []) else publish ms l
