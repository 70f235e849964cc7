-- ===== src/Lobby/Blob.antt =====
-- The JSON lines (internal/lobby/scan.go, truncate and filterjson).
use snap_gs.Base.{
  ℕ, ◌-◌, ◌+◌, Bytes, codes, ◌||◌, [], ◌∷◌, ◌++◌, Option, none, some, if◌then◌else◌, bytes_eq, ◌==◌,
  ltb, length, drop, take, contains, index, decimal,
}
use snap_gs.Match.{Time, Kill, Match}
use snap_gs.Lobby.{Lobby, Env}
use snap_gs.Lobby.Stat.{new_stat}
use snap_gs.Lobby.Collect.{collect}

-- The first `n` bytes, and how many more there were.
unfoldable pub truncate : Bytes → ℕ → Bytes
unfolding decimal
truncate bs n =
    if ltb (length bs) n
    then bs
    else take n bs ++ codes "... (" ++ decimal (length bs - n) ++ codes " bytes)"

abbrev pub trunc : ℕ
trunc = 66

abbrev quoted : Bytes → Bytes
quoted s = 34 ∷ s ++ 34 ∷ []

-- What a blob is, by its first bytes.
pub data Blob : Type 0 where
  kill_blob match_blob other_blob : Blob

unfoldable pub blob_of : Bytes → Blob
unfolding contains
blob_of bs =
    if contains (take trunc bs) (quoted (codes "shooterId"))
    then kill_blob
    else if contains (take trunc bs) (quoted (codes "matchId"))
    then match_blob
    else other_blob

-- `m.MatchID[i+len(session):]` where the session stands in the id and something follows it.
unfoldable pub time_part : Bytes → Bytes → Option Bytes
unfolding index
time_part id session = elim (index id session) [
  | none ↦ none
  | some i ↦ if i == length id - length session then none else some (drop (i + length session) id)
]

module _ {F : Type 0} (env : Env F) where
  -- A kill goes to the match in progress.
  unfoldable pub add_kill : Option (Kill F) → Lobby F → Lobby F
  add_kill none l = l
  add_kill (some k) l = record l { m = record (l.m) { kill_data = l.m.kill_data ++ k ∷ [] } }

  -- The time in the match id, where it can be read, replaces the time of the match.
  unfoldable pub dated : Match F → Option Bytes → Match F
  dated m none = m
  dated m (some text) = elim (env.parse_time text) [
    | none ↦ m
    | some t ↦ record m { timestamp = t }
  ]

  -- An update of the match; one with another id first hands over the match before it.
  unfoldable pub set_match : Match F → Time → Lobby F → Lobby F
  unfolding dated
  set_match m now l =
      let before = if bytes_eq m.match_id l.m.match_id then l else collect env now l in
      new_stat (codes "match") now (record before {
        m =
            dated (record m { timestamp = before.m.timestamp })
              (time_part m.match_id before.session);
      })

  unfoldable pub update_match : Option (Match F) → Time → Lobby F → Lobby F
  unfolding set_match
  update_match none now l = l
  update_match (some m) now l = set_match m now l

  unfoldable pub accept_blob : Blob → Bytes → Time → Lobby F → Lobby F
  unfolding add_kill update_match
  accept_blob kill_blob bs now l = add_kill (env.decode_kill bs) l
  accept_blob match_blob bs now l = update_match (env.decode_match bs) now l
  accept_blob other_blob bs now l = l

  -- `filterjson`, and what is left of the line.
  unfoldable pub filter_json : Bytes → Time → Lobby F → Lobby F × Bytes
  unfolding accept_blob
  filter_json bs now l =
      let accepted = accept_blob (blob_of bs) bs now l in
      if bytes_eq l.opts.log_dir [] || ltb (length bs) trunc
      then (l, truncate bs trunc)
      else (accepted, truncate bs trunc)
