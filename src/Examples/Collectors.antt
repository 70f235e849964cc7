-- ===== src/Examples/Collectors.antt =====
-- Two files of a league match, the first of which cannot be written (internal/lobby/collect.go).
use snap_gs.Base.{
  ◌≡◌, refl, ℕ, Bytes, Bool, false, codes, [], ◌∷◌, ◌++◌, some, bytes_eq, fields, contains, decimal,
}
use snap_gs.Match.{Time}
use snap_gs.Match.Privacy.{disguise}
use snap_gs.Lobby.{Lobby}
use snap_gs.Lobby.Safety.{over, IsSafe}
use snap_gs.Lobby.Collector.{Write, meta_of, writes_of, collector}
use snap_gs.Lobby.Collector.Clean.{last_of_two, all_writes, writes_of-disguise, collector-writes}
use snap_gs.Examples.Lobbies.{env, fresh, fresh-IsSafe}
use snap_gs.Examples.Matches.{played, someone}

abbrev stamp : Time → Bytes
stamp t = codes "3:04:" ++ decimal t

abbrev join : Bytes → Bytes → Bytes
join dir name = dir ++ codes "/" ++ name

abbrev fails_first : Write ℕ → Bool
fails_first w = contains w.file (codes "-match")

league_meta :
    (meta_of (codes "VRML red vs blue")).metadata
    ≡ (codes "lobby", codes "VRML red vs blue")
      ∷ (codes "assoc", codes "VRML")
      ∷ (codes "team0", codes "red")
      ∷ (codes "team1", codes "blue")
      ∷ []
unfolding meta_of fields bytes_eq
league_meta = refl

no_break_fields :
    fields (97 ∷ 0xc2 ∷ 0xa0 ∷ 98 ∷ 32 ∷ 99 ∷ []) ≡ (97 ∷ []) ∷ (98 ∷ []) ∷ (99 ∷ []) ∷ []
unfolding fields
no_break_fields = refl

writes_of-disguise_example :
    last_of_two (writes_of env stamp join fresh (disguise someone (codes "x") (codes "2.0") played))
    ≡ last_of_two (writes_of env stamp join fresh played)
writes_of-disguise_example =
    writes_of-disguise env stamp join fresh someone (codes "x") (codes "2.0") played

log_dir_there : bytes_eq fresh.opts.log_dir [] ≡ false
unfolding bytes_eq
log_dir_there = refl

collector-writes_example :
    (l1 : Lobby ℕ) × (collector env stamp join fails_first (played ∷ []) fresh
      ≡ some (l1, all_writes env stamp join fresh (played ∷ [])))
    × IsSafe over l1
collector-writes_example =
    collector-writes env stamp join fails_first (played ∷ []) fresh log_dir_there fresh-IsSafe
