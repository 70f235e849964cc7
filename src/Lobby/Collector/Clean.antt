-- ===== src/Lobby/Collector/Clean.antt =====
-- What the collector writes (internal/lobby/collect.go, collector).
use snap_gs.Base.{
  ◌≡◌, refl, sym, ap, ◌∙◌, inl, inr, Bytes, Bool, false, List, [], ◌∷◌, ◌++◌, Option, none, some,
  codes, bytes_eq, Bool-cases,
}
use snap_gs.Errors.{lobby_bad, lobby_done}
use snap_gs.Match.{Time, Kill, Match, normalize, anonymize}
use snap_gs.Match.Privacy.{Identity, disguise, anonymize-disguise, anonymize-normalize}
use snap_gs.Lobby.{Lobby, Env}
use snap_gs.Lobby.Stop.Laws.{cancel_only-Stopped}
use snap_gs.Lobby.Safety.{Stage, over, Stopped-IsSafe, IsSafe, cancel_only-settles}
use snap_gs.Lobby.Collector.{Write, meta_of, file_of, writes_of, attempt, publish, collector}

-- The last write of a match.
abbrev pub last_of_two : {F : Type 0} → List (Write F) → Option (Write F)
last_of_two (a ∷ b ∷ []) = some b
last_of_two _ = none

module _ {F : Type 0} (env : Env F) (stamp : Time → Bytes) (join : Bytes → Bytes → Bytes) where
  clean_disguise :
      (who : Kill F → Identity) (id version : Bytes) (m : Match F)
      → anonymize (normalize env.floats (disguise who id version m))
        ≡ anonymize (normalize env.floats m)
  clean_disguise who id version m =
      anonymize-normalize env.floats (disguise who id version m)
      ∙ ap (normalize env.floats) (anonymize-disguise who id version m)
      ∙ sym (anonymize-normalize env.floats m)

  -- The clean file of a match, its name and its attribute included, is the same whoever played, under
  -- whatever match id and version.
  pub writes_of-disguise :
      (l : Lobby F) (who : Kill F → Identity) (id version : Bytes) (m : Match F)
      → last_of_two (writes_of env stamp join l (disguise who id version m))
        ≡ last_of_two (writes_of env stamp join l m)
  unfolding writes_of file_of
  writes_of-disguise l who id version m =
      ap
        (λ c. some (record {
          file = file_of env stamp join l m (codes "-clean.json.gz");
          meta = meta_of l.session;
          content = c;
        }))
        (clean_disguise who id version m)

  -- The writes of some matches.
  pub all_writes : Lobby F → List (Match F) → List (Write F)
  all_writes l [] = []
  all_writes l (m ∷ ms) = writes_of env stamp join l m ++ all_writes l ms

  same_writes :
      (l l1 : Lobby F) (m : Match F)
      → l1.session ≡ l.session
      → l1.opts ≡ l.opts
      → writes_of env stamp join l1 m ≡ writes_of env stamp join l m
  unfolding writes_of file_of
  same_writes l l1 m s o = rw (s, o) refl

  same_all :
      (l l1 : Lobby F) (ms : List (Match F))
      → l1.session ≡ l.session
      → l1.opts ≡ l.opts
      → all_writes l1 ms ≡ all_writes l ms
  unfolding all_writes
  same_all l l1 [] s o = refl
  same_all l l1 (m ∷ ms) s o = rw (same_writes l l1 m s o, same_all l l1 ms s o) refl

  module _ (fails : Write F → Bool) where
    attempt_keeps :
        {stage : Stage} (ws : List (Write F)) (l : Lobby F)
        → IsSafe stage l
        → (l1 : Lobby F) × (attempt env stamp join fails ws l ≡ some (l1, ws))
          × IsSafe stage l1
          × (l1.session ≡ l.session)
          × (l1.opts ≡ l.opts)
    unfolding attempt
    attempt_keeps [] l v = (l, refl, v, refl, refl)
    attempt_keeps {stage} (w ∷ ws) l v = elim (Bool-cases (fails w)) [
      | inr fine ↦
          let (l1, e1, v1, s1, o1) = attempt_keeps ws l v in (l1, rw (fine, e1) refl, v1, s1, o1)
      | inl bad ↦
          let (l1, e1, st) = cancel_only-Stopped env lobby_bad l v.closing in
          let v1 = Stopped-IsSafe env lobby_bad l l1 v st in
          let (l2, e2, v2, s2, o2) = attempt_keeps ws l1 v1 in
          (l2, rw (bad, e1, e2) refl, v2, s2 ∙ st.session, o2 ∙ st.opts)
    ]

    publish-writes :
        {stage : Stage} (ms : List (Match F)) (l : Lobby F)
        → IsSafe stage l
        → (l1 : Lobby F) × (publish env stamp join fails ms l ≡ some (l1, all_writes l ms))
          × IsSafe over l1
    unfolding publish all_writes
    publish-writes [] l v =
        let (l1, e1, v1) = cancel_only-settles env lobby_done l v in (l1, rw e1 refl, v1)
    publish-writes (m ∷ ms) l v =
        let (l1, e1, v1, s1, o1) = attempt_keeps (writes_of env stamp join l m) l v in
        let (l2, e2, v2) = publish-writes ms l1 v1 in
        (l2, rw (e1, e2, same_all l l1 ms s1 o1) refl, v2)

    -- With --logdir, every match that is taken from the channel is tried to be written twice, in order,
    -- whichever of the writes fail: no failure keeps a later write from being tried. The collector of a
    -- safe lobby then returns without a run-time panic, and the lobby is safe and has a reason.
    pub collector-writes :
        {stage : Stage} (ms : List (Match F)) (l : Lobby F)
        → bytes_eq l.opts.log_dir [] ≡ false
        → IsSafe stage l
        → (l1 : Lobby F) × (collector env stamp join fails ms l ≡ some (l1, all_writes l ms))
          × IsSafe over l1
    unfolding collector
    collector-writes ms l there v = rw there (publish-writes ms l v)
