-- ===== src/Lobby/Line/Safety.antt =====
-- A line of output never panics and keeps the lobby safe (internal/lobby/scan.go, filter and scanner).
use snap_gs.Base.{
  ℕ, ◌≡◌, ◌≢◌, refl, inl, inr, Bytes, Bool, false, ◌&&◌, ◌||◌, List, [], ◌∷◌, Option, none, some,
  bytes_eq, ◌==◌, Bool-cases, if◌then◌else◌, ltb, length, trim_space,
}
use snap_gs.Errors.{lobby_disconnected}
use snap_gs.Match.{Time, Kill, Match}
use snap_gs.Players.{count}
use snap_gs.Lobby.{Lobby, Env}
use snap_gs.Lobby.Safety.{
  Stage, IsSafe, Returns, new_stat-IsSafe, collect-IsSafe, cancel_only-IsSafe,
}
use snap_gs.Lobby.Bolt.Safety.{set_arena-IsSafe, filter_bolt-IsSafe}
use snap_gs.Lobby.Blob.{
  filter_json, blob_of, Blob, kill_blob, match_blob, other_blob, accept_blob, add_kill,
  update_match, set_match, trunc,
}
use snap_gs.Lobby.Line.{
  Line, json, bolt, upload, pool_ready, ended, plain, arena_request, last_byte, is_blob, is_noise,
  line_of, handle_line, stdout_line, keep_line, filter, scan, stdout_ignore_prefixes,
}

-- A line returns what is logged of it, and leaves the lobby safe.
abbrev pub Passes : {F : Type 0} → Stage → Option (Lobby F × Bytes) → Type 0
Passes {F} stage r = (l : Lobby F) × (kept : Bytes) × (r ≡ some (l, kept)) × IsSafe stage l

last_some : (c : ℕ) (s : Bytes) → (d : ℕ) × (last_byte (c ∷ s) ≡ some d)
last_some c [] = (c, refl)
last_some c (d ∷ s) = last_some d s

is_blob-some : (bs : Bytes) → bs ≢ [] → (blob : Bool) × (is_blob bs ≡ some blob)
unfolding is_blob
is_blob-some [] ne = absurd (ne refl)
is_blob-some (c ∷ s) ne =
    let (d, e) = last_some c s in (c == b'{' && d == b'}', rw (is_blob, e) refl)

-- A line that is not noise is not empty.
not_noise : (ps : List Bytes) (bs : Bytes) → is_noise ps [] (trim_space bs) ≡ false → bs ≢ []
unfolding is_noise trim_space
not_noise ps [] h = λ _. cc
not_noise ps (c ∷ s) h = λ e. cc

module _ {F : Type 0} {stage : Stage} (env : Env F) where
  add_kill-IsSafe :
      (k : Option (Kill F)) (l : Lobby F) → IsSafe stage l → IsSafe stage (add_kill env k l)
  unfolding add_kill
  add_kill-IsSafe none l v = v
  add_kill-IsSafe (some k) l v = record {
    players = v.players;
    closing = v.closing;
    queue = v.queue;
    settled = v.settled;
  }

  with_match-IsSafe :
      (m : Match F) (l : Lobby F) → IsSafe stage l → IsSafe stage (record l { m = m })
  with_match-IsSafe m l v = record {
    players = v.players;
    closing = v.closing;
    queue = v.queue;
    settled = v.settled;
  }

  set_match-IsSafe :
      (m : Match F) (now : Time) (l : Lobby F)
      → IsSafe stage l
      → IsSafe stage (set_match env m now l)
  unfolding set_match
  set_match-IsSafe m now l v = elim (Bool-cases (bytes_eq m.match_id l.m.match_id)) [
    | inl same ↦ rw same (new_stat-IsSafe _ now _ (with_match-IsSafe _ l v))
    | inr new ↦
        rw new (new_stat-IsSafe _ now _ (with_match-IsSafe _ _ (collect-IsSafe env now l v)))
  ]

  update_match-IsSafe :
      (m : Option (Match F)) (now : Time) (l : Lobby F)
      → IsSafe stage l
      → IsSafe stage (update_match env m now l)
  unfolding update_match
  update_match-IsSafe none now l v = v
  update_match-IsSafe (some m) now l v = set_match-IsSafe m now l v

  accept_blob-IsSafe :
      (b : Blob) (bs : Bytes) (now : Time) (l : Lobby F)
      → IsSafe stage l
      → IsSafe stage (accept_blob env b bs now l)
  unfolding accept_blob
  accept_blob-IsSafe kill_blob bs now l v = add_kill-IsSafe (env.decode_kill bs) l v
  accept_blob-IsSafe match_blob bs now l v = update_match-IsSafe (env.decode_match bs) now l v
  accept_blob-IsSafe other_blob bs now l v = v

  filter_json-IsSafe :
      (bs : Bytes) (now : Time) (l : Lobby F)
      → IsSafe stage l
      → IsSafe stage (filter_json env bs now l).0
  unfolding filter_json
  filter_json-IsSafe bs now l v =
      elim (Bool-cases (bytes_eq l.opts.log_dir [] || ltb (length bs) trunc)) [
        | inl skipped ↦ rw skipped v
        | inr read ↦ rw read (accept_blob-IsSafe (blob_of bs) bs now l v)
      ]

  keep_line-Passes :
      (bs : Bytes) (r : Option (Lobby F)) → Returns stage r → Passes stage (keep_line env bs r)
  keep_line-Passes bs r (l, e, v) = (l, bs, rw e refl, v)

  handle_line-Passes :
      (line : Line) (bs : Bytes) (now : Time) (l : Lobby F)
      → IsSafe stage l
      → Passes stage (handle_line env line bs now l)
  unfolding handle_line
  handle_line-Passes json bs now l v = (_, _, refl, filter_json-IsSafe bs now l v)
  handle_line-Passes bolt bs now l v = keep_line-Passes bs _ (filter_bolt-IsSafe env bs now l v)
  handle_line-Passes upload bs now l v = (_, _, refl, collect-IsSafe env now l v)
  handle_line-Passes pool_ready bs now l v = elim (Bool-cases ((count l.players).0 == 0)) [
    | inl empty ↦ rw empty (_, _, refl, new_stat-IsSafe _ now l v)
    | inr played ↦ rw played (_, _, refl, v)
  ]
  handle_line-Passes (arena_request arena) bs now l v = (_, _, refl, set_arena-IsSafe env arena l v)
  handle_line-Passes ended bs now l v =
      keep_line-Passes bs _ (cancel_only-IsSafe env lobby_disconnected l v)
  handle_line-Passes plain bs now l v = (l, bs, refl, v)

  -- On any bytes of any stream and at any time, `filter` returns for a safe lobby without a run-time
  -- panic (an index out of range, a nil admin, a channel closed twice) and leaves a safe lobby.
  pub filter-Passes :
      (fd : ℕ) (bs : Bytes) (now : Time) (l : Lobby F)
      → IsSafe stage l
      → Passes stage (filter env fd bs now l)
  unfolding filter stdout_line
  filter-Passes fd bs now l v = elim (Bool-cases (fd == 1)) [
    | inl out ↦ elim (Bool-cases (is_noise stdout_ignore_prefixes [] (trim_space bs))) [
      | inl noise ↦ rw (out, noise) (l, [], refl, v)
      | inr line ↦
          let (blob, e) = is_blob-some bs (not_noise stdout_ignore_prefixes bs line) in
          rw (out, line, e) (handle_line-Passes (line_of blob bs) bs now l v)
    ]
    | inr other ↦ elim (Bool-cases (fd == 2)) [
      | inl err ↦ rw (other, err) (l, _, refl, v)
      | inr none_of ↦ rw (other, none_of) (l, bs, refl, v)
    ]
  ]

  -- The whole output of the game server, whatever lines it has and whenever they come, is handled
  -- without a run-time panic: a safe lobby is safe again after the last line.
  pub scan-IsSafe :
      (fd : ℕ) (lines : List (Bytes × Time)) (l : Lobby F)
      → IsSafe stage l
      → (l' : Lobby F) × (out : List Bytes) × (scan env fd lines l ≡ some (l', out))
        × IsSafe stage l'
  unfolding scan
  scan-IsSafe fd [] l v = (l, [], refl, v)
  scan-IsSafe fd ((bs, now) ∷ lines) l v =
      let (l1, kept, e, v1) = filter-Passes fd bs now l v in
      let (l2, out, e2, v2) = scan-IsSafe fd lines l1 v1 in
      (l2, (if bytes_eq kept [] then out else kept ∷ out), rw (e, scan, e2) refl, v2)
