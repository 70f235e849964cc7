-- ===== src/Lobby/Bolt/Safety.antt =====
-- The handlers of BOLT lines keep a lobby safe (internal/lobby/scan.go, filterbolt).
use snap_gs.Base.{
  ℕ, refl, inl, inr, Bytes, Bool, not, ◌&&◌, ◌||◌, [], some, ℤ, pos, negsuc, eq_ℤ, ltb_ℤ, ◌==◌,
  bytes_eq, Bool-cases, Option-cases,
}
use snap_gs.Errors.{lobby_bug, lobby_idle_timeout}
use snap_gs.Match.{Time}
use snap_gs.Players.{Players, add, remove, count}
use snap_gs.Players.Invariant.{IsValid, set-IsValid, remove-IsValid}
use snap_gs.Spec.{reason_after}
use snap_gs.Lobby.{Lobby, Env}
use snap_gs.Lobby.Bolt.{
  Bolt, loading_arena, registers, unregisters, player_trying, arena_changed, balls_changed, unknown,
  set_arena, note_id, finish, arrived, registered, emptied, departed, admin_left, unregistered,
  touched, handle, filter_bolt, classify,
}
use snap_gs.Lobby.Safety.{
  Stage, IsSafe, Returns, set_stat-IsSafe, rem_stat-IsSafe, new_stat-IsSafe, collect-IsSafe,
  cancel_only-IsSafe,
}

module _ {F : Type 0} {stage : Stage} (env : Env F) where
  pub set_arena-IsSafe :
      (a : Bytes) (l : Lobby F) → IsSafe stage l → IsSafe stage (set_arena env a l)
  unfolding set_arena
  set_arena-IsSafe a l v = set_stat-IsSafe _ _ _ (
      rem_stat-IsSafe _ _
        (record { players = v.players; closing = v.closing; queue = v.queue; settled = v.settled }))

  note_id-IsSafe :
      (id : ℤ) (n : ℕ) (l : Lobby F) → IsSafe stage l → IsSafe stage (note_id env id n l)
  unfolding note_id
  note_id-IsSafe id n l v = elim (Bool-cases (eq_ℤ id (negsuc 0))) [
    | inl bad ↦ rw bad v
    | inr fine ↦ elim (Bool-cases (ltb_ℤ id (pos 1000))) [
      | inl bot ↦
          rw (fine, bot)
            (record {
              players = v.players;
              closing = v.closing;
              queue = v.queue;
              settled = v.settled;
            })
      | inr player ↦ elim (Bool-cases (n == 0)) [
        | inl empty ↦ rw (fine, player, empty) v
        | inr some_left ↦ rw (fine, player, some_left) (set_stat-IsSafe _ _ l v)
      ]
    ]
  ]

  finish-IsSafe : (id : ℤ) (l : Lobby F) → IsSafe stage l → Returns stage (finish env id l)
  unfolding finish
  finish-IsSafe id l v = elim (Bool-cases (eq_ℤ id (negsuc 0))) [
    | inl bad ↦ rw bad (cancel_only-IsSafe env lobby_bug l v)
    | inr fine ↦ rw fine (l, refl, v)
  ]

  arrived-IsSafe :
      (n : ℕ) (now : Time) (l : Lobby F) → IsSafe stage l → IsSafe stage (arrived env n now l)
  unfolding arrived
  arrived-IsSafe n now l v = elim (Bool-cases (n == 1)) [
    | inl first ↦ rw first (collect-IsSafe env now _ (rem_stat-IsSafe _ l v))
    | inr other ↦ elim (Bool-cases (n == 10)) [
      | inl full ↦ rw (other, full) (new_stat-IsSafe _ now l v)
      | inr room ↦ rw (other, room) v
    ]
  ]

  with_players-IsSafe :
      (p : Players) (l : Lobby F)
      → IsValid p
      → IsSafe stage l
      → IsSafe stage (record l { players = p })
  with_players-IsSafe p l q v = record {
    players = q;
    closing = v.closing;
    queue = v.queue;
    settled = v.settled;
  }

  registered-IsSafe :
      (id : Bytes) (now : Time) (l : Lobby F)
      → IsSafe stage l
      → Returns stage (registered env id now l)
  unfolding registered add
  registered-IsSafe id now l v =
      let ((p, reply), e, q) = set-IsValid l.players id [] [] v.players in
      rw e (
        finish-IsSafe reply.id _ (
          arrived-IsSafe (count p).0 now _
            (note_id-IsSafe reply.id (count p).0 _ (with_players-IsSafe p l q v))))

  emptied-IsSafe : (now : Time) (l : Lobby F) → IsSafe stage l → Returns stage (emptied env now l)
  unfolding emptied
  emptied-IsSafe now l v = elim (Bool-cases (not l.changed || eq_ℤ l.opts.max_fails (pos 0))) [
    | inl again ↦ rw again (_, refl, new_stat-IsSafe _ now l v)
    | inr over ↦ elim (Option-cases ((reason_after (some l.spec) l.t1 (pos 0) (pos 0)).1)) [
      | inl idle ↦ rw (over, idle) (cancel_only-IsSafe env lobby_idle_timeout l v)
      | inr (err, due) ↦ rw (over, due) (cancel_only-IsSafe env err l v)
    ]
  ]

  departed-IsSafe :
      (n : ℕ) (now : Time) (l : Lobby F) → IsSafe stage l → Returns stage (departed env n now l)
  unfolding departed
  departed-IsSafe n now l v = elim (Bool-cases (n == 0)) [
    | inl empty ↦ rw empty (emptied-IsSafe now _ (collect-IsSafe env now _ (rem_stat-IsSafe _ l v)))
    | inr other ↦ elim (Bool-cases (n == 9)) [
      | inl nine ↦ rw (other, nine) (_, refl, rem_stat-IsSafe _ l v)
      | inr room ↦ rw (other, room) (l, refl, v)
    ]
  ]

  admin_left-IsSafe :
      (admin : Bool) (now : Time) (l : Lobby F)
      → IsSafe stage l
      → IsSafe stage (admin_left env admin now l)
  unfolding admin_left
  admin_left-IsSafe admin now l v = elim (Bool-cases (admin && bytes_eq l.m.match_id [])) [
    | inl left ↦ rw left (collect-IsSafe env now l v)
    | inr other ↦ rw other v
  ]

  unregistered-IsSafe :
      (id : Bytes) (now : Time) (l : Lobby F)
      → IsSafe stage l
      → Returns stage (unregistered env id now l)
  unfolding unregistered
  unregistered-IsSafe id now l v =
      let p = (remove l.players id).0 in
      let reply = (remove l.players id).1 in
      let (l', e, v') = departed-IsSafe (count p).0 now _ (
        admin_left-IsSafe reply.admin now _ (
          note_id-IsSafe reply.id (count p).0 _
            (with_players-IsSafe p l (remove-IsValid l.players id v.players) v))) in
      rw e (finish-IsSafe reply.id l' v')

  touched-IsSafe : (l : Lobby F) → IsSafe stage l → IsSafe stage (touched env l)
  unfolding touched
  touched-IsSafe l v = elim (Bool-cases ((count l.players).0 == 0)) [
    | inl empty ↦ rw empty v
    | inr played ↦
        rw played (record {
          players = v.players;
          closing = v.closing;
          queue = v.queue;
          settled = v.settled;
        })
  ]

  handle-IsSafe :
      (line : Bolt) (now : Time) (l : Lobby F)
      → IsSafe stage l
      → Returns stage (handle env line now l)
  unfolding handle
  handle-IsSafe (loading_arena arena) now l v = (_, refl, set_arena-IsSafe arena l v)
  handle-IsSafe (registers id) now l v = registered-IsSafe id now l v
  handle-IsSafe (unregisters id) now l v = unregistered-IsSafe id now l v
  handle-IsSafe player_trying now l v = (_, refl, rem_stat-IsSafe _ l v)
  handle-IsSafe arena_changed now l v = (_, refl, touched-IsSafe l v)
  handle-IsSafe balls_changed now l v = (_, refl, touched-IsSafe l v)
  handle-IsSafe unknown now l v = (l, refl, v)

  -- On every BOLT line, whatever its bytes are and at any time, a safe lobby's handler returns without
  -- a run-time panic and leaves a safe lobby.
  pub filter_bolt-IsSafe :
      (bs : Bytes) (now : Time) (l : Lobby F)
      → IsSafe stage l
      → Returns stage (filter_bolt env bs now l)
  unfolding filter_bolt
  filter_bolt-IsSafe bs now l v = handle-IsSafe (classify bs) now l v
