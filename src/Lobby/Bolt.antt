-- ===== src/Lobby/Bolt.antt =====
-- The lines of the BOLT netcode (internal/lobby/scan.go, filterbolt). A handler reads the clock once
-- in the model, as `now`; none is a run-time panic.
pub mod Safety
use snap_gs.Base.{
  ℕ, Bytes, codes, Bool, true, false, ◌||◌, ◌&&◌, not, List, [], ◌∷◌, ◌++◌, Option, none, some,
  is_some, if◌then◌else◌, has_prefix, bytes_eq, ◌==◌, eq_ℤ, ltb_ℤ, ℤ, pos, negsuc, length, drop,
}
use snap_gs.Errors.{Err, lobby_bug, lobby_idle_timeout}
use snap_gs.Match.{Time}
use snap_gs.Players.{Players, Reply, add, remove, count}
use snap_gs.Spec.{reason_after}
use snap_gs.Lobby.{Lobby, Env, Content, number_of}
use snap_gs.Lobby.Stat.{set_stat, rem_stat, new_stat}
use snap_gs.Lobby.Stop.{cancel_only}
use snap_gs.Lobby.Collect.{collect}

infixl 5 ◌>>=◌
abbrev pub ◌>>=◌ {ℓ κ} : {A : Type ℓ} {B : Type κ} → Option A → (A → Option B) → Option B
none >>= f = none
some a >>= f = f a

-- A line that starts with `p` and goes on after it, with what follows.
abbrev pub rest_after : Bytes → Bytes → Option Bytes
rest_after p bs =
    if not (length bs == length p) && has_prefix bs p then some (drop (length p) bs) else none

module _ {F : Type 0} (env : Env F) where
  -- A new arena.
  unfoldable pub set_arena : Bytes → Lobby F → Lobby F
  set_arena arena l =
      set_stat (codes "arena") (some (Content.text_of arena))
        (rem_stat (codes "arena") (record l { arena = arena }))

  -- What both handlers do with the id of the reply: bots change the lobby, players are counted.
  unfoldable pub note_id : ℤ → ℕ → Lobby F → Lobby F
  note_id id players l =
      if eq_ℤ id (negsuc 0)
      then l
      else if ltb_ℤ id (pos 1000)
      then record l { changed = true }
      else if not (players == 0)
      then set_stat (codes "players") (some (number_of players)) l
      else l

  -- `defer l.Cancel(ErrLobbyBug)` for an id that is not known.
  unfoldable pub finish : ℤ → Lobby F → Option (Lobby F)
  finish id l = if eq_ℤ id (negsuc 0) then cancel_only env lobby_bug l else some l

  -- The `switch` on the number of players after one has come.
  unfoldable pub arrived : ℕ → Time → Lobby F → Lobby F
  arrived players now l =
      if players == 1
      then collect env now (rem_stat (codes "idle") l)
      else if players == 10
      then new_stat (codes "full") now l
      else l

  unfoldable pub registered : Bytes → Time → Lobby F → Option (Lobby F)
  unfolding note_id finish arrived
  registered id now l = do
    (players, reply) ← add l.players id
    let n = (count players).0
    finish reply.id (arrived n now (note_id reply.id n (record l { players = players })))

  -- The lobby is empty again: it is idle, or is brought to an end.
  unfoldable pub emptied : Time → Lobby F → Option (Lobby F)
  emptied now l =
      let reason = (reason_after (some l.spec) l.t1 (pos 0) (pos 0)).1 in
      if not l.changed || eq_ℤ l.opts.max_fails (pos 0)
      then some (new_stat (codes "idle") now l)
      else elim reason [
        | none ↦ cancel_only env lobby_idle_timeout l
        | some err ↦ cancel_only env err l
      ]

  -- The `switch` on the number of players after one has left.
  unfoldable pub departed : ℕ → Time → Lobby F → Option (Lobby F)
  unfolding emptied
  departed players now l =
      if players == 0
      then emptied now (collect env now (rem_stat (codes "players") l))
      else if players == 9
      then some (rem_stat (codes "full") l)
      else some l

  -- The admin timeout starts anew when the admin changes between matches.
  unfoldable pub admin_left : Bool → Time → Lobby F → Lobby F
  admin_left admin now l = if admin && bytes_eq l.m.match_id [] then collect env now l else l

  unfoldable pub unregistered : Bytes → Time → Lobby F → Option (Lobby F)
  unfolding note_id finish departed admin_left
  unregistered id now l = do
    let (players, reply) = remove l.players id
    let n = (count players).0
    after ←
        departed n now
          (admin_left reply.admin now (note_id reply.id n (record l { players = players })))
    finish reply.id after

  -- A setting of the arena has changed, which counts once somebody plays.
  unfoldable pub touched : Lobby F → Lobby F
  touched l = if not ((count l.players).0 == 0) then record l { changed = true } else l

-- The `switch` on the line.
pub data Bolt : Type 0 where
  loading_arena registers unregisters : Bytes → Bolt
  player_trying arena_changed balls_changed unknown : Bolt

abbrev choose {ℓ} : {A : Type ℓ} → Option Bytes → (Bytes → A) → A → A
choose none f other = other
choose (some rest) f other = f rest

-- A player, by the two prefixes that announce one.
unfoldable pub tries_to_register : Bytes → Bool
unfolding has_prefix
tries_to_register bs =
    has_prefix bs (codes "-- BOLT -- Player assigned ")
    || has_prefix bs (codes "-- BOLT -- REMOTE CALLBACKS ")

unfoldable pub classify : Bytes → Bolt
unfolding tries_to_register
classify bs = choose (rest_after (codes "-- BOLT -- Loading arena name: ") bs) loading_arena (
    if tries_to_register bs
    then player_trying
    else choose (rest_after (codes "-- BOLT -- Registered player: ") bs) registers (
        choose (rest_after (codes "-- BOLT -- Unregistered player: ") bs) unregisters (
          if has_prefix bs (codes "-- BOLT -- ArenaSpecName Changed")
          then arena_changed
          else if has_prefix bs (codes "-- BOLT -- BallsPerSecond Changed")
          then balls_changed
          else unknown)))

module _ {F : Type 0} (env : Env F) where
  unfoldable pub handle : Bolt → Time → Lobby F → Option (Lobby F)
  handle (loading_arena arena) now l = some (set_arena env arena l)
  handle (registers id) now l = registered env id now l
  handle (unregisters id) now l = unregistered env id now l
  handle player_trying now l = some (rem_stat (codes "idle") l)
  handle arena_changed now l = some (touched env l)
  handle balls_changed now l = some (touched env l)
  handle unknown now l = some l

  -- `filterbolt`; the line itself is passed on unchanged.
  unfoldable pub filter_bolt : Bytes → Time → Lobby F → Option (Lobby F)
  filter_bolt bs now l = handle (classify bs) now l
