-- ===== src/Lobby/Line.antt =====
-- One line of the game server's output (internal/lobby/scan.go, filter). none is a run-time panic.
pub mod Safety
use snap_gs.Base.{
  ℕ, Bytes, codes, Bool, true, false, ◌||◌, ◌&&◌, not, List, [], ◌∷◌, ◌++◌, Option, none, some, any,
  if◌then◌else◌, has_prefix, bytes_eq, ◌==◌, contains, trim_space, ℤ,
}
use snap_gs.Errors.{Err, lobby_disconnected}
use snap_gs.Match.{Time}
use snap_gs.Players.{count}
use snap_gs.Lobby.{Lobby, Env}
use snap_gs.Lobby.Stat.{new_stat}
use snap_gs.Lobby.Stop.{cancel_only}
use snap_gs.Lobby.Collect.{collect}
use snap_gs.Lobby.Bolt.{rest_after, set_arena, filter_bolt}
use snap_gs.Lobby.Blob.{filter_json}

abbrev pub stdout_ignore_prefixes : List Bytes
stdout_ignore_prefixes =
    codes "(Filename:"
    ∷ codes "-- BOLT -- ArenaSidesSwapped Changed"
    ∷ codes "-- BOLT -- CountdownStartTime Changed"
    ∷ []

abbrev pub stderr_ignore_prefixes : List Bytes
stderr_ignore_prefixes =
    codes "ALSA lib conf.c:"
    ∷ codes "ALSA lib confmisc.c:"
    ∷ codes "ALSA lib pcm.c:"
    ∷ codes "Unable to connect to 127."
    ∷ codes "[S_API"
    ∷ codes "dlopen failed trying to load:"
    ∷ codes "with error:"
    ∷ []

abbrev pub stderr_ignore_contains : List Bytes
stderr_ignore_contains = codes ".steam/sdk64/steamclient.so" ∷ []

-- The line is blank, or is noise by its first bytes or by what it contains.
unfoldable pub is_noise : List Bytes → List Bytes → Bytes → Bool
unfolding has_prefix contains bytes_eq
is_noise prefixes parts sample =
    bytes_eq sample [] || any (has_prefix sample) prefixes || any (contains sample) parts

-- `bs[0]` and `bs[len(bs)-1]`; none is an index out of range.
abbrev first_byte : Bytes → Option ℕ
first_byte [] = none
first_byte (c ∷ s) = some c

abbrev last_byte : Bytes → Option ℕ
last_byte [] = none
last_byte (c ∷ []) = some c
last_byte (c ∷ d ∷ s) = last_byte (d ∷ s)

-- The kinds of a line of the standard output, in the order of the `switch`.
pub data Line : Type 0 where
  json bolt upload pool_ready ended plain : Line
  arena_request : Bytes → Line

unfoldable pub is_blob : Bytes → Option Bool
is_blob bs = elim (first_byte bs) [
  | none ↦ none
  | some c ↦ elim (last_byte bs) [ none ↦ none | some d ↦ some (c == b'{' && d == b'}') ]
]

abbrev arena_or : Option Bytes → Line → Line
arena_or none other = other
arena_or (some arena) other = arena_request arena

unfoldable pub line_of : Bool → Bytes → Line
line_of blob bs =
    if blob
    then json
    else if has_prefix bs (codes "-- BOLT -- ")
    then bolt
    else if has_prefix bs (codes "Upload complete")
    then upload
    else if has_prefix bs (codes "Finished populating pool")
    then pool_ready
    else arena_or (rest_after (codes "Received request for ArenaSpecName ") bs) (
        if has_prefix bs (codes "Failed to create session") || has_prefix bs (codes "Disconnected")
        then ended
        else plain)

module _ {F : Type 0} (env : Env F) where
  abbrev keep_line : Bytes → Option (Lobby F) → Option (Lobby F × Bytes)
  keep_line bs none = none
  keep_line bs (some l) = some (l, bs)

  unfoldable pub handle_line : Line → Bytes → Time → Lobby F → Option (Lobby F × Bytes)
  handle_line json bs now l = some (filter_json env bs now l)
  handle_line bolt bs now l = keep_line bs (filter_bolt env bs now l)
  handle_line upload bs now l = some (collect env now l, bs)
  handle_line pool_ready bs now l =
      some (if (count l.players).0 == 0 then new_stat (codes "idle") now l else l, bs)
  handle_line (arena_request arena) bs now l = some (set_arena env arena l, bs)
  handle_line ended bs now l = keep_line bs (cancel_only env lobby_disconnected l)
  handle_line plain bs now l = some (l, bs)

  stdout_line : Option Bool → Bytes → Time → Lobby F → Option (Lobby F × Bytes)
  unfolding handle_line line_of
  stdout_line none bs now l = none
  stdout_line (some blob) bs now l = handle_line (line_of blob bs) bs now l

  -- `filter`: the lobby after the line, and what is left of it to log, with [] for nil.
  unfoldable pub filter : ℕ → Bytes → Time → Lobby F → Option (Lobby F × Bytes)
  unfolding stdout_line
  filter fd bs now l =
      if fd == 1
      then (if is_noise stdout_ignore_prefixes [] (trim_space bs)
          then some (l, [])
          else stdout_line (is_blob bs) bs now l)
      else if fd == 2
      then some (
        l,
        if is_noise stderr_ignore_prefixes stderr_ignore_contains (trim_space bs) then [] else bs,
      )
      else some (l, bs)

  -- The loop of `scanner` over the lines of one stream, each with the time of its handling: the lobby
  -- and the lines that are logged.
  abbrev log_line : Bytes → Option (Lobby F × List Bytes) → Option (Lobby F × List Bytes)
  log_line bs none = none
  log_line bs (some (l, out)) = some (l, if bytes_eq bs [] then out else bs ∷ out)

  unfoldable pub scan : ℕ → List (Bytes × Time) → Lobby F → Option (Lobby F × List Bytes)
  scan fd [] l = some (l, [])
  scan fd ((bs, now) ∷ rest) l = elim (filter fd bs now l) [
    | none ↦ none
    | some (l', kept) ↦ log_line kept (scan fd rest l')
  ]
