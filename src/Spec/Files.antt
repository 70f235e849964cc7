-- ===== src/Spec/Files.antt =====
-- How a file of --specdir changes the spec (internal/lobby/spec.go, Watch). `encoding/json` is the
-- parameter `decode`: what is left in a time after `json.Unmarshal` of some bytes into it.
pub mod Laws
use snap_gs.Base.{
  ℕ, ◌-◌, Bytes, codes, Bool, true, false, List, [], ◌∷◌, Option, none, some, if◌then◌else◌, length,
  take, strip_newline, bytes_key,
}
use snap_gs.Base.GoMap.{lookup}
use snap_gs.Errors.{Err}
use snap_gs.Match.{Time}
use snap_gs.Spec.{Spec}

pub data SpecField : Type 0 where
  up flag_up peer_full down flag_down peer_idle force_down flag_force_down : SpecField
  restart flag_restart force_restart flag_force_restart : SpecField
  stop peer_up flag_stop force_stop flag_force_stop : SpecField

unfoldable pub get : SpecField → Spec → Time
get up s = s.up
get flag_up s = s.flag_up
get peer_full s = s.peer_full
get down s = s.down
get flag_down s = s.flag_down
get peer_idle s = s.peer_idle
get force_down s = s.force_down
get flag_force_down s = s.flag_force_down
get restart s = s.restart
get flag_restart s = s.flag_restart
get force_restart s = s.force_restart
get flag_force_restart s = s.flag_force_restart
get stop s = s.stop
get peer_up s = s.peer_up
get flag_stop s = s.flag_stop
get force_stop s = s.force_stop
get flag_force_stop s = s.flag_force_stop

unfoldable pub put : SpecField → Time → Spec → Spec
put up t s = record s { up = t }
put flag_up t s = record s { flag_up = t }
put peer_full t s = record s { peer_full = t }
put down t s = record s { down = t }
put flag_down t s = record s { flag_down = t }
put peer_idle t s = record s { peer_idle = t }
put force_down t s = record s { force_down = t }
put flag_force_down t s = record s { flag_force_down = t }
put restart t s = record s { restart = t }
put flag_restart t s = record s { flag_restart = t }
put force_restart t s = record s { force_restart = t }
put flag_force_restart t s = record s { flag_force_restart = t }
put stop t s = record s { stop = t }
put peer_up t s = record s { peer_up = t }
put flag_stop t s = record s { flag_stop = t }
put force_stop t s = record s { force_stop = t }
put flag_force_stop t s = record s { flag_force_stop = t }

-- The `switch` on the name of the file.
abbrev spec_names : List (Bytes × SpecField)
spec_names =
    (codes "up", up)
    ∷ (codes "flag/up", flag_up)
    ∷ (codes "peer/full", peer_full)
    ∷ (codes "down", down)
    ∷ (codes "flag/down", flag_down)
    ∷ (codes "peer/idle", peer_idle)
    ∷ (codes "forcedown", force_down)
    ∷ (codes "flag/forcedown", flag_force_down)
    ∷ (codes "restart", restart)
    ∷ (codes "flag/restart", flag_restart)
    ∷ (codes "forcerestart", force_restart)
    ∷ (codes "flag/forcerestart", flag_force_restart)
    ∷ (codes "stop", stop)
    ∷ (codes "peer/up", peer_up)
    ∷ (codes "flag/stop", flag_stop)
    ∷ (codes "forcestop", force_stop)
    ∷ (codes "flag/forcestop", flag_force_stop)
    ∷ []

unfoldable pub spec_field : Bytes → Option SpecField
unfolding lookup
spec_field name = lookup name spec_names

-- What an event for a file did: its name, its content (empty if it could not be read), the time.
pub record Reading : Type 0 where
  pub name : Bytes
  pub content : Bytes
  pub now : Time

module _ (decode : Bytes → Time → Time) where
  -- The last `switch`: `saved` is `*in`, `old` is `*out`.
  unfoldable pub new_time : Bool × Bytes → Time → Time → Time → Time
  new_time (false, []) saved old now = saved
  new_time (true, []) saved old now = now
  new_time (_, c ∷ bs) saved old now = decode (c ∷ bs) old

  write : Option SpecField → Spec → Bytes → Time → Spec → Spec
  unfolding new_time get put strip_newline
  write none saved bs now s = s
  write (some f) saved bs now s = put f (new_time (strip_newline bs) (get f saved) (get f s) now) s

  -- `saved` is the spec as it was when the watch began.
  unfoldable pub update : Spec → Reading → Spec → Spec
  unfolding write spec_field
  update saved r s = write (spec_field r.name) saved r.content r.now s

  unfoldable pub apply : Spec → List Reading → Spec → Spec
  unfolding update
  apply saved [] s = s
  apply saved (r ∷ rs) s = apply saved rs (update saved r s)

  -- The callback of the watch; a nil slice of events without an error is the end of the watch.
  unfoldable pub on_events : Spec → Option (List Reading) → Option Err → Spec → Spec
  unfolding apply
  on_events saved none none s = saved
  on_events saved none (some e) s = s
  on_events saved (some rs) e s = apply saved rs s
