-- ===== src/Examples/Specs.antt =====
-- A spec with a file to stop and one to restart (internal/lobby/spec.go).
use snap_gs.Base.{
  ◌≡◌, refl, ◌≤◌, pos, Bytes, codes, newline, [], ◌∷◌, ◌+◌, bytes_eq, strip_newline, some, arith,
  false,
}
use snap_gs.Errors.{lobby_stopped, lobby_restarted}
use snap_gs.Match.{Time}
use snap_gs.Spec.{
  Spec, no_spec, reason_after, force_down_after, force_stop_after, force_restart_after, down_after,
  stop_after, restart_after,
}
use snap_gs.Spec.Urgency.{IsLaterThan, urgency, reason_after_mono}
use snap_gs.Spec.Files.{SpecField, get, put, spec_field, Reading, apply}
use snap_gs.Spec.Files.Laws.{replay, apply-get}
use snap_gs.Base.GoMap.{lookup}

abbrev to_restart : Spec
to_restart = record no_spec { restart = 70 }

abbrev to_stop : Spec
to_stop = record to_restart { stop = 80; restart = 75 }

to_stop-IsLaterThan : IsLaterThan to_stop to_restart
to_stop-IsLaterThan = record {
  down = omega arith;
  flag_down = omega arith;
  peer_idle = omega arith;
  force_down = omega arith;
  flag_force_down = omega arith;
  restart = omega arith;
  flag_restart = omega arith;
  force_restart = omega arith;
  flag_force_restart = omega arith;
  stop = omega arith;
  peer_up = omega arith;
  flag_stop = omega arith;
  force_stop = omega arith;
  flag_force_stop = omega arith;
}

stop_comes_first : reason_after (some to_stop) 60 (pos 20) (pos 10) ≡ (false, some lobby_stopped)
unfolding reason_after force_down_after force_stop_after force_restart_after down_after stop_after
stop_comes_first = refl

stop_waits_for_grace :
    reason_after (some to_stop) 60 (pos 5) (pos 10) ≡ (false, some lobby_restarted)
unfolding reason_after force_down_after force_stop_after force_restart_after down_after stop_after
    restart_after
stop_waits_for_grace = refl

reason_after_mono_example :
    urgency (reason_after (some to_restart) 60 (pos 5) (pos 10))
    ≤ urgency (reason_after (some to_stop) 50 (pos 20) (pos 10))
reason_after_mono_example =
    reason_after_mono to_restart to_stop to_stop-IsLaterThan 60 50 (omega arith) (pos 5) (pos 20)
      (pos 10) (pos 10) (omega arith) (omega arith)

-- A decoder that reads the length of the text.
abbrev by_length : Bytes → Time → Time
by_length [] old = old
by_length (c ∷ bs) old = by_length bs old + 1

abbrev touched : Reading
touched = record { name = codes "flag/stop"; content = newline; now = 90 }

abbrev removed : Reading
removed = record { name = codes "flag/stop"; content = []; now = 95 }

abbrev other_file : Reading
other_file = record { name = codes "up"; content = codes "xyz"; now = 92 }

flag_stop_follows :
    apply by_length no_spec (touched ∷ other_file ∷ []) to_stop
    ≡ record to_stop { flag_stop = 90; up = 3 }
unfolding apply spec_field lookup bytes_eq get put strip_newline
flag_stop_follows = refl

apply-get_example :
    get SpecField.flag_stop (apply by_length no_spec (touched ∷ other_file ∷ []) to_stop)
    ≡ replay by_length SpecField.flag_stop
        (get SpecField.flag_stop no_spec)
        (touched ∷ other_file ∷ [])
        (get SpecField.flag_stop to_stop)
apply-get_example =
    apply-get by_length SpecField.flag_stop no_spec (touched ∷ other_file ∷ []) to_stop

is_flag_stop : spec_field (codes "flag/stop") ≡ some SpecField.flag_stop
unfolding spec_field lookup bytes_eq
is_flag_stop = refl
