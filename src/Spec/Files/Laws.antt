-- ===== src/Spec/Files/Laws.antt =====
-- What a file of --specdir decides (internal/lobby/spec.go, Watch).
use snap_gs.Base.GoMap.{lookup, lookup-own}
use snap_gs.Base.{
  codes, bytes_eq, bytes_eq_iff, bytes_key, Bool-cases, Option-cases, inl, inr, is_nil, ◌≡◌, refl,
  ap, ◌++◌, ◌∙◌, ◌≢◌, Bytes, Bool, true, false, List, [], ◌∷◌, Option, none, some, arith,
  if◌then◌else◌, strip_newline, newline,
}
use mathlib.Core.Logic.{ite, if_pos, if_neg}
use snap_gs.Match.{Time}
use snap_gs.Spec.{Spec}
use snap_gs.Spec.Files.{
  SpecField, get, put, spec_field, spec_names, Reading, new_time, write, update, apply,
}

get-put_self : (f : SpecField) (t : Time) (s : Spec) → get f (put f t s) ≡ t
unfolding get put
get-put_self SpecField.up t s = refl
get-put_self _ t s = refl

get-put_ne : (f g : SpecField) (t : Time) (s : Spec) → f ≢ g → get g (put f t s) ≡ get g s
unfolding get put
get-put_ne SpecField.up SpecField.up t s h = absurd (h refl)
get-put_ne _ _ t s h = grind arith

pub SpecField-discrete : Discrete SpecField
SpecField-discrete = hlevel

-- The file of a field, as the units and the peers of a lobby name it.
abbrev pub file_of : SpecField → Bytes
file_of SpecField.up = codes "up"
file_of SpecField.flag_up = codes "flag/up"
file_of SpecField.peer_full = codes "peer/full"
file_of SpecField.down = codes "down"
file_of SpecField.flag_down = codes "flag/down"
file_of SpecField.peer_idle = codes "peer/idle"
file_of SpecField.force_down = codes "forcedown"
file_of SpecField.flag_force_down = codes "flag/forcedown"
file_of SpecField.restart = codes "restart"
file_of SpecField.flag_restart = codes "flag/restart"
file_of SpecField.force_restart = codes "forcerestart"
file_of SpecField.flag_force_restart = codes "flag/forcerestart"
file_of SpecField.stop = codes "stop"
file_of SpecField.peer_up = codes "peer/up"
file_of SpecField.flag_stop = codes "flag/stop"
file_of SpecField.force_stop = codes "forcestop"
file_of SpecField.flag_force_stop = codes "flag/forcestop"

spec_field-file_of : (f : SpecField) → spec_field (file_of f) ≡ some f
unfolding spec_field lookup bytes_eq
spec_field-file_of SpecField.up = refl
spec_field-file_of _ = refl

spec_field-own : (n : Bytes) (f : SpecField) → spec_field n ≡ some f → n ≡ file_of f
unfolding spec_field
spec_field-own n f h =
    lookup-own file_of n f spec_names
      (
        refl,
        (
          refl,
          (
            refl,
            (
              refl,
              (
                refl,
                (
                  refl,
                  (
                    refl,
                    (
                      refl,
                      (refl, (refl, (refl, (refl, (refl, (refl, (refl, (refl, (refl, tt))))))))),
                    ),
                  ),
                ),
              ),
            ),
          ),
        ),
      )
      h

-- `o` names the field `f`.
abbrev pub is_for : SpecField → Option SpecField → Bool
is_for f none = false
is_for f (some g) = ite (SpecField-discrete g f) true false

is_for-file_of : (n : Bytes) (f : SpecField) → is_for f (spec_field n) ≡ bytes_eq n (file_of f)
is_for-file_of n f = elim (Bool-cases (bytes_eq n (file_of f))) [
  | inl same ↦
      let own = (bytes_eq_iff n (file_of f)).0 same in
      rw (same, own, spec_field-file_of f) (if_pos _ refl true false)
  | inr differs ↦ rw differs (elim (Option-cases (spec_field n)) [
    | inl unknown ↦ rw unknown refl
    | inr (g, known) ↦ rw known (
        if_neg _
          (λ e.
            let own = spec_field-own n g known in
            let same : bytes_eq n (file_of f) ≡ true =
              (bytes_eq_iff n (file_of f)).1 (own ∙ ap file_of e) in
            cc)
          true false)
  ])
]

module _ (decode : Bytes → Time → Time) where
  -- What a reading makes of a time: what the file had saved when it is empty, the time of the reading
  -- when it is a newline alone, and otherwise what JSON leaves of the content less a newline at its end.
  abbrev pub read_time : Bool × Bytes → Time → Time → Time → Time
  read_time (ended, value) saved old now =
      if is_nil value then (if ended then now else saved) else decode value old

  read_time-new_time :
      (v : Bool × Bytes) (saved old now : Time)
      → new_time decode v saved old now ≡ read_time v saved old now
  unfolding new_time
  read_time-new_time (true, []) saved old now = refl
  read_time-new_time (false, []) saved old now = refl
  read_time-new_time (true, c ∷ s) saved old now = refl
  read_time-new_time (false, c ∷ s) saved old now = refl

  write-get :
      (f : SpecField) (o : Option SpecField) (saved : Spec) (bs : Bytes) (now : Time) (s : Spec)
      → get f (write decode o saved bs now s) ≡ (
          if is_for f o
          then new_time decode (strip_newline bs) (get f saved) (get f s) now
          else get f s)
  unfolding write
  write-get f none saved bs now s = refl
  write-get f (some g) saved bs now s = elim (SpecField-discrete g f) [
    | yes e ↦ rw (if_pos _ e, e) (get-put_self f _ s)
    | no h ↦ rw (if_neg _ h) (get-put_ne g f _ s h)
  ]

  -- What the readings of one file make of its time.
  pub replay : SpecField → Time → List Reading → Time → Time
  replay f saved [] old = old
  replay f saved (r ∷ rs) old = replay f saved rs (
      if bytes_eq r.name (file_of f)
      then read_time (strip_newline r.content) saved old r.now
      else old)

  -- Each field of the spec follows the readings of its own file, in their order, and no other: an empty
  -- file gives back what was there when the watch began, a newline alone is the time of the reading, and
  -- another content is what JSON makes of it, less a newline at its end.
  pub apply-get :
      (f : SpecField) (saved : Spec) (rs : List Reading) (s : Spec)
      → get f (apply decode saved rs s) ≡ replay f (get f saved) rs (get f s)
  unfolding apply replay update
  apply-get f saved [] s = refl
  apply-get f saved (r ∷ rs) s =
      apply-get f saved rs (update decode saved r s)
      ∙ ap (replay f (get f saved) rs) (
          write-get f (spec_field r.name) saved r.content r.now s
          ∙ rw
              (
                is_for-file_of r.name f,
                read_time-new_time (strip_newline r.content) (get f saved) (get f s) r.now,
              )
              refl)

  replay-append :
      (f : SpecField) (saved : Time) (rs qs : List Reading) (old : Time)
      → replay f saved (rs ++ qs) old ≡ replay f saved qs (replay f saved rs old)
  unfolding replay
  replay-append f saved [] qs old = refl
  replay-append f saved (r ∷ rs) qs old = replay-append f saved rs qs _

  -- Once a file is found absent or empty its field is as it was when the watch began, whatever was
  -- read before. Once it holds a newline alone the field is the time of the reading.
  pub apply_last :
      (f : SpecField) (saved : Spec) (rs : List Reading) (r : Reading) (s : Spec)
      → bytes_eq r.name (file_of f) ≡ true
      → ((r.content ≡ []) → get f (apply decode saved (rs ++ r ∷ []) s) ≡ get f saved)
        × ((r.content ≡ newline) → get f (apply decode saved (rs ++ r ∷ []) s) ≡ r.now)
  unfolding replay strip_newline get
  apply_last f saved rs r s e = (
    (λ absent.
        apply-get f saved (rs ++ r ∷ []) s
        ∙ replay-append f (get f saved) rs (r ∷ []) (get f s)
        ∙ rw (e, absent) refl),
    (λ touched.
        apply-get f saved (rs ++ r ∷ []) s
        ∙ replay-append f (get f saved) rs (r ∷ []) (get f s)
        ∙ rw (e, touched) refl),
  )
