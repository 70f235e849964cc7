-- ===== src/Options/Laws.antt =====
-- What the options promise (public/options/lobby.go).
use mathlib.Core.Logic.{ite, if_pos, if_neg}
use snap_gs.Base.GoMap.{lookup, lookup-own}
use snap_gs.Base.{
  codes, bytes_eq, bytes_eq_iff, bytes_key, Bool-cases, Option-cases, inl, inr, is_nil, ◌≤◌, ◌≡◌,
  refl, ap, ◌∙◌, ◌≢◌, ◌↔◌, ℤ, pos, ◌≤ℤ◌, Bytes, Bool, true, false, List, [], ◌∷◌, Option, none,
  some, arith, if◌then◌else◌, strip_newline, length,
}
use snap_gs.Options.{Options, validate, exe_min, session_min, session_max}
use snap_gs.Options.Files.{
  Key, key_of, key_names, Decoders, Flag, new_string, new_duration, new_int, new_bool, write,
  update, apply,
}

-- Options are accepted exactly when every bound holds.
pub validate_iff :
    (o : Options)
    → (validate o ≡ none) ↔ (
        (exe_min ≤ length o.exe)
        × (session_min ≤ length o.session)
        × (length o.session ≤ session_max)
        × (pos 0 ≤ℤ o.max_fails))
unfolding validate
validate_iff o = ground arith

-- A value of an option.
pub data Value : Type 0 where
  text : Bytes → Value
  number duration : ℤ → Value
  flag : Bool → Value

unfoldable pub get : Key → Options → Value
get Key.session o = Value.text o.session
get Key.password o = Value.text o.password
get Key.specdir o = Value.text o.spec_dir
get Key.statdir o = Value.text o.stat_dir
get Key.logdir o = Value.text o.log_dir
get Key.maxfails o = Value.number o.max_fails
get Key.minuptime o = Value.duration o.min_uptime
get Key.admintimeout o = Value.duration o.admin_timeout
get Key.timeout o = Value.duration o.timeout
get Key.listen o = Value.text o.listen
get Key.exe o = Value.text o.exe
get Key.pidfile o = Value.text o.pid_file
get Key.debug o = Value.flag o.debug

-- Each kind of option reads its file in its own way.
module _ (d : Decoders) where
  open d use {json_string, json_int, json_bool, parse_duration}

  abbrev pub new_value : Bool × Bytes → Value → Value → Value
  new_value (ended, v) (text saved) (text old) =
      text (if is_nil v then saved else if ended then v else json_string v old)
  new_value (ended, v) (number saved) (number old) =
      number (if is_nil v then saved else json_int v old)
  new_value (ended, v) (duration saved) (duration old) =
      duration (if is_nil v then saved else if ended then parse_duration v else json_int v old)
  new_value (ended, v) (flag saved) (flag old) = flag (if is_nil v then saved else json_bool v old)
  new_value v _ old = old

  read_value : Bool × Bytes → Value → Value → Value
  unfolding new_string new_duration new_int new_bool
  read_value v (text saved) (text old) = text (new_string d v saved old)
  read_value v (number saved) (number old) = number (new_int d v saved old)
  read_value v (duration saved) (duration old) = duration (new_duration d v saved old)
  read_value v (flag saved) (flag old) = flag (new_bool d v saved old)
  read_value v _ old = old

  read_value-new_value :
      (v : Bool × Bytes) (saved old : Value) → read_value v saved old ≡ new_value v saved old
  unfolding read_value
  read_value-new_value (ended, []) (text a) (text b) = refl
  read_value-new_value (ended, []) _ _ = refl
  read_value-new_value (true, c ∷ s) (text a) (text b) = refl
  read_value-new_value (true, c ∷ s) _ _ = refl
  read_value-new_value (false, c ∷ s) (text a) (text b) = refl
  read_value-new_value (false, c ∷ s) _ _ = refl

-- The file of an option, which has the name of its flag.
abbrev pub name_of : Key → Bytes
name_of Key.session = codes "session"
name_of Key.password = codes "password"
name_of Key.specdir = codes "specdir"
name_of Key.statdir = codes "statdir"
name_of Key.logdir = codes "logdir"
name_of Key.maxfails = codes "maxfails"
name_of Key.minuptime = codes "minuptime"
name_of Key.admintimeout = codes "admintimeout"
name_of Key.timeout = codes "timeout"
name_of Key.listen = codes "listen"
name_of Key.exe = codes "exe"
name_of Key.pidfile = codes "pidfile"
name_of Key.debug = codes "debug"

key_of-name_of : (k : Key) → key_of (name_of k) ≡ some k
unfolding key_of lookup bytes_eq
key_of-name_of Key.session = refl
key_of-name_of _ = refl

key_of-own : (n : Bytes) (k : Key) → key_of n ≡ some k → n ≡ name_of k
unfolding key_of
key_of-own n k h =
    lookup-own name_of n k key_names
      (
        refl,
        (
          refl,
          (
            refl,
            (refl, (refl, (refl, (refl, (refl, (refl, (refl, (refl, (refl, (refl, tt)))))))))),
          ),
        ),
      )
      h

Key-discrete : Discrete Key
Key-discrete = hlevel

abbrev is_for : Key → Option Key → Bool
is_for k none = false
is_for k (some g) = ite (Key-discrete g k) true false

is_for-name_of : (n : Bytes) (k : Key) → is_for k (key_of n) ≡ bytes_eq n (name_of k)
is_for-name_of n k = elim (Bool-cases (bytes_eq n (name_of k))) [
  | inl same ↦
      let own = (bytes_eq_iff n (name_of k)).0 same in
      rw (same, own, key_of-name_of k) (if_pos _ refl true false)
  | inr differs ↦ rw differs (elim (Option-cases (key_of n)) [
    | inl unknown ↦ rw unknown refl
    | inr (g, known) ↦ rw known (
        if_neg _
          (λ e.
            let own = key_of-own n g known in
            let same : bytes_eq n (name_of k) ≡ true =
              (bytes_eq_iff n (name_of k)).1 (own ∙ ap name_of e) in
            cc)
          true false)
  ])
]

module _ (d : Decoders) where
  write-read_value :
      (k : Key) (saved : Options) (v : Bool × Bytes) (o : Options)
      → get k (write d (some k) saved v o) ≡ read_value d v (get k saved) (get k o)
  unfolding write get read_value
  write-read_value Key.session saved v o = refl
  write-read_value _ saved v o = refl

  write-get_self :
      (k : Key) (saved : Options) (v : Bool × Bytes) (o : Options)
      → get k (write d (some k) saved v o) ≡ new_value d v (get k saved) (get k o)
  write-get_self k saved v o =
      write-read_value k saved v o ∙ read_value-new_value d v (get k saved) (get k o)

  write-get_ne :
      (g k : Key) (saved : Options) (v : Bool × Bytes) (o : Options)
      → g ≢ k
      → get k (write d (some g) saved v o) ≡ get k o
  unfolding write get
  write-get_ne Key.session Key.session saved v o h = absurd (h refl)
  write-get_ne _ _ saved v o h = grind arith

  write-get :
      (k : Key) (g : Option Key) (saved : Options) (v : Bool × Bytes) (o : Options)
      → get k (write d g saved v o)
        ≡ (if is_for k g then new_value d v (get k saved) (get k o) else get k o)
  unfolding write
  write-get k none saved v o = refl
  write-get k (some g) saved v o = elim (Key-discrete g k) [
    | yes e ↦ rw (if_pos _ e, e) (write-get_self k saved v o)
    | no h ↦ rw (if_neg _ h) (write-get_ne g k saved v o h)
  ]

  pub replay : Key → Value → List Flag → Value → Value
  replay k saved [] old = old
  replay k saved (f ∷ fs) old =
      replay k saved fs (
        if bytes_eq f.name (name_of k)
        then new_value d (strip_newline f.content) saved old
        else old)

  -- Each option follows the readings of the file of its own name, in their order, and no other: an empty
  -- file or a newline alone gives back what was there when the watch began, and another content is read
  -- as JSON, but as the text or the duration itself where the option is one and a newline ends it.
  pub apply-get_option :
      (k : Key) (saved : Options) (fs : List Flag) (o : Options)
      → get k (apply d saved fs o) ≡ replay k (get k saved) fs (get k o)
  unfolding apply replay update
  apply-get_option k saved [] o = refl
  apply-get_option k saved (f ∷ fs) o =
      apply-get_option k saved fs (update d saved f o)
      ∙ ap (replay k (get k saved) fs) (
          write-get k (key_of f.name) saved (strip_newline f.content) o
          ∙ rw (is_for-name_of f.name k) refl)
