-- ===== src/Log/Uptime.antt =====
-- The uptime in front of a line, and the lines of a level (internal/log/log.go, uptime, Errorf, Debugf,
-- Infof, Warnf and Logf). A duration is a number of nanoseconds. `strconv.AppendFloat` of the
-- seconds, at a number of decimals, and the text that fmt makes are parameters.
pub mod Width
use snap_gs.Base.{
  ℕ, ◌+◌, ◌-◌, ◌*◌, ◌/◌, ◌%◌, ltb, leb, Bytes, codes, Bool, true, false, ◌&&◌, not, List, [], ◌∷◌,
  ◌++◌, Option, none, some, if◌then◌else◌, is_nil, length, decimal,
}
use snap_gs.Log.{Prefix, logv}

abbrev pub second : ℕ
second = 1000000000

abbrev pub minute : ℕ
minute = 60000000000

abbrev pub hour : ℕ
hour = 3600000000000

abbrev pub max_duration : ℕ
max_duration = 1000000 * hour

-- `cap(buf)`.
abbrev pub width : ℕ
width = 15

module _ (append_float : ℕ → ℕ → Bytes) where
  -- The three cases of the `switch`, from the last one that they all run into.
  unfoldable pub add_seconds : Bytes → ℕ → Bytes
  add_seconds buf d =
      let prec = width - length buf - 4 in
      if ltb d (10 * second)
      then (if is_nil buf
          then append_float d (prec + 1) ++ codes "s"
          else buf ++ (codes "0" ++ (append_float d prec ++ codes "s")))
      else buf ++ (append_float d prec ++ codes "s")

  unfoldable pub add_minutes : Bytes → ℕ → Bytes
  unfolding add_seconds
  add_minutes buf d =
      let padded = if not (is_nil buf) && ltb d (10 * minute) then buf ++ codes "0" else buf in
      add_seconds (padded ++ (decimal (d / minute) ++ codes "m")) (d % minute)

  unfoldable pub add_hours : ℕ → Bytes
  unfolding add_minutes
  add_hours d = add_minutes (decimal (d / hour) ++ codes "h") (d % hour)

  unfoldable pub clock : ℕ → Bytes
  unfolding add_hours
  clock d =
      if leb hour d
      then add_hours d
      else if leb minute d
      then add_minutes [] d
      else add_seconds [] d

  -- `uptime`, on the time since the program began.
  unfoldable pub uptime : ℕ → Bytes
  unfolding clock
  uptime d = clock (if leb max_duration d then d - max_duration else d)

-- The first argument of a message: nil, an error, or a value of another type.
pub data Arg : Type 0 where
  absent error value : Arg

-- `Errorf` is silent about a nil.
abbrev pub is_logged : List Arg → Bool
is_logged [] = true
is_logged (Arg.absent ∷ args) = false
is_logged (Arg.error ∷ args) = true
is_logged (Arg.value ∷ args) = true

abbrev pub level : ℕ → ℕ → Prefix
level a b = record { first = a; second = b }

-- The bytes of a buffer, which are nil when nothing was written to it.
abbrev pub buffered : Bytes → Option Bytes
buffered [] = none
buffered (c ∷ s) = some (c ∷ s)

module _ (format : Bytes → List Arg → Bytes) (uptime : Bytes) where
  unfoldable pub logf : Prefix → Bytes → List Arg → Option (List Bytes)
  logf p s args = logv p uptime (buffered (format s args) ∷ [])

  unfoldable pub errorf : Bytes → List Arg → Option (List Bytes)
  unfolding logf
  errorf s args = if is_logged args then logf (level b'E' b'E') s args else some []

  unfoldable pub debugf : Bytes → List Arg → Option (List Bytes)
  unfolding logf
  debugf s args = logf (level b'D' b'D') s args

  unfoldable pub infof : Bytes → List Arg → Option (List Bytes)
  unfolding logf
  infof s args = logf (level b'I' b'I') s args

  unfoldable pub warnf : Bytes → List Arg → Option (List Bytes)
  unfolding logf
  warnf s args = logf (level b'W' b'W') s args
