-- ===== src/Log/Uptime/Width.antt =====
-- The uptime takes the same room whatever it is (internal/log/log.go, uptime).
use mathlib.Core.List.{append-nil}
use snap_gs.Base.{
  some, ℕ, ◌+◌, ◌-◌, ◌*◌, ◌/◌, ◌%◌, ◌≤◌, ◌<◌, ◌≡◌, ◌⊎◌, refl, ap, sym, ◌∙◌, inl, inr, ltb, leb,
  Bytes, codes, ltb→lt, true, false, List, [], ◌∷◌, ◌++◌, arith, if◌then◌else◌, is_nil, length,
  length-append, decimal, length-decimal, length-decimal_one, length-decimal_two, Bool-cases,
}
use snap_gs.Log.{Prefix, is_line, copy_over, head_of, front, new_line, all_bytes, ends_present}
use snap_gs.Log.Framing.{written, closing, logv-written}
use snap_gs.Log.Uptime.{
  second, minute, hour, max_duration, add_seconds, add_minutes, add_hours, clock, uptime, Arg,
  is_logged, level, buffered, logf, errorf,
}

-- What AppendFloat prints of less than a minute: one digit and then the decimals below 9.95 seconds,
-- which round up to ten at no precision, and two digits and then the decimals from ten seconds on.
pub record IsFixed (append_float : ℕ → ℕ → Bytes) : Type 0 where
  pub one_digit : (d prec : ℕ) → 0 < prec → d < 9950000000 → length (append_float d prec) ≡ prec + 2
  pub two_digits :
      (d prec : ℕ)
      → 0 < prec
      → 10 * second ≤ d
      → d < minute
      → length (append_float d prec) ≡ prec + 3

-- The seconds of a time are not between 9.95 and 10, where they can round up to a second digit.
abbrev pub RoundsWell : ℕ → Type 0
RoundsWell d = (d % minute < 9950000000) ⊎ (10 * second ≤ d % minute)

RoundsWell-same : (d e : ℕ) → d % minute ≡ e % minute → RoundsWell d → RoundsWell e
RoundsWell-same d e same (inl one) = inl (omega (arith, same, one))
RoundsWell-same d e same (inr two) = inr (omega (arith, same, two))

below_minute : (d : ℕ) → d < minute → RoundsWell d → (d < 9950000000) ⊎ (10 * second ≤ d)
below_minute d below (inl one) = inl (omega (arith, below, one))
below_minute d below (inr two) = inr (omega (arith, below, two))

is_nil-append : (s : Bytes) (c : ℕ) → is_nil (s ++ c ∷ []) ≡ false
is_nil-append [] c = refl
is_nil-append (d ∷ s) c = refl

is_nil-append_twice : (s t : Bytes) (c : ℕ) → is_nil (s ++ (t ++ c ∷ [])) ≡ false
is_nil-append_twice [] t c = is_nil-append t c
is_nil-append_twice (d ∷ s) t c = refl

module _ (append_float : ℕ → ℕ → Bytes) (fixed : IsFixed append_float) where
  -- The seconds fill the room that is left.
  add_seconds-length :
      (buf : Bytes) (d : ℕ)
      → is_nil buf ≡ false
      → length buf ≤ 10
      → d < minute
      → (d < 9950000000) ⊎ (10 * second ≤ d)
      → length (add_seconds append_float buf d) ≡ 15
  unfolding add_seconds
  add_seconds-length buf d given room below (inl one) =
      let prec = 15 - length buf - 4 in
      let short : ltb d (10 * second) ≡ true = ground arith in
      rw (short, given)
        (omega (
          arith,
          length-append buf (codes "0" ++ (append_float d prec ++ codes "s")),
          length-append (append_float d prec) (codes "s"),
          fixed.one_digit d prec (omega (arith, room)) one,
        ))
  add_seconds-length buf d given room below (inr two) =
      let prec = 15 - length buf - 4 in
      let long : ltb d (10 * second) ≡ false = ground arith in
      rw long (
        omega (
          arith,
          length-append buf (append_float d prec ++ codes "s"),
          length-append (append_float d prec) (codes "s"),
          fixed.two_digits d prec (omega (arith, room)) two below,
        ))

  seconds_alone :
      (d : ℕ)
      → d < minute
      → (d < 9950000000) ⊎ (10 * second ≤ d)
      → length (add_seconds append_float [] d) ≡ 15
  unfolding add_seconds
  seconds_alone d below (inl one) =
      let short : ltb d (10 * second) ≡ true = ground arith in
      rw short (
        omega (
          arith,
          length-append (append_float d 12) (codes "s"),
          fixed.one_digit d 12 (omega arith) one,
        ))
  seconds_alone d below (inr two) =
      let long : ltb d (10 * second) ≡ false = ground arith in
      rw long (
        omega (
          arith,
          length-append (append_float d 11) (codes "s"),
          fixed.two_digits d 11 (omega arith) two below,
        ))

  -- The minutes, of one digit or two, after what they are put behind.
  minutes_fit :
      (front : Bytes) (d n : ℕ)
      → length (decimal (d / minute)) ≡ n
      → length front + n ≤ 9
      → RoundsWell d
      → length
          (add_seconds append_float (front ++ (decimal (d / minute) ++ codes "m")) (d % minute))
        ≡ 15
  minutes_fit front d n digits room rounds =
      add_seconds-length (front ++ (decimal (d / minute) ++ codes "m")) (d % minute)
        (is_nil-append_twice front (decimal (d / minute)) b'm')
        (omega (
          arith,
          length-append front (decimal (d / minute) ++ codes "m"),
          length-append (decimal (d / minute)) (codes "m"),
          digits,
          room,
        ))
        (omega arith) rounds

  minutes_alone : (d : ℕ) → d < hour → RoundsWell d → length (add_minutes append_float [] d) ≡ 15
  unfolding add_minutes
  minutes_alone d below rounds = elim (Bool-cases (ltb (d / minute) 10)) [
    | inl one ↦
        minutes_fit [] d 1 (length-decimal_one (d / minute) (ltb→lt (d / minute) 10 one))
          (omega arith) rounds
    | inr two ↦
        minutes_fit [] d 2 (length-decimal_two (d / minute) (ground arith) (omega (arith, below)))
          (omega arith) rounds
  ]

  minutes_after :
      (front : Bytes) (d : ℕ)
      → is_nil front ≡ false
      → length front ≤ 7
      → d < hour
      → RoundsWell d
      → length (add_minutes append_float front d) ≡ 15
  unfolding add_minutes
  minutes_after front d given room below rounds = elim (Bool-cases (ltb d (10 * minute))) [
    | inl one ↦
        rw (given, one)
          (minutes_fit (front ++ codes "0") d 1 (length-decimal_one (d / minute) (ground arith))
            (omega (arith, length-append front (codes "0"), room)) rounds)
    | inr two ↦
        rw (given, two)
          (minutes_fit front d 2
            (length-decimal_two (d / minute) (ground arith) (omega (arith, below)))
            (omega (arith, room)) rounds)
  ]

  hours-length : (d : ℕ) → d < max_duration → RoundsWell d → length (add_hours append_float d) ≡ 15
  unfolding add_hours
  hours-length d below rounds =
      minutes_after (decimal (d / hour) ++ codes "h") (d % hour)
        (is_nil-append (decimal (d / hour)) b'h')
        (omega (
          arith,
          length-append (decimal (d / hour)) (codes "h"),
          length-decimal (d / hour) 5 (omega (arith, below)),
        ))
        (omega arith) (RoundsWell-same d (d % hour) (omega arith) rounds)

  clock-length : (d : ℕ) → d < max_duration → RoundsWell d → length (clock append_float d) ≡ 15
  unfolding clock
  clock-length d below rounds = elim (Bool-cases (leb hour d)) [
    | inl long ↦ rw long (hours-length d below rounds)
    | inr short ↦ elim (Bool-cases (leb minute d)) [
      | inl minutes ↦ rw (short, minutes) (minutes_alone d (ground arith) rounds)
      | inr seconds ↦
          rw (short, seconds)
            (seconds_alone d (ground arith) (below_minute d (ground arith) rounds))
    ]
  ]

  uptime-length :
      (d : ℕ) → d < 2 * max_duration → RoundsWell d → length (uptime append_float d) ≡ 15
  unfolding uptime
  uptime-length d below rounds = elim (Bool-cases (leb max_duration d)) [
    | inl late ↦ rw late (
        clock-length (d - max_duration) (omega (arith, below))
          (RoundsWell-same d (d - max_duration) (ground arith) rounds))
    | inr early ↦ rw early (clock-length d (ground arith) rounds)
  ]

copy_over-whole : (old new : Bytes) → length old ≡ length new → copy_over old new ≡ new
unfolding copy_over
copy_over-whole [] [] h = refl
copy_over-whole (d ∷ old) [] h = absurd (omega (arith, h))
copy_over-whole [] (c ∷ new) h = absurd (omega (arith, h))
copy_over-whole (d ∷ old) (c ∷ new) h = ap (◌∷◌ c) (copy_over-whole old new (omega (arith, h)))

-- For two million hours, which are 228 years, the front of a line shows the whole uptime, between its
-- mark and a space: the uptime fills the room that Logv has for it, as long as its seconds, the
-- minutes taken off, are less than 9.95 or at least 10.
pub front-uptime :
    (append_float : ℕ → ℕ → Bytes) (p : Prefix) (d : ℕ)
    → IsFixed append_float
    → is_line p ≡ false
    → d < 2 * max_duration
    → RoundsWell d
    → front p (uptime append_float d) ≡ p.first ∷ p.second ∷ 32 ∷ (uptime append_float d ++ 32 ∷ [])
unfolding front head_of
front-uptime append_float p d fixed marked below rounds = rw marked (
    rw
      (copy_over-whole (codes "0.000000000000s") (uptime append_float d)
        (sym (uptime-length append_float fixed d below rounds)))
      refl)

text_line :
    (t : Bytes)
    → is_nil t ≡ false
    → all_bytes (buffered t ∷ []) ++ closing (buffered t ∷ []) ≡ t ++ new_line
unfolding ends_present
text_line [] h = cc
text_line (c ∷ s) h = ap (λ b. b ++ new_line) (append-nil (c ∷ s))

-- A message that is not empty becomes one line with the mark of an error, or none at all where its first
-- argument is nil.
pub errorf-written :
    (format : Bytes → List Arg → Bytes) (now s : Bytes) (args : List Arg)
    → is_nil (format s args) ≡ false
    → (writes : List Bytes) × (errorf format now s args ≡ some writes)
      × (written writes ≡ (
          if is_logged args
          then front (level b'E' b'E') now ++ (format s args ++ new_line)
          else []))
unfolding errorf logf
errorf-written format now s args given = elim (Bool-cases (is_logged args)) [
  | inl spoken ↦
      let (writes, made, same) =
        logv-written (level b'E' b'E') now (buffered (format s args) ∷ []) in
      (
        writes,
        rw (errorf, spoken) made,
        rw spoken
            (same ∙ ap (◌++◌ (front (level b'E' b'E') now)) (text_line (format s args) given)),
      )
  | inr silent ↦ ([], rw (errorf, silent) refl, rw silent refl)
]
