-- ===== src/Command/Precedence.antt =====
-- Which of the flag, the environment and the default an option has (public/cmd/lobby.go, RunE).
use snap_gs.Base.{
  ◌-◌, ◌≡◌, refl, ℤ, Bytes, codes, Bool, true, [], ◌∷◌, ◌++◌, map, Option, none, some,
  if◌then◌else◌, atoi,
}
use snap_gs.Options.{Options}
use snap_gs.Options.Files.{Key}
use snap_gs.Options.Laws.{Value, get, name_of}
use snap_gs.Command.{Environment, filled, switched, prefer, options_of}

-- Its variable: the prefix and the name in capitals.
abbrev pub variable : Bytes → Bytes
variable name = codes "SNAPGS_LOBBY_" ++ map (λ c. c - 32) name

abbrev pub or_default {ℓ} : {A : Type ℓ} → Option A → A → A
or_default none old = old
or_default (some v) old = v

given_first {ℓ} :
    {A : Type ℓ} (kind : A → Value) (b : Bool) (o : Option A) (old : A)
    → kind (prefer b o old) ≡ (if b then kind old else kind (or_default o old))
given_first kind true none old = refl
given_first kind Bool.false none old = refl
given_first kind true (some v) old = refl
given_first kind Bool.false (some v) old = refl

-- A text that is not empty, or `old`; a switch is on for any text that is not empty.
abbrev pub read_text : Bytes → Bytes → Value
read_text old [] = Value.text old
read_text old (c ∷ s) = Value.text (c ∷ s)

abbrev pub read_flag : Bool → Bytes → Value
read_flag old [] = Value.flag old
read_flag old (c ∷ s) = Value.flag true

text_first :
    (b : Bool) (s old : Bytes)
    → Value.text (prefer b (filled s) old) ≡ (if b then Value.text old else read_text old s)
text_first true [] old = refl
text_first Bool.false [] old = refl
text_first true (c ∷ s) old = refl
text_first Bool.false (c ∷ s) old = refl

flag_first :
    (b : Bool) (s : Bytes) (old : Bool)
    → Value.flag (prefer b (switched s) old) ≡ (if b then Value.flag old else read_flag old s)
flag_first true [] old = refl
flag_first Bool.false [] old = refl
flag_first true (c ∷ s) old = refl
flag_first Bool.false (c ∷ s) old = refl

module _ (parse_duration : Bytes → Option ℤ) where
  -- A value of the kind of `old` that the text of a variable gives, or `old`.
  abbrev pub read_as : Value → Bytes → Value
  read_as (Value.text old) s = read_text old s
  read_as (Value.number old) s = Value.number (or_default (atoi s) old)
  read_as (Value.duration old) s = Value.duration (or_default (parse_duration s) old)
  read_as (Value.flag old) s = read_flag old s

  -- Every option takes the flag where it was given. Otherwise it takes the variable that is named after
  -- the flag in capitals, where its text gives a value, and the default of the flag where it does not.
  pub options_of-get :
      (env : Environment) (given : Bytes → Bool) (flags : Options) (k : Key)
      → get k (options_of parse_duration env given flags) ≡ (
          if given (name_of k)
          then get k flags
          else read_as (get k flags) (env (variable (name_of k))))
  unfolding options_of get
  options_of-get env given flags Key.session = text_first (given (codes "session")) _ _
  options_of-get env given flags Key.password = text_first (given (codes "password")) _ _
  options_of-get env given flags Key.specdir = text_first (given (codes "specdir")) _ _
  options_of-get env given flags Key.statdir = text_first (given (codes "statdir")) _ _
  options_of-get env given flags Key.logdir = text_first (given (codes "logdir")) _ _
  options_of-get env given flags Key.listen = text_first (given (codes "listen")) _ _
  options_of-get env given flags Key.exe = text_first (given (codes "exe")) _ _
  options_of-get env given flags Key.pidfile = text_first (given (codes "pidfile")) _ _
  options_of-get env given flags Key.maxfails =
      given_first Value.number (given (codes "maxfails")) _ _
  options_of-get env given flags Key.minuptime =
      given_first Value.duration (given (codes "minuptime")) _ _
  options_of-get env given flags Key.admintimeout =
      given_first Value.duration (given (codes "admintimeout")) _ _
  options_of-get env given flags Key.timeout =
      given_first Value.duration (given (codes "timeout")) _ _
  options_of-get env given flags Key.debug = flag_first (given (codes "debug")) _ _
