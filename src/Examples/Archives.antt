-- ===== src/Examples/Archives.antt =====
-- The files of a run (public/lobby/lobby.go, runc; internal/lobby/collect.go; internal/lobby/scan.go,
-- scanner), and a line of its logs (internal/log/log.go).
use snap_gs.Base.{
  true, false, ◌≡◌, refl, inl, ℕ, ◌+◌, ◌/◌, Bytes, not, codes, List, [], ◌∷◌, ◌++◌, none, some,
  arith, is_some, length, decimal, zero, suc, length-append, length-decimal_one, length-decimal_two,
}
use snap_gs.Errors.{other}
use snap_gs.Options.{validate}
use snap_gs.Match.{Time}
use snap_gs.Lobby.{Lobby}
use snap_gs.Lobby.Line.{scan}
use snap_gs.Lobby.Safety.{over, IsSafe}
use snap_gs.Lobby.Collector.{Meta}
use snap_gs.Lobby.Collect.Laws.{handed_over}
use snap_gs.Lobby.Scanner.{scanner}
use snap_gs.Lobby.Scanner.Handover.{scanner-hands_over}
use snap_gs.Log.{front}
use snap_gs.Log.Uptime.{level, uptime, clock, add_hours, add_minutes, add_seconds, second}
use snap_gs.Log.Uptime.Width.{IsFixed, front-uptime}
use snap_gs.Archive.{
  Endings, created, log_created, flushed, closed, log_closed, tagged, renamed, ran_logged, has_run,
  Marshalled, text, Answers, archive_of, log_meta, runc, write_match_file,
}
use snap_gs.Archive.Whole.{
  blank, performs, first_error, error_of, left_by, left_after, obstacles, or_error, runc-published,
  write_match_file-published,
}
use snap_gs.Examples.Lobbies.{options, env, fresh, fresh-IsSafe}

abbrev pub marshal : Meta → Marshalled
marshal m = text (codes "{}")

abbrev pub join : Bytes → Bytes → Bytes
join dir name = dir ++ codes "/" ++ name

-- A file system without attributes.
abbrev no_xattr : Endings
no_xattr = record {
  flush_error = none;
  close_error = none;
  tag_error = some (other 95);
  rename_error = none;
}

abbrev pub answers : Answers
answers = record {
  stamp = codes "2022-01-02T03:04:05Z";
  archive_error = none;
  log_error = none;
  log_close_error = none;
  endings = no_xattr;
  result = some (other 1);
}

options-runc : runc marshal join options answers ≡ (
  created (codes "/log/2022-01-02T03_04_05Z-lobby.log.gz.lock")
      ∷ log_created (codes "/log/lobby.log")
      ∷ ran_logged
      ∷ log_closed none
      ∷ flushed none
      ∷ closed none
      ∷ tagged (codes "/log/2022-01-02T03_04_05Z-lobby.log.gz.lock") (codes "{}") (some (other 95))
      ∷ renamed
          (codes "/log/2022-01-02T03_04_05Z-lobby.log.gz.lock")
          (codes "/log/2022-01-02T03_04_05Z-lobby.log.gz")
          none
      ∷ [],
  some (other 1),
)
unfolding runc validate
options-runc = refl

runc-published_example :
    let (deeds, result) = runc marshal join options answers in
    (result
      ≡ or_error marshal join (first_error (obstacles marshal join options answers)) answers.result)
    × (has_run deeds ≡ not (is_some (first_error (obstacles marshal join options answers))))
    × (performs deeds blank
        ≡ some (
            left_after
              (validate options)
              options.log_dir
              (archive_of marshal join options answers)
              (marshal (log_meta options.session))
              answers.archive_error
              answers.endings))
runc-published_example = runc-published marshal join options answers

-- A match that cannot be written whole.
write_match_file-published_example :
    let (deeds, result) =
      write_match_file
        (codes "m")
        (text (codes "{}"))
        none
        (text (codes "[]"))
        (some (other 28))
        no_xattr in
    (performs deeds blank ≡ some (left_by (codes "m") (text (codes "{}")) none no_xattr))
    × (result
        ≡ first_error (
            error_of (text (codes "{}"))
            ∷ none
            ∷ error_of (text (codes "[]"))
            ∷ some (other 28)
            ∷ []))
write_match_file-published_example =
    write_match_file-published (codes "m") (text (codes "{}")) none (text (codes "[]"))
      (some (other 28)) no_xattr

abbrev last_lines : List (Bytes × Time)
last_lines = (codes "a line", 5) ∷ []

scanner-hands_over_example :
    (l' : Lobby ℕ) × (out : List Bytes) × (before : Lobby ℕ) × (scan env 1 last_lines fresh
      ≡ some (before, out))
    × (scanner env 1 last_lines 9 false fresh ≡ some (l', out, true))
    × IsSafe over l'
    × (l'.m.match_id ≡ [])
    × (l'.matches ≡ handed_over env before)
scanner-hands_over_example = scanner-hands_over env last_lines 9 fresh fresh-IsSafe

-- Whole seconds, and zeros for the decimals.
abbrev zeros : ℕ → Bytes
zeros zero = []
zeros (suc n) = b'0' ∷ zeros n

abbrev append_float : ℕ → ℕ → Bytes
append_float d prec = decimal (d / second) ++ (codes "." ++ zeros prec)

zeros-length : (n : ℕ) → length (zeros n) ≡ n
zeros-length zero = refl
zeros-length (suc n) = omega (arith, zeros-length n)

append_float-length :
    (d prec : ℕ) → length (append_float d prec) ≡ length (decimal (d / second)) + (prec + 1)
append_float-length d prec =
    omega (arith, length-append (decimal (d / second)) (codes "." ++ zeros prec), zeros-length prec)

append_float-IsFixed : IsFixed append_float
append_float-IsFixed = record {
  one_digit = λ d prec some_room below.
      omega
        (arith, append_float-length d prec, length-decimal_one (d / second) (omega (arith, below)));
  two_digits = λ d prec some_room above below. omega (
    arith,
    append_float-length d prec,
    length-decimal_two (d / second) (omega (arith, above)) (omega (arith, below)),
  );
}

-- An hour, two minutes and three seconds.
abbrev a_while : ℕ
a_while = 3723000000000

a_while-uptime : uptime append_float a_while ≡ codes "1h02m03.000000s"
unfolding uptime clock add_hours add_minutes add_seconds decimal
a_while-uptime = refl

front-uptime_example :
    front (level b'E' b'E') (uptime append_float a_while)
    ≡ b'E' ∷ b'E' ∷ 32 ∷ (uptime append_float a_while ++ 32 ∷ [])
front-uptime_example =
    front-uptime append_float (level b'E' b'E') a_while append_float-IsFixed refl (omega arith)
      (inl (omega arith))
