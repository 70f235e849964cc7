-- ===== src/Examples/Calls.antt =====
-- `snap-gs lobby` without a flag (public/cmd/lobby.go, RunE and NewLobbyFlagSet).
use snap_gs.Base.{
  atoi, bytes_eq, has_prefix, decimal, ◌≡◌, refl, ℕ, pos, ◌≤ℤ◌, Bool, codes, [], ◌∷◌, ◌++◌, map,
  none, some, arith,
}
use snap_gs.Errors.{session_min_len, other}
use snap_gs.Options.{Options, validate}
use snap_gs.Lobby.Stat.{split_comma}
use snap_gs.Command.{flag_defaults, options_of}
use snap_gs.Command.Setup.{
  ok, setup, cgroup_of, mount_of, cut_space, cgroup_root, split_by, trim_lines, trim_hierarchy,
  join_comma, make_dir, pid_files, pid_file, cgroup_file, plain_file, write_query, write_values,
}
use snap_gs.Program.{lived, stopped, Program, ended}
use snap_gs.Command.Setup.Success.{with_flags}
use snap_gs.Program.Main.{Libraries, Call, came_to, options, run_e, code_after}
use snap_gs.Program.Main.Refused.{run_e_invalid}
use snap_gs.Examples.Lobbies.{env}
use snap_gs.Examples.Lives.{blank}
use snap_gs.Examples.Flags.{no_durations}
use snap_gs.Examples.Setups.{os, lib, found}
use snap_gs.Examples.Archives.{marshal}
use snap_gs.Examples.Programs.{three_rounds}

abbrev libs : Libraries ℕ
libs = record { env = env; marshal = marshal; url = lib; duration = no_durations }

abbrev bare : Call
bare = record {
  variables = λ _. [];
  given = λ _. Bool.false;
  flags = flag_defaults (codes "/usr/bin/snapshot");
}

bare-options : options libs os found bare ≡ flag_defaults (codes "/usr/bin/snapshot")
unfolding options_of flag_defaults atoi
bare-options = refl

bare-validate : validate (with_flags lib found (options libs os found bare)) ≡ some session_min_len
unfolding validate with_flags options_of flag_defaults
bare-validate = refl

bare-setup :
    setup lib os found (options libs os found bare) [] ≡ ([], ok (options libs os found bare))
unfolding setup cgroup_of mount_of cut_space cgroup_root split_by trim_lines trim_hierarchy bytes_eq
    has_prefix split_comma join_comma make_dir pid_files pid_file cgroup_file plain_file write_query
    write_values decimal options_of flag_defaults
bare-setup = refl

bare-limit : Options.max_fails (with_flags lib found (options libs os found bare)) ≤ℤ pos 3
unfolding with_flags options_of flag_defaults atoi
bare-limit = omega arith

run_e_invalid_example :
    (p : Program) × (run_e libs os found bare
        (map lived three_rounds ++ stopped (other 1) ∷ [])
        blank
        []
      ≡ ([], some (came_to (ended (some session_min_len) p))))
    × (p.disk ≡ blank)
    × (code_after none none (came_to (ended (some session_min_len) p)) ≡ some 1)
run_e_invalid_example =
    run_e_invalid libs os found bare session_min_len three_rounds (stopped (other 1) ∷ []) blank []
      [] (options libs os found bare) none bare-validate bare-setup (refl, (refl, (refl, tt)))
      (omega arith) bare-limit
