-- ===== src/Examples/Matches.antt =====
-- A match with one kill; a float is a whole number here (internal/match/match.go).
use snap_gs.Base.{◌≡◌, refl, ℕ, ◌-◌, pos, codes, true, false, [], ◌∷◌}
use snap_gs.Match.{Floats, Location, Kill, Match, normalize}
use snap_gs.Match.Privacy.{Identity}

abbrev whole : Floats ℕ
whole = record { zero = 0; sub = λ a b. a - b }

abbrev here : Location ℕ
here = record { x = 1; y = 2; z = 3 }

abbrev shot : Kill ℕ
shot = record {
  shooter_id = codes "1001";
  shooter_name = codes "ann";
  shooter_team = pos 0;
  shooter_is_bot = false;
  enemy_id = codes "3";
  enemy_name = codes "bot";
  enemy_team = pos 1;
  enemy_is_bot = true;
  shooter_location = here;
  shot_origin = here;
  impact_location = here;
  impact_location_local = here;
  impact_collider = codes "head";
  enemy_location = here;
  round_number = pos 1;
  round_start_time = 105;
  kill_time = 112;
}

abbrev pub played : Match ℕ
played = record {
  timestamp = 5;
  match_id = codes "lobby1 1/2/2006 3:04:05 PM";
  arena_name = codes "arena";
  team0_score = pos 1;
  team1_score = pos 0;
  match_start_time = 100;
  game_mode = pos 0;
  version = codes "1.0";
  kill_data = shot ∷ [];
}

shifted : normalize whole played ≡ record played {
  match_start_time = 0;
  kill_data = record shot { round_start_time = 5; kill_time = 12 } ∷ [];
}
unfolding normalize
shifted = refl

abbrev pub someone : Kill ℕ → Identity
someone _ = record {
  shooter_id = codes "1002";
  shooter_name = codes "bob";
  enemy_id = codes "1003";
  enemy_name = codes "eve";
}
