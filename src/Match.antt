-- ===== src/Match.antt =====
-- The record of a match (internal/match/match.go). Go's float64 is a type `F` with the operations
-- that the code uses; a time is the number of nanoseconds since Go's zero time.
pub mod Privacy
use snap_gs.Base.{ℕ, ℤ, Bytes, Bool, List, [], map}

abbrev pub Time : Type 0
Time = ℕ

-- What `Normalize` uses of float64.
pub record Floats (F : Type 0) : Type 0 where
  pub zero : F
  pub sub : F → F → F

pub record Location (F : Type 0) : Type 0 where
  pub x : F
  pub y : F
  pub z : F

pub record Kill (F : Type 0) : Type 0 where
  pub shooter_id : Bytes
  pub shooter_name : Bytes
  pub shooter_team : ℤ
  pub shooter_is_bot : Bool
  pub enemy_id : Bytes
  pub enemy_name : Bytes
  pub enemy_team : ℤ
  pub enemy_is_bot : Bool
  pub shooter_location : Location F
  pub shot_origin : Location F
  pub impact_location : Location F
  pub impact_location_local : Location F
  pub impact_collider : Bytes
  pub enemy_location : Location F
  pub round_number : ℤ
  pub round_start_time : F
  pub kill_time : F

pub record Match (F : Type 0) : Type 0 where
  pub timestamp : Time
  pub match_id : Bytes
  pub arena_name : Bytes
  pub team0_score : ℤ
  pub team1_score : ℤ
  pub match_start_time : F
  pub game_mode : ℤ
  pub version : Bytes
  pub kill_data : List (Kill F)

module _ {F : Type 0} (floats : Floats F) where
  open floats use {zero, sub}

  shift : F → Kill F → Kill F
  shift start k = record k {
    round_start_time = sub k.round_start_time start;
    kill_time = sub k.kill_time start;
  }

  unfoldable pub normalize : Match F → Match F
  unfolding shift
  normalize m = record m {
    match_start_time = zero;
    kill_data = map (shift m.match_start_time) m.kill_data;
  }

  -- `&match.Match{Timestamp: t}`.
  unfoldable pub empty_match : Time → Match F
  empty_match t = record {
    timestamp = t;
    match_id = [];
    arena_name = [];
    team0_score = ℤ.pos 0;
    team1_score = ℤ.pos 0;
    match_start_time = zero;
    game_mode = ℤ.pos 0;
    version = [];
    kill_data = [];
  }

module _ {F : Type 0} where
  unnamed : Kill F → Kill F
  unnamed k = record k { shooter_name = []; shooter_id = []; enemy_name = []; enemy_id = [] }

  unfoldable pub anonymize : Match F → Match F
  unfolding unnamed
  anonymize m = record m { kill_data = map unnamed m.kill_data; match_id = []; version = [] }
