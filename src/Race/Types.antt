-- ===== src/Race/Types.antt =====
-- The state of the race processor. The car processor that it points to is an argument of its
-- operations, which only read it. `T` is `float32`.
use iracelog_service_manager.Base.{ℕ, String, Bool, Option, List, GoMap}
use iracelog_service_manager.Car.Types.{TimeInfo}

pub record LapInfo (T : Type 0) : Type 0 where
  pub mode : ℕ
  pub time : T

pub record Lap (T : Type 0) : Type 0 where
  pub lap_no : ℕ
  pub lap_time : T
  pub lap_info : Option (LapInfo T)

pub record CarLaps (T : Type 0) : Type 0 where
  pub car_num : String
  pub laps : List (Lap T)

pub record GapInfo (T : Type 0) : Type 0 where
  pub car_num : String
  pub lap_no : ℕ
  pub pos : ℕ
  pub gap : T
  pub pic : ℕ

pub record RaceGraph (T : Type 0) : Type 0 where
  pub lap_no : ℕ
  pub car_class : String
  pub gaps : List (GapInfo T)

-- `none` is a timestamp that is not set.
pub record ReplayInfo (T : Type 0) : Type 0 where
  pub min_timestamp : Option ℕ
  pub min_session_time : T
  pub max_session_time : T

pub record RaceProcessor (T : Type 0) : Type 0 where
  pub race_order : List String
  pub car_laps : GoMap String (CarLaps T)
  pub race_graph : GoMap String (List (RaceGraph T))
  pub replay_info : ReplayInfo T
  pub race_sessions : List ℕ
  pub race_start_marker_found : Bool
  pub time_infos : GoMap String (TimeInfo T)
