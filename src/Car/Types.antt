-- ===== src/Car/Types.antt =====
-- The messages that the car processor reads, and its state. `T` is `float32`. A message is taken with
-- its sub-messages present, and fields that the processor never reads are left out.
use iracelog_service_manager.Base.{ℕ, String, Bool, Option, List, GoMap}

-- racestate.v1.CarState; `other` is any enum value that the processor does not name.
pub data CarState : Type 0 where
  init run pit fin out : CarState
  other : ℕ → CarState

pub record CarInfo : Type 0 where
  pub car_idx : ℕ
  pub car_number : String
  pub car_class_id : ℕ

pub record CarEntry : Type 0 where
  pub car : CarInfo
  pub team_name : String

pub record CarClass : Type 0 where
  pub id : ℕ
  pub name : String

-- racestate.v1.PublishDriverDataRequest; the map comes in the order in which Go visits it.
pub record DriverDataRequest (T : Type 0) : Type 0 where
  pub entries : List CarEntry
  pub car_classes : List CarClass
  pub session_num : ℕ
  pub session_time : T
  pub current_drivers : GoMap ℕ String
  pub timestamp : ℕ

pub record TimeInfo (T : Type 0) : Type 0 where
  pub lap_no : ℕ
  pub lap_mode : ℕ
  pub time : T

-- racestate.v1.Car; numbers are the patterns of `int32`.
pub record Car (T : Type 0) : Type 0 where
  pub car_idx : ℕ
  pub state : CarState
  pub lap : ℕ
  pub lc : ℕ
  pub pos : ℕ
  pub pic : ℕ
  pub gap : T
  pub last : T
  pub time_info : Option (TimeInfo T)

pub record Message : Type 0 where
  pub msg : String
  pub is_timing : Bool
  pub is_race_control : Bool

pub record Session (T : Type 0) : Type 0 where
  pub session_num : ℕ
  pub session_time : T
  pub time_of_day : ℕ
  pub air_temp : T
  pub track_temp : T
  pub track_wetness : ℕ
  pub precipitation : T

-- racestate.v1.PublishStateRequest
pub record StateRequest (T : Type 0) : Type 0 where
  pub session : Session T
  pub cars : List (Car T)
  pub messages : List Message
  pub timestamp : ℕ

pub record SeatTime (T : Type 0) : Type 0 where
  pub enter_car_time : T
  pub leave_car_time : T

pub record Driver (T : Type 0) : Type 0 where
  pub name : String
  pub seat_times : List (SeatTime T)

pub record CarOccupancy (T : Type 0) : Type 0 where
  pub car_num : String
  pub name : String
  pub current_driver_name : String
  pub drivers : List (Driver T)

pub record StintInfo (T : Type 0) : Type 0 where
  pub exit_time : T
  pub enter_time : T
  pub lap_exit : ℕ
  pub lap_enter : ℕ
  pub num_laps : ℕ
  pub stint_time : T
  pub is_current_stint : Bool

pub record CarStint (T : Type 0) : Type 0 where
  pub car_num : String
  pub current : StintInfo T
  pub history : List (StintInfo T)

pub record PitInfo (T : Type 0) : Type 0 where
  pub enter_time : T
  pub exit_time : T
  pub lap_enter : ℕ
  pub lap_exit : ℕ
  pub lane_time : T
  pub is_current_pitstop : Bool

pub record CarPit (T : Type 0) : Type 0 where
  pub car_num : String
  pub current : PitInfo T
  pub history : List (PitInfo T)

pub record CarComputeState (T : Type 0) : Type 0 where
  pub car_num : String
  pub car_state : CarState
  pub out_encountered : T

-- `none` among the compute states is a nil pointer, which `ProcessStatePayload` may store.
pub record CarProcessor (T : Type 0) : Type 0 where
  pub by_car_idx : GoMap ℕ CarEntry
  pub by_car_num : GoMap String CarEntry
  pub compute_state : GoMap String (Option (CarComputeState T))
  pub stint_lookup : GoMap String (CarStint T)
  pub pit_lookup : GoMap String (CarPit T)
  pub car_occupancy_lookup : GoMap String (CarOccupancy T)
  pub num_by_idx : GoMap ℕ String
  pub current_drivers : GoMap ℕ String
  pub car_classes : List CarClass
  pub race_sessions : List ℕ
