-- ===== src/States/Types.antt =====
-- Requests for stored messages, and what the database holds of them. `F` is `float32`, `D` the type
-- of `decimal` and of the seconds that are compared with it.
use iracelog_service_manager.Base.{ℕ, String, Bool, Option, List}
use iracelog_service_manager.Base.Results.{Result}

-- commonv1.EventSelector; `other` is an argument that is set, but of no known kind.
pub data EventSelector : Type 0 where
  by_id : ℕ → EventSelector
  by_key : String → EventSelector
  unset : EventSelector
  other : EventSelector

-- commonv1.StartSelector
pub data StartSelector (F : Type 0) : Type 0 where
  record_stamp : ℕ → StartSelector F
  session_time : F → StartSelector F
  session_time_selector : ℕ → ℕ → StartSelector F
  id : ℕ → StartSelector F
  unknown : StartSelector F

-- state.StatesRequest; the event selector is a pointer that may be nil.
pub record StatesRequest (F : Type 0) : Type 0 where
  pub event : Option EventSelector
  pub start : Option (StartSelector F)
  pub num : ℕ

-- eventv1.Event: the fields that are read.
pub record EventSession : Type 0 where
  pub num : ℕ
  pub is_race : Bool

pub record Event : Type 0 where
  pub event_id : ℕ
  pub key : String
  pub track_id : ℕ
  pub sessions : List EventSession

-- The tables of stored messages.
pub data Table : Type 0 where
  race_state_protos speedmap_protos car_state_protos : Table

-- A query over a table joined with `rs_info`: the conditions that are set, the limit, and the order,
-- by id, then by time if so marked.
pub record Query (D : Type 0) : Type 0 where
  pub table : Table
  pub of_event : ℕ
  pub from_stamp : Option ℕ
  pub in_session : Option ℕ
  pub from_session_time : Option D
  pub from_id : Option ℕ
  pub limit : ℕ
  pub then_by_stamp : Bool

-- protoInfoData; `P` is the type of the stored bytes.
pub record ProtoInfoData (F P : Type 0) : Type 0 where
  pub info_id : ℕ
  pub at_session_time : F
  pub at_stamp : ℕ
  pub protodata : P

-- util.RangeContainer
pub record RangeContainer (F E : Type 0) : Type 0 where
  pub items : List E
  pub last_timestamp : ℕ
  pub last_session_time : F
  pub last_rs_info_id : ℕ

-- What the handlers use of the database and of the libraries: running a query, decoding a message,
-- the events, the conversions of session times and the zero of `float32`.
pub record Store (F D P E : Type 0) : Type 0 where
  pub all : Query D → Result (List (ProtoInfoData F P))
  pub unmarshal : P → Option E
  pub load_by_id : ℕ → Result Event
  pub load_by_key : String → Result Event
  pub of_float : F → D
  pub of_duration : ℕ → D
  pub zero_float : F
