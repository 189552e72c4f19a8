-- ===== src/Live/Types.antt =====
-- event_lookup.go: a live event with its processor; what the servers use of the database, and of the
-- policy engine. `T` is `float32`, `K` a track, `A` an authentication.
use iracelog_service_manager.Base.{ℕ, String, Bool, Option, List, GoMap}
use iracelog_service_manager.Car.Types.{StateRequest, DriverDataRequest}
use iracelog_service_manager.Race.Types.{ReplayInfo}
use iracelog_service_manager.Processing.Compose.{Analysis}
use iracelog_service_manager.Processing.Steps.{Processor, SnapshotData, SpeedmapRequest}
use iracelog_service_manager.States.Types.{Event}

-- providerv1.RecordingMode
pub data RecordingMode : Type 0 where
  unspecified persist do_not_persist : RecordingMode

-- EventProcessingData; the sources of its broadcasts are the channels of the processor, and a time is
-- a number of nanoseconds.
pub record EventProcessingData (T K : Type 0) : Type 0 where
  pub event : Event
  pub track : K
  pub owner : String
  pub processor : Processor T
  pub recording_mode : RecordingMode
  pub last_driver_data : Option (DriverDataRequest T)
  pub last_race_state : Option (StateRequest T)
  pub last_analysis_data : Option (Analysis T)
  pub last_replay_info : Option (ReplayInfo T)
  pub last_rs_info_id : ℕ
  pub last_data_event : ℕ
  pub snapshot_history : List (SnapshotData T)
  pub race_sessions : List ℕ

-- The map of EventLookup.
abbrev pub EventLookup : Type 0 → Type 0 → Type 0
EventLookup T K = GoMap String (EventProcessingData T K)

-- How a loop over the map visits it: Go promises no order, so this is any rearrangement of the entries.
abbrev pub Visit : Type 0 → Type 0 → Type 0
Visit T K = EventLookup T K → EventLookup T K

-- The permissions that are asked for.
pub data Permission : Type 0 where
  register_event_permission post_racedata admin_unregister_all_events update_event : Permission

-- permission.PermissionEvaluator, with the test for a tenant authentication.
pub record PermissionEvaluator (A : Type 0) : Type 0 where
  pub tenant_of : A → Option ℕ
  pub has_permission : A → Permission → Bool
  pub has_tenant_permission : A → Permission → ℕ → Bool
  pub has_object_permission : A → Permission → String → Bool

-- trackv1.PitInfo; the fields are `float32`.
pub record TrackPitInfo (T : Type 0) : Type 0 where
  pub entry : T
  pub exit : T
  pub lane_length : T

-- What is written to the database, each in a transaction.
pub data Write (T X : Type 0) : Type 0 where
  analysis_upsert : ℕ → Option (Analysis T) → Write T X
  replay_info_update : ℕ → Option (ReplayInfo T) → Write T X
  racestate_create : ℕ → StateRequest T → Write T X
  speedmap_create : ℕ → SpeedmapRequest T → Write T X
  car_create : ℕ → DriverDataRequest T → Write T X
  dummy_racestate_create : ℕ → Write T X
  car_proto_create : ℕ → DriverDataRequest T → Write T X
  pit_info_update : ℕ → TrackPitInfo T → Write T X
  event_ext_upsert : ℕ → X → Write T X
