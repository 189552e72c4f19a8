-- ===== src/Processing/Steps.antt =====
-- processor.go: Processor and the handlers of the three messages. A handler returns what it sends, in
-- order, beside the new state; a nil channel is `false`. The channels hold what is sent.
use iracelog_service_manager.Base.{
  ℕ, ◌+◌, String, Bool, Option, some, List, [], ◌∷◌, ◌++◌, GoMap, Outcome, ok, deref, ◌>>=◌, ltb,
  if◌then◌else◌, Float32,
}
use iracelog_service_manager.Car.Types.{CarProcessor, StateRequest, DriverDataRequest, Session}
use iracelog_service_manager.Car.Payload.{
  process_car_payload, process_state_payload as car_state_payload,
}
use iracelog_service_manager.Race.Payload.{process_state_payload as race_state_payload}
use iracelog_service_manager.Race.Types.{RaceProcessor, ReplayInfo}
use iracelog_service_manager.Processing.Compose.{Analysis, compose_analysis_data}

-- racestatev1.PublishSpeedmapRequest: the timestamp in nanoseconds since the zero time, and the lap
-- time of each car class.
pub record SpeedmapRequest (T : Type 0) : Type 0 where
  pub timestamp : ℕ
  pub laptimes : GoMap String T

-- analysisv1.SnapshotData
pub record SnapshotData (T : Type 0) : Type 0 where
  pub record_stamp : ℕ
  pub session_time : T
  pub time_of_day : ℕ
  pub air_temp : T
  pub track_temp : T
  pub track_wetness : ℕ
  pub precipitation : T
  pub car_class_laptimes : GoMap String T

-- What a handler sends, by the channel.
pub data Sent (T : Type 0) : Type 0 where
  analysis : Analysis T → Sent T
  racestate : StateRequest T → Sent T
  driver_data : DriverDataRequest T → Sent T
  speedmap : SpeedmapRequest T → Sent T
  replay : ReplayInfo T → Sent T
  snapshot : SnapshotData T → Sent T

-- The channels that are set.
pub record Channels : Type 0 where
  pub analysis_chan : Bool
  pub racestate_chan : Bool
  pub driver_data_chan : Bool
  pub speedmap_chan : Bool
  pub replay_info_chan : Bool
  pub snapshot_chan : Bool

pub record Processor (T : Type 0) : Type 0 where
  pub cars : CarProcessor T
  pub race : RaceProcessor T
  pub channels : Channels
  pub last_snapshot_time : ℕ
  pub last_session_data : Option (Session T)

-- Two minutes in nanoseconds.
abbrev pub two_minutes : ℕ
two_minutes = 120000000000

-- `if p.someChan != nil { p.someChan <- msg }`
unfoldable pub send : {T : Type 0} → Bool → Sent T → List (Sent T)
send c msg = if c then msg ∷ [] else []

module _ {T : Type 0} ⦃F : Float32 T⦄ where
  -- ProcessState
  unfoldable pub process_state :
      StateRequest T → Processor T → Outcome (Processor T × List (Sent T))
  unfolding car_state_payload race_state_payload compose_analysis_data send
  process_state payload p = car_state_payload payload p.cars >>= λ cars.
      race_state_payload cars payload p.race >>= λ race. ok (
        record p { cars = cars; race = race; last_session_data = some payload.session },
        send p.channels.analysis_chan (analysis (compose_analysis_data cars race))
            ++ send p.channels.racestate_chan (racestate payload)
            ++ send p.channels.replay_info_chan (replay race.replay_info),
      )

  -- ProcessCarData
  unfoldable pub process_car_data :
      DriverDataRequest T → Processor T → Outcome (Processor T × List (Sent T))
  unfolding process_car_payload compose_analysis_data send
  process_car_data payload p = process_car_payload payload p.cars >>= λ cars. ok (
    record p { cars = cars },
    send p.channels.driver_data_chan (driver_data payload)
        ++ send p.channels.analysis_chan (analysis (compose_analysis_data cars p.race)),
  )

module _ {T : Type 0} where
  -- The snapshot of a speed map in a session.
  unfoldable pub snapshot_of : SpeedmapRequest T → Session T → SnapshotData T
  snapshot_of payload s = record {
    record_stamp = payload.timestamp;
    session_time = s.session_time;
    time_of_day = s.time_of_day;
    air_temp = s.air_temp;
    track_temp = s.track_temp;
    track_wetness = s.track_wetness;
    precipitation = s.precipitation;
    car_class_laptimes = payload.laptimes;
  }

  -- The second part of ProcessSpeedmap: a snapshot is due two minutes after the last one.
  unfoldable pub take_snapshot :
      SpeedmapRequest T → Processor T → Outcome (Processor T × List (Sent T))
  unfolding snapshot_of
  take_snapshot payload p =
      if ltb (p.last_snapshot_time + two_minutes) payload.timestamp
      then (deref p.last_session_data >>= λ s. ok (
        record p { last_snapshot_time = payload.timestamp },
        snapshot (snapshot_of payload s) ∷ [],
      ))
      else ok (p, [])

  -- ProcessSpeedmap
  unfoldable pub process_speedmap :
      SpeedmapRequest T → Processor T → Outcome (Processor T × List (Sent T))
  unfolding take_snapshot send
  process_speedmap payload p =
      let sent = send p.channels.speedmap_chan (speedmap payload) in
      if p.channels.snapshot_chan
      then (take_snapshot payload p >>= λ (q, more). ok (q, sent ++ more))
      else ok (p, sent)
