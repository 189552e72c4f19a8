-- ===== src/Live/Publishing.antt =====
-- state_server.go: the messages that a provider publishes about a live event.
use iracelog_service_manager.Base.{
  ℕ, not, ◌&&◌, Option, none, some, List, [], ◌∷◌, ◌++◌, ◌==◌, nat_key, insert, string_key,
  if◌then◌else◌, Float32, Outcome, ok, ◌>>=◌, zero_t, same,
}
use iracelog_service_manager.Base.Results.{Result, done, fail, permission_denied, not_found}
use iracelog_service_manager.Car.Types.{StateRequest, DriverDataRequest}
use iracelog_service_manager.Car.Payload.{contains}
use iracelog_service_manager.Processing.Steps.{
  Processor, Sent, SpeedmapRequest, process_state, process_car_data, process_speedmap,
}
use iracelog_service_manager.States.Types.{EventSelector}
use iracelog_service_manager.Live.Types.{
  EventProcessingData, EventLookup, PermissionEvaluator, post_racedata, TrackPitInfo, Write,
  racestate_create, speedmap_create, car_create, dummy_racestate_create, car_proto_create,
  pit_info_update, event_ext_upsert,
}
use iracelog_service_manager.Live.Lookup.{get_event, mark_data_event}
use iracelog_service_manager.Live.Provider.{is_transient}

-- What the handlers use of the repositories: the ids of the rows that are created, and the pit info
-- of a track.
pub record StateRepositories (T : Type 0) : Type 0 where
  pub create_racestate : ℕ → StateRequest T → Result ℕ
  pub create_dummy_racestate_info : ℕ → Result ℕ
  pub load_pit_info : ℕ → Result (Option (TrackPitInfo T))

-- What a handler leaves: the lookup, the messages that the processor sends and the writes to the
-- database, in order, and the answer.
pub record Posted (T K X : Type 0) : Type 0 where
  pub lookup : EventLookup T K
  pub sent : List (Sent T)
  pub writes : List (Write T X)
  pub answer : Result {0} Unit

module _ {A T K : Type 0} (pe : PermissionEvaluator A) where
  -- validateEventAccess of the state server
  unfoldable pub post_access :
      A → EventSelector → EventLookup T K → Result (EventProcessingData T K)
  unfolding get_event
  post_access a selector l = elim (get_event selector l) [
    | none ↦
        if not (pe.has_permission a post_racedata) then fail permission_denied else fail not_found
    | some epd ↦
        if pe.has_object_permission a post_racedata epd.owner
        then done epd
        else fail permission_denied
  ]

module _ {T K X : Type 0} where
  -- A request that is refused.
  unfoldable pub refuse : EventLookup T K → Result {0} Unit → Outcome (Posted T K X)
  refuse l answer = ok (record { lookup = l; sent = []; writes = []; answer = answer })

  -- The event after its processor has run.
  unfoldable pub posted :
      EventLookup T K
      → EventProcessingData T K
      → List (Write T X)
      → Processor T × List (Sent T)
      → Posted T K X
  unfolding insert
  posted l epd writes (p, sent) = record {
    lookup = insert epd.event.key (record epd { processor = p }) l;
    sent = sent;
    writes = writes;
    answer = done tt;
  }

module _ {T K X : Type 0} (db : StateRepositories T) where
  -- The first storeData of PublishState: the write, and the event with the id of the new row.
  unfoldable pub store_state :
      StateRequest T → EventProcessingData T K → List (Write T X) × EventProcessingData T K
  unfolding is_transient contains
  store_state req epd =
      if contains epd.race_sessions req.session.session_num && not (is_transient epd.recording_mode)
      then (
        racestate_create epd.event.event_id req ∷ [],
        elim (db.create_racestate epd.event.event_id req) [
          | done i ↦ record epd { last_rs_info_id = i }
          | fail _ ↦ epd
        ],
      )
      else ([], epd)

  -- storeData of PublishSpeedmap
  unfoldable pub store_speedmap : SpeedmapRequest T → EventProcessingData T K → List (Write T X)
  unfolding is_transient
  store_speedmap req epd =
      if is_transient epd.recording_mode then [] else speedmap_create epd.last_rs_info_id req ∷ []

  -- storeData of PublishDriverData: before the first race state the row of the car data hangs on a
  -- dummy.
  unfoldable pub store_driver_data :
      DriverDataRequest T → EventProcessingData T K → List (Write T X)
  unfolding is_transient
  store_driver_data req epd =
      if is_transient epd.recording_mode
      then []
      else car_create epd.event.event_id req
        ∷ (if epd.last_rs_info_id == 0
            then (dummy_racestate_create epd.event.event_id
                ∷ elim (db.create_dummy_racestate_info epd.event.event_id) [
                  | done i ↦ car_proto_create i req ∷ []
                  | fail _ ↦ []
                ])
            else car_proto_create epd.last_rs_info_id req ∷ [])

module _ {T X : Type 0} ⦃F : Float32 T⦄ (db : StateRepositories T) where
  -- handlePitInfoUpdate; the track that was loaded is written with the new fields.
  unfoldable pub handle_pit_info_update : ℕ → Option (TrackPitInfo T) → List (Write T X)
  handle_pit_info_update track_id none = []
  handle_pit_info_update track_id (some p) =
      if same p.entry zero_t && (same p.exit zero_t && same p.lane_length zero_t)
      then []
      else elim (db.load_pit_info track_id) [
        | fail _ ↦ []
        | done none ↦ pit_info_update track_id p ∷ []
        | done (some old) ↦
            if not (same old.lane_length zero_t) then [] else pit_info_update track_id p ∷ []
      ]

module _ {A T K X : Type 0} ⦃F : Float32 T⦄ (pe : PermissionEvaluator A)
    (db : StateRepositories T) where
  -- PublishState
  unfoldable pub publish_state :
      ℕ → A → EventSelector → StateRequest T → EventLookup T K → Outcome (Posted T K X)
  unfolding post_access refuse store_state mark_data_event process_state posted
  publish_state now a selector req l = elim (post_access pe a selector l) [
    | fail e ↦ refuse l (fail e)
    | done epd ↦
        let (writes, epd') = store_state db req epd in
        process_state req epd'.processor >>= λ result.
        ok (posted l (mark_data_event now epd') writes result)
  ]

  -- PublishSpeedmap
  unfoldable pub publish_speedmap :
      A → EventSelector → SpeedmapRequest T → EventLookup T K → Outcome (Posted T K X)
  unfolding post_access refuse store_speedmap process_speedmap posted
  publish_speedmap a selector req l = elim (post_access pe a selector l) [
    | fail e ↦ refuse l (fail e)
    | done epd ↦ process_speedmap req epd.processor >>= λ result.
        ok (posted l epd (store_speedmap db req epd) result)
  ]

  -- PublishDriverData
  unfoldable pub publish_driver_data :
      A → EventSelector → DriverDataRequest T → EventLookup T K → Outcome (Posted T K X)
  unfolding post_access refuse store_driver_data process_car_data posted
  publish_driver_data a selector req l = elim (post_access pe a selector l) [
    | fail e ↦ refuse l (fail e)
    | done epd ↦ process_car_data req epd.processor >>= λ result.
        ok (posted l epd (store_driver_data db req epd) result)
  ]

  -- PublishEventExtraInfo
  unfoldable pub publish_event_extra_info :
      A → EventSelector → Option (TrackPitInfo T) → X → EventLookup T K → Posted T K X
  unfolding post_access is_transient handle_pit_info_update
  publish_event_extra_info a selector pit_info extra l = elim (post_access pe a selector l) [
    | fail e ↦ record { lookup = l; sent = []; writes = []; answer = fail e }
    | done epd ↦ record {
      lookup = l;
      sent = [];
      writes =
          if is_transient epd.recording_mode
          then []
          else handle_pit_info_update db epd.event.track_id pit_info
            ++ event_ext_upsert epd.event.event_id extra ∷ [];
      answer = done tt;
    }
  ]
