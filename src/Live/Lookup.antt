-- ===== src/Live/Lookup.antt =====
-- event_lookup.go: the operations of EventLookup, and the listeners of an event.
use iracelog_service_manager.Base.{
  ℕ, ◌+◌, String, true, Option, none, some, List, [], ◌∷◌, ◌++◌, lookup, insert, delete, ◌==◌,
  nat_key, string_key, ltb, if◌then◌else◌, Float32,
}
use iracelog_service_manager.Car.Payload.{new_car_processor}
use iracelog_service_manager.Race.Payload.{new_race_processor}
use iracelog_service_manager.Processing.Steps.{
  Processor, Sent, analysis, racestate, driver_data, speedmap, replay, snapshot,
}
use iracelog_service_manager.States.Types.{Event, EventSelector, by_id, by_key, unset, other}
use iracelog_service_manager.States.Pages.{collect_race_sessions}
use iracelog_service_manager.Live.Types.{RecordingMode, EventProcessingData, EventLookup, Visit}

module _ {T : Type 0} ⦃F : Float32 T⦄ where
  -- The processor of an event; all its channels are set.
  unfoldable pub new_processor : List ℕ → Processor T
  unfolding new_car_processor new_race_processor
  new_processor race_sessions = record {
    cars = new_car_processor race_sessions;
    race = new_race_processor race_sessions;
    channels = record {
      analysis_chan = true;
      racestate_chan = true;
      driver_data_chan = true;
      speedmap_chan = true;
      replay_info_chan = true;
      snapshot_chan = true;
    };
    last_snapshot_time = 0;
    last_session_data = none;
  }

module _ {T K : Type 0} ⦃F : Float32 T⦄ where
  -- What AddEvent enters for an event.
  unfoldable pub new_event : ℕ → Event → K → RecordingMode → String → EventProcessingData T K
  unfolding new_processor collect_race_sessions
  new_event now event track mode owner =
      let race_sessions = collect_race_sessions event.sessions in
      record {
        event = event;
        track = track;
        owner = owner;
        processor = new_processor race_sessions;
        recording_mode = mode;
        last_driver_data = none;
        last_race_state = none;
        last_analysis_data = none;
        last_replay_info = none;
        last_rs_info_id = 0;
        last_data_event = now;
        snapshot_history = [];
        race_sessions = race_sessions;
      }

  -- AddEvent; `none` is nil.
  unfoldable pub add_event :
      ℕ
      → Event
      → K
      → RecordingMode
      → String
      → EventLookup T K
      → Option (EventProcessingData T K) × EventLookup T K
  unfolding new_event lookup insert
  add_event now event track mode owner l = elim (lookup event.key l) [
    | some _ ↦ (none, l)
    | none ↦ let epd = new_event now event track mode owner in (some epd, insert event.key epd l)
  ]

module _ {T K : Type 0} where
  -- The loop of getEvent over the values.
  unfoldable pub find_by_id : ℕ → EventLookup T K → Option (EventProcessingData T K)
  find_by_id i [] = none
  find_by_id i ((_, epd) ∷ l) =
      let rest = find_by_id i l in if epd.event.event_id == i then some epd else rest

  -- GetEvent; `none` is ErrEventNotFound.
  unfoldable pub get_event : EventSelector → EventLookup T K → Option (EventProcessingData T K)
  unfolding find_by_id lookup
  get_event (by_id i) l = find_by_id i l
  get_event (by_key k) l = lookup k l
  get_event unset l = none
  get_event other l = none

  -- RemoveEvent
  unfoldable pub remove_event : EventSelector → EventLookup T K → EventLookup T K
  unfolding get_event delete
  remove_event selector l = elim (get_event selector l) [
    | none ↦ l
    | some epd ↦ delete epd.event.key l
  ]

  unfoldable pub values_of : EventLookup T K → List (EventProcessingData T K)
  values_of [] = []
  values_of ((_, epd) ∷ l) = epd ∷ values_of l

  -- GetEvents
  unfoldable pub get_events : Visit T K → EventLookup T K → List (EventProcessingData T K)
  unfolding values_of
  get_events visit l = values_of (visit l)

  -- Clear
  unfoldable pub clear : EventLookup T K → EventLookup T K
  clear l = []

  -- The first loop of the watchdog: the events without data for longer than `stale`.
  unfoldable pub stale_events : ℕ → ℕ → EventLookup T K → List (EventProcessingData T K)
  stale_events now stale [] = []
  stale_events now stale ((_, epd) ∷ l) =
      let rest = stale_events now stale l in
      if ltb (epd.last_data_event + stale) now then epd ∷ rest else rest

  -- The second loop.
  unfoldable pub delete_events : List (EventProcessingData T K) → EventLookup T K → EventLookup T K
  unfolding delete
  delete_events [] l = l
  delete_events (epd ∷ epds) l = delete_events epds (delete epd.event.key l)

  -- One round of the watchdog.
  unfoldable pub watchdog_round : ℕ → ℕ → EventLookup T K → EventLookup T K
  unfolding stale_events delete_events
  watchdog_round now stale l = delete_events (stale_events now stale l) l

  -- MarkDataEvent
  unfoldable pub mark_data_event : ℕ → EventProcessingData T K → EventProcessingData T K
  mark_data_event now epd = record epd { last_data_event = now }

  -- What the listeners of setupOwnListeners do with a message.
  unfoldable pub listen : Sent T → EventProcessingData T K → EventProcessingData T K
  listen (analysis a) epd = record epd { last_analysis_data = some a }
  listen (racestate s) epd = record epd { last_race_state = some s }
  listen (driver_data d) epd = record epd { last_driver_data = some d }
  listen (speedmap s) epd = epd
  listen (replay r) epd = record epd { last_replay_info = some r }
  listen (snapshot s) epd = record epd { snapshot_history = epd.snapshot_history ++ s ∷ [] }

  unfoldable pub listen_all : List (Sent T) → EventProcessingData T K → EventProcessingData T K
  unfolding listen
  listen_all [] epd = epd
  listen_all (m ∷ ms) epd = listen_all ms (listen m epd)
