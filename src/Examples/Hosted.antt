-- ===== src/Examples/Hosted.antt =====
-- Tests of the live events.
use iracelog_service_manager.Base.{
  ℕ, String, none, some, List, [], ◌∷◌, ◌≡◌, refl, lookup, nat_key, string_key, ◌==◌, ok, panic,
  Outcome, if◌then◌else◌, index_func, filter,
}
use iracelog_service_manager.Base.Results.{done}
use iracelog_service_manager.Processing.Steps.{
  Processor, Sent, process_state, process_car_data, process_speedmap, SpeedmapRequest,
}
use iracelog_service_manager.Car.Types.{StateRequest, DriverDataRequest}
use iracelog_service_manager.States.Types.{Event, by_id}
use iracelog_service_manager.Live.Types.{
  persist, EventProcessingData, EventLookup, PermissionEvaluator, racestate_create, speedmap_create,
  car_create, dummy_racestate_create, car_proto_create,
}
use iracelog_service_manager.Live.Lookup.{listen_all, new_event, get_event, watchdog_round}
use iracelog_service_manager.Live.Publishing.{
  StateRepositories, publish_state, publish_speedmap, publish_driver_data,
}
use iracelog_service_manager.Live.Lookups.{IsLookup}
use iracelog_service_manager.Live.Watchdog.{watchdog_round-filter, is_fresh}
use iracelog_service_manager.Live.Access.{
  publishing-Leaves, Leaves, unless_transient, row_after_state,
}
use iracelog_service_manager.Car.Payload.{contains}
use iracelog_service_manager.Live.Delivered.{process_state-listen_all}
use iracelog_service_manager.Car.Valid.{IsValid as CarsAreValid}
use iracelog_service_manager.Race.Messages.{IsValid as RaceIsValid}
use iracelog_service_manager.Processing.Compose.{compose_analysis_data}
use iracelog_service_manager.Examples.Cars.{garage-IsValid}
use iracelog_service_manager.Examples.Races.{tick, empty_race-IsValid}
use iracelog_service_manager.Examples.Live.{waiting}
use iracelog_service_manager.Examples.Data.{millis, state_request}
use iracelog_service_manager.Examples.Stored.{evening}

abbrev pub morning : Event
morning = record evening { event_id = 8; key = "morning" }

-- The number 1 may do everything about the events of tenant 1.
abbrev pub rules : PermissionEvaluator ℕ
rules = record {
  tenant_of = λ a. some a;
  has_permission = λ a p. a == 1;
  has_tenant_permission = λ a p t. a == 1;
  has_object_permission = λ a p owner. a == 1;
}

abbrev pub print : ℕ → String
print n = if n == 1 then "1" else "2"

abbrev pub hosted : EventProcessingData ℕ ℕ
hosted = new_event 100 evening 18 persist "2"

abbrev pub live : EventLookup ℕ ℕ
live = ("evening", hosted) ∷ []

live-IsLookup : IsLookup live
unfolding new_event lookup
live-IsLookup = ((refl, tt), (refl, tt))

pub live_found : get_event (by_id 7) live ≡ some hosted
unfolding get_event new_event
live_found = refl

watchdog_round-filter_example : watchdog_round 500 300 live ≡ filter (is_fresh 500 300) live
watchdog_round-filter_example = watchdog_round-filter 500 300 live live-IsLookup

pub morning_free : lookup "morning" live ≡ none
unfolding lookup
morning_free = refl

abbrev pub state_db : StateRepositories ℕ
state_db = record {
  create_racestate = λ e s. done 31;
  create_dummy_racestate_info = λ e. done 30;
  load_pit_info = λ t. done none;
}

abbrev pub empty_state : StateRequest ℕ
empty_state = state_request 5 [] []

abbrev pub empty_speedmap : SpeedmapRequest ℕ
empty_speedmap = record { timestamp = 5; laptimes = [] }

abbrev pub no_drivers : DriverDataRequest ℕ
no_drivers = record {
  timestamp = 0;
  entries = [];
  car_classes = [];
  session_num = 1;
  session_time = 5;
  current_drivers = [];
}

-- The result of a computation that returns.
abbrev result_of : Processor ℕ → Outcome (Processor ℕ × List (Sent ℕ)) → Processor ℕ × List (Sent ℕ)
result_of p (ok r) = r
result_of p panic = (p, [])

abbrev by_state : Processor ℕ × List (Sent ℕ)
by_state = result_of hosted.processor (process_state empty_state hosted.processor)

abbrev by_speedmap : Processor ℕ × List (Sent ℕ)
by_speedmap = result_of hosted.processor (process_speedmap empty_speedmap hosted.processor)

abbrev by_drivers : Processor ℕ × List (Sent ℕ)
by_drivers = result_of hosted.processor (process_car_data no_drivers hosted.processor)

state_returns : process_state empty_state hosted.processor ≡ ok by_state
unfolding process_state new_event index_func
state_returns = refl

speedmap_returns : process_speedmap empty_speedmap hosted.processor ≡ ok by_speedmap
unfolding process_speedmap new_event
speedmap_returns = refl

drivers_return : process_car_data no_drivers hosted.processor ≡ ok by_drivers
unfolding process_car_data new_event
drivers_return = refl

publishing-Leaves_example :
    Leaves live hosted
      (record hosted {
        processor = by_state.0;
        last_rs_info_id = row_after_state state_db hosted empty_state;
        last_data_event = 200;
      })
      by_state.1
      (unless_transient hosted.recording_mode (
        if contains hosted.race_sessions empty_state.session.session_num
        then racestate_create 7 empty_state ∷ []
        else []))
      (publish_state {X = ℕ} rules state_db 200 1 (by_id 7) empty_state live)
    × Leaves live hosted
        (record hosted { processor = by_speedmap.0 })
        by_speedmap.1
        (speedmap_create 0 empty_speedmap ∷ [])
        (publish_speedmap {X = ℕ} rules state_db 1 (by_id 7) empty_speedmap live)
    × Leaves live hosted
        (record hosted { processor = by_drivers.0 })
        by_drivers.1
        (car_create 7 no_drivers ∷ dummy_racestate_create 7 ∷ car_proto_create 30 no_drivers ∷ [])
        (publish_driver_data {X = ℕ} rules state_db 1 (by_id 7) no_drivers live)
unfolding new_event
publishing-Leaves_example =
    publishing-Leaves rules state_db 200 1 (by_id 7) live empty_state empty_speedmap no_drivers
      hosted by_state by_speedmap by_drivers live_found refl state_returns speedmap_returns
      drivers_return

abbrev driving : EventProcessingData ℕ ℕ
driving = record hosted { processor = waiting }

process_state-listen_all_example :
    (q : Processor ℕ) × (sent : List (Sent ℕ)) × (process_state tick driving.processor
      ≡ ok (q, sent))
    × CarsAreValid q.cars
    × RaceIsValid q.race
    × ((listen_all sent driving).last_analysis_data ≡ some (compose_analysis_data q.cars q.race))
    × ((listen_all sent driving).last_race_state ≡ some tick)
    × ((listen_all sent driving).last_replay_info ≡ some q.race.replay_info)
unfolding lookup
process_state-listen_all_example =
    process_state-listen_all tick driving garage-IsValid empty_race-IsValid
      (("7", refl), (("12", refl), tt)) refl
