-- ===== src/Replay/Recompute.antt =====
-- replay_task.go (processData) and analysis_recompute.go of grpc/server/analysis: the analysis of an
-- event from its stored messages.
use iracelog_service_manager.Base.{
  ℕ, String, true, false, Option, none, some, List, [], ◌∷◌, Outcome, ok, panic, ◌>>=◌, Float32,
}
use iracelog_service_manager.Base.Results.{Result, done, fail, and_then}
use iracelog_service_manager.Car.Types.{StateRequest, DriverDataRequest}
use iracelog_service_manager.Car.Payload.{new_car_processor}
use iracelog_service_manager.Race.Payload.{new_race_processor}
use iracelog_service_manager.Processing.Compose.{Analysis, compose_analysis_data}
use iracelog_service_manager.Processing.Steps.{Processor, process_state, process_car_data}
use iracelog_service_manager.States.Types.{Event, by_id, id, StatesRequest, RangeContainer, Store}
use iracelog_service_manager.States.Pages.{
  Container, collect_race_sessions, racestates_initial, racestates_next, driver_data_initial,
  driver_data_next,
}
use iracelog_service_manager.States.Streams.{first_page}
use iracelog_service_manager.Replay.Peeks.{Stamped, Peek, Replayed, refill_all, replay_loop}
use iracelog_service_manager.Replay.Fetch.{Fetcher, provide}

-- A message of the replay.
pub data Item (T : Type 0) : Type 0 where
  state_item : StateRequest T → Item T
  driver_item : DriverDataRequest T → Item T

-- What provideStateData and provideDriverData send.
abbrev pub state_items : {T : Type 0} → List (StateRequest T) → List (Stamped (Item T))
state_items [] = []
state_items (m ∷ ms) = record { stamp = m.timestamp; message = state_item m } ∷ state_items ms

abbrev pub driver_items : {T : Type 0} → List (DriverDataRequest T) → List (Stamped (Item T))
driver_items [] = []
driver_items (m ∷ ms) = record { stamp = m.timestamp; message = driver_item m } ∷ driver_items ms

-- The peeks before they are filled.
abbrev pub new_peek : {M : Type 0} → String → List (Stamped M) → Peek M
new_peek name xs = record { provider = name; data_req = none; data_chan = xs }

-- processData, up to the callbacks: the messages in the order in which it processes them.
unfoldable pub process_data :
    {M : Type 0} → ℕ → List (Stamped M) → List (Stamped M) → Option (Outcome (Replayed Unit M))
unfolding refill_all replay_loop
process_data fuel states driver_data =
    replay_loop (λ s t. s) (λ n. true) fuel
      (refill_all (new_peek "StateData" states ∷ new_peek "DriverData" driver_data ∷ [])) none tt []

module _ {T : Type 0} ⦃F : Float32 T⦄ where
  -- process, with the callbacks of recomputeEvent.
  unfoldable pub process : Item T → Processor T → Outcome (Processor T)
  unfolding process_state process_car_data
  process (state_item m) p = process_state m p >>= λ (q, _). ok q
  process (driver_item m) p = process_car_data m p >>= λ (q, _). ok q

  -- The callbacks for all the messages that were replayed.
  unfoldable pub process_all :
      List (String × Stamped (Item T)) → Processor T → Outcome (Processor T)
  unfolding process
  process_all [] p = ok p
  process_all ((_, x) ∷ xs) p = process x.message p >>= process_all xs

  -- The processor of recomputeEvent; no channel is set.
  unfoldable pub recompute_processor : List ℕ → Processor T
  unfolding new_car_processor new_race_processor
  recompute_processor race_sessions = record {
    cars = new_car_processor race_sessions;
    race = new_race_processor race_sessions;
    channels = record {
      analysis_chan = false;
      racestate_chan = false;
      driver_data_chan = false;
      speedmap_chan = false;
      replay_info_chan = false;
      snapshot_chan = false;
    };
    last_snapshot_time = 0;
    last_session_data = none;
  }

-- myStateSelector
abbrev pub state_selector : {F : Type 0} → Event → StatesRequest F
state_selector e = record { event = some (by_id e.event_id); start = some (id 0); num = 0 }

-- The fetcher of a first page.
abbrev pub new_fetcher : {F E : Type 0} → Container → RangeContainer F E → Fetcher E
new_fetcher s rc = record { container = s; buffer = rc.items }

module _ {T F D P : Type 0} ⦃float : Float32 T⦄ (drivers : Store F D P (DriverDataRequest T))
    (states : Store F D P (StateRequest T)) where
  -- newDataProviderImpl
  unfoldable pub new_data_provider :
      Event → Result (Fetcher (DriverDataRequest T) × Fetcher (StateRequest T))
  unfolding first_page driver_data_initial racestates_initial
  new_data_provider e =
      and_then (first_page drivers (state_selector e) (driver_data_initial drivers)) λ (_, ds, dp).
        and_then dp λ d_rc.
          and_then (first_page states (state_selector e) (racestates_initial states))
            λ (_, ss, sp). and_then sp λ s_rc. done (new_fetcher ds d_rc, new_fetcher ss s_rc)

  -- Replay with the callbacks of recomputeEvent, on fuel for the loops.
  unfoldable pub run_replay :
      ℕ
      → Fetcher (DriverDataRequest T)
      → Fetcher (StateRequest T)
      → Processor T
      → Option (Outcome (Processor T))
  unfolding provide driver_data_next racestates_next process_data process_all
  run_replay fuel d_fetcher s_fetcher p =
      elim (provide (driver_data_next drivers (id 0) 0) fuel d_fetcher []) [
        | none ↦ none
        | some panic ↦ some panic
        | some (ok ds) ↦ elim (provide (racestates_next states (id 0) 0) fuel s_fetcher []) [
          | none ↦ none
          | some panic ↦ some panic
          | some (ok ss) ↦ elim (process_data fuel (state_items ss) (driver_items ds)) [
            | none ↦ none
            | some panic ↦ some panic
            | some (ok r) ↦ some (process_all r.out p)
          ]
        ]
      ]

  -- recomputeEvent
  unfoldable pub recompute_event : ℕ → Event → Option (Outcome (Result (Analysis T)))
  unfolding new_data_provider run_replay recompute_processor collect_race_sessions
      compose_analysis_data
  recompute_event fuel e = elim (new_data_provider e) [
    | fail f ↦ some (ok (fail f))
    | done (d_fetcher, s_fetcher) ↦
        elim (run_replay fuel d_fetcher s_fetcher
          (recompute_processor (collect_race_sessions e.sessions))) [
            | none ↦ none
            | some panic ↦ some panic
            | some (ok p) ↦ some (ok (done (compose_analysis_data p.cars p.race)))
          ]
  ]
