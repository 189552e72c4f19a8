-- ===== src/Examples/Replays.antt =====
-- Tests of the replay: a short practice, and a race with one message of each kind.
use iracelog_service_manager.Base.{
  ℕ, ◌≤◌, String, true, false, Option, none, some, List, [], ◌∷◌, ◌≡◌, refl, arith, map, filter,
  take, leb, ◌==◌, nat_key, if◌then◌else◌, ok, panic,
}
use iracelog_service_manager.Base.Results.{done, fail, no_rows}
use iracelog_service_manager.Car.Types.{StateRequest, DriverDataRequest}
use iracelog_service_manager.States.Types.{Event, Table, Store}
use iracelog_service_manager.States.Pages.{resolve_event, checked}
use iracelog_service_manager.States.Rows.{Stored, matches}
use iracelog_service_manager.States.Streams.{get_state_stream, get_driver_data_stream}
use iracelog_service_manager.Replay.Peeks.{Stamped}
use iracelog_service_manager.Replay.Merged.{of_provider, InOrder, items}
use iracelog_service_manager.Replay.Recompute.{
  state_selector, Item, state_item, driver_item, state_items, driver_items, process_data,
  recompute_event,
}
use iracelog_service_manager.Replay.Analysis.{IsReplay, process_data-IsReplay, process_data-panics}
use iracelog_service_manager.Replay.Recomputed.{analysed, recompute_event-replays}
use iracelog_service_manager.Replay.Sending.{Clock, send_data}
use iracelog_service_manager.Replay.Timed.{span}
use iracelog_service_manager.Replay.Published.{sources, send_data_publishes, send_data_real_time}
use iracelog_service_manager.Examples.Data.{millis, driver_data, state_request}

abbrev message : ℕ → ℕ → Stamped ℕ
message t m = record { stamp = t; message = m }

process_data-IsReplay_example :
    (out : List (String × Stamped ℕ)) × IsReplay
      (message 20 1 ∷ message 40 2 ∷ [])
      (message 10 3 ∷ [])
      out
    × (process_data 3 (message 20 1 ∷ message 40 2 ∷ []) (message 10 3 ∷ [])
        ≡ some (ok (record { out = out; state = tt; broken = false })))
process_data-IsReplay_example =
    process_data-IsReplay (message 20 1 ∷ message 40 2 ∷ []) (message 10 3 ∷ []) (λ h. absurd cc)
      (λ h. absurd cc) (omega arith, (omega arith, tt)) (omega arith, tt)
      ((omega arith, tt), (tt, tt)) (tt, tt) 3 (omega arith)

process_data-panics_example :
    (process_data 5 [] (message 10 3 ∷ []) ≡ some panic)
    × (process_data 5 (message 10 3 ∷ []) [] ≡ some panic)
process_data-panics_example = process_data-panics 4 (message 10 3 ∷ [])

send_data_publishes_example :
    (out : List (String × Stamped ℕ)) × (clock_end : Clock) × (send_data 0 1
        (λ n. true)
        4
        (message 20 1 ∷ message 40 2 ∷ [])
        (message 10 3 ∷ [])
        (message 30 4 ∷ [])
      ≡ some (ok (record { out = out; state = clock_end; broken = false })))
    × ((c : String)
        → of_provider c out
          ≡ sources (message 20 1 ∷ message 40 2 ∷ []) (message 10 3 ∷ []) (message 30 4 ∷ []) c)
    × InOrder (items out)
    × (clock_end.slept ≤ span out)
send_data_publishes_example =
    send_data_publishes 0 1 (message 20 1 ∷ message 40 2 ∷ []) (message 10 3 ∷ [])
      (message 30 4 ∷ []) (λ h. absurd cc) (λ h. absurd cc) (λ h. absurd cc)
      (omega arith, (omega arith, tt)) (omega arith, tt) (omega arith, tt)
      ((omega arith, tt), (tt, tt)) (tt, tt) (tt, tt) (λ n. true) (λ n. refl) 4 (omega arith)

send_data_real_time_example :
    (out : List (String × Stamped ℕ)) × (clock_end : Clock) × (send_data 0 1
        (λ n. true)
        4
        (message 20 1 ∷ message 40 2 ∷ [])
        (message 10 3 ∷ [])
        (message 30 4 ∷ [])
      ≡ some (ok (record { out = out; state = clock_end; broken = false })))
    × (clock_end.slept ≡ span out)
send_data_real_time_example =
    send_data_real_time 0 1 (message 20 1 ∷ message 40 2 ∷ []) (message 10 3 ∷ [])
      (message 30 4 ∷ []) (λ h. absurd cc) (λ h. absurd cc) (λ h. absurd cc)
      (omega arith, (omega arith, tt)) (omega arith, tt) (omega arith, tt)
      ((omega arith, tt), (tt, tt)) (tt, tt) (tt, tt) (λ n. true) (λ n. refl) 4 (omega arith) refl
      (omega arith)

-- The event, with one row in each table.
abbrev sprint : Event
sprint = record {
  event_id = 7;
  key = "sprint";
  track_id = 18;
  sessions = record { num = 0; is_race = true } ∷ [];
}

abbrev row : Item ℕ → Stored ℕ ℕ (Item ℕ)
row item = record {
  info = record { info_id = 4; at_session_time = 5; at_stamp = 4; protodata = item };
  event = 7;
  session = 0;
  session_seconds = 5;
}

abbrev grid : StateRequest ℕ
grid = state_request 5 [] []

abbrev d_rows : Table → List (Stored ℕ ℕ (Item ℕ))
d_rows table = row (driver_item driver_data) ∷ []

abbrev s_rows : Table → List (Stored ℕ ℕ (Item ℕ))
s_rows table = row (state_item grid) ∷ []

-- A database of these rows, decoded by `read`.
abbrev store_of :
    {E : Type 0} → (Table → List (Stored ℕ ℕ (Item ℕ))) → (Item ℕ → Option E) → Store ℕ ℕ (Item ℕ) E
store_of rows read = record {
  all = λ q. done (map (λ r. r.info) (take q.limit (filter (matches leb q) (rows q.table))));
  unmarshal = read;
  load_by_id = λ i. if i == 7 then done sprint else fail no_rows;
  load_by_key = λ k. fail no_rows;
  of_float = λ t. t;
  of_duration = λ d. d;
  zero_float = 0;
}

abbrev drivers : Store ℕ ℕ (Item ℕ) (DriverDataRequest ℕ)
drivers = store_of d_rows (λ item. elim item [ driver_item m ↦ some m | state_item _ ↦ none ])

abbrev states : Store ℕ ℕ (Item ℕ) (StateRequest ℕ)
states = store_of s_rows (λ item. elim item [ driver_item _ ↦ none | state_item m ↦ some m ])

d_stream :
    get_driver_data_stream drivers (state_selector sprint) (λ n. true) 2
    ≡ some (record { sent = driver_data ∷ []; failure = none })
unfolding get_driver_data_stream resolve_event checked
d_stream = refl

s_stream :
    get_state_stream states (state_selector sprint) (λ n. true) 2
    ≡ some (record { sent = grid ∷ []; failure = none })
unfolding get_state_stream resolve_event checked
s_stream = refl

recompute_event-replays_example :
    (out : List (String × Stamped (Item ℕ))) × IsReplay
      (state_items (grid ∷ []))
      (driver_items (driver_data ∷ []))
      out
    × (recompute_event drivers states 3 sprint ≡ analysed drivers states sprint out)
recompute_event-replays_example =
    recompute_event-replays drivers states sprint 2 2 (driver_data ∷ []) (grid ∷ []) d_stream
      s_stream (λ h. absurd cc) (λ h. absurd cc) (omega arith, tt) (omega arith, tt) (tt, tt)
      (tt, tt) 3 (omega arith)
