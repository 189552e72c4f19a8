-- ===== src/Examples/Stored.antt =====
-- Tests of the reads of stored messages, over a database held in lists.
use iracelog_service_manager.Base.{
  ℕ, Bool, true, false, some, List, [], ◌∷◌, ◌≡◌, refl, arith, map, filter, take, leb, ltb, ◌==◌,
  nat_key, string_key, if◌then◌else◌, none,
}
use iracelog_service_manager.Base.Results.{done, fail, no_rows, send_error}
use iracelog_service_manager.States.Types.{
  Event, by_id, Table, race_state_protos, speedmap_protos, car_state_protos, session_time_selector,
  id, Store,
}
use iracelog_service_manager.States.Pages.{resolve_event, checked}
use iracelog_service_manager.States.Streams.{
  get_states, get_speedmaps, get_driver_data, get_state_stream,
}
use iracelog_service_manager.States.Rows.{Stored, matches, Answers, IsPage, IsSorted}
use iracelog_service_manager.States.Sent.{request}
use iracelog_service_manager.States.Served.{
  get_state_stream_sends, pages_returned, get_state_stream_from_id,
}
use iracelog_service_manager.States.Broken.{broken_state_stream}

abbrev pub evening : Event
evening = record {
  event_id = 7;
  key = "evening";
  track_id = 18;
  sessions = record { num = 0; is_race = false } ∷ record { num = 1; is_race = true } ∷ [];
}

-- A row of the event, with the number of its message.
abbrev row : ℕ → ℕ → ℕ → ℕ → Stored ℕ ℕ ℕ
row i session seconds message = record {
  info = record { info_id = i; at_session_time = seconds; at_stamp = i; protodata = message };
  event = 7;
  session = session;
  session_seconds = seconds;
}

abbrev rows : Table → List (Stored ℕ ℕ ℕ)
rows table = row 3 0 10 300 ∷ row 4 1 5 400 ∷ row 6 1 9 600 ∷ row 9 1 12 900 ∷ []

abbrev store : Store ℕ ℕ ℕ ℕ
store = record {
  all = λ q. done (map (λ r. r.info) (take q.limit (filter (matches leb q) (rows q.table))));
  unmarshal = λ p. some p;
  load_by_id = λ i. if i == 7 then done evening else fail no_rows;
  load_by_key = λ k. if k == "evening" then done evening else fail no_rows;
  of_float = λ t. t;
  of_duration = λ d. d;
  zero_float = 0;
}

store-Answers : (t : Table) → Answers store leb rows t
store-Answers t = record {
  selects = λ q same h. refl;
  in_range = (
    (omega arith, omega arith),
    ((omega arith, omega arith), ((omega arith, omega arith), ((omega arith, omega arith), tt))),
  );
  decodes = ((300, refl), ((400, refl), ((600, refl), ((900, refl), tt))));
}

rows-IsSorted : (t : Table) → IsSorted (rows t)
rows-IsSorted t = (
  (omega arith, (omega arith, (omega arith, tt))),
  ((omega arith, (omega arith, tt)), ((omega arith, tt), (tt, tt))),
)

abbrev all_fine : ℕ → Bool
all_fine n = true

evening_found : resolve_event store (by_id 7) ≡ done evening
unfolding resolve_event checked
evening_found = refl

get_state_stream_sends_example :
    get_state_stream store (request (by_id 7) (session_time_selector 1 9) 0) all_fine 5
    ≡ some (record { sent = 600 ∷ 900 ∷ []; failure = none })
get_state_stream_sends_example =
    get_state_stream_sends store leb rows (store-Answers race_state_protos)
      (rows-IsSorted race_state_protos) all_fine (λ n. refl) 5 (by_id 7) (session_time_selector 1 9)
      0 evening (row 4 1 5 400 ∷ []) evening_found tt (omega arith) refl (omega arith)

get_state_stream_from_id_example :
    get_state_stream store (request (by_id 7) (id 0) 3) all_fine 5
    ≡ some (record { sent = 300 ∷ 400 ∷ 600 ∷ []; failure = none })
get_state_stream_from_id_example =
    get_state_stream_from_id store leb rows (store-Answers race_state_protos)
      (rows-IsSorted race_state_protos) all_fine (λ n. refl) 5 (by_id 7) 0 3 evening evening_found
      (omega arith) (omega arith) (omega arith)

-- Speedmaps and driver data may share the id of a race state.
abbrev shared_rows : Table → List (Stored ℕ ℕ ℕ)
shared_rows table = row 4 1 5 401 ∷ row 4 1 6 402 ∷ row 4 1 7 403 ∷ []

abbrev shared_store : Store ℕ ℕ ℕ ℕ
shared_store = record store {
  all = λ q. done (map (λ r. r.info) (take q.limit (filter (matches leb q) (shared_rows q.table))));
}

shared-Answers : (t : Table) → Answers shared_store leb shared_rows t
shared-Answers t = record {
  selects = λ q same h. refl;
  in_range =
      ((omega arith, omega arith), ((omega arith, omega arith), ((omega arith, omega arith), tt)));
  decodes = ((401, refl), ((402, refl), ((403, refl), tt)));
}

shared_found : resolve_event shared_store (by_id 7) ≡ done evening
unfolding resolve_event checked
shared_found = refl

pages_returned_example :
    IsPage store
      (row 4 1 5 400 ∷ row 6 1 9 600 ∷ [])
      (get_states store (request (by_id 7) (id 4) 2))
    × IsPage shared_store
        (row 4 1 5 401 ∷ row 4 1 6 402 ∷ [])
        (get_speedmaps shared_store (request (by_id 7) (id 4) 2))
    × IsPage shared_store
        (row 4 1 5 401 ∷ row 4 1 6 402 ∷ [])
        (get_driver_data shared_store (request (by_id 7) (id 4) 2))
pages_returned_example =
    pages_returned store shared_store shared_store leb rows shared_rows shared_rows
      (store-Answers race_state_protos) (shared-Answers speedmap_protos)
      (shared-Answers car_state_protos) (by_id 7) (id 4) 2 evening evening_found shared_found
      shared_found tt (omega arith)

broken_state_stream_example :
    get_state_stream store (request (by_id 7) (id 0) 0) (λ n. ltb n 2) 5
    ≡ some (record { sent = 300 ∷ 400 ∷ []; failure = some send_error })
broken_state_stream_example =
    broken_state_stream store (request (by_id 7) (id 0) 0) 5 2 (λ n. ltb n 2)
      (record { sent = 300 ∷ 400 ∷ 600 ∷ 900 ∷ []; failure = none }) (λ k h. ground arith) refl
      (get_state_stream_from_id store leb rows (store-Answers race_state_protos)
        (rows-IsSorted race_state_protos) all_fine (λ n. refl) 5 (by_id 7) 0 0 evening evening_found
        (omega arith) (omega arith) (omega arith))
      (omega arith)
