-- ===== src/States/Pages.antt =====
-- state_util.go, racestates_util.go, speedmaps_util.go, driverdata_util.go and resolve_event.go:
-- the container of a request, and the pages that it asks for.
use iracelog_service_manager.Base.{
  ℕ, ◌%◌, none, some, List, [], ◌∷◌, if◌then◌else◌, length, lt32, add64, sub64, min64, word,
}
use iracelog_service_manager.Base.Results.{
  Result, done, fail, and_then, no_rows, event_not_found, missing_event_selector,
  invalid_event_selector, missing_start_selector, runtime_panic, invalid_start_selector, Failure,
}
use iracelog_service_manager.States.Types.{
  EventSelector, by_id, by_key, unset, other, StartSelector, record_stamp, session_time,
  session_time_selector, id, unknown, StatesRequest, EventSession, Event, RangeContainer, Store,
}
use iracelog_service_manager.States.Repos.{RangeRepository, racestate, speedmap, car_proto}

-- CollectRaceSessions
unfoldable pub collect_race_sessions : List EventSession → List ℕ
collect_race_sessions [] = []
collect_race_sessions (s ∷ ss) =
    let rest = collect_race_sessions ss in if s.is_race then s.num ∷ rest else rest

-- `errors.Is(err, sql.ErrNoRows)` gives the status NotFound.
unfoldable pub not_found_error : Failure → Failure
not_found_error no_rows = event_not_found
not_found_error e = e

unfoldable pub checked : Result Event → Result Event
unfolding not_found_error
checked (done e) = done e
checked (fail e) = fail (not_found_error e)

-- The part of statesContainer that changes, and the event.
pub record Container : Type 0 where
  pub e : Event
  pub remain : ℕ
  pub last_rs_info_id : ℕ

-- math.MaxInt32
abbrev pub max_int32 : ℕ
max_int32 = 2147483647

module _ {F D P E : Type 0} (store : Store F D P E) where
  -- ResolveEvent
  unfoldable pub resolve_event : EventSelector → Result Event
  unfolding checked
  resolve_event unset = fail missing_event_selector
  resolve_event (by_id i) = checked (store.load_by_id i)
  resolve_event (by_key k) = checked (store.load_by_key k)
  resolve_event other = checked (fail invalid_event_selector)

  -- createStatesContainer; ResolveEvent reads through the pointer to the selector.
  unfoldable pub create_states_container : StatesRequest F → Result Container
  unfolding resolve_event
  create_states_container req = elim req.event [
    | none ↦ fail runtime_panic
    | some selector ↦ and_then (resolve_event selector) λ e. elim req.start [
      | none ↦ fail missing_start_selector
      | some _ ↦ done (record {
        e = e;
        remain = if lt32 0 req.num then req.num else max_int32;
        last_rs_info_id = 0;
      })
    ]
  ]

-- toFetchEntries of a container whose pages have at most `page` entries.
unfoldable pub to_fetch_entries : ℕ → ℕ → Container → ℕ
to_fetch_entries page num s = if lt32 0 num then min64 (min64 page num) s.remain else page

-- getDefaultSessionNum
unfoldable pub get_default_session_num : Event → ℕ
unfolding collect_race_sessions
get_default_session_num e = elim (collect_race_sessions e.sessions) [ [] ↦ 0 | n ∷ _ ↦ n ]

-- `s.lastRsInfoID = ret.LastRsInfoID; s.remain -= len(ret.Data)`, if there is no error.
unfoldable pub advance :
    {F E : Type 0}
    → Container
    → Result (RangeContainer F E)
    → Container × Result (RangeContainer F E)
advance s (fail f) = (s, fail f)
advance s (done ret) = (
  record s { last_rs_info_id = ret.last_rs_info_id; remain = sub64 s.remain (length ret.items) },
  done ret,
)

-- The container for one repository, with pages of at most `page` entries.
module _ {F D P E : Type 0} (store : Store F D P E) (repo : RangeRepository F D E) (page : ℕ)
    (start : StartSelector F) (num : ℕ) where
  -- InitialRequest
  unfoldable pub initial_request : Container → Container × Result (RangeContainer F E)
  unfolding to_fetch_entries get_default_session_num advance
  initial_request s =
      let limit = to_fetch_entries page num s in
      advance s (elim start [
        | record_stamp ts ↦ repo.load_range s.e.event_id ts limit
        | session_time t ↦
            repo.load_range_by_session_time s.e.event_id (get_default_session_num s.e)
              (store.of_float t) limit
        | session_time_selector n d ↦
            repo.load_range_by_session_time s.e.event_id (n % word) (store.of_duration d) limit
        | id i ↦ repo.load_range_by_id s.e.event_id i limit
        | unknown ↦ fail invalid_start_selector
      ])

  -- NextRequest
  unfoldable pub next_request : Container → Container × Result (RangeContainer F E)
  unfolding to_fetch_entries advance
  next_request s =
      let limit = to_fetch_entries page num s in
      advance s (elim start [
        | session_time_selector n d ↦
            repo.load_range_by_id_within_session s.e.event_id (n % word) (add64 s.last_rs_info_id 1)
              limit
        | _ ↦ repo.load_range_by_id s.e.event_id (add64 s.last_rs_info_id 1) limit
      ])

-- The entries of a page: 2000 for race states, 1000 for the others.
abbrev pub state_page : ℕ
state_page = 2000

abbrev pub other_page : ℕ
other_page = 1000

module _ {F D P E : Type 0} (store : Store F D P E) (start : StartSelector F) (num : ℕ) where
  -- racestatesContainer
  unfoldable pub racestates_initial : Container → Container × Result (RangeContainer F E)
  unfolding initial_request racestate
  racestates_initial = initial_request store (racestate store) state_page start num

  unfoldable pub racestates_next : Container → Container × Result (RangeContainer F E)
  unfolding next_request racestate
  racestates_next = next_request store (racestate store) state_page start num

  -- speedmapContainer
  unfoldable pub speedmaps_initial : Container → Container × Result (RangeContainer F E)
  unfolding initial_request speedmap
  speedmaps_initial = initial_request store (speedmap store) other_page start num

  unfoldable pub speedmaps_next : Container → Container × Result (RangeContainer F E)
  unfolding next_request speedmap
  speedmaps_next = next_request store (speedmap store) other_page start num

  -- driverDataContainer
  unfoldable pub driver_data_initial : Container → Container × Result (RangeContainer F E)
  unfolding initial_request car_proto
  driver_data_initial = initial_request store (car_proto store) other_page start num

  unfoldable pub driver_data_next : Container → Container × Result (RangeContainer F E)
  unfolding next_request car_proto
  driver_data_next = next_request store (car_proto store) other_page start num
