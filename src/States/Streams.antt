-- ===== src/States/Streams.antt =====
-- state_server.go: the calls that return one page, and those that stream all pages.
use iracelog_service_manager.Base.{
  ℕ, zero, suc, Bool, true, false, Option, none, some, List, [], ◌∷◌, ◌++◌, if◌then◌else◌, length,
}
use iracelog_service_manager.Base.Results.{
  Result, done, fail, and_then, send_error, Failure, missing_start_selector,
}
use iracelog_service_manager.States.Types.{StartSelector, StatesRequest, RangeContainer, Store}
use iracelog_service_manager.States.Pages.{
  Container, create_states_container, racestates_initial, racestates_next, speedmaps_initial,
  speedmaps_next, driver_data_initial, driver_data_next,
}

-- What a stream has sent, and the error that it ends with, if any.
pub record Streamed (E : Type 0) : Type 0 where
  pub sent : List E
  pub failure : Option Failure

-- `stream.Send` of the messages of a page: the test tells whether the n-th send succeeds.
unfoldable pub send_all : {E : Type 0} → (ℕ → Bool) → List E → List E → List E × Bool
send_all accepts sent [] = (sent, true)
send_all accepts sent (x ∷ xs) =
    let rest = send_all accepts (sent ++ x ∷ []) xs in
    if accepts (length sent) then rest else (sent, false)

-- The container, the request and the pages of one kind of message.
abbrev pub Pager : Type 0 → Type 0 → Type 0
Pager F E = Container → Container × Result (RangeContainer F E)

module _ {F E : Type 0} (accepts : ℕ → Bool) (next : Pager F E) where
  -- The loop of a stream, with fuel; `none` means that the fuel ran out.
  unfoldable pub stream_loop :
      ℕ → List E → Container × Result (RangeContainer F E) → Option (Streamed E)
  unfolding send_all
  stream_loop zero sent page = none
  stream_loop (suc fuel) sent (s, fail e) = some (record { sent = sent; failure = some e })
  stream_loop (suc fuel) sent (s, done rc) = elim rc.items [
    | [] ↦ some (record { sent = sent; failure = none })
    | x ∷ xs ↦
        let (sent', fine) = send_all accepts sent (x ∷ xs) in
        elim fine [
          | true ↦ stream_loop fuel sent' (next s)
          | false ↦ some (record { sent = sent'; failure = some send_error })
        ]
  ]

module _ {F D P E : Type 0} (store : Store F D P E) (req : StatesRequest F) where
  -- The container of the request, and the first page; the selector is set once the container is made.
  unfoldable pub first_page :
      (StartSelector F → ℕ → Pager F E)
      → Result (StartSelector F × Container × Result (RangeContainer F E))
  unfolding create_states_container
  first_page initial = and_then (create_states_container store req) λ s. elim req.start [
    | none ↦ fail missing_start_selector
    | some start ↦ let (s', page) = initial start req.num s in done (start, s', page)
  ]

  -- The calls that return one page.
  unfoldable pub get_page : (StartSelector F → ℕ → Pager F E) → Result (RangeContainer F E)
  unfolding first_page
  get_page initial = and_then (first_page initial) λ (start, s, page). page

  -- GetStates
  unfoldable pub get_states : Result (RangeContainer F E)
  unfolding get_page racestates_initial
  get_states = get_page (racestates_initial store)

  -- GetSpeedmaps
  unfoldable pub get_speedmaps : Result (RangeContainer F E)
  unfolding get_page speedmaps_initial
  get_speedmaps = get_page (speedmaps_initial store)

  -- GetDriverData
  unfoldable pub get_driver_data : Result (RangeContainer F E)
  unfolding get_page driver_data_initial
  get_driver_data = get_page (driver_data_initial store)

  module _ (accepts : ℕ → Bool) (fuel : ℕ) where
    -- The calls that stream all pages.
    unfoldable pub get_stream :
        (StartSelector F → ℕ → Pager F E) → (StartSelector F → ℕ → Pager F E) → Option (Streamed E)
    unfolding first_page stream_loop
    get_stream initial next = elim (first_page initial) [
      | fail e ↦ some (record { sent = []; failure = some e })
      | done (start, s, page) ↦ stream_loop accepts (next start req.num) fuel [] (s, page)
    ]

    -- GetStateStream
    unfoldable pub get_state_stream : Option (Streamed E)
    unfolding get_stream racestates_initial racestates_next
    get_state_stream = get_stream (racestates_initial store) (racestates_next store)

    -- GetSpeedmapStream
    unfoldable pub get_speedmap_stream : Option (Streamed E)
    unfolding get_stream speedmaps_initial speedmaps_next
    get_speedmap_stream = get_stream (speedmaps_initial store) (speedmaps_next store)

    -- GetDriverDataStream
    unfoldable pub get_driver_data_stream : Option (Streamed E)
    unfolding get_stream driver_data_initial driver_data_next
    get_driver_data_stream = get_stream (driver_data_initial store) (driver_data_next store)
