-- ===== src/Examples/Registered.antt =====
-- Tests of registering and unregistering events.
use mathlib.Core.List.{Perm}
use mathlib.Core.List.Perm
use iracelog_service_manager.Processing.Compose.{Analysis}
use iracelog_service_manager.Processing.Steps.{analysis, racestate, speedmap, replay}
use iracelog_service_manager.Race.Types.{ReplayInfo}
use iracelog_service_manager.Base.{
  ℕ, none, some, [], ◌∷◌, ◌≡◌, refl, lookup, insert, nat_key, string_key, ok, panic,
}
use iracelog_service_manager.Base.Results.{done, fail, no_rows}
use iracelog_service_manager.States.Types.{by_key}
use iracelog_service_manager.Live.Types.{
  persist, do_not_persist, EventProcessingData, EventLookup, Visit, analysis_upsert,
  replay_info_update,
}
use iracelog_service_manager.Live.Lookup.{new_event, listen_all}
use iracelog_service_manager.Live.Provider.{
  RegisterEventRequest, EventRepositories, register_event, unregister_event, list_live_events,
  create_event, track_of,
}
use iracelog_service_manager.Live.Tenancy.{
  register_event-panics, register_event-list_live_events, register_event-unregister_event,
}
use iracelog_service_manager.Examples.Data.{millis}
use iracelog_service_manager.Examples.Stored.{evening}
use iracelog_service_manager.Examples.Hosted.{
  morning, rules, print, hosted, live, morning_free, empty_state, empty_speedmap,
}

abbrev event_db : EventRepositories ℕ
event_db = record {
  ensure_track = λ t. done tt;
  create = λ e t. done e;
  load_track = λ i. fail no_rows;
}

abbrev registration : RegisterEventRequest ℕ
registration = record { key = "morning"; event = morning; track = 18; recording_mode = persist }

morning_created : create_event event_db registration 1 ≡ done morning
unfolding create_event
morning_created = refl

abbrev with_morning : EventLookup ℕ ℕ
with_morning = insert "morning" (new_event 200 morning 18 persist "1") live

-- The map is visited in the order in which its keys came in.
abbrev in_turn : Visit ℕ ℕ
in_turn l = l

register_event-list_live_events_example :
    (register_event rules print event_db 200 1 registration live
      ≡ ok (with_morning, done (morning, 18)))
    × Perm
        (list_live_events in_turn print (some 1) with_morning)
        ((morning, 18) ∷ list_live_events in_turn print (some 1) live)
    × Perm
        (list_live_events in_turn print none with_morning)
        ((morning, 18) ∷ list_live_events in_turn print none live)
    × Perm
        (list_live_events in_turn print (some 2) with_morning)
        (list_live_events in_turn print (some 2) live)
unfolding track_of
register_event-list_live_events_example =
    register_event-list_live_events rules print event_db 200 1 registration 1 morning live refl refl
      morning_free morning_created in_turn (λ m. Perm.refl m) 2 morning_free refl

abbrev last_analysis : Analysis ℕ
last_analysis = record {
  race_order = "7" ∷ [];
  car_laps = [];
  car_compute_states = [];
  car_stints = [];
  car_pits = [];
  car_occupancies = [];
  race_graph = [];
}

abbrev last_replay : ReplayInfo ℕ
last_replay = record { min_timestamp = some 5; min_session_time = 6; max_session_time = 7 }

abbrev held : EventProcessingData ℕ ℕ
held =
    listen_all
      (speedmap empty_speedmap
        ∷ analysis last_analysis
        ∷ racestate empty_state
        ∷ replay last_replay
        ∷ [])
      (new_event 200 morning 18 persist "1")

register_event-unregister_event_example :
    (register_event rules print event_db 200 1 registration live
      ≡ ok (with_morning, done (morning, 18)))
    × (unregister_event {X = ℕ} rules 1 (by_key "morning") (insert "morning" held with_morning)
        ≡ record {
          lookup = live;
          writes =
              analysis_upsert 8 (some last_analysis) ∷ replay_info_update 8 (some last_replay) ∷ [];
          answer = done tt;
        })
unfolding track_of
register_event-unregister_event_example =
    register_event-unregister_event rules print event_db 200 1 registration 1 morning live refl refl
      morning_free morning_created 1 (speedmap empty_speedmap ∷ []) last_analysis empty_state
      last_replay morning_free refl

-- The request has another key than its event, which is live already.
abbrev clash : RegisterEventRequest ℕ
clash = record { key = "morning"; event = evening; track = 18; recording_mode = do_not_persist }

evening_taken : lookup "evening" live ≡ some hosted
unfolding lookup
evening_taken = refl

clash_created : create_event event_db clash 1 ≡ done evening
unfolding create_event
clash_created = refl

register_event-panics_example : register_event rules print event_db 200 1 clash live ≡ panic
register_event-panics_example =
    register_event-panics rules print event_db 200 1 clash 1 evening live refl refl morning_free
      clash_created hosted evening_taken
