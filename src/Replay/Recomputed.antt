-- ===== src/Replay/Recomputed.antt =====
-- RecomputeAnalysis: the analysis is that of the messages that the streams send, merged by time.
use iracelog_service_manager.Base.{
  ℕ, suc, ◌+◌, ◌<◌, String, true, false, Option, none, some, List, [], ◌∷◌, ◌≡◌, ◌≢◌, refl, ap,
  arith, string_key, length, Outcome, ok, panic, Float32,
}
use iracelog_service_manager.Base.Results.{Result, done}
use iracelog_service_manager.Car.Types.{StateRequest, DriverDataRequest}
use iracelog_service_manager.Processing.Compose.{Analysis, compose_analysis_data}
use iracelog_service_manager.States.Types.{Event, id, Store}
use iracelog_service_manager.States.Pages.{
  collect_race_sessions, racestates_initial, racestates_next, driver_data_initial, driver_data_next,
}
use iracelog_service_manager.Replay.Peeks.{Stamped, Replayed}
use iracelog_service_manager.Replay.Choice.{InTime}
use iracelog_service_manager.Replay.Fetch.{Fetcher, provide}
use iracelog_service_manager.Replay.Merged.{InOrder}
use iracelog_service_manager.Replay.Recompute.{
  state_selector, new_fetcher, Item, state_items, driver_items, process_data, process_all,
  recompute_processor, new_data_provider, run_replay, recompute_event,
}
use iracelog_service_manager.States.Streams.{get_state_stream, get_driver_data_stream}
use iracelog_service_manager.Replay.Feeds.{provides_all}
use iracelog_service_manager.Replay.Analysis.{IsReplay, process_data-IsReplay}

module _ {T : Type 0} where
  length-state_items : (ms : List (StateRequest T)) → length (state_items ms) ≡ length ms
  length-state_items [] = refl
  length-state_items (m ∷ ms) = ap suc (length-state_items ms)

  length-driver_items : (ms : List (DriverDataRequest T)) → length (driver_items ms) ≡ length ms
  length-driver_items [] = refl
  length-driver_items (m ∷ ms) = ap suc (length-driver_items ms)

  state_items-nil : (ms : List (StateRequest T)) → state_items ms ≡ [] → ms ≡ []
  state_items-nil [] h = refl
  state_items-nil (m ∷ ms) h = absurd cc

  driver_items-nil : (ms : List (DriverDataRequest T)) → driver_items ms ≡ [] → ms ≡ []
  driver_items-nil [] h = refl
  driver_items-nil (m ∷ ms) h = absurd cc

module _ {T F D P : Type 0} ⦃float : Float32 T⦄ (drivers : Store F D P (DriverDataRequest T))
    (states : Store F D P (StateRequest T)) where
  -- Running the callbacks, and composing the analysis.
  abbrev pub analysed :
      Event → List (String × Stamped (Item T)) → Option (Outcome (Result (Analysis T)))
  analysed e out = elim (process_all out (recompute_processor (collect_race_sessions e.sessions))) [
    | panic ↦ some panic
    | ok p ↦ some (ok (done (compose_analysis_data p.cars p.race)))
  ]

  -- The steps of recomputeEvent, one after the other.
  recompute_event_steps :
      (fuel : ℕ) (e : Event) (d_fetcher : Fetcher (DriverDataRequest T))
      (s_fetcher : Fetcher (StateRequest T)) (ds : List (DriverDataRequest T))
      (ss : List (StateRequest T)) (r : Replayed Unit (Item T))
      → new_data_provider drivers states e ≡ done (d_fetcher, s_fetcher)
      → provide (driver_data_next drivers (id 0) 0) fuel d_fetcher [] ≡ some (ok ds)
      → provide (racestates_next states (id 0) 0) fuel s_fetcher [] ≡ some (ok ss)
      → process_data fuel (state_items ss) (driver_items ds) ≡ some (ok r)
      → recompute_event drivers states fuel e ≡ analysed e r.out
  unfolding recompute_event run_replay
  recompute_event_steps fuel e d_fetcher s_fetcher ds ss r made given_d given_s run =
      rw (made, given_d, given_s, run, recompute_event, run_replay) refl

  -- The calls that stream all driver data and all race states of an event send at least one message
  -- each and end without an error; the times of each kind are in order, and before the largest one.
  -- With more fuel than messages the recomputation ends: its result is what the callbacks make of
  -- exactly the messages of the two streams, each taken once, those of a kind in their order, and all
  -- in the order of time.
  pub recompute_event-replays :
      (e : Event) (d_fuel s_fuel : ℕ) (ds : List (DriverDataRequest T)) (ss : List (StateRequest T))
      → get_driver_data_stream drivers (state_selector e) (λ n. true) d_fuel
        ≡ some (record { sent = ds; failure = none })
      → get_state_stream states (state_selector e) (λ n. true) s_fuel
        ≡ some (record { sent = ss; failure = none })
      → ds ≢ []
      → ss ≢ []
      → InTime (driver_items ds)
      → InTime (state_items ss)
      → InOrder (driver_items ds)
      → InOrder (state_items ss)
      → (fuel : ℕ) → length ds + length ss < fuel
      → (out : List (String × Stamped (Item T))) × IsReplay (state_items ss) (driver_items ds) out
        × (recompute_event drivers states fuel e ≡ analysed e out)
  unfolding new_data_provider get_driver_data_stream get_state_stream
  recompute_event-replays e d_fuel s_fuel ds ss d_sends s_sends some_d some_s in_d in_s o_d o_s fuel
        enough =
      let (d, d_rc, d_first, d_given) =
        provides_all drivers (driver_data_initial drivers) (driver_data_next drivers) e d_fuel ds
          d_sends some_d in
      let (s, s_rc, s_first, s_given) =
        provides_all states (racestates_initial states) (racestates_next states) e s_fuel ss s_sends
          some_s in
      let (out, replayed, runs) =
        process_data-IsReplay (state_items ss) (driver_items ds)
          (λ empty. some_s (state_items-nil ss empty)) (λ empty. some_d (driver_items-nil ds empty))
          in_s in_d o_s o_d fuel
          (omega (arith, length-state_items ss, length-driver_items ds, enough)) in
      (
        out,
        replayed,
        recompute_event_steps fuel e (new_fetcher d d_rc) (new_fetcher s s_rc) ds ss
            (record { out = out; state = tt; broken = false })
            (rw (d_first, s_first, new_data_provider) refl) (d_given fuel (omega (arith, enough)))
            (s_given fuel (omega (arith, enough))) runs,
      )
