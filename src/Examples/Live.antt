-- ===== src/Examples/Live.antt =====
-- Tests of the processor that drives both.
use iracelog_service_manager.Base.{
  ℕ, true, none, some, List, [], ◌∷◌, ◌≡◌, refl, lookup, insert, nat_key, string_key, ok,
}
use iracelog_service_manager.Car.Payload.{
  add_entries, add_entry, ensure_compute_state, new_compute_state,
}
use iracelog_service_manager.Car.Valid.{IsValid as CarsAreValid}
use iracelog_service_manager.Race.Messages.{IsValid as RaceIsValid}
use iracelog_service_manager.Processing.Compose.{compose_analysis_data}
use iracelog_service_manager.Processing.Steps.{
  Processor, Channels, Sent, SpeedmapRequest, analysis, racestate, send, replay, driver_data,
  process_state, process_car_data,
}
use iracelog_service_manager.Processing.Kept.{process_state-Kept, process_car_data-Kept}
use iracelog_service_manager.Processing.Snapshots.{
  process_speedmaps, stamps, Spaced, process_speedmaps-Spaced,
}
use iracelog_service_manager.Processing.Listed.{HoldsIfAny, compose_analysis_data-HoldsIfAny}
use iracelog_service_manager.Car.Types.{CarPit}
use iracelog_service_manager.Race.Types.{CarLaps}
use iracelog_service_manager.Examples.Data.{
  millis, entry, garage, empty_race, racing, running, running_stint, occupied,
  driver_data as new_drivers,
}
use iracelog_service_manager.Examples.Cars.{garage-IsValid}
use iracelog_service_manager.Examples.Races.{tick, empty_race-IsValid}

abbrev all_channels : Channels
all_channels = record {
  analysis_chan = true;
  racestate_chan = true;
  driver_data_chan = true;
  speedmap_chan = true;
  replay_info_chan = true;
  snapshot_chan = true;
}

abbrev pub waiting : Processor ℕ
waiting = record {
  cars = garage;
  race = empty_race;
  channels = all_channels;
  last_snapshot_time = 0;
  last_session_data = none;
}

abbrev in_session : Processor ℕ
in_session = record waiting { last_session_data = some tick.session }

abbrev speeds : ℕ → SpeedmapRequest ℕ
speeds t = record { timestamp = t; laptimes = ("GT3", 91000) ∷ [] }

process_state-Kept_example :
    (q : Processor ℕ) × (process_state tick waiting
      ≡ ok (
        q,
        analysis (compose_analysis_data q.cars q.race)
            ∷ racestate tick
            ∷ replay q.race.replay_info
            ∷ [],
      ))
    × CarsAreValid q.cars
    × RaceIsValid q.race
    × (q.last_session_data ≡ some tick.session)
unfolding lookup send
process_state-Kept_example =
    process_state-Kept tick waiting garage-IsValid empty_race-IsValid
      (("7", refl), (("12", refl), tt))

process_car_data-Kept_example :
    (q : Processor ℕ) × (process_car_data new_drivers waiting
      ≡ ok (q, driver_data new_drivers ∷ analysis (compose_analysis_data q.cars q.race) ∷ []))
    × CarsAreValid q.cars
    × (q.race ≡ empty_race)
unfolding add_entries add_entry ensure_compute_state new_compute_state lookup insert send
process_car_data-Kept_example =
    process_car_data-Kept new_drivers waiting garage-IsValid
      ((entry 1 "7" 1, refl), ((entry 3 "12" 2, refl), tt))

-- The second speed map comes too early for a snapshot.
process_speedmaps-Spaced_example :
    (q : Processor ℕ) × (sent : List (Sent ℕ)) × (process_speedmaps
        (speeds 200000000000 ∷ speeds 300000000000 ∷ speeds 400000000000 ∷ [])
        in_session
      ≡ ok (q, sent))
    × Spaced 0 (stamps sent)
process_speedmaps-Spaced_example =
    process_speedmaps-Spaced (speeds 200000000000 ∷ speeds 300000000000 ∷ speeds 400000000000 ∷ [])
      tick.session in_session refl

compose_analysis_data-HoldsIfAny_example :
    HoldsIfAny {A = CarLaps ℕ} none (compose_analysis_data racing empty_race).car_laps
    × HoldsIfAny (some (some running)) (compose_analysis_data racing empty_race).car_compute_states
    × HoldsIfAny (some running_stint) (compose_analysis_data racing empty_race).car_stints
    × HoldsIfAny {A = CarPit ℕ} none (compose_analysis_data racing empty_race).car_pits
    × HoldsIfAny (some occupied) (compose_analysis_data racing empty_race).car_occupancies
unfolding lookup
compose_analysis_data-HoldsIfAny_example =
    compose_analysis_data-HoldsIfAny racing empty_race "12" (entry 3 "12" 2) refl
