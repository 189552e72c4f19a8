-- ===== src/Examples/Races.antt =====
-- Tests of the race processor.
use iracelog_service_manager.Base.{
  ℕ, String, none, some, List, [], ◌∷◌, ◌≡◌, ◌≢◌, refl, lookup, nat_key, string_key, map,
  index_func, find_by, ok, arith,
}
use mathlib.Core.List.{Perm}
use iracelog_service_manager.Car.Types.{run, StateRequest}
use iracelog_service_manager.Car.Drivers.{lookup_name}
use iracelog_service_manager.Car.Payload.{contains}
use iracelog_service_manager.Race.Types.{RaceProcessor, RaceGraph, GapInfo}
use iracelog_service_manager.Race.Laps.{num_of, process_car_laps, car_entry}
use iracelog_service_manager.Race.Graph.{
  lookup_graph, overall, process_overall_race_graph, gap_infos, filter_by_car_class,
  process_class_race_graph,
}
use iracelog_service_manager.Race.Payload.{process_state_payload, is_race_start}
use iracelog_service_manager.Race.Tables.{entry_key}
use iracelog_service_manager.Race.LapTimes.{
  LapsAreDistinct, lap_time_of, latest_time, process_car_laps-latest_time,
}
use iracelog_service_manager.Race.Messages.{IsValid}
use iracelog_service_manager.Race.Totality.{process_state_payload-accepts}
use iracelog_service_manager.Race.Sorting.{IsSorted}
use iracelog_service_manager.Race.Entries.{
  process_overall_race_graph-entry, process_class_race_graph-wrong_lap,
}
use iracelog_service_manager.Race.Replay.{replay_infos, replay_infos-first_marker}
use iracelog_service_manager.Examples.Data.{
  millis, entry, car_at, state_request, garage, empty_race, start_marker, gt3,
}

-- Car 7 leads after ten laps; car 12 leads its class after eight.
abbrev pub tick : StateRequest ℕ
tick = state_request 5000 (car_at 1 run 10 1 1 ∷ car_at 3 run 8 2 1 ∷ []) (start_marker ∷ [])

-- The pace car, which has no number.
abbrev pub pace_car : StateRequest ℕ
pace_car = state_request 5000 (car_at 1 run 10 1 1 ∷ car_at 4294967295 run 0 0 0 ∷ []) []

empty_race-laps : LapsAreDistinct empty_race
unfolding car_entry lookup
empty_race-laps n = tt

pub empty_race-IsValid : IsValid empty_race
unfolding lookup_graph lookup
empty_race-IsValid = record { laps = empty_race-laps; graphs = λ k. tt }

process_state_payload-accepts_example :
    (q : RaceProcessor ℕ) × (process_state_payload garage tick empty_race ≡ ok q)
    × IsValid q
    × (q.race_order ≡ map (num_of garage) tick.cars)
unfolding lookup lookup_name
process_state_payload-accepts_example =
    process_state_payload-accepts garage tick empty_race empty_race-IsValid
      ((entry 1 "7" 1, refl), ((entry 3 "12" 2, refl), tt)) ((refl, refl), ((refl, refl), tt))

process_car_laps-latest_time_example :
    LapsAreDistinct (process_car_laps garage tick.cars empty_race)
    × ((n : String) (j : ℕ)
        → lap_time_of (process_car_laps garage tick.cars empty_race) n j
          ≡ latest_time garage tick.cars n j (lap_time_of empty_race n j))
process_car_laps-latest_time_example =
    process_car_laps-latest_time garage tick.cars empty_race empty_race-laps

abbrev graph_of : ℕ → RaceGraph ℕ
graph_of lap = record { lap_no = lap; car_class = "GT3"; gaps = [] }

abbrev gap_at : String → ℕ → GapInfo ℕ
gap_at n pos = record { car_num = n; lap_no = 4; pos = pos; gap = 0; pic = pos }

abbrev gaps : List (GapInfo ℕ)
gaps = gap_at "3" 2 ∷ gap_at "12" 1 ∷ gap_at "7" 2 ∷ []

process_overall_race_graph-entry_example :
    (q : RaceProcessor ℕ) × (g : RaceGraph ℕ) × (process_overall_race_graph garage tick empty_race
      ≡ ok q)
    × (find_by entry_key 10 (lookup_graph overall q.race_graph) ≡ some g)
    × IsSorted g.gaps
    × Perm g.gaps (gap_infos garage (λ c. c.gap) tick.cars)
unfolding index_func
process_overall_race_graph-entry_example =
    process_overall_race_graph-entry garage tick empty_race (car_at 1 run 10 1 1) 0 10
      empty_race-IsValid (omega arith, (omega arith, tt)) refl refl

class_entries : filter_by_car_class garage gt3 tick.cars ≡ ok (car_at 3 run 8 2 1 ∷ [])
unfolding filter_by_car_class lookup
class_entries = refl

-- The leader of the class has done eight laps, but the entry is made for lap ten.
process_class_race_graph-wrong_lap_example :
    (q : RaceProcessor ℕ) × (process_class_race_graph garage tick gt3 empty_race ≡ ok q)
    × (find_by entry_key 8 (lookup_graph "GT3" q.race_graph) ≡ none)
    × (find_by entry_key 10 (lookup_graph "GT3" q.race_graph) ≢ none)
unfolding lookup_graph lookup index_func
process_class_race_graph-wrong_lap_example =
    process_class_race_graph-wrong_lap garage tick gt3 empty_race (car_at 3 run 8 2 1 ∷ [])
      (car_at 3 run 8 2 1) (car_at 1 run 10 1 1) 0 empty_race-IsValid refl class_entries refl refl
      refl refl

replay_infos-first_marker_example :
    ((replay_infos (tick ∷ pace_car ∷ []) empty_race).replay_info.min_timestamp ≡ some 5000)
    × ((replay_infos (tick ∷ pace_car ∷ []) empty_race).replay_info.min_session_time ≡ 5000)
unfolding contains index_func is_race_start
replay_infos-first_marker_example =
    replay_infos-first_marker tick (pace_car ∷ []) empty_race refl refl refl
