-- ===== src/Processing/Compose.antt =====
-- processor.go: ComposeAnalysisData.
use Prim.Native.Nat.{Ordering}
use Prim.Native.String.{compare}
use iracelog_service_manager.Base.{
  String, Bool, true, false, Option, none, some, List, [], ◌∷◌, ◌++◌, map, GoMap, lookup,
  string_key, if◌then◌else◌,
}
use iracelog_service_manager.Car.Types.{
  CarProcessor, CarComputeState, CarStint, CarPit, CarOccupancy,
}
use iracelog_service_manager.Race.Types.{RaceProcessor, CarLaps, RaceGraph}

-- analysisv1.Analysis
pub record Analysis (T : Type 0) : Type 0 where
  pub race_order : List String
  pub car_laps : List (CarLaps T)
  pub car_compute_states : List (Option (CarComputeState T))
  pub car_stints : List (CarStint T)
  pub car_pits : List (CarPit T)
  pub car_occupancies : List (CarOccupancy T)
  pub race_graph : List (RaceGraph T)

-- flattenByReference: the values of the keys that are there, in the order of the keys.
unfoldable pub flatten_by_reference : {E : Type 0} → GoMap String E → List String → List E
flatten_by_reference m [] = []
flatten_by_reference m (k ∷ ks) =
    let rest = flatten_by_reference m ks in elim (lookup k m) [ none ↦ rest | some v ↦ v ∷ rest ]

-- flattenRaceGraph: a missing key reads as the empty slice.
unfoldable pub flatten_race_graph : {E : Type 0} → GoMap String (List E) → List String → List E
flatten_race_graph m [] = []
flatten_race_graph m (k ∷ ks) =
    let rest = flatten_race_graph m ks in elim (lookup k m) [ none ↦ rest | some vs ↦ vs ++ rest ]

-- `<` on strings
abbrev pub less : String → String → Bool
less a b = elim (compare a b) [ Ordering.lt ↦ true | _ ↦ false ]

-- `sort.Strings`
unfoldable pub insert_name : String → List String → List String
insert_name k [] = k ∷ []
insert_name k (j ∷ js) = let rest = insert_name k js in if less k j then k ∷ j ∷ js else j ∷ rest

unfoldable pub sort_names : List String → List String
unfolding insert_name
sort_names [] = []
sort_names (k ∷ ks) = insert_name k (sort_names ks)

-- sortedMapKeys
unfoldable pub sorted_map_keys : {E : Type 0} → GoMap String E → List String
unfolding sort_names
sorted_map_keys m = sort_names (map (λ (k, _). k) m)

-- ComposeAnalysisData
unfoldable pub compose_analysis_data : {T : Type 0} → CarProcessor T → RaceProcessor T → Analysis T
unfolding sorted_map_keys flatten_by_reference flatten_race_graph
compose_analysis_data cars race =
    let classes = sorted_map_keys race.race_graph in
    let car_nums = sorted_map_keys cars.by_car_num in
    record {
      race_order = race.race_order;
      car_laps = flatten_by_reference race.car_laps car_nums;
      car_compute_states = flatten_by_reference cars.compute_state car_nums;
      car_stints = flatten_by_reference cars.stint_lookup car_nums;
      car_pits = flatten_by_reference cars.pit_lookup car_nums;
      car_occupancies = flatten_by_reference cars.car_occupancy_lookup car_nums;
      race_graph = flatten_race_graph race.race_graph classes;
    }
