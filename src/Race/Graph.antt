-- ===== src/Race/Graph.antt =====
-- race_processor.go: processOverallRaceGraph, processClassRaceGraph and filterByCarClass.
use iracelog_service_manager.Base.{
  ℕ, String, Bool, true, false, none, some, List, [], ◌∷◌, ◌++◌, GoMap, lookup, insert, ◌==◌,
  nat_key, string_key, if◌then◌else◌, index_func, get_elem?, set, Outcome, ok, deref, ◌>>=◌,
  Float32, minus, sub32, sign_bit, leb,
}
use iracelog_service_manager.Car.Types.{
  CarState, init, out, CarProcessor, CarClass, Car, StateRequest,
}
use iracelog_service_manager.Race.Types.{GapInfo, RaceGraph, RaceProcessor}
use iracelog_service_manager.Race.Laps.{num_of}

-- Cars in these states take no part in the race graph.
unfoldable pub is_racing : CarState → Bool
is_racing init = false
is_racing out = false
is_racing _ = true

-- The key of the overall race graph.
abbrev pub overall : String
overall = "overall"

module _ {T : Type 0} where
  -- `int(a.Pos - b.Pos) < 0`, the difference being an `int32`.
  unfoldable pub before : GapInfo T → GapInfo T → Bool
  before a b = leb sign_bit (sub32 a.pos b.pos)

  unfoldable pub insert_gap : GapInfo T → List (GapInfo T) → List (GapInfo T)
  unfolding before
  insert_gap x [] = x ∷ []
  insert_gap x (y ∷ ys) = let rest = insert_gap x ys in if before y x then y ∷ rest else x ∷ y ∷ ys

  -- `slices.SortStableFunc`: an insertion sort gives the result of every stable sort.
  unfoldable pub sort_gaps : List (GapInfo T) → List (GapInfo T)
  unfolding insert_gap
  sort_gaps [] = []
  sort_gaps (x ∷ xs) = insert_gap x (sort_gaps xs)

  -- The gap infos of the racing cars, each with the gap that `f` reads.
  unfoldable pub gap_infos : CarProcessor T → (Car T → T) → List (Car T) → List (GapInfo T)
  unfolding is_racing
  gap_infos cp f [] = []
  gap_infos cp f (c ∷ cs) =
      let rest = gap_infos cp f cs in
      if is_racing c.state
      then record { car_num = num_of cp c; lap_no = c.lc; pos = c.pos; gap = f c; pic = c.pic }
        ∷ rest
      else rest

  -- The entry of a lap is replaced where it is there, and appended where it is not.
  unfoldable pub put_entry : RaceGraph T → List (RaceGraph T) → List (RaceGraph T)
  put_entry g gs = elim (index_func (λ (x : RaceGraph T). x.lap_no == g.lap_no) gs) [
    | some i ↦ set gs i g
    | none ↦ gs ++ g ∷ []
  ]

  -- A read of the map of slices: a missing key reads as the empty slice.
  unfoldable pub lookup_graph : String → GoMap String (List (RaceGraph T)) → List (RaceGraph T)
  lookup_graph k m = elim (lookup k m) [ none ↦ [] | some v ↦ v ]

  unfoldable pub store_entry : RaceGraph T → RaceProcessor T → RaceProcessor T
  unfolding put_entry lookup_graph
  store_entry g p = record p {
    race_graph =
        insert g.car_class (put_entry g (lookup_graph g.car_class p.race_graph)) p.race_graph;
  }

  -- The lap entry of the overall race graph, for the lap of the leader.
  unfoldable pub overall_entry : CarProcessor T → ℕ → List (Car T) → RaceGraph T
  unfolding sort_gaps gap_infos
  overall_entry cp lc cars = record {
    lap_no = lc;
    car_class = overall;
    gaps = sort_gaps (gap_infos cp (λ c. c.gap) cars);
  }

  -- processOverallRaceGraph; the leader's index is an index of the slice.
  unfoldable pub process_overall_race_graph :
      CarProcessor T → StateRequest T → RaceProcessor T → Outcome (RaceProcessor T)
  unfolding overall_entry store_entry
  process_overall_race_graph cp payload p =
      elim (index_func (λ (c : Car T). c.pos == 1) payload.cars) [
        | none ↦ ok p
        | some i ↦ deref (get_elem? payload.cars i) >>= λ leader.
            ok (store_entry (overall_entry cp leader.lc payload.cars) p)
      ]

  -- filterByCarClass: a car that is not registered is a nil dereference.
  unfoldable pub filter_by_car_class :
      CarProcessor T → CarClass → List (Car T) → Outcome (List (Car T))
  filter_by_car_class cp cl [] = ok []
  filter_by_car_class cp cl (c ∷ cs) = deref (lookup c.car_idx cp.by_car_idx) >>= λ e.
      filter_by_car_class cp cl cs >>= λ rest.
      ok (if e.car.car_class_id == cl.id then c ∷ rest else rest)

module _ {T : Type 0} ⦃F : Float32 T⦄ where
  -- The lap entry of a class: gaps are relative to the leader of the class.
  unfoldable pub class_entry : CarProcessor T → CarClass → ℕ → T → List (Car T) → RaceGraph T
  unfolding sort_gaps gap_infos
  class_entry cp cl lc leader_gap cars = record {
    lap_no = lc;
    car_class = cl.name;
    gaps = sort_gaps (gap_infos cp (λ c. minus c.gap leader_gap) cars);
  }

  -- processClassRaceGraph; the lap number is read from `payload.Cars` at the index that the leader
  -- has among the cars of the class.
  unfoldable pub process_class_race_graph :
      CarProcessor T → StateRequest T → CarClass → RaceProcessor T → Outcome (RaceProcessor T)
  unfolding filter_by_car_class class_entry store_entry
  process_class_race_graph cp payload cl p = filter_by_car_class cp cl payload.cars >>= λ entries.
      elim (index_func (λ (c : Car T). c.pic == 1) entries) [
        | none ↦ ok p
        | some i ↦ do
          same_index ← deref (get_elem? payload.cars i)
          leader ← deref (get_elem? entries i)
          ok (store_entry (class_entry cp cl same_index.lc leader.gap entries) p)
      ]

  -- The loop over the car classes.
  unfoldable pub process_class_race_graphs :
      CarProcessor T → StateRequest T → List CarClass → RaceProcessor T → Outcome (RaceProcessor T)
  unfolding process_class_race_graph
  process_class_race_graphs cp payload [] p = ok p
  process_class_race_graphs cp payload (cl ∷ cls) p =
      process_class_race_graph cp payload cl p >>= process_class_race_graphs cp payload cls
