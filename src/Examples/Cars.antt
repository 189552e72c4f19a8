-- ===== src/Examples/Cars.antt =====
-- Tests of the car processor.
use iracelog_service_manager.Base.{
  ℕ, none, some, [], ◌∷◌, ◌≡◌, refl, subst, lookup, insert, nat_key, string_key, ok,
}
use iracelog_service_manager.Car.Types.{pit, CarProcessor}
use iracelog_service_manager.Car.Payload.{
  add_entries, add_entry, ensure_compute_state, new_compute_state, process_state_payload,
  process_car_payload,
}
use iracelog_service_manager.Car.Machine.{handle_compute_state}
use iracelog_service_manager.Car.Valid.{IsValid}
use iracelog_service_manager.Car.Registration.{add_entries-IsValid}
use iracelog_service_manager.Car.Messages.{Grows}
use iracelog_service_manager.Car.Totality.{process_state_payload-IsValid}
use iracelog_service_manager.Car.DriverChange.{process_car_payload-IsValid}
use iracelog_service_manager.Car.Handling.{IsReady}
use iracelog_service_manager.Car.Diagram.{CarStep, stint_count, pit_count}
use iracelog_service_manager.Car.Following.{handle_compute_state-CarStep}
use iracelog_service_manager.Examples.Data.{
  millis, entry, car_at, state_request, empty_cars, garage, driver_data, occupied, running, racing,
}

absent : {A : Type 0} {P : Type 0} {a : A} → none ≡ some a → P
absent h = absurd cc

empty_cars-IsValid : IsValid empty_cars
unfolding lookup
empty_cars-IsValid = record {
  indexed = λ i n h. absent h;
  numbered = λ i n h. absent h;
  computed = λ i n h. absent h;
  cars = λ n cs h. absent h;
  seated = λ n o h. absent h;
  stint_histories = λ n. tt;
  pit_histories = λ n. tt;
  non_nil = λ n c h. absent h;
}

registers : add_entries driver_data.entries empty_cars ≡ garage
unfolding add_entries add_entry ensure_compute_state new_compute_state lookup insert
registers = refl

pub garage-IsValid : IsValid garage
garage-IsValid =
    subst IsValid registers (add_entries-IsValid driver_data.entries empty_cars empty_cars-IsValid)

-- A state message about both cars.
process_state_payload-IsValid_example :
    (q : CarProcessor ℕ) × (process_state_payload
        (state_request 5000 (car_at 1 pit 0 1 1 ∷ car_at 3 pit 0 2 1 ∷ []) [])
        garage
      ≡ ok q)
    × IsValid q
    × Grows garage q
unfolding lookup
process_state_payload-IsValid_example =
    process_state_payload-IsValid
      (state_request 5000 (car_at 1 pit 0 1 1 ∷ car_at 3 pit 0 2 1 ∷ []) []) garage garage-IsValid
      (("7", refl), (("12", refl), tt))

process_car_payload-IsValid_example :
    (q : CarProcessor ℕ) × (process_car_payload driver_data garage ≡ ok q)
    × IsValid q
    × (q.current_drivers ≡ driver_data.current_drivers)
unfolding add_entries add_entry ensure_compute_state new_compute_state lookup insert
process_car_payload-IsValid_example =
    process_car_payload-IsValid driver_data garage garage-IsValid
      ((entry 1 "7" 1, refl), ((entry 3 "12" 2, refl), tt))

racing-IsReady : IsReady "12" running racing
unfolding lookup
racing-IsReady = record {
  valid = record {
    named = refl;
    has_stint = refl;
    stints_add_up = tt;
    has_pit = tt;
    pits_add_up = tt;
  };
  registered = (entry 3 "12" 2, refl);
  seat = (occupied, refl, (tt, tt));
}

-- The car drives into the pits.
handle_compute_state-CarStep_example :
    (q : CarProcessor ℕ) × (cs' : _) × (handle_compute_state
        (some running)
        (car_at 3 pit 6 2 1)
        9000
        racing
      ≡ ok (q, some cs'))
    × CarStep running.car_state
        (stint_count (lookup "12" racing.stint_lookup))
        (pit_count (lookup "12" racing.pit_lookup))
        cs'.car_state
        (stint_count (lookup "12" q.stint_lookup))
        (pit_count (lookup "12" q.pit_lookup))
handle_compute_state-CarStep_example =
    handle_compute_state-CarStep running (car_at 3 pit 6 2 1) 9000 racing racing-IsReady
