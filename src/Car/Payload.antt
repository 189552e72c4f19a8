-- ===== src/Car/Payload.antt =====
-- car_processor.go: the two entry points, ProcessCarPayload and ProcessStatePayload.
use iracelog_service_manager.Base.{
  ℕ, String, Bool, false, ◌||◌, Option, none, some, List, [], ◌∷◌, lookup, insert, ◌==◌, string_key,
  nat_key, if◌then◌else◌, Outcome, ok, ◌>>=◌, Float32, zero_t,
}
use iracelog_service_manager.Car.Types.{
  init, CarEntry, CarProcessor, CarComputeState, DriverDataRequest, StateRequest, Car,
}
use iracelog_service_manager.Car.Drivers.{lookup_name, team_name_of, new_occupancy, update_car_info}
use iracelog_service_manager.Car.Machine.{handle_compute_state}

-- `slices.Contains`
unfoldable pub contains : List ℕ → ℕ → Bool
contains [] x = false
contains (y ∷ ys) x = y == x || contains ys x

module _ {T : Type 0} ⦃F : Float32 T⦄ where
  -- The compute state of a car that no message has handled.
  unfoldable pub new_compute_state : String → CarComputeState T
  new_compute_state n = record { car_num = n; car_state = init; out_encountered = zero_t }

  -- `if _, ok := p.ComputeState[n]; !ok { p.ComputeState[n] = … }`
  unfoldable pub ensure_compute_state : String → CarProcessor T → CarProcessor T
  ensure_compute_state n p = elim (lookup n p.compute_state) [
    | none ↦ record p { compute_state = insert n (some (new_compute_state n)) p.compute_state }
    | some _ ↦ p
  ]

  -- One round of the loop over the entries.
  unfoldable pub add_entry : CarEntry → CarProcessor T → CarProcessor T
  unfolding ensure_compute_state
  add_entry e p = ensure_compute_state e.car.car_number (record p {
    by_car_idx = insert e.car.car_idx e p.by_car_idx;
    by_car_num = insert e.car.car_number e p.by_car_num;
    num_by_idx = insert e.car.car_idx e.car.car_number p.num_by_idx;
  })

  unfoldable pub add_entries : List CarEntry → CarProcessor T → CarProcessor T
  unfolding add_entry
  add_entries [] p = p
  add_entries (e ∷ es) p = add_entries es (add_entry e p)

  -- ProcessCarPayload
  unfoldable pub process_car_payload :
      DriverDataRequest T → CarProcessor T → Outcome (CarProcessor T)
  unfolding add_entries contains update_car_info
  process_car_payload payload p =
      let p' = add_entries payload.entries (record p { car_classes = payload.car_classes }) in
      (if contains p'.race_sessions payload.session_num then update_car_info payload p' else ok p')
      >>= λ q. ok (record q { current_drivers = payload.current_drivers })

  -- One round of the loop of ensureCarOccupancy.
  unfoldable pub ensure_occupancy : T → Car T → CarProcessor T → Outcome (CarProcessor T)
  unfolding lookup_name team_name_of new_occupancy
  ensure_occupancy t msg p = elim (lookup num p.car_occupancy_lookup) [
    | none ↦ team_name_of msg.car_idx p.by_car_idx >>= λ team. ok (record p {
      car_occupancy_lookup =
          insert num (new_occupancy num team (lookup_name msg.car_idx p.current_drivers) t)
            p.car_occupancy_lookup;
    })
    | some _ ↦ ok p
  ]
    where
      num : String
      num = lookup_name msg.car_idx p.num_by_idx

  -- ensureCarOccupancy
  unfoldable pub ensure_car_occupancy : T → List (Car T) → CarProcessor T → Outcome (CarProcessor T)
  unfolding ensure_occupancy
  ensure_car_occupancy t [] p = ok p
  ensure_car_occupancy t (c ∷ cs) p = ensure_occupancy t c p >>= ensure_car_occupancy t cs

  -- A read of the map of pointers: a missing key reads as nil.
  unfoldable pub lookup_state : String → CarProcessor T → Option (CarComputeState T)
  lookup_state n p = elim (lookup n p.compute_state) [ none ↦ none | some c ↦ c ]

  -- One round of the loop of ProcessStatePayload: an unknown car is skipped.
  unfoldable pub process_car : T → Car T → CarProcessor T → Outcome (CarProcessor T)
  unfolding lookup_name lookup_state handle_compute_state
  process_car t msg p =
      if num == ""
      then ok p
      else handle_compute_state (lookup_state num p) msg t p >>= λ (p', pointer).
          ok (record p' { compute_state = insert num pointer p'.compute_state })
    where
      num : String
      num = lookup_name msg.car_idx p.num_by_idx

  unfoldable pub process_cars : T → List (Car T) → CarProcessor T → Outcome (CarProcessor T)
  unfolding process_car
  process_cars t [] p = ok p
  process_cars t (c ∷ cs) p = process_car t c p >>= process_cars t cs

  -- ProcessStatePayload
  unfoldable pub process_state_payload : StateRequest T → CarProcessor T → Outcome (CarProcessor T)
  unfolding ensure_car_occupancy process_cars
  process_state_payload payload p =
      ensure_car_occupancy payload.session.session_time payload.cars p
      >>= process_cars payload.session.session_time payload.cars

  -- ProcessStatePayloads
  unfoldable pub process_state_payloads :
      List (StateRequest T) → CarProcessor T → Outcome (CarProcessor T)
  unfolding process_state_payload
  process_state_payloads [] p = ok p
  process_state_payloads (m ∷ ms) p = process_state_payload m p >>= process_state_payloads ms

  -- NewCarProcessor with the option WithRaceSessions
  unfoldable pub new_car_processor : List ℕ → CarProcessor T
  new_car_processor race_sessions = record {
    by_car_idx = [];
    by_car_num = [];
    compute_state = [];
    stint_lookup = [];
    pit_lookup = [];
    car_occupancy_lookup = [];
    num_by_idx = [];
    current_drivers = [];
    car_classes = [];
    race_sessions = race_sessions;
  }
