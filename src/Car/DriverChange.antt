-- ===== src/Car/DriverChange.antt =====
-- updateCarInfo never panics when every driven car is registered, and ProcessCarPayload keeps the
-- processor valid.
use iracelog_service_manager.Base.{
  ℕ, ◌+◌, String, Option, none, some, List, [], ◌∷◌, ◌++◌, ◌≡◌, refl, sym, subst, ◌∙◌, lookup, ◌==◌,
  nat_key, string_key, All, All-append, length-append, arith, All-set, All-index_func, ok, ◌>>=◌,
  Returns, Returns-bind, Returns-mono, Returns-eq, length, get_elem?-of_lt, lt_of-get_elem?, ◌<◌,
  if◌then◌else◌, Bool-cases, inl, inr, Float32, GoMap,
}
use iracelog_service_manager.Car.Types.{
  CarProcessor, CarClass, CarOccupancy, CarEntry, DriverDataRequest, Driver, SeatTime,
}
use iracelog_service_manager.Car.Valid.{NonEmpty, HasSeat, IsValid}
use iracelog_service_manager.Car.Seats.{update_leave-HasSeat, update_leave_if-HasSeat, Reseated}
use iracelog_service_manager.Car.Totality.{add_occupancy-IsValid}
use iracelog_service_manager.Car.Registration.{add_entries-IsValid}
use iracelog_service_manager.Car.Drivers.{
  update_leave_if, driver_entry_by_name, add_seat, change_driver, lookup_name, new_driver_entry,
  new_occupancy, team_name_of, update_car, update_cars, update_car_info,
}
use iracelog_service_manager.Car.Payload.{contains, add_entries, process_car_payload}

module _ {T : Type 0} where
  seat_added : (s : List (SeatTime T)) (x : SeatTime T) → NonEmpty (s ++ x ∷ [])
  seat_added [] x = tt
  seat_added (y ∷ s) x = tt

  add_seat-HasSeat :
      (t : T) (i : ℕ) (ds : List (Driver T))
      → All HasSeat ds
      → i < length ds
      → Returns (All HasSeat) (add_seat t i ds)
  unfolding add_seat
  add_seat-HasSeat t i ds h l =
      let (d, e) = get_elem?-of_lt ds i l in
      rw e (All-set HasSeat ds i _ h (seat_added d.seat_times _))

  found_lt :
      (ds : List (Driver T)) (name : String) {i : ℕ}
      → All HasSeat ds
      → driver_entry_by_name ds name ≡ some i
      → i < length ds
  unfolding driver_entry_by_name
  found_lt ds name {i} h e =
      let (_, at, _) = All-index_func HasSeat (λ d. d.name == name) ds i h e in
      lt_of-get_elem? ds i at

  -- An update at an index that was found in an earlier, shorter slice.
  update_leave_if-Reseated :
      (t : T) (o : Option ℕ) (ds : List (Driver T))
      → All HasSeat ds
      → ((i : ℕ) → o ≡ some i → i < length ds)
      → Returns (Reseated ds) (update_leave_if t o ds)
  unfolding update_leave_if
  update_leave_if-Reseated t none ds h l = (h, refl)
  update_leave_if-Reseated t (some i) ds h l =
      let (d, e) = get_elem?-of_lt ds i (l i refl) in update_leave-HasSeat t i ds h e

  -- A driver change never indexes a slice out of range.
  change_driver-HasSeat :
      (t : T) (name previous : String) (item : CarOccupancy T) (o : Option ℕ)
      → driver_entry_by_name item.drivers name ≡ o
      → All HasSeat item.drivers
      → Returns (λ o'. All HasSeat o'.drivers) (change_driver t name previous item o)
  unfolding change_driver new_driver_entry
  change_driver-HasSeat t name previous item none e h =
      Returns-bind (Reseated _) (λ o'. All HasSeat o'.drivers) _ _
        (update_leave_if-Reseated t (driver_entry_by_name item.drivers previous) _
          (All-append HasSeat item.drivers _ h (tt, tt))
          (λ i f. omega (
            arith,
            found_lt item.drivers previous h f,
            length-append item.drivers (new_driver_entry name t ∷ []),
          )))
        (λ ds k. k.0)
  change_driver-HasSeat t name previous item (some i) e h = elim (Bool-cases (previous == name)) [
    | inl same ↦
        let (d, at) = get_elem?-of_lt item.drivers i (found_lt item.drivers name h e) in
        rw same (
          Returns-bind (Reseated item.drivers) (λ o'. All HasSeat o'.drivers) _ _
            (update_leave-HasSeat t i item.drivers h at) (λ ds k. k.0))
    | inr other ↦ rw other (
        Returns-bind (Reseated item.drivers) (λ o'. All HasSeat o'.drivers) _ _
          (update_leave_if-HasSeat t previous item.drivers h)
          (λ ds k.
            Returns-bind (All HasSeat) (λ o'. All HasSeat o'.drivers) _ _
              (add_seat-HasSeat t i ds k.0 (omega (arith, k.1, found_lt item.drivers name h e)))
              (λ ds' k'. k')))
  ]

  -- A driver who enters a car for the first time joins its drivers, but the occupancy goes on naming
  -- the same current driver as before; the drivers so far must have been seated.
  pub change_driver-first_time :
      (t : T) (name previous : String) (item : CarOccupancy T)
      → All HasSeat item.drivers
      → driver_entry_by_name item.drivers name ≡ none
      → (o : CarOccupancy T) × (change_driver t name previous item
            (driver_entry_by_name item.drivers name)
          ≡ ok o)
        × (length o.drivers ≡ length item.drivers + 1)
        × (o.current_driver_name ≡ item.current_driver_name)
  unfolding change_driver new_driver_entry
  change_driver-first_time t name previous item h e =
      let (o, f, k) =
        Returns-eq Joined
          (change_driver t name previous item (driver_entry_by_name item.drivers name))
          (rw e (
            Returns-bind (Reseated (item.drivers ++ new_driver_entry name t ∷ [])) Joined
              (update_leave_if t (driver_entry_by_name item.drivers previous) _) _
              (update_leave_if-Reseated t (driver_entry_by_name item.drivers previous) _
                (All-append HasSeat item.drivers _ h (tt, tt))
                (λ i f. omega (
                  arith,
                  found_lt item.drivers previous h f,
                  length-append item.drivers (new_driver_entry name t ∷ []),
                )))
              (λ ds k. (
                omega (arith, k.1, length-append item.drivers (new_driver_entry name t ∷ [])),
                refl,
              )))) in
      (o, f, k.0, k.1)
    where
      Joined : CarOccupancy T → Type 0
      Joined o =
          (length o.drivers ≡ length item.drivers + 1)
          × (o.current_driver_name ≡ item.current_driver_name)

module _ {T : Type 0} ⦃F : Float32 T⦄ where
  abbrev pub IsRegistered : CarProcessor T → ℕ × String → Type 0
  IsRegistered p (i, name) = (e : CarEntry) × (lookup i p.by_car_idx ≡ some e)

  abbrev Updated : CarProcessor T → CarProcessor T → Type 0
  Updated p q = IsValid q × (q.by_car_idx ≡ p.by_car_idx)

  update_car-Updated :
      (t : T) (i : ℕ) (name : String) (p : CarProcessor T)
      → IsValid p
      → IsRegistered p (i, name)
      → Returns (Updated p) (update_car t i name p)
  unfolding update_car
  update_car-Updated t i name p v (e, found) =
      Returns-bind (λ (o : CarOccupancy T). All HasSeat o.drivers) (Updated p) _ _
        (go (lookup (lookup_name i p.num_by_idx) p.car_occupancy_lookup) refl)
        (λ o h. (add_occupancy-IsValid _ o p v h, refl))
    where
      go :
          (o : Option (CarOccupancy T))
          → lookup (lookup_name i p.num_by_idx) p.car_occupancy_lookup ≡ o
          → Returns
              (λ o'. All HasSeat o'.drivers)
              (elim o [
                | none ↦ team_name_of i p.by_car_idx >>= λ team.
                    ok (new_occupancy (lookup_name i p.num_by_idx) team name t)
                | some item ↦
                    change_driver t name
                      (lookup_name i p.current_drivers)
                      item
                      (driver_entry_by_name item.drivers name)
              ])
      go none f = unfold team_name_of new_occupancy new_driver_entry in rw found (tt, tt)
      go (some item) f = change_driver-HasSeat t name _ item _ refl (v.seated _ item f)

  update_cars-Updated :
      (t : T) (ds : GoMap ℕ String) (p : CarProcessor T)
      → IsValid p
      → All (IsRegistered p) ds
      → Returns (Updated p) (update_cars t ds p)
  unfolding update_cars
  update_cars-Updated t [] p v h = (v, refl)
  update_cars-Updated t ((i, name) ∷ ds) p v (r, h) =
      Returns-bind (Updated p) (Updated p) (update_car t i name p) (update_cars t ds)
        (update_car-Updated t i name p v r)
        (λ q (v', e).
          Returns-mono (Updated q) (Updated p) (update_cars t ds q)
            (update_cars-Updated t ds q v' (
              subst (λ m. All (λ (d : ℕ × String). (x : CarEntry) × (lookup d.0 m ≡ some x)) ds)
                (sym e) h))
            (λ r' (v'', e'). (v'', e' ∙ e)))

  -- The invariant says nothing of the car classes and the current drivers.
  relabel-IsValid :
      (p : CarProcessor T) (ds : GoMap ℕ String) (classes : List CarClass)
      → IsValid p
      → IsValid (record p { current_drivers = ds; car_classes = classes })
  relabel-IsValid p ds classes v = record {
    indexed = v.indexed;
    numbered = v.numbered;
    computed = v.computed;
    cars = v.cars;
    seated = v.seated;
    stint_histories = v.stint_histories;
    pit_histories = v.pit_histories;
    non_nil = v.non_nil;
  }

  -- The processor once the entries of a message are registered.
  abbrev pub registered : DriverDataRequest T → CarProcessor T → CarProcessor T
  registered payload p =
      add_entries payload.entries (record p { car_classes = payload.car_classes })

  -- When the driver data names every car that has a driver, ProcessCarPayload returns: it leaves a
  -- valid processor valid, with the current drivers of the message.
  pub process_car_payload-IsValid :
      (payload : DriverDataRequest T) (p : CarProcessor T)
      → IsValid p
      → All (IsRegistered (registered payload p)) payload.current_drivers
      → (q : CarProcessor T) × (process_car_payload payload p ≡ ok q)
        × IsValid q
        × (q.current_drivers ≡ payload.current_drivers)
  unfolding process_car_payload
  process_car_payload-IsValid payload p v h =
      let (q, e, k) =
        Returns-eq (λ q. IsValid q × (q.current_drivers ≡ payload.current_drivers))
          (process_car_payload payload p)
          (Returns-bind IsValid (λ q. IsValid q × (q.current_drivers ≡ payload.current_drivers))
            (if contains (registered payload p).race_sessions payload.session_num
              then update_car_info payload (registered payload p)
              else ok (registered payload p))
            _
            (elim (Bool-cases (contains (registered payload p).race_sessions payload.session_num)) [
              | inl e ↦ rw e (
                  Returns-mono (Updated (registered payload p)) IsValid _
                    (update_cars-Updated payload.session_time payload.current_drivers
                      (registered payload p) added h)
                    (λ q k. k.0))
              | inr e ↦ rw e added
            ])
            (λ q k. (relabel-IsValid q payload.current_drivers q.car_classes k, refl))) in
      (q, e, k.0, k.1)
    where
      added : IsValid (registered payload p)
      added = add_entries-IsValid payload.entries _ (relabel-IsValid p p.current_drivers _ v)
