-- ===== src/Car/Drivers.antt =====
-- car_processor.go: who sits in which car, and since when.
use iracelog_service_manager.Base.{
  ℕ, String, Option, none, some, List, [], ◌∷◌, ◌++◌, GoMap, lookup, insert, index_func, get_elem?,
  set, ◌==◌, string_key, nat_key, if◌then◌else◌, Outcome, ok, panic, deref, ◌>>=◌,
}
use iracelog_service_manager.Car.Types.{
  CarEntry, CarProcessor, CarOccupancy, Driver, SeatTime, DriverDataRequest,
}

-- A read of a map of strings: a missing key reads as "".
unfoldable pub lookup_name : ℕ → GoMap ℕ String → String
lookup_name k m = elim (lookup k m) [ none ↦ "" | some v ↦ v ]

-- `p.ByCarIdx[carIdx].Team.Name`
unfoldable pub team_name_of : ℕ → GoMap ℕ CarEntry → Outcome String
team_name_of k m = deref (lookup k m) >>= λ e. ok e.team_name

module _ {T : Type 0} where
  -- newDriverEntry
  unfoldable pub new_driver_entry : String → T → Driver T
  new_driver_entry name t = record {
    name = name;
    seat_times = record { enter_car_time = t; leave_car_time = t } ∷ [];
  }

  -- `arg.SeatTimes[len(arg.SeatTimes)-1].LeaveCarTime = t`
  unfoldable pub leave_last : T → List (SeatTime T) → Outcome (List (SeatTime T))
  leave_last t [] = panic
  leave_last t (s ∷ []) = ok (record s { leave_car_time = t } ∷ [])
  leave_last t (s ∷ u ∷ r) = leave_last t (u ∷ r) >>= λ r'. ok (s ∷ r')

  -- updateLeave, applied to the driver at an index of the slice.
  unfoldable pub update_leave : T → ℕ → List (Driver T) → Outcome (List (Driver T))
  update_leave t i ds = deref (get_elem? ds i) >>= λ d.
      leave_last t d.seat_times >>= λ s. ok (set ds i (record d { seat_times = s }))

  -- `if idx != -1 { updateLeave(entry) }`
  unfoldable pub update_leave_if : T → Option ℕ → List (Driver T) → Outcome (List (Driver T))
  unfolding update_leave
  update_leave_if t none ds = ok ds
  update_leave_if t (some i) ds = update_leave t i ds

  -- driverEntryByName
  unfoldable pub driver_entry_by_name : List (Driver T) → String → Option ℕ
  driver_entry_by_name ds name = index_func (λ d. d.name == name) ds

  -- The new seat of a driver who returns to the car.
  unfoldable pub add_seat : T → ℕ → List (Driver T) → Outcome (List (Driver T))
  add_seat t i ds = deref (get_elem? ds i) >>= λ d.
      ok (set ds i (record d { seat_times = d.seat_times ++ seat ∷ [] }))
    where
      seat : SeatTime T
      seat = record { enter_car_time = t; leave_car_time = t }

  -- The `else` branch of the loop of updateCarInfo: `name` now drives, `previous` drove.
  unfoldable pub change_driver :
      T → String → String → CarOccupancy T → Option ℕ → Outcome (CarOccupancy T)
  unfolding update_leave_if add_seat driver_entry_by_name new_driver_entry
  change_driver t name previous item none =
      update_leave_if t (driver_entry_by_name item.drivers previous)
        (item.drivers ++ new_driver_entry name t ∷ [])
      >>= λ ds. ok (record item { drivers = ds })
  change_driver t name previous item (some i) =
      if previous == name
      then (update_leave t i item.drivers >>= λ ds. ok (record item { drivers = ds }))
      else update_leave_if t (driver_entry_by_name item.drivers previous) item.drivers >>= λ ds.
          add_seat t i ds >>= λ ds'. ok (record item { current_driver_name = name; drivers = ds' })

  -- A car without an occupancy gets one with its only driver.
  unfoldable pub new_occupancy : String → String → String → T → CarOccupancy T
  unfolding new_driver_entry
  new_occupancy car_num team driver t = record {
    car_num = car_num;
    name = team;
    current_driver_name = driver;
    drivers = new_driver_entry driver t ∷ [];
  }

  -- One round of the loop of updateCarInfo.
  unfoldable pub update_car : T → ℕ → String → CarProcessor T → Outcome (CarProcessor T)
  unfolding change_driver new_occupancy lookup_name team_name_of driver_entry_by_name
  update_car t car_idx name p =
      (elim (lookup num p.car_occupancy_lookup) [
        | none ↦ team_name_of car_idx p.by_car_idx >>= λ team. ok (new_occupancy num team name t)
        | some item ↦
            change_driver t name (lookup_name car_idx p.current_drivers) item
              (driver_entry_by_name item.drivers name)
      ])
      >>= λ item. ok (record p { car_occupancy_lookup = insert num item p.car_occupancy_lookup })
    where
      num : String
      num = lookup_name car_idx p.num_by_idx

  -- The loop of updateCarInfo over the current drivers.
  unfoldable pub update_cars : T → GoMap ℕ String → CarProcessor T → Outcome (CarProcessor T)
  unfolding update_car
  update_cars t [] p = ok p
  update_cars t ((car_idx, name) ∷ rest) p = update_car t car_idx name p >>= update_cars t rest

  -- updateCarInfo
  unfoldable pub update_car_info : DriverDataRequest T → CarProcessor T → Outcome (CarProcessor T)
  unfolding update_cars
  update_car_info payload p = update_cars payload.session_time payload.current_drivers p

  -- `if driverEntry != nil { driverEntry.SeatTimes[len-1].LeaveCarTime = sessionTime }`, then the
  -- entry is stored again.
  unfoldable pub mark_seat_time : String → T → CarProcessor T → Outcome (CarProcessor T)
  unfolding update_leave_if driver_entry_by_name lookup_name
  mark_seat_time car_num t p = do
    e ← deref (lookup car_num p.by_car_num)
    entry ← deref (lookup car_num p.car_occupancy_lookup)
    let driver = lookup_name e.car.car_idx p.current_drivers
    ds ← update_leave_if t (driver_entry_by_name entry.drivers driver) entry.drivers
    ok (record p {
      car_occupancy_lookup = insert car_num (record entry { drivers = ds }) p.car_occupancy_lookup;
    })
