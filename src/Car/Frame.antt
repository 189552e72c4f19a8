-- ===== src/Car/Frame.antt =====
-- What handling one car leaves alone: every map that it does not write, and all other cars.
use iracelog_service_manager.Base.{
  String, false, ◌≡◌, refl, ◌∙◌, lookup, insert, ◌==◌, string_key, lookup-insert_ne,
}
use iracelog_service_manager.Car.Types.{CarProcessor, CarOccupancy, CarStint, CarPit}

module _ {T : Type 0} where
  -- The maps that come from the driver data, and the compute states.
  abbrev pub SameCars : CarProcessor T → CarProcessor T → Type 0
  SameCars p q =
      (q.by_car_idx ≡ p.by_car_idx)
      × (q.by_car_num ≡ p.by_car_num)
      × (q.num_by_idx ≡ p.num_by_idx)
      × (q.compute_state ≡ p.compute_state)
      × (q.current_drivers ≡ p.current_drivers)

  pub record Frame (n : String) (p q : CarProcessor T) : Type 0 where
    pub same : SameCars p q
    pub stints : (m : String) → (n == m) ≡ false → lookup m q.stint_lookup ≡ lookup m p.stint_lookup
    pub pits : (m : String) → (n == m) ≡ false → lookup m q.pit_lookup ≡ lookup m p.pit_lookup
    pub occupancies :
        (m : String)
        → (n == m) ≡ false
        → lookup m q.car_occupancy_lookup ≡ lookup m p.car_occupancy_lookup

  pub Frame-refl : (n : String) (p : CarProcessor T) → Frame n p p
  Frame-refl n p = record {
    same = (refl, refl, refl, refl, refl);
    stints = λ m h. refl;
    pits = λ m h. refl;
    occupancies = λ m h. refl;
  }

  -- Writes of a car's own entries.
  pub Frame-stint :
      (n : String) (p q : CarProcessor T) (s : CarStint T)
      → Frame n p q
      → Frame n p (record q { stint_lookup = insert n s q.stint_lookup })
  Frame-stint n p q s f = record {
    same = f.same;
    stints = λ m h. lookup-insert_ne n m s q.stint_lookup h ∙ f.stints m h;
    pits = f.pits;
    occupancies = f.occupancies;
  }

  pub Frame-pit :
      (n : String) (p q : CarProcessor T) (s : CarPit T)
      → Frame n p q
      → Frame n p (record q { pit_lookup = insert n s q.pit_lookup })
  Frame-pit n p q s f = record {
    same = f.same;
    stints = f.stints;
    pits = λ m h. lookup-insert_ne n m s q.pit_lookup h ∙ f.pits m h;
    occupancies = f.occupancies;
  }

  pub Frame-occupancy :
      (n : String) (p q : CarProcessor T) (o : CarOccupancy T)
      → Frame n p q
      → Frame n p (record q { car_occupancy_lookup = insert n o q.car_occupancy_lookup })
  Frame-occupancy n p q o f = record {
    same = f.same;
    stints = f.stints;
    pits = f.pits;
    occupancies = λ m h. lookup-insert_ne n m o q.car_occupancy_lookup h ∙ f.occupancies m h;
  }
