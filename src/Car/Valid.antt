-- ===== src/Car/Valid.antt =====
-- What holds of every car between two messages.
use iracelog_service_manager.Base.{
  ℕ, String, true, false, Option, none, some, List, [], ◌∷◌, ◌≡◌, lookup, nat_key, string_key,
  Float32, minus, add32, sub32, All,
}
use iracelog_service_manager.Car.Types.{
  CarState, run, pit, fin, out, CarProcessor, CarComputeState, CarStint, StintInfo, CarPit, PitInfo,
  CarOccupancy, Driver, CarEntry,
}

abbrev pub NonEmpty {ℓ} : {A : Type ℓ} → List A → Type 0
NonEmpty [] = ⊥
NonEmpty (x ∷ xs) = Unit

-- A driver has sat in the car at least once.
abbrev pub HasSeat : {T : Type 0} → Driver T → Type 0
HasSeat d = NonEmpty d.seat_times

abbrev pub IsSeated : {T : Type 0} → Option (CarOccupancy T) → Type 0
IsSeated none = ⊥
IsSeated (some o) = All HasSeat o.drivers

module _ {T : Type 0} ⦃F : Float32 T⦄ where
  -- The laps and the time of a stint are the differences of its ends.
  abbrev pub StintAddsUp : StintInfo T → Type 0
  StintAddsUp s =
      (s.num_laps ≡ add32 (sub32 s.lap_enter s.lap_exit) 1)
      × (s.stint_time ≡ minus s.enter_time s.exit_time)

  -- A finished pit stop is marked so, and its lane time is the difference of its ends.
  abbrev pub PitAddsUp : PitInfo T → Type 0
  PitAddsUp s = (s.is_current_pitstop ≡ false) × (s.lane_time ≡ minus s.exit_time s.enter_time)

  -- The stint that a car in a state has.
  abbrev pub HasStint : CarState → Option (CarStint T) → Type 0
  HasStint run none = ⊥
  HasStint run (some s) = s.current.is_current_stint ≡ true
  HasStint fin none = ⊥
  HasStint fin (some s) = (s.current.is_current_stint ≡ true) × StintAddsUp s.current
  HasStint pit none = ⊥
  HasStint pit (some s) = s.current.is_current_stint ≡ false
  HasStint out none = ⊥
  HasStint out (some s) = s.current.is_current_stint ≡ false
  HasStint _ _ = Unit

  abbrev pub StintHistory : Option (CarStint T) → Type 0
  StintHistory none = Unit
  StintHistory (some s) = All StintAddsUp s.history

  -- The pit stop that a car in a state has.
  abbrev pub HasPit : CarState → Option (CarPit T) → Type 0
  HasPit pit none = ⊥
  HasPit pit (some s) = s.current.is_current_pitstop ≡ true
  HasPit _ _ = Unit

  abbrev pub PitHistory : Option (CarPit T) → Type 0
  PitHistory none = Unit
  PitHistory (some s) = All PitAddsUp s.history

  -- One car: its compute state, its stints and its pit stops fit together.
  pub record CarIsValid (n : String) (cs : CarComputeState T) (stint : Option (CarStint T))
      (pits : Option (CarPit T)) : Type 0 where
    pub named : cs.car_num ≡ n
    pub has_stint : HasStint cs.car_state stint
    pub stints_add_up : StintHistory stint
    pub has_pit : HasPit cs.car_state pits
    pub pits_add_up : PitHistory pits

  -- All cars that the processor knows.
  pub record IsValid (p : CarProcessor T) : Type 0 where
    pub indexed :
        (i : ℕ) (n : String)
        → lookup i p.num_by_idx ≡ some n
        → (e : CarEntry) × (lookup i p.by_car_idx ≡ some e)
    pub numbered :
        (i : ℕ) (n : String)
        → lookup i p.num_by_idx ≡ some n
        → (e : CarEntry) × (lookup n p.by_car_num ≡ some e)
    pub computed :
        (i : ℕ) (n : String)
        → lookup i p.num_by_idx ≡ some n
        → (cs : CarComputeState T) × (lookup n p.compute_state ≡ some (some cs))
    pub cars :
        (n : String) (cs : CarComputeState T)
        → lookup n p.compute_state ≡ some (some cs)
        → CarIsValid n cs (lookup n p.stint_lookup) (lookup n p.pit_lookup)
    pub seated :
        (n : String) (o : CarOccupancy T)
        → lookup n p.car_occupancy_lookup ≡ some o
        → All HasSeat o.drivers
    pub stint_histories : (n : String) → StintHistory (lookup n p.stint_lookup)
    pub pit_histories : (n : String) → PitHistory (lookup n p.pit_lookup)
    pub non_nil :
        (n : String) (c : Option (CarComputeState T))
        → lookup n p.compute_state ≡ some c
        → (cs : CarComputeState T) × (c ≡ some cs)
