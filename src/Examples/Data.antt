-- ===== src/Examples/Data.antt =====
-- The messages and states that the tests run on; session times are whole milliseconds.
use iracelog_service_manager.Base.{
  ℕ, ◌-◌, String, true, false, none, some, List, [], ◌∷◌, ltb, nat_beq, Float32,
}
use iracelog_service_manager.Car.Types.{
  CarState, init, run, CarEntry, CarClass, DriverDataRequest, Car, Message, StateRequest,
  CarOccupancy, CarStint, CarComputeState, CarProcessor,
}
use iracelog_service_manager.Race.Types.{RaceProcessor}

instance abbrev pub millis : Float32 ℕ
millis = record { zero_f = 0; sub_f = ◌-◌; gt_f = λ a b. ltb b a; eq_f = nat_beq; sixty = 60000 }

abbrev pub entry : ℕ → String → ℕ → CarEntry
entry i n cl = record {
  car = record { car_idx = i; car_number = n; car_class_id = cl };
  team_name = "team";
}

abbrev pub gt3 : CarClass
gt3 = record { id = 2; name = "GT3" }

abbrev pub prototype : CarClass
prototype = record { id = 1; name = "GTP" }

abbrev pub car_at : ℕ → CarState → ℕ → ℕ → ℕ → Car ℕ
car_at i s lc pos pic = record {
  car_idx = i;
  state = s;
  lap = 1;
  lc = lc;
  pos = pos;
  pic = pic;
  gap = 0;
  last = 91000;
  time_info = none;
}

abbrev pub start_marker : Message
start_marker = record { msg = "Race start"; is_timing = true; is_race_control = true }

abbrev pub state_request : ℕ → List (Car ℕ) → List Message → StateRequest ℕ
state_request t cars messages = record {
  session = record {
    session_num = 0;
    session_time = t;
    time_of_day = 0;
    air_temp = 25;
    track_temp = 30;
    track_wetness = 1;
    precipitation = 0;
  };
  cars = cars;
  messages = messages;
  timestamp = t;
}

-- The processor before any message, when Ann drives the car with index 3.
abbrev pub empty_cars : CarProcessor ℕ
empty_cars = record {
  by_car_idx = [];
  by_car_num = [];
  compute_state = [];
  stint_lookup = [];
  pit_lookup = [];
  car_occupancy_lookup = [];
  num_by_idx = [];
  current_drivers = (3, "Ann") ∷ [];
  car_classes = gt3 ∷ prototype ∷ [];
  race_sessions = 0 ∷ [];
}

abbrev pub idle : String → CarComputeState ℕ
idle n = record { car_num = n; car_state = init; out_encountered = 0 }

-- The processor when two cars are registered.
abbrev pub garage : CarProcessor ℕ
garage = record empty_cars {
  by_car_idx = (1, entry 1 "7" 1) ∷ (3, entry 3 "12" 2) ∷ [];
  by_car_num = ("7", entry 1 "7" 1) ∷ ("12", entry 3 "12" 2) ∷ [];
  compute_state = ("7", some (idle "7")) ∷ ("12", some (idle "12")) ∷ [];
  num_by_idx = (1, "7") ∷ (3, "12") ∷ [];
}

abbrev pub driver_data : DriverDataRequest ℕ
driver_data = record {
  timestamp = 7000;
  entries = entry 1 "7" 1 ∷ entry 3 "12" 2 ∷ [];
  car_classes = gt3 ∷ prototype ∷ [];
  session_num = 0;
  session_time = 5000;
  current_drivers = (1, "Eve") ∷ (3, "Bob") ∷ [];
}

abbrev pub occupied : CarOccupancy ℕ
occupied = record {
  car_num = "12";
  name = "team";
  current_driver_name = "Ann";
  drivers =
      record { name = "Ann"; seat_times = record { enter_car_time = 0; leave_car_time = 0 } ∷ [] }
      ∷ [];
}

abbrev pub running_stint : CarStint ℕ
running_stint = record {
  car_num = "12";
  current = record {
    exit_time = 1000;
    enter_time = 0;
    lap_exit = 1;
    lap_enter = 0;
    num_laps = 0;
    stint_time = 0;
    is_current_stint = true;
  };
  history = [];
}

abbrev pub running : CarComputeState ℕ
running = record { car_num = "12"; car_state = run; out_encountered = 0 }

-- Car 12 drives its first stint.
abbrev pub racing : CarProcessor ℕ
racing = record garage {
  compute_state = ("7", some (idle "7")) ∷ ("12", some running) ∷ [];
  stint_lookup = ("12", running_stint) ∷ [];
  car_occupancy_lookup = ("12", occupied) ∷ [];
}

abbrev pub empty_race : RaceProcessor ℕ
empty_race = record {
  race_order = [];
  car_laps = [];
  race_graph = [];
  replay_info = record { min_timestamp = none; min_session_time = 0; max_session_time = 0 };
  race_sessions = 0 ∷ [];
  race_start_marker_found = false;
  time_infos = [];
}
