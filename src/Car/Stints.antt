-- ===== src/Car/Stints.antt =====
-- car_processor.go: the literals and writes that open, advance and close stints and pit stops.
use iracelog_service_manager.Base.{
  ℕ, String, true, false, Option, none, some, [], Float32, zero_t, minus, add32, sub32,
}
use iracelog_service_manager.Car.Types.{StintInfo, CarPit, PitInfo}

module _ {T : Type 0} ⦃F : Float32 T⦄ where
  -- `&analysisv1.StintInfo{ExitTime, LapExit, IsCurrentStint: true}`
  unfoldable pub open_stint : T → ℕ → StintInfo T
  open_stint t lap = record {
    exit_time = t;
    enter_time = zero_t;
    lap_exit = lap;
    lap_enter = 0;
    num_laps = 0;
    stint_time = zero_t;
    is_current_stint = true;
  }

  -- `&analysisv1.StintInfo{IsCurrentStint: false}`
  unfoldable pub no_stint : StintInfo T
  no_stint = record {
    exit_time = zero_t;
    enter_time = zero_t;
    lap_exit = 0;
    lap_enter = 0;
    num_laps = 0;
    stint_time = zero_t;
    is_current_stint = false;
  }

  unfoldable pub open_pitstop : T → ℕ → PitInfo T
  open_pitstop t lap = record {
    enter_time = t;
    exit_time = zero_t;
    lap_enter = lap;
    lap_exit = 0;
    lane_time = zero_t;
    is_current_pitstop = true;
  }

  unfoldable pub no_pitstop : PitInfo T
  no_pitstop = record {
    enter_time = zero_t;
    exit_time = zero_t;
    lap_enter = 0;
    lap_exit = 0;
    lane_time = zero_t;
    is_current_pitstop = false;
  }

  -- The values that are "precomputed" while a stint runs.
  unfoldable pub advance_stint : T → ℕ → StintInfo T → StintInfo T
  advance_stint t lap s = record s {
    enter_time = t;
    lap_enter = lap;
    num_laps = add32 (sub32 lap s.lap_exit) 1;
    stint_time = minus t s.exit_time;
  }

  unfoldable pub advance_pitstop : T → ℕ → PitInfo T → PitInfo T
  advance_pitstop t lap s = record s {
    exit_time = t;
    lap_exit = lap;
    lane_time = minus t s.enter_time;
  }

  -- The entry of `p.PitLookup[carNum]` with a new current pit stop.
  unfoldable pub enter_pit : String → T → ℕ → Option (CarPit T) → CarPit T
  enter_pit car_num t lap none = record {
    car_num = car_num;
    current = open_pitstop t lap;
    history = [];
  }
  enter_pit car_num t lap (some pits) = record pits { current = open_pitstop t lap }
