-- ===== src/Examples/Plans.antt =====
-- Tests of the stint plan.
use Prim.Native.Nat.{◌/◌}
use iracelog_service_manager.Base.{ℕ, ◌+◌, ◌-◌, true, false, none, some, ◌≡◌, refl, arith}
use iracelog_service_manager.Stints.Calc.{
  PredictParam, calc, reference_point, session_offset_of, race_started,
}
use iracelog_service_manager.Stints.Steps.{InRange}
use iracelog_service_manager.Stints.Finish.{Finishes}
use iracelog_service_manager.Stints.Whole.{calc-Finishes}
use iracelog_service_manager.Stints.Stuck.{calc-diverges}

-- The quotient of two durations in whole nanoseconds, rounded up.
abbrev divide_up : ℕ → ℕ → ℕ
divide_up d a = (d + a - 1) / a

-- An hour of racing, laps of 90 s, stints of 20 laps, pit stops of 60 s, the fifth lap of a stint.
abbrev sprint : PredictParam
sprint = record {
  duration = 3600000000000;
  lc = 4;
  session = some 900000000000;
  lps = 20;
  avg_laptime = 90000000000;
  overall = 60000000000;
  in_pit = false;
  stint_lap = 5;
  remain_lap_time = some 30000000000;
}

sprint-InRange : InRange divide_up sprint 900000000000
sprint-InRange = record {
  race_le = omega arith;
  offset_le = omega arith;
  overall_le = omega arith;
  lap_pos = omega arith;
  lap_le = omega arith;
  lps_pos = omega arith;
  lps_lt = omega arith;
  stint_le = omega arith;
  ceil_pos = λ d h k. omega arith;
  ceil_lt = λ d h k. omega arith;
  ceil_enough = λ d h k. omega arith;
  ceil_le = λ d h k. omega arith;
}

calc-Finishes_example :
    Finishes divide_up sprint 900000000000 930000000000 (calc divide_up 3600000000001 sprint)
unfolding reference_point session_offset_of race_started
calc-Finishes_example =
    calc-Finishes divide_up sprint 3600000000001 sprint-InRange (omega arith) (omega arith)
      (omega arith)

calc-diverges_example :
    calc divide_up 1000 (record sprint { in_pit = true; lps = 0; overall = 0 }) ≡ none
calc-diverges_example =
    calc-diverges divide_up (record sprint { in_pit = true; lps = 0; overall = 0 }) 1000 refl refl
      refl (omega arith) (omega arith)
