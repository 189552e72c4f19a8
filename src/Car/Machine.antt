-- ===== src/Car/Machine.antt =====
-- car_processor.go: handleComputeState and its four handlers. A handler returns the processor and
-- the compute state that the source mutates through its pointer.
use iracelog_service_manager.Base.{
  ℕ, false, Option, some, [], ◌∷◌, ◌++◌, lookup, insert, if◌then◌else◌, string_key, Outcome, ok,
  deref, ◌>>=◌, Float32, zero_t, minus, exceeds, same, lt32,
}
use iracelog_service_manager.Car.Types.{
  CarState, init, run, pit, fin, out, CarProcessor, CarComputeState, CarStint, CarPit, Car,
}
use iracelog_service_manager.Car.Drivers.{mark_seat_time}
use iracelog_service_manager.Car.Stints.{
  open_stint, no_stint, advance_stint, advance_pitstop, no_pitstop, enter_pit,
}

abbrev pub HandlerResult : Type 0 → Type 0
HandlerResult T = Outcome (CarProcessor T × CarComputeState T)

module _ {T : Type 0} ⦃F : Float32 T⦄ where
  -- handleComputeStateInit
  unfoldable pub handle_compute_state_init :
      CarComputeState T → ℕ → CarState → T → CarProcessor T → HandlerResult T
  handle_compute_state_init cs lap run t p = do
    let stints : CarStint T = record {
      car_num = cs.car_num;
      current = open_stint t lap;
      history = [];
    }
    p' ←
        mark_seat_time cs.car_num t
          (record p { stint_lookup = insert cs.car_num stints p.stint_lookup })
    ok (p', record cs { car_state = run })
  handle_compute_state_init cs lap _ t p = ok (p, cs)

  -- The `switch` of handleComputeStateRun, after the common writes.
  unfoldable pub run_switch :
      CarComputeState T → ℕ → CarState → T → CarStint T → CarProcessor T → HandlerResult T
  run_switch cs lap run t stint p = ok (
    record p { stint_lookup = insert cs.car_num stint p.stint_lookup },
    record cs { out_encountered = zero_t },
  )
  run_switch cs lap fin t stint p = ok (
    record p { stint_lookup = insert cs.car_num stint p.stint_lookup },
    record cs { car_state = fin },
  )
  run_switch cs lap out t stint p =
      if same cs.out_encountered zero_t
      then ok (
        record p { stint_lookup = insert cs.car_num stint p.stint_lookup },
        record cs { out_encountered = t },
      )
      else if exceeds (minus t cs.out_encountered) F.sixty
      then ok (
        record p {
          stint_lookup =
              insert cs.car_num
                (record stint { history = stint.history ++ stint.current ∷ []; current = no_stint })
                p.stint_lookup;
        },
        record cs { car_state = out },
      )
      else ok (record p { stint_lookup = insert cs.car_num stint p.stint_lookup }, cs)
  run_switch cs lap pit t stint p = ok (
    record p {
      pit_lookup =
          insert cs.car_num (enter_pit cs.car_num t lap (lookup cs.car_num p.pit_lookup))
            p.pit_lookup;
      stint_lookup =
          insert cs.car_num
            (record stint {
              history = stint.history ++ record stint.current { is_current_stint = false } ∷ [];
              current = no_stint;
            })
            p.stint_lookup;
    },
    record cs { out_encountered = zero_t; car_state = pit },
  )
  run_switch cs lap _ t stint p =
      ok (record p { stint_lookup = insert cs.car_num stint p.stint_lookup }, cs)

  -- handleComputeStateRun
  unfoldable pub handle_compute_state_run :
      CarComputeState T → ℕ → CarState → T → CarProcessor T → HandlerResult T
  unfolding run_switch
  handle_compute_state_run cs lap state t p = do
    stint ← deref (lookup cs.car_num p.stint_lookup)
    p' ← mark_seat_time cs.car_num t p
    run_switch cs lap state t (record stint { current = advance_stint t lap stint.current }) p'

  -- The `switch` of handleComputeStatePit, after the common writes.
  unfoldable pub pit_switch :
      CarComputeState T → ℕ → CarState → T → CarPit T → CarProcessor T → HandlerResult T
  pit_switch cs lap run t pits p = deref (lookup cs.car_num p.stint_lookup) >>= λ stints. ok (
    record p {
      pit_lookup =
          insert cs.car_num
            (record pits {
              history = pits.history ++ record pits.current { is_current_pitstop = false } ∷ [];
              current = no_pitstop;
            })
            p.pit_lookup;
      stint_lookup =
          insert cs.car_num (record stints { current = open_stint t lap }) p.stint_lookup;
    },
    record cs { out_encountered = zero_t; car_state = run },
  )
  pit_switch cs lap out t pits p =
      if same cs.out_encountered zero_t
      then ok (
        record p { pit_lookup = insert cs.car_num pits p.pit_lookup },
        record cs { out_encountered = t },
      )
      else if exceeds (minus t cs.out_encountered) F.sixty
      then ok (
        record p { pit_lookup = insert cs.car_num pits p.pit_lookup },
        record cs { car_state = out },
      )
      else ok (record p { pit_lookup = insert cs.car_num pits p.pit_lookup }, cs)
  pit_switch cs lap pit t pits p = ok (
    record p { pit_lookup = insert cs.car_num pits p.pit_lookup },
    record cs { out_encountered = zero_t },
  )
  pit_switch cs lap _ t pits p =
      ok (record p { pit_lookup = insert cs.car_num pits p.pit_lookup }, cs)

  -- handleComputeStatePit
  unfoldable pub handle_compute_state_pit :
      CarComputeState T → ℕ → CarState → T → CarProcessor T → HandlerResult T
  unfolding pit_switch
  handle_compute_state_pit cs lap state t p = do
    pits ← deref (lookup cs.car_num p.pit_lookup)
    p' ← mark_seat_time cs.car_num t p
    pit_switch cs lap state t (record pits { current = advance_pitstop t lap pits.current }) p'

  -- handleComputeStateOut
  unfoldable pub handle_compute_state_out :
      CarComputeState T → ℕ → CarState → T → CarProcessor T → HandlerResult T
  handle_compute_state_out cs lap run t p = deref (lookup cs.car_num p.stint_lookup) >>= λ stints.
      ok (
        record p {
          stint_lookup =
              insert cs.car_num (record stints { current = open_stint t lap }) p.stint_lookup;
        },
        record cs { car_state = run },
      )
  handle_compute_state_out cs lap pit t p = ok (
    record p {
      pit_lookup =
          insert cs.car_num (enter_pit cs.car_num t lap (lookup cs.car_num p.pit_lookup))
            p.pit_lookup;
    },
    record cs { car_state = pit },
  )
  handle_compute_state_out cs lap _ t p = ok (p, cs)

  -- The `switch` of handleComputeState on the state that the car was in.
  unfoldable pub dispatch :
      CarState → CarComputeState T → ℕ → CarState → T → CarProcessor T → HandlerResult T
  unfolding handle_compute_state_init handle_compute_state_run handle_compute_state_pit
      handle_compute_state_out
  dispatch init cs lap state t p = handle_compute_state_init cs lap state t p
  dispatch run cs lap state t p = handle_compute_state_run cs lap state t p
  dispatch pit cs lap state t p = handle_compute_state_pit cs lap state t p
  dispatch out cs lap state t p = handle_compute_state_out cs lap state t p
  dispatch _ cs lap state t p = ok (p, cs)

  -- handleComputeState: cars that have not reached lap 1 are left alone, a nil pointer included.
  unfoldable pub handle_compute_state :
      Option (CarComputeState T)
      → Car T
      → T
      → CarProcessor T
      → Outcome (CarProcessor T × Option (CarComputeState T))
  unfolding dispatch
  handle_compute_state pointer msg t p =
      if lt32 msg.lap 1
      then ok (p, pointer)
      else deref pointer >>= λ cs.
          dispatch cs.car_state cs msg.lap msg.state t p >>= λ (p', cs'). ok (p', some cs')
