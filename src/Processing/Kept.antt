-- ===== src/Processing/Kept.antt =====
-- ProcessState and ProcessCarData: the invariants of both processors are kept together.
use iracelog_service_manager.Base.{
  true, false, some, List, [], ◌∷◌, ◌++◌, ◌≡◌, refl, sym, ◌∙◌, nat_key, All, ok, Bool-cases, inl,
  inr, Float32,
}
use iracelog_service_manager.Car.Types.{CarProcessor, Car, StateRequest, DriverDataRequest}
use iracelog_service_manager.Car.Messages.{IsKnown, Grows}
use iracelog_service_manager.Car.Totality.{process_state_payload-IsValid}
use iracelog_service_manager.Car.DriverChange.{
  IsRegistered, registered, process_car_payload-IsValid,
}
use iracelog_service_manager.Race.Types.{RaceProcessor}
use iracelog_service_manager.Race.Messages.{HasEntry, IsValid as RaceIsValid}
use iracelog_service_manager.Race.Totality.{
  check_valid_data_iff, process_state_payload-accepts, process_state_payload-rejects,
}
use iracelog_service_manager.Race.Payload.{
  check_valid_data, process_state_payload as race_state_payload,
}
use iracelog_service_manager.Processing.Compose.{compose_analysis_data}
use iracelog_service_manager.Processing.Steps.{
  Processor, analysis, racestate, replay, driver_data, send, process_state, process_car_data,
}
use iracelog_service_manager.Car.Valid.{IsValid as CarsAreValid}

module _ {T : Type 0} ⦃F : Float32 T⦄ where
  HasEntry-known :
      (cp : CarProcessor T) (cs : List (Car T))
      → CarsAreValid cp
      → All (IsKnown cp) cs
      → All (HasEntry cp) cs
  HasEntry-known cp [] v h = tt
  HasEntry-known cp (c ∷ cs) v ((n, e), h) = (v.indexed c.car_idx n e, HasEntry-known cp cs v h)

  IsKnown-later :
      (cp cq : CarProcessor T) (cs : List (Car T))
      → Grows cp cq
      → All (IsKnown cp) cs
      → All (IsKnown cq) cs
  IsKnown-later cp cq [] g h = tt
  IsKnown-later cp cq (c ∷ cs) g ((n, e), h) = ((n, rw g.nums e), IsKnown-later cp cq cs g h)

  -- Accepted or rejected, the message leaves the race processor valid.
  race_step :
      (cp : CarProcessor T) (payload : StateRequest T) (r : RaceProcessor T)
      → CarsAreValid cp
      → RaceIsValid r
      → All (IsKnown cp) payload.cars
      → (q : RaceProcessor T) × (race_state_payload cp payload r ≡ ok q) × RaceIsValid q
  race_step cp payload r v w h = elim (Bool-cases (check_valid_data cp payload.cars)) [
    | inl e ↦
        let (q, f, w', _) =
          process_state_payload-accepts cp payload r w (HasEntry-known cp payload.cars v h)
            ((check_valid_data_iff cp payload.cars).0 e) in
        (q, f, w')
    | inr e ↦ (
      r,
      process_state_payload-rejects cp payload r
          (λ a. clash (sym ((check_valid_data_iff cp payload.cars).1 a) ∙ e)),
      w,
    )
  ]
    where
      clash : true ≡ false → ⊥
      clash e = absurd cc

  -- From valid processors a state message about cars that the driver data has named is processed
  -- without a panic, accepted by the race processor or not: both processors are valid again, the
  -- session is kept, and what is sent on the channels that are set is the analysis of the new state,
  -- the message and the new replay info, in this order.
  pub process_state-Kept :
      (payload : StateRequest T) (p : Processor T)
      → CarsAreValid p.cars
      → RaceIsValid p.race
      → All (IsKnown p.cars) payload.cars
      → (q : Processor T) × (process_state payload p
          ≡ ok (
            q,
            send p.channels.analysis_chan (analysis (compose_analysis_data q.cars q.race))
                ++ send p.channels.racestate_chan (racestate payload)
                ++ send p.channels.replay_info_chan (replay q.race.replay_info),
          ))
        × CarsAreValid q.cars
        × RaceIsValid q.race
        × (q.last_session_data ≡ some payload.session)
  unfolding process_state
  process_state-Kept payload p v w h =
      let (cars, e, v', g) = process_state_payload-IsValid payload p.cars v h in
      let (race, f, w') =
        race_step cars payload p.race v' w (IsKnown-later p.cars cars payload.cars g h) in
      let q : Processor T = record p {
        cars = cars;
        race = race;
        last_session_data = some payload.session;
      } in
      (q, rw (e, f) refl, v', w', refl)

  -- From a valid car processor driver data that names every driven car is processed without a
  -- panic: the car processor is valid again, the race processor is untouched, and what is sent is
  -- the message, then the analysis of the new state.
  pub process_car_data-Kept :
      (payload : DriverDataRequest T) (p : Processor T)
      → CarsAreValid p.cars
      → All (IsRegistered (registered payload p.cars)) payload.current_drivers
      → (q : Processor T) × (process_car_data payload p
          ≡ ok (
            q,
            send p.channels.driver_data_chan (driver_data payload)
                ++ send p.channels.analysis_chan (analysis (compose_analysis_data q.cars q.race)),
          ))
        × CarsAreValid q.cars
        × (q.race ≡ p.race)
  unfolding process_car_data
  process_car_data-Kept payload p v h =
      let (cars, e, v', _) = process_car_payload-IsValid payload p.cars v h in
      let q : Processor T = record p { cars = cars } in (q, rw e refl, v', refl)
