-- ===== src/Car/PitSwitch.antt =====
-- The switch of handleComputeStatePit keeps a car valid.
use iracelog_service_manager.Base.{
  ℕ, true, false, some, ◌≡◌, refl, lookup, insert, string_key, All, All-append, lookup-insert_self,
  Returns, Bool-cases, inl, inr, Float32, zero_t, minus, exceeds, same,
}
use iracelog_service_manager.Car.Types.{
  CarState, init, run, pit, fin, out, other, CarProcessor, CarComputeState, CarStint, CarPit,
}
use iracelog_service_manager.Car.Valid.{IsSeated, StintAddsUp, PitAddsUp}
use iracelog_service_manager.Car.Frame.{Frame, Frame-pit}
use iracelog_service_manager.Car.Handlers.{Handled, stint-Handled, pit-Handled}
use iracelog_service_manager.Car.Stints.{open_stint, no_pitstop}
use iracelog_service_manager.Car.Machine.{pit_switch}

module _ {T : Type 0} ⦃F : Float32 T⦄ where
  module _ (cs : CarComputeState T) (lap : ℕ) (t : T) (pits : CarPit T) (p q : CarProcessor T)
      (stint : CarStint T) (here : lookup cs.car_num q.stint_lookup ≡ some stint)
      (closed : stint.current.is_current_stint ≡ false) (h : All StintAddsUp stint.history)
      (c : pits.current.is_current_pitstop ≡ true)
      (lane : pits.current.lane_time ≡ minus pits.current.exit_time pits.current.enter_time)
      (ph : All PitAddsUp pits.history) (f : Frame cs.car_num p q)
      (s : IsSeated (lookup cs.car_num q.car_occupancy_lookup)) where
    still_in_pit :
        (cs' : CarComputeState T)
        → cs'.car_num ≡ cs.car_num
        → cs'.car_state ≡ pit
        → Handled cs.car_num p (record q { pit_lookup = insert cs.car_num pits q.pit_lookup }, cs')
    still_in_pit cs' e r =
        pit-Handled cs.car_num cs' pits p q e (rw (r, here) closed) (rw here h) (rw r c) ph f s

    pit_switch-out :
        cs.car_state ≡ pit → Returns (Handled cs.car_num p) (pit_switch cs lap out t pits q)
    unfolding pit_switch
    pit_switch-out r = elim (Bool-cases (same cs.out_encountered zero_t)) [
      | inl e ↦ rw e (still_in_pit _ refl r)
      | inr e ↦ elim (Bool-cases (exceeds (minus t cs.out_encountered) F.sixty)) [
        | inl g ↦
            rw (e, g)
              (pit-Handled cs.car_num _ pits p q refl (rw here closed) (rw here h) tt ph f s)
        | inr g ↦ rw (e, g) (still_in_pit cs refl r)
      ]
    ]

    -- A car in the pits in any new state.
    pub pit_switch-Handled :
        (state : CarState)
        → cs.car_state ≡ pit
        → Returns (Handled cs.car_num p) (pit_switch cs lap state t pits q)
    unfolding pit_switch no_pitstop open_stint
    pit_switch-Handled run r = rw here (
        stint-Handled cs.car_num _ _ p _ refl refl h tt
          (rw lookup-insert_self (All-append PitAddsUp pits.history _ ph ((refl, lane), tt)))
          (Frame-pit cs.car_num p q _ f) s)
    pit_switch-Handled out r = pit_switch-out r
    pit_switch-Handled pit r = still_in_pit _ refl r
    pit_switch-Handled fin r = still_in_pit cs refl r
    pit_switch-Handled init r = still_in_pit cs refl r
    pit_switch-Handled (other k) r = still_in_pit cs refl r
