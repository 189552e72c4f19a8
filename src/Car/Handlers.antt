-- ===== src/Car/Handlers.antt =====
-- The handlers of car_processor.go never panic on a valid car, and leave it valid.
use iracelog_service_manager.Base.{
  ℕ, String, true, Option, none, some, ◌≡◌, refl, lookup, insert, string_key, All, All-append,
  lookup-insert_self, Returns, Bool-cases, inl, inr, Float32, zero_t, minus, exceeds, same,
}
use iracelog_service_manager.Car.Types.{
  CarState, init, run, pit, fin, out, other, CarProcessor, CarComputeState, CarStint, CarPit,
}
use iracelog_service_manager.Car.Valid.{
  IsSeated, StintAddsUp, PitAddsUp, HasStint, StintHistory, HasPit, PitHistory, CarIsValid,
}
use iracelog_service_manager.Car.Frame.{Frame, Frame-stint, Frame-pit}
use iracelog_service_manager.Car.Stints.{no_stint, enter_pit, open_pitstop}
use iracelog_service_manager.Car.Machine.{run_switch}

module _ {T : Type 0} ⦃F : Float32 T⦄ where
  -- The state of one car after a step from `p`: valid, with the rest of `p` left alone.
  pub record Handled (n : String) (p : CarProcessor T) (r : CarProcessor T × CarComputeState T)
      : Type 0 where
    pub frame : Frame n p r.0
    pub valid : CarIsValid n r.1 (lookup n r.0.stint_lookup) (lookup n r.0.pit_lookup)
    pub seated : IsSeated (lookup n r.0.car_occupancy_lookup)

  -- The car's stint entry is written; `cs` is its new compute state.
  pub stint-Handled :
      (n : String) (cs : CarComputeState T) (stint : CarStint T) (p q : CarProcessor T)
      → cs.car_num ≡ n
      → HasStint cs.car_state (some stint)
      → All StintAddsUp stint.history
      → HasPit cs.car_state (lookup n q.pit_lookup)
      → PitHistory (lookup n q.pit_lookup)
      → Frame n p q
      → IsSeated (lookup n q.car_occupancy_lookup)
      → Handled n p (record q { stint_lookup = insert n stint q.stint_lookup }, cs)
  stint-Handled n cs stint p q e c h hp ph f s = record {
    frame = Frame-stint n p q stint f;
    valid = record {
      named = e;
      has_stint = rw lookup-insert_self c;
      stints_add_up = rw lookup-insert_self h;
      has_pit = hp;
      pits_add_up = ph;
    };
    seated = s;
  }

  -- The car's pit entry is written.
  pub pit-Handled :
      (n : String) (cs : CarComputeState T) (pits : CarPit T) (p q : CarProcessor T)
      → cs.car_num ≡ n
      → HasStint cs.car_state (lookup n q.stint_lookup)
      → StintHistory (lookup n q.stint_lookup)
      → HasPit cs.car_state (some pits)
      → All PitAddsUp pits.history
      → Frame n p q
      → IsSeated (lookup n q.car_occupancy_lookup)
      → Handled n p (record q { pit_lookup = insert n pits q.pit_lookup }, cs)
  pit-Handled n cs pits p q e c h hp ph f s = record {
    frame = Frame-pit n p q pits f;
    valid = record {
      named = e;
      has_stint = c;
      stints_add_up = h;
      has_pit = rw lookup-insert_self hp;
      pits_add_up = rw lookup-insert_self ph;
    };
    seated = s;
  }

  -- A new pit stop is current, and the finished ones stay.
  pub enter_pit-HasPit :
      (n : String) (t : T) (lap : ℕ) (o : Option (CarPit T))
      → HasPit pit (some (enter_pit n t lap o))
  unfolding enter_pit open_pitstop
  enter_pit-HasPit n t lap none = refl
  enter_pit-HasPit n t lap (some pits) = refl

  pub enter_pit-PitHistory :
      (n : String) (t : T) (lap : ℕ) (o : Option (CarPit T))
      → PitHistory o
      → All PitAddsUp (enter_pit n t lap o).history
  unfolding enter_pit
  enter_pit-PitHistory n t lap none h = tt
  enter_pit-PitHistory n t lap (some pits) h = h

  module _ (cs : CarComputeState T) (lap : ℕ) (t : T) (stint : CarStint T) (p q : CarProcessor T)
      (c : stint.current.is_current_stint ≡ true) (a : StintAddsUp stint.current)
      (h : All StintAddsUp stint.history) (ph : PitHistory (lookup cs.car_num q.pit_lookup))
      (f : Frame cs.car_num p q) (s : IsSeated (lookup cs.car_num q.car_occupancy_lookup)) where
    -- The branches of the running car that keep it running.
    still_running :
        (cs' : CarComputeState T)
        → cs'.car_num ≡ cs.car_num
        → cs'.car_state ≡ run
        → Handled cs.car_num p
            (record q { stint_lookup = insert cs.car_num stint q.stint_lookup }, cs')
    still_running cs' e r = stint-Handled cs.car_num cs' stint p q e (rw r c) h (rw r tt) ph f s

    run_switch-out :
        cs.car_state ≡ run → Returns (Handled cs.car_num p) (run_switch cs lap out t stint q)
    unfolding run_switch no_stint
    run_switch-out r = elim (Bool-cases (same cs.out_encountered zero_t)) [
      | inl e ↦ rw e (still_running _ refl r)
      | inr e ↦ elim (Bool-cases (exceeds (minus t cs.out_encountered) F.sixty)) [
        | inl g ↦
            rw (e, g)
              (stint-Handled cs.car_num _ _ p q refl refl
                (All-append StintAddsUp stint.history _ h (a, tt)) tt ph f s)
        | inr g ↦ rw (e, g) (still_running cs refl r)
      ]
    ]

    -- A running car in any new state.
    pub run_switch-Handled :
        (state : CarState)
        → cs.car_state ≡ run
        → Returns (Handled cs.car_num p) (run_switch cs lap state t stint q)
    unfolding run_switch no_stint
    run_switch-Handled run r = still_running _ refl r
    run_switch-Handled fin r = stint-Handled cs.car_num _ stint p q refl (c, a) h tt ph f s
    run_switch-Handled out r = run_switch-out r
    run_switch-Handled pit r =
        stint-Handled cs.car_num _ _ p _ refl refl
          (All-append StintAddsUp stint.history _ h (a, tt))
          (rw lookup-insert_self
            (enter_pit-HasPit cs.car_num t lap (lookup cs.car_num q.pit_lookup)))
          (rw lookup-insert_self
            (enter_pit-PitHistory cs.car_num t lap (lookup cs.car_num q.pit_lookup) ph))
          (Frame-pit cs.car_num p q _ f) s
    run_switch-Handled init r = still_running cs refl r
    run_switch-Handled (other k) r = still_running cs refl r
