-- ===== src/Car/Handling.antt =====
-- handleComputeState as a whole: on a valid, registered and seated car it returns, and the car is
-- valid again.
use iracelog_service_manager.Base.{
  ℕ, String, Option, none, some, ◌≡◌, refl, sym, subst, lookup, insert, string_key, All,
  lookup-insert_self, Outcome, ◌>>=◌, Returns, Returns-bind, Bool-cases, inl, inr, Float32, lt32,
}
use iracelog_service_manager.Car.Types.{
  CarState, init, run, pit, out, CarProcessor, CarComputeState, CarStint, CarPit, CarOccupancy,
  CarEntry, Car,
}
use iracelog_service_manager.Car.Valid.{HasSeat, IsSeated, CarIsValid}
use iracelog_service_manager.Car.Frame.{Frame, Frame-refl, Frame-stint, Frame-occupancy}
use iracelog_service_manager.Car.Seats.{Marked, mark_seat_time-Marked}
use iracelog_service_manager.Car.Handlers.{
  Handled, stint-Handled, pit-Handled, enter_pit-HasPit, enter_pit-PitHistory, run_switch-Handled,
}
use iracelog_service_manager.Car.PitSwitch.{pit_switch-Handled}
use iracelog_service_manager.Car.Drivers.{mark_seat_time}
use iracelog_service_manager.Car.Stints.{open_stint, advance_stint, advance_pitstop}
use iracelog_service_manager.Car.Machine.{
  handle_compute_state_init, handle_compute_state_run, handle_compute_state_pit,
  handle_compute_state_out, dispatch, handle_compute_state,
}

module _ {T : Type 0} ⦃F : Float32 T⦄ where
  -- What a handler finds of a car whose message it handles.
  pub record IsReady (n : String) (cs : CarComputeState T) (p : CarProcessor T) : Type 0 where
    pub valid : CarIsValid n cs (lookup n p.stint_lookup) (lookup n p.pit_lookup)
    pub registered : (e : CarEntry) × (lookup n p.by_car_num ≡ some e)
    pub seat :
        (o : CarOccupancy T) × (lookup n p.car_occupancy_lookup ≡ some o) × All HasSeat o.drivers

  -- The seat time is marked, and the rest of the handler goes on with a processor that differs from
  -- `p` in the occupancy of the car.
  marked-Handled :
      (n : String) (t : T) (p p₀ : CarProcessor T)
      (k : CarProcessor T → Outcome (CarProcessor T × CarComputeState T))
      → Frame n p₀ p
      → (e : CarEntry) × (lookup n p.by_car_num ≡ some e)
      → (o : CarOccupancy T) × (lookup n p.car_occupancy_lookup ≡ some o) × All HasSeat o.drivers
      → ((o : CarOccupancy T)
          → let q = record p { car_occupancy_lookup = insert n o p.car_occupancy_lookup } in
            Frame n p₀ q
            → IsSeated (lookup n q.car_occupancy_lookup)
            → Returns (Handled n p₀) (k q))
      → Returns (Handled n p₀) (mark_seat_time n t p >>= k)
  marked-Handled n t p p₀ k f (e, he) (o, ho, h) then_k =
      Returns-bind (Marked n p) (Handled n p₀) (mark_seat_time n t p) k
        (mark_seat_time-Marked n t p e o he ho h)
        (λ q (o', h', e').
          subst (λ q'. Returns (Handled n p₀) (k q')) (sym e')
            (then_k o' (Frame-occupancy n p₀ p o' f) (rw lookup-insert_self h')))

  module _ (cs : CarComputeState T) (lap : ℕ) (state : CarState) (t : T) (p : CarProcessor T) where
    handle_run-Handled :
        cs.car_state ≡ run
        → IsReady cs.car_num cs p
        → Returns (Handled cs.car_num p) (handle_compute_state_run cs lap state t p)
    unfolding handle_compute_state_run
    handle_run-Handled r h = go (lookup cs.car_num p.stint_lookup) refl
      where
        go :
            (o : Option (CarStint T))
            → lookup cs.car_num p.stint_lookup ≡ o
            → Returns (Handled cs.car_num p) (handle_compute_state_run cs lap state t p)
        go none e = absurd (rw (r, e) at h.valid.has_stint)
        go (some stint) e = rw e (
            marked-Handled cs.car_num t p p _ (Frame-refl cs.car_num p) h.registered h.seat
              (λ o f s.
                run_switch-Handled cs lap t
                  (record stint { current = advance_stint t lap stint.current }) p _
                  (unfold advance_stint in rw (r, e) at h.valid.has_stint)
                  (unfold advance_stint in (refl, refl)) (rw e at h.valid.stints_add_up)
                  h.valid.pits_add_up f s state r))

    handle_pit-Handled :
        cs.car_state ≡ pit
        → IsReady cs.car_num cs p
        → Returns (Handled cs.car_num p) (handle_compute_state_pit cs lap state t p)
    unfolding handle_compute_state_pit
    handle_pit-Handled r h =
        go (lookup cs.car_num p.stint_lookup) (lookup cs.car_num p.pit_lookup) refl refl
      where
        go :
            (o : Option (CarStint T)) (q : Option (CarPit T))
            → lookup cs.car_num p.stint_lookup ≡ o
            → lookup cs.car_num p.pit_lookup ≡ q
            → Returns (Handled cs.car_num p) (handle_compute_state_pit cs lap state t p)
        go none q e e' = absurd (rw (r, e) at h.valid.has_stint)
        go (some stint) none e e' = absurd (rw (r, e') at h.valid.has_pit)
        go (some stint) (some pits) e e' = rw e' (
            marked-Handled cs.car_num t p p _ (Frame-refl cs.car_num p) h.registered h.seat
              (λ o f s.
                pit_switch-Handled cs lap t
                  (record pits { current = advance_pitstop t lap pits.current }) p _ stint e
                  (rw (r, e) at h.valid.has_stint) (rw e at h.valid.stints_add_up)
                  (unfold advance_pitstop in rw (r, e') at h.valid.has_pit)
                  (unfold advance_pitstop in refl) (rw e' at h.valid.pits_add_up) f s state r))

    -- The rest of a valid car whose state the handler leaves alone.
    unchanged-Handled : IsReady cs.car_num cs p → Handled cs.car_num p (p, cs)
    unchanged-Handled h = record {
      frame = Frame-refl cs.car_num p;
      valid = h.valid;
      seated = rw h.seat.1 h.seat.2;
    }

  module _ (cs : CarComputeState T) (lap : ℕ) (t : T) (p : CarProcessor T) where
    handle_out_run-Handled :
        cs.car_state ≡ out
        → IsReady cs.car_num cs p
        → Returns (Handled cs.car_num p) (handle_compute_state_out cs lap run t p)
    unfolding handle_compute_state_out open_stint
    handle_out_run-Handled r h = go (lookup cs.car_num p.stint_lookup) refl
      where
        go :
            (o : Option (CarStint T))
            → lookup cs.car_num p.stint_lookup ≡ o
            → Returns (Handled cs.car_num p) (handle_compute_state_out cs lap run t p)
        go none e = absurd (rw (r, e) at h.valid.has_stint)
        go (some stint) e = rw e (
            stint-Handled cs.car_num _ _ p p refl refl (rw e at h.valid.stints_add_up) tt
              h.valid.pits_add_up (Frame-refl cs.car_num p) (rw h.seat.1 h.seat.2))

    handle_out_pit-Handled :
        cs.car_state ≡ out
        → IsReady cs.car_num cs p
        → Returns (Handled cs.car_num p) (handle_compute_state_out cs lap pit t p)
    unfolding handle_compute_state_out
    handle_out_pit-Handled r h =
        pit-Handled cs.car_num _ _ p p refl (rw r at h.valid.has_stint) h.valid.stints_add_up
          (enter_pit-HasPit cs.car_num t lap (lookup cs.car_num p.pit_lookup))
          (enter_pit-PitHistory cs.car_num t lap (lookup cs.car_num p.pit_lookup)
            h.valid.pits_add_up)
          (Frame-refl cs.car_num p) (rw h.seat.1 h.seat.2)

    handle_out-Handled :
        (state : CarState)
        → cs.car_state ≡ out
        → IsReady cs.car_num cs p
        → Returns (Handled cs.car_num p) (handle_compute_state_out cs lap state t p)
    unfolding handle_compute_state_out
    handle_out-Handled run r h = handle_out_run-Handled r h
    handle_out-Handled pit r h = handle_out_pit-Handled r h
    handle_out-Handled _ r h = unchanged-Handled cs lap out t p h

    handle_init-Handled :
        (state : CarState)
        → IsReady cs.car_num cs p
        → Returns (Handled cs.car_num p) (handle_compute_state_init cs lap state t p)
    unfolding handle_compute_state_init open_stint
    handle_init-Handled run h =
        marked-Handled cs.car_num t _ p _ (Frame-stint cs.car_num p p _ (Frame-refl cs.car_num p))
          h.registered h.seat
          (λ o f s. record {
            frame = f;
            valid = record {
              named = refl;
              has_stint = rw lookup-insert_self refl;
              stints_add_up = rw lookup-insert_self tt;
              has_pit = tt;
              pits_add_up = h.valid.pits_add_up;
            };
            seated = s;
          })
    handle_init-Handled _ h = unchanged-Handled cs lap out t p h

    dispatch-Handled :
        (from state : CarState)
        → cs.car_state ≡ from
        → IsReady cs.car_num cs p
        → Returns (Handled cs.car_num p) (dispatch from cs lap state t p)
    unfolding dispatch
    dispatch-Handled init state r h = handle_init-Handled state h
    dispatch-Handled run state r h = handle_run-Handled cs lap state t p r h
    dispatch-Handled pit state r h = handle_pit-Handled cs lap state t p r h
    dispatch-Handled out state r h = handle_out-Handled state r h
    dispatch-Handled _ state r h = unchanged-Handled cs lap out t p h

  -- The pointer that the handler leaves points to the car's new compute state.
  abbrev pub HandledPointer :
      String → CarProcessor T → CarProcessor T × Option (CarComputeState T) → Type 0
  HandledPointer n p (q, pointer) =
      (cs : CarComputeState T) × (pointer ≡ some cs) × Handled n p (q, cs)

  pub handle_compute_state-Handled :
      (n : String) (cs : CarComputeState T) (msg : Car T) (t : T) (p : CarProcessor T)
      → IsReady n cs p
      → Returns (HandledPointer n p) (handle_compute_state (some cs) msg t p)
  unfolding handle_compute_state
  handle_compute_state-Handled n cs msg t p h =
      subst
        (λ n'.
          IsReady n' cs p → Returns (HandledPointer n' p) (handle_compute_state (some cs) msg t p))
        h.valid.named
        (λ h'. elim (Bool-cases (lt32 msg.lap 1)) [
          | inl e ↦ rw e (cs, refl, unchanged-Handled cs msg.lap out t p h')
          | inr e ↦ rw e (
              Returns-bind (Handled cs.car_num p) (HandledPointer cs.car_num p)
                (dispatch cs.car_state cs msg.lap msg.state t p) _
                (dispatch-Handled cs msg.lap t p cs.car_state msg.state refl h')
                (λ r k. (r.1, refl, k)))
        ])
        h
