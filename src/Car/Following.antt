-- ===== src/Car/Following.antt =====
-- handleComputeState follows the state diagram of a car.
use iracelog_service_manager.Base.{
  ℕ, Option, none, some, ◌≡◌, refl, sym, subst, lookup, insert, string_key, length,
  lookup-insert_self, Outcome, ok, ◌>>=◌, Returns, Returns-bind, Returns-eq, All, Bool-cases, inl,
  inr, Float32, zero_t, minus, exceeds, same, lt32,
}
use iracelog_service_manager.Car.Types.{
  CarState, init, run, pit, fin, out, other, CarProcessor, CarComputeState, CarStint, CarPit,
  CarOccupancy, CarEntry, Car,
}
use iracelog_service_manager.Car.Valid.{HasSeat}
use iracelog_service_manager.Car.Seats.{Marked, mark_seat_time-Marked}
use iracelog_service_manager.Car.Handling.{IsReady}
use iracelog_service_manager.Car.Drivers.{mark_seat_time}
use iracelog_service_manager.Car.Machine.{
  pit_switch, handle_compute_state_init, handle_compute_state_run, handle_compute_state_pit,
  handle_compute_state_out, dispatch, handle_compute_state,
}
use iracelog_service_manager.Car.Diagram.{
  CarStep, start, leave_pits, abandon_pits, resume, tow, stint_count, pit_count, length-snoc,
  enter_pit-history, Follows, run_switch-Follows,
}

module _ {T : Type 0} ⦃F : Float32 T⦄ where
  pit_switch-Follows :
      (cs : CarComputeState T) (lap : ℕ) (state : CarState) (t : T) (pits : CarPit T)
      (p : CarProcessor T) (stint : CarStint T)
      → cs.car_state ≡ pit
      → pit_count (lookup cs.car_num p.pit_lookup) ≡ length pits.history
      → lookup cs.car_num p.stint_lookup ≡ some stint
      → Returns (Follows cs.car_num pit p) (pit_switch cs lap state t pits p)
  unfolding pit_switch
  pit_switch-Follows cs lap run t pits p stint r e h = rw h (
      rw
        (
          lookup-insert_self cs.car_num _ p.stint_lookup,
          lookup-insert_self cs.car_num _ p.pit_lookup,
          h,
          length-snoc,
          e,
        )
        leave_pits)
  pit_switch-Follows cs lap out t pits p stint r e h =
      elim (Bool-cases (same cs.out_encountered zero_t)) [
        | inl f ↦ rw f (rw (lookup-insert_self, r, e) CarStep.stay)
        | inr f ↦ elim (Bool-cases (exceeds (minus t cs.out_encountered) F.sixty)) [
          | inl g ↦ rw (f, g) (rw (lookup-insert_self, e) abandon_pits)
          | inr g ↦ rw (f, g) (rw (lookup-insert_self, r, e) CarStep.stay)
        ]
      ]
  pit_switch-Follows cs lap pit t pits p stint r e h = rw (lookup-insert_self, r, e) CarStep.stay
  pit_switch-Follows cs lap fin t pits p stint r e h = rw (lookup-insert_self, r, e) CarStep.stay
  pit_switch-Follows cs lap init t pits p stint r e h = rw (lookup-insert_self, r, e) CarStep.stay
  pit_switch-Follows cs lap (other k) t pits p stint r e h =
      rw (lookup-insert_self, r, e) CarStep.stay

  module _ (cs : CarComputeState T) (lap : ℕ) (t : T) (p : CarProcessor T)
      (h : IsReady cs.car_num cs p) where
    -- The rest of a handler sees the same stints and pit stops.
    marked-Follows :
        (s : CarState) (p₀ : CarProcessor T)
        (k : CarProcessor T → Outcome (CarProcessor T × CarComputeState T))
        → (e : CarEntry) × (lookup cs.car_num p₀.by_car_num ≡ some e)
        → (o : CarOccupancy T) × (lookup cs.car_num p₀.car_occupancy_lookup ≡ some o)
          × All HasSeat o.drivers
        → ((o : CarOccupancy T)
            → Returns (Follows cs.car_num s p) (
                k (record p₀ {
                  car_occupancy_lookup = insert cs.car_num o p₀.car_occupancy_lookup;
                })))
        → Returns (Follows cs.car_num s p) (mark_seat_time cs.car_num t p₀ >>= k)
    marked-Follows s p₀ k (e, he) (o, ho, hs) then_k =
        Returns-bind (Marked cs.car_num p₀) (Follows cs.car_num s p) _ k
          (mark_seat_time-Marked cs.car_num t p₀ e o he ho hs)
          (λ q (o', _, e').
            subst (λ q'. Returns (Follows cs.car_num s p) (k q')) (sym e') (then_k o'))

    stay_put : Follows cs.car_num cs.car_state p (p, cs)
    stay_put = CarStep.stay

    init-Follows :
        (state : CarState)
        → cs.car_state ≡ init
        → Returns (Follows cs.car_num init p) (handle_compute_state_init cs lap state t p)
    unfolding handle_compute_state_init
    init-Follows run r =
        marked-Follows init _ _ h.registered h.seat (λ o. rw lookup-insert_self start)
    init-Follows _ r = rw r CarStep.stay

    run-Follows :
        (state : CarState)
        → cs.car_state ≡ run
        → Returns (Follows cs.car_num run p) (handle_compute_state_run cs lap state t p)
    unfolding handle_compute_state_run
    run-Follows state r = go (lookup cs.car_num p.stint_lookup) refl
      where
        go :
            (o : Option (CarStint T))
            → lookup cs.car_num p.stint_lookup ≡ o
            → Returns (Follows cs.car_num run p) (handle_compute_state_run cs lap state t p)
        go none e = absurd (rw (r, e) at h.valid.has_stint)
        go (some stint) e =
            rw (e, handle_compute_state_run)
              (marked-Follows run p _ h.registered h.seat
                (λ o. run_switch-Follows cs lap state t _ _ r (rw e refl)))

    pit-Follows :
        (state : CarState)
        → cs.car_state ≡ pit
        → Returns (Follows cs.car_num pit p) (handle_compute_state_pit cs lap state t p)
    unfolding handle_compute_state_pit
    pit-Follows state r =
        go (lookup cs.car_num p.stint_lookup) (lookup cs.car_num p.pit_lookup) refl refl
      where
        go :
            (o : Option (CarStint T)) (q : Option (CarPit T))
            → lookup cs.car_num p.stint_lookup ≡ o
            → lookup cs.car_num p.pit_lookup ≡ q
            → Returns (Follows cs.car_num pit p) (handle_compute_state_pit cs lap state t p)
        go none q e e' = absurd (rw (r, e) at h.valid.has_stint)
        go (some stint) none e e' = absurd (rw (r, e') at h.valid.has_pit)
        go (some stint) (some pits) e e' =
            rw (e', handle_compute_state_pit)
              (marked-Follows pit p _ h.registered h.seat
                (λ o. pit_switch-Follows cs lap state t _ _ stint r (rw e' refl) e))

    out-Follows :
        (state : CarState)
        → cs.car_state ≡ out
        → Returns (Follows cs.car_num out p) (handle_compute_state_out cs lap state t p)
    unfolding handle_compute_state_out
    out-Follows run r = go (lookup cs.car_num p.stint_lookup) refl
      where
        go :
            (o : Option (CarStint T))
            → lookup cs.car_num p.stint_lookup ≡ o
            → Returns (Follows cs.car_num out p) (handle_compute_state_out cs lap run t p)
        go none e = absurd (rw (r, e) at h.valid.has_stint)
        go (some stint) e = rw (e, handle_compute_state_out) (rw (lookup-insert_self, e) resume)
    out-Follows pit r = rw (lookup-insert_self, enter_pit-history) tow
    out-Follows _ r = rw r CarStep.stay

    dispatch-Follows :
        (from state : CarState)
        → cs.car_state ≡ from
        → Returns (Follows cs.car_num from p) (dispatch from cs lap state t p)
    unfolding dispatch
    dispatch-Follows init state r = init-Follows state r
    dispatch-Follows run state r = run-Follows state r
    dispatch-Follows pit state r = pit-Follows state r
    dispatch-Follows out state r = out-Follows state r
    dispatch-Follows _ state r = rw r CarStep.stay

  abbrev FollowsPointer :
      CarComputeState T → CarProcessor T → CarProcessor T × Option (CarComputeState T) → Type 0
  FollowsPointer cs p (q, pointer) =
      (cs' : CarComputeState T) × (pointer ≡ some cs') × Follows cs.car_num cs.car_state p (q, cs')

  -- For a car that is registered, valid and has an occupancy, handleComputeState returns, and its
  -- result is one step of the diagram: only leaving a stint (into the pits, or out of the race)
  -- finishes a stint, only leaving the pits for the track finishes a pit stop, and a finished car
  -- stays so.
  pub handle_compute_state-CarStep :
      (cs : CarComputeState T) (msg : Car T) (t : T) (p : CarProcessor T)
      → IsReady cs.car_num cs p
      → (q : CarProcessor T) × (cs' : CarComputeState T) × (handle_compute_state (some cs) msg t p
          ≡ ok (q, some cs'))
        × CarStep cs.car_state
            (stint_count (lookup cs.car_num p.stint_lookup))
            (pit_count (lookup cs.car_num p.pit_lookup))
            cs'.car_state
            (stint_count (lookup cs.car_num q.stint_lookup))
            (pit_count (lookup cs.car_num q.pit_lookup))
  unfolding handle_compute_state
  handle_compute_state-CarStep cs msg t p h =
      let (r, e, (cs', f, s)) =
        Returns-eq (FollowsPointer cs p) (handle_compute_state (some cs) msg t p)
          (elim (Bool-cases (lt32 msg.lap 1)) [
            | inl early ↦ rw early (cs, refl, CarStep.stay)
            | inr racing ↦ rw racing (
                Returns-bind (Follows cs.car_num cs.car_state p) (FollowsPointer cs p)
                  (dispatch cs.car_state cs msg.lap msg.state t p) _
                  (dispatch-Follows cs msg.lap t p h cs.car_state msg.state refl)
                  (λ r k. (r.1, refl, k)))
          ]) in
      (r.0, cs', subst (λ x. handle_compute_state (some cs) msg t p ≡ ok (r.0, x)) f e, s)
