-- ===== src/Car/Seats.antt =====
-- Seat times: the updates never index an empty slice, and keep every driver seated.
use iracelog_service_manager.Base.{
  ℕ, String, Option, none, some, List, [], ◌∷◌, ◌≡◌, refl, lookup, insert, ◌==◌, nat_key,
  string_key, All, All-set, All-get, All-index_func, length, length-set, index_func, get_elem?, ok,
  Returns, Returns-bind,
}
use iracelog_service_manager.Car.Types.{CarProcessor, CarOccupancy, Driver, SeatTime, CarEntry}
use iracelog_service_manager.Car.Valid.{NonEmpty, HasSeat}
use iracelog_service_manager.Car.Drivers.{
  leave_last, update_leave, update_leave_if, driver_entry_by_name, mark_seat_time, lookup_name,
}

module _ {T : Type 0} where
  leave_last-NonEmpty :
      (t : T) (s : List (SeatTime T)) → NonEmpty s → Returns NonEmpty (leave_last t s)
  unfolding leave_last
  leave_last-NonEmpty t [] h = h
  leave_last-NonEmpty t (s ∷ []) h = tt
  leave_last-NonEmpty t (s ∷ u ∷ r) h =
      Returns-bind NonEmpty NonEmpty (leave_last t (u ∷ r)) (λ r'. ok (s ∷ r'))
        (leave_last-NonEmpty t (u ∷ r) tt) (λ r' k. tt)

  -- The drivers stay seated, and there are as many.
  abbrev pub Reseated : List (Driver T) → List (Driver T) → Type 0
  Reseated ds es = All HasSeat es × (length es ≡ length ds)

  -- At an index of the slice the update returns.
  pub update_leave-HasSeat :
      (t : T) (i : ℕ) (ds : List (Driver T)) {d : Driver T}
      → All HasSeat ds
      → get_elem? ds i ≡ some d
      → Returns (Reseated ds) (update_leave t i ds)
  unfolding update_leave
  update_leave-HasSeat t i ds {d} h e = rw e (
      Returns-bind NonEmpty (Reseated ds) (leave_last t d.seat_times) _
        (leave_last-NonEmpty t d.seat_times (All-get HasSeat ds i h e))
        (λ s k. (All-set HasSeat ds i _ h k, length-set ds i _)))

  pub update_leave_if-HasSeat :
      (t : T) (name : String) (ds : List (Driver T))
      → All HasSeat ds
      → Returns (Reseated ds) (update_leave_if t (driver_entry_by_name ds name) ds)
  unfolding driver_entry_by_name
  update_leave_if-HasSeat t name ds h = go (index_func (λ d. d.name == name) ds) refl
    where
      go :
          (o : Option ℕ)
          → index_func (λ d. d.name == name) ds ≡ o
          → Returns (Reseated ds) (update_leave_if t o ds)
      go none e = unfold update_leave_if in (h, refl)
      go (some i) e =
          let (d, at, _) = All-index_func HasSeat (λ d. d.name == name) ds i h e in
          unfold update_leave_if in update_leave-HasSeat t i ds h at

  -- markSeatTime replaces the occupancy of its car by one whose drivers are seated.
  abbrev pub Marked : String → CarProcessor T → CarProcessor T → Type 0
  Marked n p q =
      (o : CarOccupancy T) × All HasSeat o.drivers
      × (q ≡ record p { car_occupancy_lookup = insert n o p.car_occupancy_lookup })

  pub mark_seat_time-Marked :
      (n : String) (t : T) (p : CarProcessor T) (e : CarEntry) (o : CarOccupancy T)
      → lookup n p.by_car_num ≡ some e
      → lookup n p.car_occupancy_lookup ≡ some o
      → All HasSeat o.drivers
      → Returns (Marked n p) (mark_seat_time n t p)
  unfolding mark_seat_time
  mark_seat_time-Marked n t p e o he ho h =
      rw (he, ho)
        (Returns-bind (Reseated o.drivers) (Marked n p)
          (update_leave_if t
            (driver_entry_by_name o.drivers (lookup_name e.car.car_idx p.current_drivers))
            o.drivers)
          _ (update_leave_if-HasSeat t _ o.drivers h)
          (λ ds k. (record o { drivers = ds }, k.0, refl)))
