-- ===== src/Car/Totality.antt =====
-- The loops of ProcessStatePayload: no panic, and the invariant, for messages about known cars.
use iracelog_service_manager.Base.{
  String, Option, none, some, List, [], ◌∷◌, ◌≡◌, refl, sym, subst, ◌∙◌, lookup, insert, nat_key,
  string_key, All, lookup-insert_self, lookup-insert_ne, ok, Returns, Returns-bind, Returns-mono,
  Returns-eq, key-cases, inl, inr, Float32, some-injective,
}
use iracelog_service_manager.Car.Types.{CarProcessor, CarOccupancy, Car, StateRequest}
use iracelog_service_manager.Car.Valid.{HasSeat, IsValid}
use iracelog_service_manager.Car.Messages.{
  IsKnown, HasOccupancy, Grows, Grows-refl, Grows-trans, lookup_name-known, Kept, process_car-Kept,
}
use iracelog_service_manager.Car.Drivers.{
  lookup_name, team_name_of, new_occupancy, new_driver_entry,
}
use iracelog_service_manager.Car.Payload.{
  ensure_occupancy, ensure_car_occupancy, process_car, process_cars, process_state_payload,
}

module _ {T : Type 0} where
  -- A known car with an occupancy.
  abbrev IsSettled : CarProcessor T → Car T → Type 0
  IsSettled p c = (n : String) × (lookup c.car_idx p.num_by_idx ≡ some n) × HasOccupancy p n

  IsSettled-Grows :
      (p q : CarProcessor T) (cs : List (Car T))
      → Grows p q
      → All (IsSettled p) cs
      → All (IsSettled q) cs
  IsSettled-Grows p q [] g h = tt
  IsSettled-Grows p q (c ∷ cs) g ((n, e, o), h) =
      ((n, rw g.nums e, g.occupancies n o), IsSettled-Grows p q cs g h)

  pub IsKnown-Grows :
      (p q : CarProcessor T) (cs : List (Car T))
      → Grows p q
      → All (IsKnown p) cs
      → All (IsKnown q) cs
  IsKnown-Grows p q [] g h = tt
  IsKnown-Grows p q (c ∷ cs) g ((n, e), h) = ((n, rw g.nums e), IsKnown-Grows p q cs g h)

module _ {T : Type 0} ⦃F : Float32 T⦄ where
  process_cars-Kept :
      (t : T) (cs : List (Car T)) (p : CarProcessor T)
      → IsValid p
      → All (IsSettled p) cs
      → Returns (Kept p) (process_cars t cs p)
  unfolding process_cars
  process_cars-Kept t [] p v h = (v, Grows-refl p)
  process_cars-Kept t (c ∷ cs) p v ((n, e, o), h) =
      Returns-bind (Kept p) (Kept p) (process_car t c p) (process_cars t cs)
        (process_car-Kept t c p n v e o)
        (λ q (v', g).
          Returns-mono (Kept q) (Kept p) (process_cars t cs q)
            (process_cars-Kept t cs q v' (IsSettled-Grows p q cs g h))
            (λ r (v'', g'). (v'', Grows-trans p q r g g')))

  -- ensureCarOccupancy gives every known car an occupancy.
  abbrev Settled : CarProcessor T → List (Car T) → CarProcessor T → Type 0
  Settled p cs q = IsValid q × Grows p q × All (IsSettled q) cs

  pub add_occupancy-IsValid :
      (n : String) (o : CarOccupancy T) (p : CarProcessor T)
      → IsValid p
      → All HasSeat o.drivers
      → IsValid (record p { car_occupancy_lookup = insert n o p.car_occupancy_lookup })
  add_occupancy-IsValid n o p v h = record {
    indexed = v.indexed;
    numbered = v.numbered;
    computed = v.computed;
    cars = v.cars;
    stint_histories = v.stint_histories;
    pit_histories = v.pit_histories;
    non_nil = v.non_nil;
    seated = λ m o' e. elim (key-cases n m) [
      | inl k ↦
          subst (λ o''. All HasSeat o''.drivers)
            (some-injective _ _
              (sym (lookup-insert_self n o p.car_occupancy_lookup) ∙ rw (← k) at e))
            h
      | inr k ↦ v.seated m o' (rw (lookup-insert_ne n m o p.car_occupancy_lookup k) at e)
    ];
  }

  pub add_occupancy-Grows :
      (n : String) (o : CarOccupancy T) (p : CarProcessor T)
      → Grows p (record p { car_occupancy_lookup = insert n o p.car_occupancy_lookup })
  add_occupancy-Grows n o p = record {
    nums = refl;
    occupancies = λ m (o', e). elim (key-cases n m) [
      | inl k ↦ (o, rw (← k) (lookup-insert_self n o p.car_occupancy_lookup))
      | inr k ↦ (o', lookup-insert_ne n m o p.car_occupancy_lookup k ∙ e)
    ];
  }

  ensure_occupancy-Settled :
      (t : T) (c : Car T) (p : CarProcessor T) {n : String}
      → IsValid p
      → lookup c.car_idx p.num_by_idx ≡ some n
      → Returns
          (λ q. IsValid q × Grows p q × HasOccupancy q (lookup_name c.car_idx p.num_by_idx))
          (ensure_occupancy t c p)
  unfolding ensure_occupancy
  ensure_occupancy-Settled t c p {n} v e = go (lookup num p.car_occupancy_lookup) refl
    where
      num : String
      num = lookup_name c.car_idx p.num_by_idx

      go :
          (o : Option (CarOccupancy T))
          → lookup num p.car_occupancy_lookup ≡ o
          → Returns (λ q. IsValid q × Grows p q × HasOccupancy q num) (ensure_occupancy t c p)
      go none f =
          let (entry, found) = v.indexed c.car_idx n e in
          rw (f, ensure_occupancy, found, team_name_of)
            (
              add_occupancy-IsValid num _ p v (unfold new_occupancy new_driver_entry in (tt, tt)),
              add_occupancy-Grows num _ p,
              (_, lookup-insert_self num _ p.car_occupancy_lookup),
            )
      go (some o) f = rw (f, ensure_occupancy) (v, Grows-refl p, (o, f))

  ensure_car_occupancy-Settled :
      (t : T) (cs : List (Car T)) (p : CarProcessor T)
      → IsValid p
      → All (IsKnown p) cs
      → Returns (Settled p cs) (ensure_car_occupancy t cs p)
  unfolding ensure_car_occupancy
  ensure_car_occupancy-Settled t [] p v h = (v, Grows-refl p, tt)
  ensure_car_occupancy-Settled t (c ∷ cs) p v ((n, e), h) =
      Returns-bind
        (λ q. IsValid q × Grows p q × HasOccupancy q (lookup_name c.car_idx p.num_by_idx))
        (Settled p (c ∷ cs)) (ensure_occupancy t c p) (ensure_car_occupancy t cs)
        (ensure_occupancy-Settled t c p v e)
        (λ q (v', g, o).
          Returns-mono (Settled q cs) (Settled p (c ∷ cs)) (ensure_car_occupancy t cs q)
            (ensure_car_occupancy-Settled t cs q v' (IsKnown-Grows p q cs g h))
            (λ r (v'', g', s). (
              v'',
              Grows-trans p q r g g',
              (
                (
                  n,
                  rw (g'.nums, g.nums) e,
                  g'.occupancies n (subst (HasOccupancy q) (lookup_name-known p c.car_idx n e) o),
                ),
                s,
              ),
            )))

  -- On a valid processor a state message about cars that the driver data has named never ends in a
  -- panic: ProcessStatePayload returns, the processor is valid again, no car is registered and no
  -- occupancy is lost.
  pub process_state_payload-IsValid :
      (payload : StateRequest T) (p : CarProcessor T)
      → IsValid p
      → All (IsKnown p) payload.cars
      → (q : CarProcessor T) × (process_state_payload payload p ≡ ok q) × IsValid q × Grows p q
  unfolding process_state_payload
  process_state_payload-IsValid payload p v h =
      let t = payload.session.session_time in
      let (q, e, k) = Returns-eq (Kept p) (process_state_payload payload p) (
        Returns-bind (Settled p payload.cars) (Kept p) (ensure_car_occupancy t payload.cars p)
          (process_cars t payload.cars) (ensure_car_occupancy-Settled t payload.cars p v h)
          (λ q (v', g, s).
            Returns-mono (Kept q) (Kept p) (process_cars t payload.cars q)
              (process_cars-Kept t payload.cars q v' s)
              (λ r (v'', g'). (v'', Grows-trans p q r g g')))) in
      (q, e, k.0, k.1)
