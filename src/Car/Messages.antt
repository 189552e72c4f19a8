-- ===== src/Car/Messages.antt =====
-- ProcessStatePayload never panics on a valid processor that knows the cars of the message, and
-- leaves it valid.
use iracelog_service_manager.Base.{
  ℕ, String, Option, none, some, ◌≡◌, refl, sym, subst, ◌∙◌, lookup, insert, ◌==◌, nat_key,
  string_key, lookup-insert_self, lookup-insert_ne, Returns, Returns-bind, Bool-cases, key-cases,
  inl, inr, Float32, some-injective,
}
use iracelog_service_manager.Car.Types.{CarProcessor, CarComputeState, CarOccupancy, Car}
use iracelog_service_manager.Car.Valid.{IsSeated, StintHistory, PitHistory, CarIsValid, IsValid}
use iracelog_service_manager.Car.Handlers.{Handled}
use iracelog_service_manager.Car.Handling.{IsReady, HandledPointer, handle_compute_state-Handled}
use iracelog_service_manager.Car.Drivers.{lookup_name}
use iracelog_service_manager.Car.Machine.{handle_compute_state}
use iracelog_service_manager.Car.Payload.{lookup_state, process_car}

module _ {T : Type 0} where
  -- The driver data has named the car of the message.
  abbrev pub IsKnown : CarProcessor T → Car T → Type 0
  IsKnown p c = (n : String) × (lookup c.car_idx p.num_by_idx ≡ some n)

  abbrev pub HasOccupancy : CarProcessor T → String → Type 0
  HasOccupancy p n = (o : CarOccupancy T) × (lookup n p.car_occupancy_lookup ≡ some o)

  -- A step that registers no car and drops no occupancy.
  pub record Grows (p q : CarProcessor T) : Type 0 where
    pub nums : q.num_by_idx ≡ p.num_by_idx
    pub occupancies : (n : String) → HasOccupancy p n → HasOccupancy q n

  pub Grows-refl : (p : CarProcessor T) → Grows p p
  Grows-refl p = record { nums = refl; occupancies = λ n h. h }

  pub Grows-trans : (p q r : CarProcessor T) → Grows p q → Grows q r → Grows p r
  Grows-trans p q r g h = record {
    nums = h.nums ∙ g.nums;
    occupancies = λ n o. h.occupancies n (g.occupancies n o);
  }

  pub lookup_name-known :
      (p : CarProcessor T) (i : ℕ) (n : String)
      → lookup i p.num_by_idx ≡ some n
      → lookup_name i p.num_by_idx ≡ n
  unfolding lookup_name
  lookup_name-known p i n e = rw (e, lookup_name)

module _ {T : Type 0} ⦃F : Float32 T⦄ where
  -- What the handler leaves, with the new compute state stored, is valid.
  store-IsValid :
      (n : String) (p q : CarProcessor T) (cs : CarComputeState T)
      → IsValid p
      → Handled n p (q, cs)
      → IsValid (record q { compute_state = insert n (some cs) q.compute_state })
  store-IsValid n p q cs v h = record {
    indexed = λ i m e. rw h.frame.same.0 (v.indexed i m (rw h.frame.same.2 at e));
    numbered = λ i m e. rw h.frame.same.1 (v.numbered i m (rw h.frame.same.2 at e));
    computed = λ i m e. elim (key-cases n m) [
      | inl k ↦ (cs, rw (← k) (lookup-insert_self n (some cs) q.compute_state))
      | inr k ↦
          let (c, ec) = v.computed i m (rw h.frame.same.2 at e) in
          (c, rw (lookup-insert_ne n m (some cs) q.compute_state k, h.frame.same.3) ec)
    ];
    cars = λ m c e. elim (key-cases n m) [
      | inl k ↦
          subst (λ m'. CarIsValid m' c (lookup m' q.stint_lookup) (lookup m' q.pit_lookup)) k
            (subst (λ c'. CarIsValid n c' (lookup n q.stint_lookup) (lookup n q.pit_lookup))
              (some-injective _ _ (
                some-injective _ _
                  (sym (lookup-insert_self n (some cs) q.compute_state) ∙ rw (← k) at e)))
              h.valid)
      | inr k ↦
          rw (h.frame.stints m k, h.frame.pits m k)
            (v.cars m c
              (rw (lookup-insert_ne n m (some cs) q.compute_state k, h.frame.same.3) at e))
    ];
    seated = λ m o e. elim (key-cases n m) [
      | inl k ↦ rw e at (subst (λ m'. IsSeated (lookup m' q.car_occupancy_lookup)) k h.seated)
      | inr k ↦ v.seated m o (rw (h.frame.occupancies m k) at e)
    ];
    stint_histories = λ m. elim (key-cases n m) [
      | inl k ↦ subst (λ m'. StintHistory (lookup m' q.stint_lookup)) k h.valid.stints_add_up
      | inr k ↦ rw (h.frame.stints m k) (v.stint_histories m)
    ];
    non_nil = λ m c e. elim (key-cases n m) [
      | inl k ↦ (
        cs,
        some-injective _ _ (sym (rw (← k) at e) ∙ lookup-insert_self n (some cs) q.compute_state),
      )
      | inr k ↦
          v.non_nil m c (rw (lookup-insert_ne n m (some cs) q.compute_state k, h.frame.same.3) at e)
    ];
    pit_histories = λ m. elim (key-cases n m) [
      | inl k ↦ subst (λ m'. PitHistory (lookup m' q.pit_lookup)) k h.valid.pits_add_up
      | inr k ↦ rw (h.frame.pits m k) (v.pit_histories m)
    ];
  }

  store-Grows :
      (n : String) (p q : CarProcessor T) (cs : CarComputeState T)
      → Handled n p (q, cs)
      → Grows p (record q { compute_state = insert n (some cs) q.compute_state })
  store-Grows n p q cs h = record {
    nums = h.frame.same.2;
    occupancies = λ m (o, e). elim (key-cases n m) [
      | inl k ↦ subst (HasOccupancy q) k (go (lookup n q.car_occupancy_lookup) refl)
      | inr k ↦ (o, h.frame.occupancies m k ∙ e)
    ];
  }
    where
      go : (o : Option (CarOccupancy T)) → lookup n q.car_occupancy_lookup ≡ o → HasOccupancy q n
      go none e = absurd (rw e at h.seated)
      go (some o) e = (o, e)

  -- What one round of either loop guarantees.
  abbrev pub Kept : CarProcessor T → CarProcessor T → Type 0
  Kept p q = IsValid q × Grows p q

  pub process_car-Kept :
      (t : T) (c : Car T) (p : CarProcessor T) (n : String)
      → IsValid p
      → lookup c.car_idx p.num_by_idx ≡ some n
      → HasOccupancy p n
      → Returns (Kept p) (process_car t c p)
  unfolding process_car
  process_car-Kept t c p n v known (o, occupied) =
      let (cs, computed) = v.computed c.car_idx n known in
      let ready : IsReady n cs p = record {
        valid = v.cars n cs computed;
        registered = v.numbered c.car_idx n known;
        seat = (o, occupied, v.seated n o occupied);
      } in
      rw (lookup_name-known p c.car_idx n known) (elim (Bool-cases (n == "")) [
        | inl e ↦ rw e (v, Grows-refl p)
        | inr e ↦
            rw (e, lookup_state, computed)
              (Returns-bind (HandledPointer n p) (Kept p) (handle_compute_state (some cs) c t p) _
                (handle_compute_state-Handled n cs c t p ready)
                (λ (q, pointer) (cs', e', h).
                  rw e' (store-IsValid n p q cs' v h, store-Grows n p q cs' h)))
      ])
