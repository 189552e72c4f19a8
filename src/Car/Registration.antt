-- ===== src/Car/Registration.antt =====
-- ProcessCarPayload never panics when it names every car that has a driver, and keeps the processor
-- valid.
use iracelog_service_manager.Base.{
  String, Option, none, some, List, [], ◌∷◌, ◌≡◌, sym, subst, ◌∙◌, lookup, insert, nat_key,
  string_key, lookup-insert_self, lookup-insert_ne, lookup-insert_inv, insert_keeps, key-cases, inl,
  inr, Option-cases, Float32, some-injective, GoMap,
}
use iracelog_service_manager.Car.Types.{CarProcessor, CarComputeState, CarEntry}
use iracelog_service_manager.Car.Valid.{CarIsValid, IsValid}
use iracelog_service_manager.Car.Payload.{
  new_compute_state, ensure_compute_state, add_entry, add_entries,
}

module _ {T : Type 0} ⦃F : Float32 T⦄ where
  -- The two branches of the round's last statement.
  ensure_compute_state-cases {ℓ} :
      (P : CarProcessor T → Type ℓ) (n : String) (p : CarProcessor T)
      → (lookup n p.compute_state ≡ none
          → P (record p { compute_state = insert n (some (new_compute_state n)) p.compute_state }))
      → ((c : Option (CarComputeState T)) → lookup n p.compute_state ≡ some c → P p)
      → P (ensure_compute_state n p)
  unfolding ensure_compute_state
  ensure_compute_state-cases P n p fresh old = elim (Option-cases (lookup n p.compute_state)) [
    | inl e ↦ rw (e, ensure_compute_state) (fresh e)
    | inr (c, e) ↦ rw (e, ensure_compute_state) (old c e)
  ]

  module _ (e : CarEntry) (p : CarProcessor T) (v : IsValid p) where
    abbrev Computed : GoMap String (Option (CarComputeState T)) → String → Type 0
    Computed m n = (cs : CarComputeState T) × (lookup n m ≡ some (some cs))

    -- The entry's car is registered, with any map of compute states that knows it and keeps all
    -- others.
    entry-IsValid :
        (m : GoMap String (Option (CarComputeState T)))
        → Computed m e.car.car_number
        → ((n : String) → Computed p.compute_state n → Computed m n)
        → ((n : String) (cs : CarComputeState T)
            → lookup n m ≡ some (some cs)
            → CarIsValid n cs (lookup n p.stint_lookup) (lookup n p.pit_lookup))
        → ((n : String) (c : Option (CarComputeState T))
            → lookup n m ≡ some c
            → (cs : CarComputeState T) × (c ≡ some cs))
        → IsValid (record p {
          by_car_idx = insert e.car.car_idx e p.by_car_idx;
          by_car_num = insert e.car.car_number e p.by_car_num;
          num_by_idx = insert e.car.car_idx e.car.car_number p.num_by_idx;
          compute_state = m;
        })
    entry-IsValid m new old valid non_nil = record {
      indexed = λ i n h. elim (lookup-insert_inv e.car.car_idx i p.num_by_idx h) [
        | inl (k, _) ↦ (e, rw (← k) (lookup-insert_self e.car.car_idx e p.by_car_idx))
        | inr (k, f) ↦ insert_keeps e.car.car_idx i e p.by_car_idx (v.indexed i n f)
      ];
      numbered = λ i n h. elim (lookup-insert_inv e.car.car_idx i p.num_by_idx h) [
        | inl (_, k) ↦ (e, rw (← k) (lookup-insert_self e.car.car_number e p.by_car_num))
        | inr (_, f) ↦ insert_keeps e.car.car_number n e p.by_car_num (v.numbered i n f)
      ];
      computed = λ i n h. elim (lookup-insert_inv e.car.car_idx i p.num_by_idx h) [
        | inl (_, k) ↦ subst (Computed m) k new
        | inr (_, f) ↦ old n (v.computed i n f)
      ];
      cars = valid;
      seated = v.seated;
      stint_histories = v.stint_histories;
      pit_histories = v.pit_histories;
      non_nil = non_nil;
    }

    -- A car that had no compute state starts in the initial state.
    fresh-IsValid :
        (n : String) (cs : CarComputeState T)
        → lookup n
            (insert e.car.car_number (some (new_compute_state e.car.car_number)) p.compute_state)
          ≡ some (some cs)
        → CarIsValid n cs (lookup n p.stint_lookup) (lookup n p.pit_lookup)
    unfolding new_compute_state
    fresh-IsValid n cs h = elim (lookup-insert_inv e.car.car_number n p.compute_state h) [
      | inr (_, f) ↦ v.cars n cs f
      | inl (k, f) ↦
          subst (λ c. CarIsValid n c (lookup n p.stint_lookup) (lookup n p.pit_lookup))
            (some-injective _ _ f)
            (record {
              named = k;
              has_stint = tt;
              stints_add_up = v.stint_histories n;
              has_pit = tt;
              pits_add_up = v.pit_histories n;
            })
    ]

    fresh_keeps :
        (n : String)
        → Computed p.compute_state n
        → Computed
            (insert e.car.car_number (some (new_compute_state e.car.car_number)) p.compute_state)
            n
    fresh_keeps n (cs, h) = elim (key-cases e.car.car_number n) [
      | inl k ↦ (new_compute_state e.car.car_number, rw (← k) (lookup-insert_self _ _ _))
      | inr k ↦ (cs, lookup-insert_ne e.car.car_number n _ p.compute_state k ∙ h)
    ]

    add_entry-IsValid : IsValid (add_entry e p)
    unfolding add_entry
    add_entry-IsValid =
        ensure_compute_state-cases IsValid e.car.car_number _
          (λ none_yet.
            entry-IsValid _ (_, lookup-insert_self e.car.car_number _ p.compute_state) fresh_keeps
              fresh-IsValid
              (λ n c h. elim (lookup-insert_inv e.car.car_number n p.compute_state h) [
                | inl (_, k) ↦ (new_compute_state e.car.car_number, sym k)
                | inr (_, f) ↦ v.non_nil n c f
              ]))
          (λ c h.
            let (cs, f) = v.non_nil e.car.car_number c h in
            entry-IsValid p.compute_state (cs, rw (← f) h) (λ n x. x) v.cars v.non_nil)

  pub add_entries-IsValid :
      (es : List CarEntry) (p : CarProcessor T) → IsValid p → IsValid (add_entries es p)
  unfolding add_entries
  add_entries-IsValid [] p v = v
  add_entries-IsValid (e ∷ es) p v =
      add_entries-IsValid es (add_entry e p) (add_entry-IsValid e p v)
