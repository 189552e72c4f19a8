-- ===== src/Car/Unknown.antt =====
-- What ProcessStatePayload does with a car that the driver data has not named, and other places where
-- car_processor.go departs from what it announces.
use iracelog_service_manager.Base.{
  ℕ, String, true, false, none, some, List, [], ◌∷◌, ◌++◌, ◌≡◌, refl, sym, subst, ◌∙◌, lookup,
  insert, ◌==◌, nat_key, string_key, All, lookup-insert_self, lookup-insert_ne, Outcome, ok, panic,
  ◌>>=◌, Option-cases, inl, inr, Float32, zero_t, minus, exceeds, same,
}
use iracelog_service_manager.Car.Types.{
  out, CarProcessor, CarComputeState, CarOccupancy, CarStint, Car, StateRequest,
}
use iracelog_service_manager.Car.Drivers.{lookup_name, team_name_of}
use iracelog_service_manager.Car.Stints.{no_stint}
use iracelog_service_manager.Car.Machine.{run_switch}
use iracelog_service_manager.Car.Payload.{
  ensure_occupancy, ensure_car_occupancy, process_state_payload,
}

module _ {T : Type 0} where
  -- The driver data has named the car, and its number is not empty.
  abbrev pub IsNamed : CarProcessor T → Car T → Type 0
  IsNamed p c = (n : String) × (lookup c.car_idx p.num_by_idx ≡ some n) × ((n == "") ≡ false)

  -- No message has named the car, and no occupancy is filed under the empty number.
  pub record IsUnknown (p : CarProcessor T) (c : Car T) : Type 0 where
    pub unnumbered : lookup c.car_idx p.num_by_idx ≡ none
    pub unregistered : lookup c.car_idx p.by_car_idx ≡ none
    pub no_empty : lookup "" p.car_occupancy_lookup ≡ none

  lookup_name-none :
      (p : CarProcessor T) (i : ℕ) → lookup i p.num_by_idx ≡ none → lookup_name i p.num_by_idx ≡ ""
  unfolding lookup_name
  lookup_name-none p i e = rw (e, lookup_name)

  lookup_name-named :
      (p : CarProcessor T) (i : ℕ) {n : String}
      → lookup i p.num_by_idx ≡ some n
      → lookup_name i p.num_by_idx ≡ n
  unfolding lookup_name
  lookup_name-named p i e = rw (e, lookup_name)

  -- An occupancy under another number leaves the unknown car unknown.
  IsUnknown-kept :
      (p : CarProcessor T) (c : Car T) (n : String) (o : CarOccupancy T)
      → (n == "") ≡ false
      → IsUnknown p c
      → IsUnknown (record p { car_occupancy_lookup = insert n o p.car_occupancy_lookup }) c
  IsUnknown-kept p c n o e u = record {
    unnumbered = u.unnumbered;
    unregistered = u.unregistered;
    no_empty = lookup-insert_ne n "" o p.car_occupancy_lookup e ∙ u.no_empty;
  }

module _ {T : Type 0} ⦃F : Float32 T⦄ where
  -- The unknown car itself: its team is read through a nil pointer.
  ensure_occupancy-unknown :
      (t : T) (c : Car T) (p : CarProcessor T) → IsUnknown p c → ensure_occupancy t c p ≡ panic
  unfolding ensure_occupancy
  ensure_occupancy-unknown t c p u = rw (
    subst (λ n. lookup n p.car_occupancy_lookup ≡ none)
        (sym (lookup_name-none p c.car_idx u.unnumbered)) u.no_empty,
    ensure_occupancy,
    team_name_of,
    u.unregistered,
  )

  -- A named car panics too, or leaves the unknown one unknown.
  ensure_occupancy-named {ℓ} :
      (P : Outcome (CarProcessor T) → Type ℓ) (t : T) (x c : Car T) (p : CarProcessor T)
      → IsNamed p x
      → IsUnknown p c
      → P panic
      → ((q : CarProcessor T) → q.num_by_idx ≡ p.num_by_idx → IsUnknown q c → P (ok q))
      → P (ensure_occupancy t x p)
  unfolding ensure_occupancy
  ensure_occupancy-named P t x c p (n, e, ne) u bad good =
      elim (Option-cases (lookup (lookup_name x.car_idx p.num_by_idx) p.car_occupancy_lookup)) [
        | inr (o, f) ↦ rw (f, ensure_occupancy) (good p refl u)
        | inl f ↦ elim (Option-cases (lookup x.car_idx p.by_car_idx)) [
          | inl g ↦ rw (f, ensure_occupancy, g, team_name_of) bad
          | inr (entry, g) ↦
              rw (f, ensure_occupancy, g, team_name_of)
                (good _ refl (
                  IsUnknown-kept p c (lookup_name x.car_idx p.num_by_idx) _
                    (rw (lookup_name-named p x.car_idx e) ne) u))
        ]
      ]

  IsNamed-kept :
      (p q : CarProcessor T) (xs : List (Car T))
      → q.num_by_idx ≡ p.num_by_idx
      → All (IsNamed p) xs
      → All (IsNamed q) xs
  IsNamed-kept p q [] e h = tt
  IsNamed-kept p q (x ∷ xs) e ((n, f, ne), h) = ((n, rw e f, ne), IsNamed-kept p q xs e h)

  -- The panic is met in the first loop, before any car is processed.
  ensure-unknown :
      (t : T) (xs : List (Car T)) (c : Car T) (rest : List (Car T)) (p : CarProcessor T)
      → All (IsNamed p) xs
      → IsUnknown p c
      → ensure_car_occupancy t (xs ++ c ∷ rest) p ≡ panic
  unfolding ensure_car_occupancy
  ensure-unknown t [] c rest p h u = rw (ensure_occupancy-unknown t c p u)
  ensure-unknown t (x ∷ xs) c rest p (named, h) u =
      ensure_occupancy-named (λ m. (m >>= ensure_car_occupancy t (xs ++ c ∷ rest)) ≡ panic) t x c p
        named u refl (λ q e u'. ensure-unknown t xs c rest q (IsNamed-kept p q xs e h) u')

  -- A state message that holds a car which the driver data has not named ends in a panic, although
  -- the loop over the cars means to skip it silently. The cars before it are taken as named, and no
  -- occupancy as filed under the empty number.
  pub process_state_payload-unknown :
      (payload : StateRequest T) (xs : List (Car T)) (c : Car T) (rest : List (Car T))
      (p : CarProcessor T)
      → payload.cars ≡ xs ++ c ∷ rest
      → All (IsNamed p) xs
      → IsUnknown p c
      → process_state_payload payload p ≡ panic
  unfolding process_state_payload
  process_state_payload-unknown payload xs c rest p e h u =
      rw (e, ensure-unknown payload.session.session_time xs c rest p h u)

  -- A running car whose time outside exceeds the limit goes out, and the stint that is filed then
  -- still claims to be the current one if it did before. (Into the pits, it is filed with the mark
  -- cleared.)
  pub run_switch-stale_mark :
      (cs : CarComputeState T) (lap : ℕ) (t : T) (stint : CarStint T) (p : CarProcessor T)
      → same cs.out_encountered zero_t ≡ false
      → exceeds (minus t cs.out_encountered) F.sixty ≡ true
      → (q : CarProcessor T) × (cs' : CarComputeState T) × (stint' : CarStint T) × (run_switch cs
            lap out t stint p
          ≡ ok (q, cs'))
        × (cs'.car_state ≡ out)
        × (lookup cs.car_num q.stint_lookup ≡ some stint')
        × (stint'.history ≡ stint.history ++ stint.current ∷ [])
  unfolding run_switch
  run_switch-stale_mark cs lap t stint p e f =
      (_, _, _, retires, refl, lookup-insert_self cs.car_num _ p.stint_lookup, refl)
    where
      retires :
          run_switch cs lap out t stint p
          ≡ ok (
            record p {
              stint_lookup =
                  insert cs.car_num
                    (record stint {
                      history = stint.history ++ stint.current ∷ [];
                      current = no_stint;
                    })
                    p.stint_lookup;
            },
            record cs { car_state = out },
          )
      retires = rw (e, f)
