-- ===== src/Race/Totality.antt =====
-- ProcessStatePayload of the race processor as a whole: what it accepts, and what it then keeps.
use iracelog_service_manager.Base.{
  true, false, List, [], ◌∷◌, ◌≡◌, ◌↔◌, refl, ◌∙◌, arith, map, ◌==◌, nat_key, string_key,
  Bool-cases, inl, inr, All, ok, Returns, Returns-bind, Returns-eq, Float32, minus_one,
}
use iracelog_service_manager.Car.Types.{CarProcessor, Car, StateRequest}
use iracelog_service_manager.Race.Types.{RaceProcessor}
use iracelog_service_manager.Race.Laps.{num_of, process_car_laps, process_lap}
use iracelog_service_manager.Race.Graph.{process_overall_race_graph, process_class_race_graphs}
use iracelog_service_manager.Race.LapTimes.{process_car_laps-latest_time}
use iracelog_service_manager.Race.Messages.{IsValid, HasEntry, Overall-IsValid, Kept, classes-Kept}
use iracelog_service_manager.Race.Payload.{
  check_valid_data, process_replay_info, process_state_payload,
}

module _ {T : Type 0} where
  -- A car that the race processor accepts: it has an index, and the index has a number.
  abbrev pub IsAccepted : CarProcessor T → Car T → Type 0
  IsAccepted cp c = ((c.car_idx == minus_one) ≡ false) × ((num_of cp c == "") ≡ false)

  check_valid_data_sound :
      (cp : CarProcessor T) (cs : List (Car T))
      → check_valid_data cp cs ≡ true
      → All (IsAccepted cp) cs
  unfolding check_valid_data
  check_valid_data_sound cp [] h = tt
  check_valid_data_sound cp (c ∷ cs) h =
      ((ground arith, ground arith), check_valid_data_sound cp cs (ground arith))

  check_valid_data_complete :
      (cp : CarProcessor T) (cs : List (Car T))
      → All (IsAccepted cp) cs
      → check_valid_data cp cs ≡ true
  unfolding check_valid_data
  check_valid_data_complete cp [] h = refl
  check_valid_data_complete cp (c ∷ cs) ((a, b), h) = rw (a, b) (check_valid_data_complete cp cs h)

  -- A message is valid exactly when each of its cars has an index, and a number under that index.
  pub check_valid_data_iff :
      (cp : CarProcessor T) (cs : List (Car T))
      → (check_valid_data cp cs ≡ true) ↔ All (IsAccepted cp) cs
  check_valid_data_iff cp cs = (check_valid_data_sound cp cs, check_valid_data_complete cp cs)

  -- The laps are written beside the race order and the race graphs.
  car_laps-beside :
      (cp : CarProcessor T) (cs : List (Car T)) (p : RaceProcessor T)
      → let q = process_car_laps cp cs p in
        (q.race_order ≡ p.race_order) × (q.race_graph ≡ p.race_graph)
  unfolding process_car_laps process_lap
  car_laps-beside cp [] p = (refl, refl)
  car_laps-beside cp (c ∷ cs) p =
      let (a, b) = car_laps-beside cp cs (process_lap cp c p) in
      let (a', b') = lap-beside in (a ∙ a', b ∙ b')
    where
      lap-beside :
          ((process_lap cp c p).race_order ≡ p.race_order)
          × ((process_lap cp c p).race_graph ≡ p.race_graph)
      lap-beside = ground arith

  laps-IsValid :
      (cp : CarProcessor T) (cs : List (Car T)) (p : RaceProcessor T)
      → IsValid p
      → IsValid (process_car_laps cp cs p)
  laps-IsValid cp cs p v = record {
    laps = (process_car_laps-latest_time cp cs p v.laps).0;
    graphs = λ k. rw (car_laps-beside cp cs p).1 (v.graphs k);
  }

  -- The replay info is written beside the tables.
  replay_info-tables :
      (m : StateRequest T) (t : T) (p : RaceProcessor T)
      → let q = process_replay_info m t p in
        (q.car_laps ≡ p.car_laps) × (q.race_graph ≡ p.race_graph) × (q.race_order ≡ p.race_order)
  unfolding process_replay_info
  replay_info-tables m t p = ground arith

  replay_info-IsValid :
      (m : StateRequest T) (t : T) (p : RaceProcessor T)
      → IsValid p
      → IsValid (process_replay_info m t p)
  replay_info-IsValid m t p v =
      let (a, b, c) = replay_info-tables m t p in
      record { laps = λ n. rw a (v.laps n); graphs = λ k. rw b (v.graphs k) }

module _ {T : Type 0} ⦃F : Float32 T⦄ where
  -- A message with a car that has no index, or no number under its index, changes nothing.
  pub process_state_payload-rejects :
      (cp : CarProcessor T) (payload : StateRequest T) (p : RaceProcessor T)
      → ¬ All (IsAccepted cp) payload.cars
      → process_state_payload cp payload p ≡ ok p
  unfolding process_state_payload
  process_state_payload-rejects cp payload p h =
      elim (Bool-cases (check_valid_data cp payload.cars)) [
        | inl e ↦ absurd (h (check_valid_data_sound cp payload.cars e))
        | inr e ↦ rw e
      ]

  abbrev Ordered : CarProcessor T → StateRequest T → RaceProcessor T → Type 0
  Ordered cp payload q = IsValid q × (q.race_order ≡ map (num_of cp) payload.cars)

  accepted-Ordered :
      (cp : CarProcessor T) (payload : StateRequest T) (p : RaceProcessor T)
      → IsValid p
      → All (HasEntry cp) payload.cars
      → All (IsAccepted cp) payload.cars
      → Returns (Ordered cp payload) (process_state_payload cp payload p)
  unfolding process_state_payload
  accepted-Ordered cp payload p v h a =
      let ordered : RaceProcessor T = record p { race_order = map (num_of cp) payload.cars } in
      let listed : IsValid ordered = record { laps = v.laps; graphs = v.graphs } in
      let start = process_car_laps cp payload.cars ordered in
      let beside = car_laps-beside cp payload.cars ordered in
      rw (check_valid_data_complete cp payload.cars a) (
        Returns-bind (Kept start) (Ordered cp payload) (process_overall_race_graph cp payload start)
          _ (Overall-IsValid cp payload start (laps-IsValid cp payload.cars ordered listed))
          (λ q (v', e).
            Returns-bind (Kept q) (Ordered cp payload)
              (process_class_race_graphs cp payload cp.car_classes q) _
              (classes-Kept cp payload cp.car_classes q v' h)
              (λ r (v'', e').
                let t = payload.session.session_time in
                (
                  replay_info-IsValid payload t r v'',
                  (replay_info-tables payload t r).2 ∙ e' ∙ e ∙ beside.0,
                ))))

  -- A message whose cars are all accepted, and registered with the car processor, is processed
  -- without a panic: the race order is that of the message's cars, and the tables keep one lap for a
  -- number and one lap entry for a lap.
  pub process_state_payload-accepts :
      (cp : CarProcessor T) (payload : StateRequest T) (p : RaceProcessor T)
      → IsValid p
      → All (HasEntry cp) payload.cars
      → All (IsAccepted cp) payload.cars
      → (q : RaceProcessor T) × (process_state_payload cp payload p ≡ ok q)
        × IsValid q
        × (q.race_order ≡ map (num_of cp) payload.cars)
  process_state_payload-accepts cp payload p v h a =
      let (q, e, k) =
        Returns-eq (Ordered cp payload) (process_state_payload cp payload p)
          (accepted-Ordered cp payload p v h a) in
      (q, e, k.0, k.1)
