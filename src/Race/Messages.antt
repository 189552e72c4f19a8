-- ===== src/Race/Messages.antt =====
-- ProcessStatePayload of the race processor: no panic, and the tables stay maps.
use iracelog_service_manager.Base.{
  ◌≤◌, String, some, List, [], ◌∷◌, ◌≡◌, refl, ◌∙◌, arith, lookup, lookup-insert_self,
  lookup-insert_ne, key-cases, ◌==◌, nat_key, string_key, Option-cases, inl, inr, All, length,
  index_func, index_func-lt, get_elem?-of_lt, Distinct, Returns, Returns-bind, Returns-mono,
  Float32,
}
use iracelog_service_manager.Car.Types.{CarProcessor, Car, CarClass, CarEntry, StateRequest}
use iracelog_service_manager.Race.Types.{RaceGraph, RaceProcessor}
use iracelog_service_manager.Race.Graph.{
  lookup_graph, store_entry, process_overall_race_graph, filter_by_car_class,
  process_class_race_graph, process_class_race_graphs,
}
use iracelog_service_manager.Race.Tables.{entry_key, put_entry-update}
use iracelog_service_manager.Race.LapTimes.{LapsAreDistinct}

module _ {T : Type 0} where
  -- Every class has one lap entry for a lap, and every car one lap for a number.
  pub record IsValid (p : RaceProcessor T) : Type 0 where
    pub laps : LapsAreDistinct p
    pub graphs : (k : String) → Distinct entry_key (lookup_graph k p.race_graph)

  store_entry-IsValid :
      (g : RaceGraph T) (p : RaceProcessor T) → IsValid p → IsValid (store_entry g p)
  unfolding store_entry
  store_entry-IsValid g p v = record {
    laps = v.laps;
    graphs = λ k. elim (key-cases g.car_class k) [
      | inl e ↦
          rw (← e, lookup_graph, lookup-insert_self g.car_class _ p.race_graph)
            (put_entry-update g (lookup_graph g.car_class p.race_graph) 0 (v.graphs g.car_class)).0
      | inr e ↦ rw (lookup_graph, lookup-insert_ne g.car_class k _ p.race_graph e) (v.graphs k)
    ];
  }

  abbrev pub Overall : CarProcessor T → StateRequest T → RaceProcessor T → Type 0
  Overall cp payload p =
      Returns (λ q. IsValid q × (q.race_order ≡ p.race_order))
        (process_overall_race_graph cp payload p)

  pub Overall-IsValid :
      (cp : CarProcessor T) (payload : StateRequest T) (p : RaceProcessor T)
      → IsValid p
      → Overall cp payload p
  unfolding process_overall_race_graph
  Overall-IsValid cp payload p v =
      elim (Option-cases (index_func (λ (c : Car T). c.pos == 1) payload.cars)) [
        | inl e ↦ rw (e, process_overall_race_graph) (v, refl)
        | inr (i, e) ↦
            let (leader, f) = get_elem?-of_lt payload.cars i (index_func-lt _ payload.cars i e) in
            rw (e, process_overall_race_graph, f) (store_entry-IsValid _ p v, refl)
      ]

  abbrev pub HasEntry : CarProcessor T → Car T → Type 0
  HasEntry cp c = (e : CarEntry) × (lookup c.car_idx cp.by_car_idx ≡ some e)

  -- The cars of a class are at most those of the message.
  filter-length :
      (cp : CarProcessor T) (cl : CarClass) (cs : List (Car T))
      → All (HasEntry cp) cs
      → Returns (λ es. length es ≤ length cs) (filter_by_car_class cp cl cs)
  unfolding filter_by_car_class
  filter-length cp cl [] h = omega arith
  filter-length cp cl (c ∷ cs) ((e, f), h) = rw f (
      Returns-bind (λ es. length es ≤ length cs) (λ es. length es ≤ length (c ∷ cs))
        (filter_by_car_class cp cl cs) _ (filter-length cp cl cs h) (λ es l. ground arith))

module _ {T : Type 0} ⦃F : Float32 T⦄ where
  abbrev pub Kept : RaceProcessor T → RaceProcessor T → Type 0
  Kept p q = IsValid q × (q.race_order ≡ p.race_order)

  class-Kept :
      (cp : CarProcessor T) (payload : StateRequest T) (cl : CarClass) (p : RaceProcessor T)
      → IsValid p
      → All (HasEntry cp) payload.cars
      → Returns (Kept p) (process_class_race_graph cp payload cl p)
  unfolding process_class_race_graph
  class-Kept cp payload cl p v h =
      Returns-bind (λ es. length es ≤ length payload.cars) (Kept p)
        (filter_by_car_class cp cl payload.cars) _ (filter-length cp cl payload.cars h)
        (λ es l. elim (Option-cases (index_func (λ (c : Car T). c.pic == 1) es)) [
          | inl e ↦ rw e (v, refl)
          | inr (i, e) ↦
              let small = index_func-lt _ es i e in
              let (c, f) = get_elem?-of_lt payload.cars i (omega (arith, small)) in
              let (d, g) = get_elem?-of_lt es i small in
              rw (e, f, g) (store_entry-IsValid _ p v, refl)
        ])

  pub classes-Kept :
      (cp : CarProcessor T) (payload : StateRequest T) (cls : List CarClass) (p : RaceProcessor T)
      → IsValid p
      → All (HasEntry cp) payload.cars
      → Returns (Kept p) (process_class_race_graphs cp payload cls p)
  unfolding process_class_race_graphs
  classes-Kept cp payload [] p v h = (v, refl)
  classes-Kept cp payload (cl ∷ cls) p v h =
      Returns-bind (Kept p) (Kept p) (process_class_race_graph cp payload cl p) _
        (class-Kept cp payload cl p v h)
        (λ q (v', e).
          Returns-mono (Kept q) (Kept p) (process_class_race_graphs cp payload cls q)
            (classes-Kept cp payload cls q v' h) (λ r (v'', e'). (v'', e' ∙ e)))
