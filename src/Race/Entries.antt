-- ===== src/Race/Entries.antt =====
-- What the race graphs hold after a message.
use mathlib.Core.List.{Perm}
use iracelog_service_manager.Base.{
  ℕ, ◌<◌, true, false, none, some, List, [], ◌∷◌, ◌≡◌, ◌≢◌, refl, ◌∙◌, ap, arith,
  lookup-insert_self, ◌==◌, nat_key, string_key, key_refl, if◌then◌else◌, Bool-cases, inl, inr, All,
  sign_bit, index_func, get_elem?, find_by, ok, ◌>>=◌, Float32,
}
use iracelog_service_manager.Car.Types.{CarProcessor, Car, CarClass, StateRequest}
use iracelog_service_manager.Race.Types.{RaceGraph, RaceProcessor}
use iracelog_service_manager.Race.Graph.{
  is_racing, gap_infos, overall, overall_entry, class_entry, lookup_graph, store_entry,
  process_overall_race_graph, filter_by_car_class, process_class_race_graph,
}
use iracelog_service_manager.Race.Tables.{entry_key, put_entry-update}
use iracelog_service_manager.Race.Sorting.{HasPosition, IsSorted, sort_gaps_sorts}
use iracelog_service_manager.Race.Messages.{IsValid}

module _ {T : Type 0} where
  -- The stored entry is the one found under its class and lap; the class's other laps read as before.
  store_entry-update :
      (g : RaceGraph T) (p : RaceProcessor T) (j : ℕ)
      → IsValid p
      → find_by entry_key j (lookup_graph g.car_class (store_entry g p).race_graph) ≡ (
          if g.lap_no == j
          then some g
          else find_by entry_key j (lookup_graph g.car_class p.race_graph))
  unfolding store_entry
  store_entry-update g p j v =
      rw (lookup_graph, lookup-insert_self g.car_class _ p.race_graph)
        (put_entry-update g (lookup_graph g.car_class p.race_graph) j (v.graphs g.car_class)).1

  -- The first entry of a class.
  first_entry :
      (g : RaceGraph T) (p : RaceProcessor T) (j : ℕ)
      → IsValid p
      → lookup_graph g.car_class p.race_graph ≡ []
      → find_by entry_key j (lookup_graph g.car_class (store_entry g p).race_graph)
        ≡ (if g.lap_no == j then some g else none)
  unfolding find_by
  first_entry g p j v e =
      store_entry-update g p j v
      ∙ ap (λ gs. if g.lap_no == j then some g else find_by entry_key j gs) e

  gap_infos-HasPosition :
      (cp : CarProcessor T) (f : Car T → T) (cs : List (Car T))
      → All (λ c. c.pos < sign_bit) cs
      → All HasPosition (gap_infos cp f cs)
  unfolding gap_infos
  gap_infos-HasPosition cp f [] h = tt
  gap_infos-HasPosition cp f (c ∷ cs) h = elim (Bool-cases (is_racing c.state)) [
    | inl e ↦ rw e (h.0, gap_infos-HasPosition cp f cs h.1)
    | inr e ↦ rw e (gap_infos-HasPosition cp f cs h.1)
  ]

  -- Let the leader, the first car in position 1, stand at some index. The overall race graph then
  -- holds for the lap of the leader an entry with the racing cars of this message, each once, ordered
  -- by position; entries of other laps stay. Positions must not be negative.
  pub process_overall_race_graph-entry :
      (cp : CarProcessor T) (payload : StateRequest T) (p : RaceProcessor T) (leader : Car T)
      (i j : ℕ)
      → IsValid p
      → All (λ (c : Car T). c.pos < sign_bit) payload.cars
      → index_func (λ (c : Car T). c.pos == 1) payload.cars ≡ some i
      → get_elem? payload.cars i ≡ some leader
      → (q : RaceProcessor T) × (g : RaceGraph T) × (process_overall_race_graph cp payload p ≡ ok q)
        × (find_by entry_key j (lookup_graph overall q.race_graph) ≡ (
            if leader.lc == j
            then some g
            else find_by entry_key j (lookup_graph overall p.race_graph)))
        × IsSorted g.gaps
        × Perm g.gaps (gap_infos cp (λ c. c.gap) payload.cars)
  unfolding process_overall_race_graph
  process_overall_race_graph-entry cp payload p leader i j v h e f =
      let g = overall_entry cp leader.lc payload.cars in
      let (sorted, perm) =
        sort_gaps_sorts _ (gap_infos-HasPosition cp (λ c. c.gap) payload.cars h) in
      (
        store_entry g p,
        g,
        rw (e, process_overall_race_graph, f),
        unfold overall_entry in store_entry-update g p j v,
        unfold overall_entry in sorted,
        unfold overall_entry in perm,
      )

module _ {T : Type 0} ⦃F : Float32 T⦄ where
  -- A class whose race graph is empty gets one entry. Its lap is that of the car of the whole message
  -- at the index that the leader has among the cars of the class; where that car's lap differs from
  -- the leader's, no entry is made for the lap of the leader.
  pub process_class_race_graph-wrong_lap :
      (cp : CarProcessor T) (payload : StateRequest T) (cl : CarClass) (p : RaceProcessor T)
      (entries : List (Car T)) (leader same_index : Car T) (i : ℕ)
      → IsValid p
      → lookup_graph cl.name p.race_graph ≡ []
      → filter_by_car_class cp cl payload.cars ≡ ok entries
      → index_func (λ (c : Car T). c.pic == 1) entries ≡ some i
      → get_elem? entries i ≡ some leader
      → get_elem? payload.cars i ≡ some same_index
      → (same_index.lc == leader.lc) ≡ false
      → (q : RaceProcessor T) × (process_class_race_graph cp payload cl p ≡ ok q)
        × (find_by entry_key leader.lc (lookup_graph cl.name q.race_graph) ≡ none)
        × (find_by entry_key same_index.lc (lookup_graph cl.name q.race_graph) ≢ none)
  unfolding process_class_race_graph
  process_class_race_graph-wrong_lap cp payload cl p entries leader same_index i v empty f e l s d =
      let g = class_entry cp cl same_index.lc leader.gap entries in
      let first = λ (j : ℕ). first_entry g p j v (unfold class_entry in empty) in
      let stored : (same_index.lc == same_index.lc) ≡ true = key_refl same_index.lc in
      (
        store_entry g p,
        rw (f, ◌>>=◌, e, s, l),
        unfold class_entry in first leader.lc ∙ rw d refl,
        λ k. unfold class_entry in ground (arith, k, first same_index.lc, stored),
      )
