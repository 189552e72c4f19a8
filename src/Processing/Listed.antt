-- ===== src/Processing/Listed.antt =====
-- ComposeAnalysisData: what the analysis holds of a registered car.
use iracelog_service_manager.Base.{
  String, Bool, true, false, Option, none, some, List, [], ◌∷◌, map, ◌≡◌, refl, sym, ◌∙◌, ap, GoMap,
  lookup, string_key, key-cases, if◌then◌else◌, ◌⊎◌, inl, inr, subst,
}
use iracelog_service_manager.Car.Types.{CarProcessor, CarEntry}
use iracelog_service_manager.Race.Types.{RaceProcessor}
use iracelog_service_manager.Processing.Compose.{
  less, insert_name, sort_names, sorted_map_keys, flatten_by_reference, compose_analysis_data,
}

-- An item of a list.
abbrev pub In : {A : Type 0} → A → List A → Type 0
In x [] = ⊥
In x (y ∷ ys) = (y ≡ x) ⊎ In x ys

-- The value that a key has, if any, is in the list.
abbrev pub HoldsIfAny : {A : Type 0} → Option A → List A → Type 0
HoldsIfAny none ys = Unit
HoldsIfAny (some x) ys = In x ys

In-if :
    {A : Type 0} (b : Bool) (x : A) (ys zs : List A)
    → In x ys
    → In x zs
    → In x (if b then ys else zs)
In-if true x ys zs h k = h
In-if false x ys zs h k = k

-- The list with or without one more item in front.
In-later :
    {A : Type 0} (x : A) (o : Option A) (ys : List A)
    → In x ys
    → In x (elim o [ none ↦ ys | some y ↦ y ∷ ys ])
In-later x none ys h = h
In-later x (some y) ys h = inr h

In-insert_name_self : (k : String) (js : List String) → In k (insert_name k js)
unfolding insert_name
In-insert_name_self k [] = inl refl
In-insert_name_self k (j ∷ js) =
    In-if (less k j) k (k ∷ j ∷ js) (j ∷ insert_name k js) (inl refl)
      (inr (In-insert_name_self k js))

In-insert_name : (k x : String) (js : List String) → In x js → In x (insert_name k js)
unfolding insert_name
In-insert_name k x [] h = absurd h
In-insert_name k x (j ∷ js) (inl e) =
    In-if (less k j) x (k ∷ j ∷ js) (j ∷ insert_name k js) (inr (inl e)) (inl e)
In-insert_name k x (j ∷ js) (inr h) =
    In-if (less k j) x (k ∷ j ∷ js) (j ∷ insert_name k js) (inr (inr h))
      (inr (In-insert_name k x js h))

-- A key of the map is among its sorted keys.
In-sorted_map_keys :
    {E : Type 0} (m : GoMap String E) (k : String) {v : E}
    → lookup k m ≡ some v
    → In k (sorted_map_keys m)
unfolding sorted_map_keys sort_names lookup
In-sorted_map_keys [] k h = absurd cc
In-sorted_map_keys ((j, w) ∷ m) k h = elim (key-cases j k) [
  | inl e ↦
      subst (λ x. In x (insert_name j (sort_names (map (λ (i, _). i) m)))) e
        (In-insert_name_self j (sort_names (map (λ (i, _). i) m)))
  | inr e ↦
      In-insert_name j k (sort_names (map (λ (i, _). i) m))
        (In-sorted_map_keys m k (sym (ap (λ b. if b then some w else lookup k m) e) ∙ h))
]

In-flatten_by_reference :
    {E : Type 0} (m : GoMap String E) (k : String) (v : E) (ks : List String)
    → lookup k m ≡ some v
    → In k ks
    → In v (flatten_by_reference m ks)
unfolding flatten_by_reference
In-flatten_by_reference m k v [] e h = absurd h
In-flatten_by_reference m k v (j ∷ js) e (inl f) =
    subst
      (λ o.
        In v (elim o [ none ↦ flatten_by_reference m js | some w ↦ w ∷ flatten_by_reference m js ]))
      (sym (ap (λ x. lookup x m) f ∙ e)) (inl refl)
In-flatten_by_reference m k v (j ∷ js) e (inr h) =
    In-later v (lookup j m) (flatten_by_reference m js) (In-flatten_by_reference m k v js e h)

-- Whatever a listed key has is among the flattened values.
HoldsIfAny-flatten_by_reference :
    {E : Type 0} (m : GoMap String E) (k : String) (ks : List String)
    → In k ks
    → HoldsIfAny (lookup k m) (flatten_by_reference m ks)
HoldsIfAny-flatten_by_reference m k ks h = go (lookup k m) refl
  where
    go : (o : Option _) → lookup k m ≡ o → HoldsIfAny o (flatten_by_reference m ks)
    go none e = tt
    go (some v) e = In-flatten_by_reference m k v ks e h

-- The analysis holds all that is known of every registered car: its laps, its compute state, its
-- stints, its pit stops and its occupancy, each if there is any.
pub compose_analysis_data-HoldsIfAny :
    {T : Type 0} (cars : CarProcessor T) (race : RaceProcessor T) (num : String) (e : CarEntry)
    → lookup num cars.by_car_num ≡ some e
    → let a = compose_analysis_data cars race in
      HoldsIfAny (lookup num race.car_laps) a.car_laps
      × HoldsIfAny (lookup num cars.compute_state) a.car_compute_states
      × HoldsIfAny (lookup num cars.stint_lookup) a.car_stints
      × HoldsIfAny (lookup num cars.pit_lookup) a.car_pits
      × HoldsIfAny (lookup num cars.car_occupancy_lookup) a.car_occupancies
unfolding compose_analysis_data
compose_analysis_data-HoldsIfAny cars race num e h =
    let nums = sorted_map_keys cars.by_car_num in
    let listed = In-sorted_map_keys cars.by_car_num num h in
    (
      HoldsIfAny-flatten_by_reference race.car_laps num nums listed,
      HoldsIfAny-flatten_by_reference cars.compute_state num nums listed,
      HoldsIfAny-flatten_by_reference cars.stint_lookup num nums listed,
      HoldsIfAny-flatten_by_reference cars.pit_lookup num nums listed,
      HoldsIfAny-flatten_by_reference cars.car_occupancy_lookup num nums listed,
    )
