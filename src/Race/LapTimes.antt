-- ===== src/Race/LapTimes.antt =====
-- processCarLaps as a map from cars and lap numbers to lap times.
use iracelog_service_manager.Base.{
  ℕ, String, Bool, false, not, ◌&&◌, Option, some, List, [], ◌∷◌, ◌≡◌, refl, ◌∙◌, ap, insert,
  lookup-insert_self, lookup-insert_ne, key-cases, key_refl, ◌==◌, nat_key, string_key,
  if◌then◌else◌, lt32, Bool-cases, inl, inr, find_by, Distinct,
}
use iracelog_service_manager.Car.Types.{CarProcessor, Car}
use iracelog_service_manager.Race.Types.{CarLaps, RaceProcessor}
use iracelog_service_manager.Race.Laps.{
  num_of, car_entry, process_lap, process_car_laps, note_time_info,
}
use iracelog_service_manager.Race.Tables.{lap_key, time_of, record_lap-update}

module _ {T : Type 0} where
  -- The time of a car's lap, as the processor's tables have it.
  abbrev pub lap_time_of : RaceProcessor T → String → ℕ → Option T
  lap_time_of p n j = time_of (find_by lap_key j (car_entry n p.car_laps).laps)

  -- No car has two laps with one number.
  abbrev pub LapsAreDistinct : RaceProcessor T → Type 0
  LapsAreDistinct p = (n : String) → Distinct lap_key (car_entry n p.car_laps).laps

  -- The message records this lap of this car.
  abbrev pub records : CarProcessor T → Car T → String → ℕ → Bool
  records cp c n j = not (lt32 c.lc 1) && (num_of cp c == n && c.lc == j)

  -- What a message's cars, in their order, make of the time of one lap.
  unfoldable pub latest_time : CarProcessor T → List (Car T) → String → ℕ → Option T → Option T
  latest_time cp [] n j time = time
  latest_time cp (c ∷ cs) n j time =
      latest_time cp cs n j (if records cp c n j then some c.last else time)

  car_entry-insert_self :
      (n : String) (e : CarLaps T) (p : RaceProcessor T) → car_entry n (insert n e p.car_laps) ≡ e
  unfolding car_entry
  car_entry-insert_self n e p = rw (lookup-insert_self n e p.car_laps, car_entry)

  car_entry-insert_ne :
      (n m : String) (e : CarLaps T) (p : RaceProcessor T)
      → (n == m) ≡ false
      → car_entry m (insert n e p.car_laps) ≡ car_entry m p.car_laps
  unfolding car_entry
  car_entry-insert_ne n m e p h = rw (lookup-insert_ne n m e p.car_laps h, car_entry)

  process_lap-update :
      (cp : CarProcessor T) (c : Car T) (p : RaceProcessor T)
      → LapsAreDistinct p
      → (n : String) (j : ℕ)
      → Distinct lap_key (car_entry n (process_lap cp c p).car_laps).laps
        × (lap_time_of (process_lap cp c p) n j
            ≡ (if records cp c n j then some c.last else lap_time_of p n j))
  unfolding process_lap
  process_lap-update cp c p d n j = elim (Bool-cases (lt32 c.lc 1)) [
    | inl early ↦ rw early (d n, refl)
    | inr racing ↦ elim (key-cases (num_of cp c) n) [
      | inl k ↦
          let update =
            record_lap-update (num_of cp c) c.lc c.last
              (note_time_info (num_of cp c) c.time_info p.time_infos)
              (car_entry (num_of cp c) p.car_laps).laps j (d (num_of cp c)) in
          rw (racing, ← k, key_refl (num_of cp c), car_entry-insert_self) update
      | inr k ↦ rw (racing, k, car_entry-insert_ne (num_of cp c) n _ p k) (d n, refl)
    ]
  ]

  -- After a message every car still has at most one lap for a number, and the time of each lap is
  -- that of the last car of the message that records it, or the time before if none does.
  pub process_car_laps-latest_time :
      (cp : CarProcessor T) (cs : List (Car T)) (p : RaceProcessor T)
      → LapsAreDistinct p
      → LapsAreDistinct (process_car_laps cp cs p)
        × ((n : String) (j : ℕ)
            → lap_time_of (process_car_laps cp cs p) n j
              ≡ latest_time cp cs n j (lap_time_of p n j))
  unfolding process_car_laps latest_time
  process_car_laps-latest_time cp [] p d = (d, λ n j. refl)
  process_car_laps-latest_time cp (c ∷ cs) p d =
      let q = process_lap cp c p in
      let (d', rest) =
        process_car_laps-latest_time cp cs q (λ n. (process_lap-update cp c p d n 0).0) in
      (d', λ n j. rest n j ∙ ap (latest_time cp cs n j) (process_lap-update cp c p d n j).1)
