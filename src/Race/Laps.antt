-- ===== src/Race/Laps.antt =====
-- race_processor.go: processCarLaps and getLapInfo.
use iracelog_service_manager.Base.{
  ℕ, String, Option, none, some, List, [], ◌∷◌, ◌++◌, GoMap, lookup, insert, delete, ◌==◌, nat_key,
  string_key, if◌then◌else◌, index_func, get_elem?, set, lt32,
}
use iracelog_service_manager.Car.Types.{CarProcessor, Car, TimeInfo}
use iracelog_service_manager.Car.Drivers.{lookup_name}
use iracelog_service_manager.Race.Types.{LapInfo, Lap, CarLaps, RaceProcessor}

-- `p.carProcessor.NumByIdx[uint32(idx)]`
abbrev pub num_of : {T : Type 0} → CarProcessor T → Car T → String
num_of cp c = lookup_name c.car_idx cp.num_by_idx

module _ {T : Type 0} where
  -- getLapInfo: the lap info, and the time infos without the one that is used up.
  unfoldable pub get_lap_info :
      String → ℕ → GoMap String (TimeInfo T) → Option (LapInfo T) × GoMap String (TimeInfo T)
  get_lap_info num lc infos = elim (lookup num infos) [
    | none ↦ (none, infos)
    | some ti ↦
        if ti.lap_no == lc
        then (some (record { mode = ti.lap_mode; time = ti.time }), delete num infos)
        else (none, infos)
  ]

  -- The info of the lap at an index, which a replaced lap keeps.
  abbrev info_at : List (Lap T) → ℕ → Option (LapInfo T)
  info_at laps i = elim (get_elem? laps i) [ none ↦ none | some l ↦ l.lap_info ]

  -- A lap is replaced where its number is there, and appended where it is not.
  unfoldable pub record_lap :
      String
      → ℕ
      → T
      → GoMap String (TimeInfo T)
      → List (Lap T)
      → List (Lap T) × GoMap String (TimeInfo T)
  unfolding get_lap_info
  record_lap num lc time infos laps = elim (index_func (λ (l : Lap T). l.lap_no == lc) laps) [
    | some i ↦
        (set laps i (record { lap_no = lc; lap_time = time; lap_info = info_at laps i }), infos)
    | none ↦
        let (info, infos') = get_lap_info num lc infos in
        (laps ++ record { lap_no = lc; lap_time = time; lap_info = info } ∷ [], infos')
  ]

  -- `carEntry, ok := p.CarLaps[carNum]`, with the entry that is made if there is none.
  unfoldable pub car_entry : String → GoMap String (CarLaps T) → CarLaps T
  car_entry num m = elim (lookup num m) [ none ↦ record { car_num = num; laps = [] } | some e ↦ e ]

  -- `if carMsgEntry.TimeInfo != nil { p.timeInfos[carNum] = carMsgEntry.TimeInfo }`
  unfoldable pub note_time_info :
      String → Option (TimeInfo T) → GoMap String (TimeInfo T) → GoMap String (TimeInfo T)
  note_time_info num none m = m
  note_time_info num (some ti) m = insert num ti m

  -- One round of processCarLaps.
  unfoldable pub process_lap : CarProcessor T → Car T → RaceProcessor T → RaceProcessor T
  unfolding record_lap car_entry note_time_info
  process_lap cp c p =
      if lt32 c.lc 1
      then p
      else (let num = num_of cp c in
          let entry = car_entry num p.car_laps in
          let (laps, infos) =
            record_lap num c.lc c.last (note_time_info num c.time_info p.time_infos) entry.laps in
          record p {
            car_laps = insert num (record entry { laps = laps }) p.car_laps;
            time_infos = infos;
          })

  -- processCarLaps
  unfoldable pub process_car_laps :
      CarProcessor T → List (Car T) → RaceProcessor T → RaceProcessor T
  unfolding process_lap
  process_car_laps cp [] p = p
  process_car_laps cp (c ∷ cs) p = process_car_laps cp cs (process_lap cp c p)
