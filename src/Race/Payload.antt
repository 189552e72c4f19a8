-- ===== src/Race/Payload.antt =====
-- race_processor.go: checkValidData, processReplayInfo and ProcessStatePayload.
use iracelog_service_manager.Base.{
  ℕ, Bool, true, false, not, ◌&&◌, Option, none, some, List, [], ◌∷◌, map, ◌==◌, nat_key,
  string_key, if◌then◌else◌, index_func, Outcome, ok, ◌>>=◌, Float32, minus_one, zero_t,
}
use iracelog_service_manager.Car.Types.{CarProcessor, Car, StateRequest, Message}
use iracelog_service_manager.Car.Payload.{contains}
use iracelog_service_manager.Race.Types.{RaceProcessor, ReplayInfo}
use iracelog_service_manager.Race.Laps.{num_of, process_car_laps}
use iracelog_service_manager.Race.Graph.{process_overall_race_graph, process_class_race_graphs}

-- The message that marks the start of the race.
unfoldable pub is_race_start : Message → Bool
is_race_start m = m.msg == "Race start" && (m.is_timing && m.is_race_control)

module _ {T : Type 0} where
  -- checkValidData
  unfoldable pub check_valid_data : CarProcessor T → List (Car T) → Bool
  check_valid_data cp [] = true
  check_valid_data cp (c ∷ cs) =
      not (c.car_idx == minus_one) && (not (num_of cp c == "") && check_valid_data cp cs)

  -- The start of the replay is now.
  unfoldable pub mark_start : ℕ → T → ReplayInfo T → ReplayInfo T
  mark_start ts t i = record i { min_timestamp = some ts; min_session_time = t }

  -- `else if p.ReplayInfo.MinTimestamp == nil`
  unfoldable pub mark_first : ℕ → T → Option ℕ → ReplayInfo T → ReplayInfo T
  unfolding mark_start
  mark_first ts t none i = mark_start ts t i
  mark_first ts t (some _) i = i

  -- processReplayInfo
  unfoldable pub process_replay_info : StateRequest T → T → RaceProcessor T → RaceProcessor T
  unfolding mark_start mark_first contains is_race_start
  process_replay_info payload t p =
      if contains p.race_sessions payload.session.session_num
      then (let info = record p.replay_info { max_session_time = t } in
          if p.race_start_marker_found
          then record p { replay_info = info }
          else (elim (index_func is_race_start payload.messages) [
            | some i ↦ record p {
              replay_info = mark_start payload.timestamp t info;
              race_start_marker_found = true;
            }
            | none ↦ record p {
              replay_info = mark_first payload.timestamp t info.min_timestamp info;
            }
          ]))
      else p

module _ {T : Type 0} ⦃F : Float32 T⦄ where
  -- ProcessStatePayload
  unfoldable pub process_state_payload :
      CarProcessor T → StateRequest T → RaceProcessor T → Outcome (RaceProcessor T)
  unfolding check_valid_data process_replay_info process_overall_race_graph
      process_class_race_graphs process_car_laps
  process_state_payload cp payload p =
      if check_valid_data cp payload.cars
      then (do
        let ordered = record p { race_order = map (num_of cp) payload.cars }
        q ← process_overall_race_graph cp payload (process_car_laps cp payload.cars ordered)
        r ← process_class_race_graphs cp payload cp.car_classes q
        ok (process_replay_info payload payload.session.session_time r))
      else ok p

  -- NewRaceProcessor with its options
  unfoldable pub new_race_processor : List ℕ → RaceProcessor T
  new_race_processor sessions = record {
    race_order = [];
    car_laps = [];
    race_graph = [];
    replay_info = record {
      min_timestamp = none;
      min_session_time = zero_t;
      max_session_time = zero_t;
    };
    race_sessions = sessions;
    race_start_marker_found = false;
    time_infos = [];
  }
