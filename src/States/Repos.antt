-- ===== src/States/Repos.antt =====
-- racestate_repos.go, speedmap_repos_impl.go and car_state_proto_repos.go: the reads of a range.
-- Ids, event ids and session numbers go to the database as `int32`.
use iracelog_service_manager.Base.{ℕ, ◌%◌, true, false, none, some, List, [], ◌∷◌, ◌++◌, word}
use iracelog_service_manager.Base.Results.{Result, done, fail, and_then, unmarshal_error}
use iracelog_service_manager.States.Types.{
  Table, race_state_protos, speedmap_protos, car_state_protos, Query, ProtoInfoData, RangeContainer,
  Store,
}

module _ {F D P E : Type 0} (store : Store F D P E) where
  -- The loop of loadRange over the rows.
  unfoldable pub collect :
      RangeContainer F E → List (ProtoInfoData F P) → Result (RangeContainer F E)
  collect ret [] = done ret
  collect ret (row ∷ rows) = elim (store.unmarshal row.protodata) [
    | none ↦ fail unmarshal_error
    | some message ↦
        collect
          (record {
            items = ret.items ++ message ∷ [];
            last_timestamp = row.at_stamp;
            last_session_time = row.at_session_time;
            last_rs_info_id = row.info_id;
          })
          rows
  ]

  -- loadRange; the zero timestamp is 0.
  unfoldable pub load_rows : Query D → Result (RangeContainer F E)
  unfolding collect
  load_rows q = and_then (store.all q) (
      collect (record {
        items = [];
        last_timestamp = 0;
        last_session_time = store.zero_float;
        last_rs_info_id = 0;
      }))

-- The conditions on the event alone.
unfoldable pub of_event_query : {D : Type 0} → Table → ℕ → ℕ → Query D
of_event_query table event_id limit = record {
  table = table;
  of_event = event_id % word;
  from_stamp = none;
  in_session = none;
  from_session_time = none;
  from_id = none;
  limit = limit;
  then_by_stamp = false;
}

-- The four reads of a range that the three repositories offer.
pub record RangeRepository (F D E : Type 0) : Type 0 where
  pub load_range : ℕ → ℕ → ℕ → Result (RangeContainer F E)
  pub load_range_by_session_time : ℕ → ℕ → D → ℕ → Result (RangeContainer F E)
  pub load_range_by_id : ℕ → ℕ → ℕ → Result (RangeContainer F E)
  pub load_range_by_id_within_session : ℕ → ℕ → ℕ → ℕ → Result (RangeContainer F E)

module _ {F D P E : Type 0} (store : Store F D P E) where
  -- racestate_repos.go
  unfoldable pub racestate : RangeRepository F D E
  unfolding load_rows of_event_query
  racestate = record {
    load_range = λ event_id start_ts limit.
        load_rows store
          (record (of_event_query race_state_protos event_id limit) { from_stamp = some start_ts });
    load_range_by_session_time = λ event_id session_num session_time limit.
        load_rows store (record (of_event_query race_state_protos event_id limit) {
          in_session = some (session_num % word);
          from_session_time = some session_time;
        });
    load_range_by_id = λ event_id rs_info_id limit.
        load_rows store (record (of_event_query race_state_protos event_id limit) {
          from_id = some (rs_info_id % word);
        });
    load_range_by_id_within_session = λ event_id session_num rs_info_id limit.
        load_rows store (record (of_event_query race_state_protos event_id limit) {
          from_id = some (rs_info_id % word);
          in_session = some (session_num % word);
        });
  }

  -- speedmap_repos_impl.go
  unfoldable pub speedmap : RangeRepository F D E
  unfolding load_rows of_event_query
  speedmap = record {
    load_range = λ event_id start_ts limit.
        load_rows store
          (record (of_event_query speedmap_protos event_id limit) { from_stamp = some start_ts });
    load_range_by_session_time = λ event_id session_num session_time limit.
        load_rows store (record (of_event_query speedmap_protos event_id limit) {
          in_session = some (session_num % word);
          from_session_time = some session_time;
        });
    load_range_by_id = λ event_id rs_info_id limit.
        load_rows store (record (of_event_query speedmap_protos event_id limit) {
          from_id = some (rs_info_id % word);
        });
    load_range_by_id_within_session = λ event_id session_num rs_info_id limit.
        load_rows store (record (of_event_query speedmap_protos event_id limit) {
          from_id = some (rs_info_id % word);
          in_session = some (session_num % word);
        });
  }

  -- car_state_proto_repos.go: the reads by id order by the time too.
  unfoldable pub car_proto : RangeRepository F D E
  unfolding load_rows of_event_query
  car_proto = record {
    load_range = λ event_id start_ts limit.
        load_rows store
          (record (of_event_query car_state_protos event_id limit) { from_stamp = some start_ts });
    load_range_by_session_time = λ event_id session_num session_time limit.
        load_rows store (record (of_event_query car_state_protos event_id limit) {
          in_session = some (session_num % word);
          from_session_time = some session_time;
        });
    load_range_by_id = λ event_id rs_info_id limit.
        load_rows store (record (of_event_query car_state_protos event_id limit) {
          from_id = some (rs_info_id % word);
          then_by_stamp = true;
        });
    load_range_by_id_within_session = λ event_id session_num rs_info_id limit.
        load_rows store (record (of_event_query car_state_protos event_id limit) {
          from_id = some (rs_info_id % word);
          in_session = some (session_num % word);
          then_by_stamp = true;
        });
  }
