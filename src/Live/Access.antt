-- ===== src/Live/Access.antt =====
-- Who may publish about a live event, what is kept of it, and whom it affects.
use iracelog_service_manager.Base.{
  ℕ, zero, suc, String, Bool, true, false, not, ◌&&◌, Option, some, List, [], ◌∷◌, ◌≡◌, refl,
  lookup, ◌==◌, nat_key, string_key, if◌then◌else◌, lookup-insert_self, lookup-insert_ne, Float32,
  Outcome, ok, arith,
}
use iracelog_service_manager.Base.Results.{Result, done, fail, permission_denied}
use iracelog_service_manager.Car.Types.{StateRequest, DriverDataRequest}
use iracelog_service_manager.Car.Payload.{contains}
use iracelog_service_manager.Processing.Steps.{
  Processor, Sent, SpeedmapRequest, process_state, process_car_data, process_speedmap,
}
use iracelog_service_manager.States.Types.{EventSelector}
use iracelog_service_manager.Live.Types.{
  RecordingMode, unspecified, persist, do_not_persist, EventProcessingData, EventLookup,
  PermissionEvaluator, post_racedata, TrackPitInfo, Write, racestate_create, speedmap_create,
  car_create, dummy_racestate_create, car_proto_create,
}
use iracelog_service_manager.Live.Lookup.{get_event, mark_data_event}
use iracelog_service_manager.Live.Provider.{is_transient, validate_event_access, unregister_event}
use iracelog_service_manager.Live.Publishing.{
  StateRepositories, Posted, post_access, refuse, posted, store_state, store_speedmap,
  store_driver_data, publish_state, publish_speedmap, publish_driver_data, publish_event_extra_info,
}
use iracelog_service_manager.Live.Lookups.{IsLookup, insert-IsLookup}

module _ {T X : Type 0} where
  -- The writes of an event that is stored.
  abbrev pub unless_transient : RecordingMode → List (Write T X) → List (Write T X)
  unless_transient unspecified writes = writes
  unless_transient persist writes = writes
  unless_transient do_not_persist writes = []

module _ {T K : Type 0} (db : StateRepositories T) (epd : EventProcessingData T K) where
  -- The last row id once a race state is published: the one of the new row, if there is a new row.
  abbrev pub row_after_state : StateRequest T → ℕ
  row_after_state req = elim epd.recording_mode [
    | do_not_persist ↦ epd.last_rs_info_id
    | _ ↦
        if contains epd.race_sessions req.session.session_num
        then elim (db.create_racestate epd.event.event_id req) [
          | done i ↦ i
          | fail _ ↦ epd.last_rs_info_id
        ]
        else epd.last_rs_info_id
  ]

  -- The rows of driver data hang on the last race state, or, before there is one, on a dummy.
  abbrev pub driver_data_rows : {X : Type 0} → DriverDataRequest T → List (Write T X)
  driver_data_rows req = car_create epd.event.event_id req ∷ elim epd.last_rs_info_id [
    | zero ↦
        dummy_racestate_create epd.event.event_id
        ∷ elim (db.create_dummy_racestate_info epd.event.event_id) [
          | done i ↦ car_proto_create i req ∷ []
          | fail _ ↦ []
        ]
    | suc i ↦ car_proto_create (suc i) req ∷ []
  ]

module _ {T K X : Type 0} (epd : EventProcessingData T K) where
  state_stored :
      (mode : RecordingMode) (racing : Bool) (r : Result ℕ) (w : Write T X)
      → (let stored : List (Write T X) × EventProcessingData T K =
            if racing && not (is_transient mode)
            then (w ∷ [], elim r [ done i ↦ record epd { last_rs_info_id = i } | fail _ ↦ epd ])
            else ([], epd) in
          let row : ℕ = elim mode [
            | do_not_persist ↦ epd.last_rs_info_id
            | _ ↦
                if racing
                then elim r [ done i ↦ i | fail _ ↦ epd.last_rs_info_id ]
                else epd.last_rs_info_id
          ] in
          stored ≡ (
            unless_transient mode (if racing then w ∷ [] else []),
            record epd { last_rs_info_id = row },
          ))
  unfolding is_transient
  state_stored unspecified true (done i) w = refl
  state_stored unspecified true (fail f) w = refl
  state_stored unspecified false r w = refl
  state_stored persist true (done i) w = refl
  state_stored persist true (fail f) w = refl
  state_stored persist false r w = refl
  state_stored do_not_persist true r w = refl
  state_stored do_not_persist false r w = refl

module _ {T X : Type 0} where
  stored :
      (mode : RecordingMode) (writes : List (Write T X))
      → (if is_transient mode then [] else writes) ≡ unless_transient mode writes
  unfolding is_transient
  stored unspecified writes = refl
  stored persist writes = refl
  stored do_not_persist writes = refl

  driver_data_stored :
      (mode : RecordingMode) (row : ℕ) (car dummy : Write T X) (r : Result ℕ)
      (proto : ℕ → Write T X)
      → (if is_transient mode
          then []
          else car
            ∷ (if row == 0
                then (dummy ∷ elim r [ done i ↦ proto i ∷ [] | fail _ ↦ [] ])
                else proto row ∷ []))
        ≡ unless_transient mode (
            car ∷ elim row [
              | zero ↦ dummy ∷ elim r [ done i ↦ proto i ∷ [] | fail _ ↦ [] ]
              | suc i ↦ proto (suc i) ∷ []
            ])
  driver_data_stored mode zero car dummy r proto = stored mode _
  driver_data_stored mode (suc i) car dummy r proto =
      let known : (suc i == 0) ≡ false = ground arith in rw known (stored mode _)

module _ {T K X : Type 0} where
  -- A publishing call answers without an error, sends and writes what is given, leaves the given entry
  -- for the event and those of the other events, and one entry for each key.
  abbrev pub Leaves :
      EventLookup T K
      → EventProcessingData T K
      → EventProcessingData T K
      → List (Sent T)
      → List (Write T X)
      → Outcome (Posted T K X)
      → Type 0
  Leaves l epd entry sent writes result =
      (out : Posted T K X) × (result ≡ ok out)
      × (out.answer ≡ done tt)
      × (out.sent ≡ sent)
      × (out.writes ≡ writes)
      × ((k : String) → (epd.event.key == k) ≡ false → lookup k out.lookup ≡ lookup k l)
      × (lookup epd.event.key out.lookup ≡ some entry)
      × (IsLookup l → IsLookup out.lookup)

  -- The answer of a call that was refused with an error: nothing else has happened.
  abbrev pub refused : EventLookup T K → Result {0} Unit → Posted T K X
  refused l answer = record { lookup = l; sent = []; writes = []; answer = answer }

module _ {A T K X : Type 0} ⦃F : Float32 T⦄ (pe : PermissionEvaluator A)
    (db : StateRepositories T) where
  -- Without the permission to post race data for the event, each of the four publishing calls and
  -- UnregisterEvent answers that the permission is denied, leaves the lookup as it was, sends
  -- nothing and writes nothing to the database.
  pub no_permission-refused :
      (now : ℕ) (a : A) (selector : EventSelector) (l : EventLookup T K)
      → (state : StateRequest T) (speedmap : SpeedmapRequest T) (drivers : DriverDataRequest T)
      → (pit_info : Option (TrackPitInfo T)) (extra : X) (epd : EventProcessingData T K)
      → get_event selector l ≡ some epd
      → pe.has_object_permission a post_racedata epd.owner ≡ false
      → (publish_state pe db now a selector state l
          ≡ ok (refused {X = X} l (fail permission_denied)))
        × (publish_speedmap pe db a selector speedmap l
            ≡ ok (refused {X = X} l (fail permission_denied)))
        × (publish_driver_data pe db a selector drivers l
            ≡ ok (refused {X = X} l (fail permission_denied)))
        × (publish_event_extra_info pe db a selector pit_info extra l
            ≡ refused l (fail permission_denied))
        × (unregister_event {X = X} pe a selector l
            ≡ record { lookup = l; writes = []; answer = fail permission_denied })
  unfolding publish_state publish_speedmap publish_driver_data publish_event_extra_info
      unregister_event validate_event_access post_access refuse
  no_permission-refused now a selector l state speedmap drivers pit_info extra epd found denied =
      let post : post_access pe a selector l ≡ fail permission_denied =
        rw (post_access, found, denied) refl in
      let own : validate_event_access pe a selector l ≡ fail permission_denied =
        rw (validate_event_access, found, denied) refl in
      (
        rw (publish_state, post) refl,
        rw (publish_speedmap, post) refl,
        rw (publish_driver_data, post) refl,
        rw (publish_event_extra_info, post) refl,
        rw (unregister_event, own) refl,
      )

  module _ (l : EventLookup T K) (epd : EventProcessingData T K) where
    posted-Leaves :
        (row stamp : ℕ) (writes : List (Write T X)) (r : Processor T × List (Sent T))
        → Leaves l epd
            (record epd { processor = r.0; last_rs_info_id = row; last_data_event = stamp })
            r.1
            writes
            (ok (posted l (record epd { last_rs_info_id = row; last_data_event = stamp }) writes r))
    unfolding posted
    posted-Leaves row stamp writes (p, sent) =
        let d : EventProcessingData T K = record epd {
          last_rs_info_id = row;
          last_data_event = stamp;
        } in
        let entry : EventProcessingData T K = record d { processor = p } in
        (
          posted l d writes (p, sent),
          refl,
          refl,
          refl,
          refl,
          (λ k other. lookup-insert_ne epd.event.key k entry l other),
          lookup-insert_self epd.event.key entry l,
          (λ h. insert-IsLookup entry l h),
        )

    store_state_stored :
        (req : StateRequest T)
        → store_state {X = X} db req epd ≡ (
          unless_transient epd.recording_mode (
              if contains epd.race_sessions req.session.session_num
              then racestate_create epd.event.event_id req ∷ []
              else []),
          record epd { last_rs_info_id = row_after_state db epd req },
        )
    unfolding store_state is_transient
    store_state_stored req =
        state_stored epd epd.recording_mode (contains epd.race_sessions req.session.session_num)
          (db.create_racestate epd.event.event_id req) (racestate_create epd.event.event_id req)

    store_speedmap_stored :
        (req : SpeedmapRequest T)
        → store_speedmap {X = X} db req epd
          ≡ unless_transient epd.recording_mode (speedmap_create epd.last_rs_info_id req ∷ [])
    unfolding store_speedmap is_transient
    store_speedmap_stored req =
        stored epd.recording_mode (speedmap_create epd.last_rs_info_id req ∷ [])

    store_driver_data_stored :
        (req : DriverDataRequest T)
        → store_driver_data {X = X} db req epd
          ≡ unless_transient epd.recording_mode (driver_data_rows db epd req)
    unfolding store_driver_data is_transient
    store_driver_data_stored req =
        driver_data_stored epd.recording_mode epd.last_rs_info_id
          (car_create epd.event.event_id req) (dummy_racestate_create epd.event.event_id)
          (db.create_dummy_racestate_info epd.event.event_id) (λ i. car_proto_create i req)

  -- The three publishing calls that drive the processor, of someone who may post data for the event,
  -- on messages on which the processor does not panic. They answer without an error, send what the
  -- processor sends and keep one entry for each key. No other event changes, and of the event itself
  -- only the processor, and with a race state the time of the last data and, if it gets a row, the
  -- last row id. A race state of a race session is written, a speed map under the last row id, and
  -- driver data under the last row id, or before there is one under that of a dummy if the database
  -- gives it one, each unless the event is not to be stored.
  pub publishing-Leaves :
      (now : ℕ) (a : A) (selector : EventSelector) (l : EventLookup T K)
      → (state : StateRequest T) (speedmap : SpeedmapRequest T) (drivers : DriverDataRequest T)
      → (epd : EventProcessingData T K)
        (by_state by_speedmap by_drivers : Processor T × List (Sent T))
      → get_event selector l ≡ some epd
      → pe.has_object_permission a post_racedata epd.owner ≡ true
      → process_state state epd.processor ≡ ok by_state
      → process_speedmap speedmap epd.processor ≡ ok by_speedmap
      → process_car_data drivers epd.processor ≡ ok by_drivers
      → Leaves l epd
          (record epd {
            processor = by_state.0;
            last_rs_info_id = row_after_state db epd state;
            last_data_event = now;
          })
          by_state.1
          (unless_transient epd.recording_mode (
            if contains epd.race_sessions state.session.session_num
            then racestate_create epd.event.event_id state ∷ []
            else []))
          (publish_state {X = X} pe db now a selector state l)
        × Leaves l epd
            (record epd { processor = by_speedmap.0 })
            by_speedmap.1
            (unless_transient epd.recording_mode
              (speedmap_create epd.last_rs_info_id speedmap ∷ []))
            (publish_speedmap {X = X} pe db a selector speedmap l)
        × Leaves l epd
            (record epd { processor = by_drivers.0 })
            by_drivers.1
            (unless_transient epd.recording_mode (driver_data_rows db epd drivers))
            (publish_driver_data {X = X} pe db a selector drivers l)
  unfolding publish_state publish_speedmap publish_driver_data post_access mark_data_event
  publishing-Leaves now a selector l state speedmap drivers epd by_state by_speedmap by_drivers
        found allowed e f g =
      let post : post_access pe a selector l ≡ done epd = rw (post_access, found, allowed) refl in
      let row = epd.last_rs_info_id in
      let stamp = epd.last_data_event in
      (
        rw (publish_state, post, store_state_stored l epd state, e)
            (posted-Leaves l epd (row_after_state db epd state) now _ by_state),
        rw (publish_speedmap, post, f, store_speedmap_stored l epd speedmap)
            (posted-Leaves l epd row stamp _ by_speedmap),
        rw (publish_driver_data, post, g, store_driver_data_stored l epd drivers)
            (posted-Leaves l epd row stamp _ by_drivers),
      )
