-- ===== src/Live/Provider.antt =====
-- provider_server.go, with the proxy of local.go: events are registered, listed and unregistered.
use iracelog_service_manager.Base.{
  ℕ, String, Bool, true, false, not, Option, none, some, List, [], ◌∷◌, ◌++◌, ◌==◌, string_key,
  if◌then◌else◌, Float32, Outcome, ok, deref, ◌>>=◌,
}
use iracelog_service_manager.Base.Results.{
  Result, done, fail, and_then, permission_denied, already_exists, not_found,
}
use iracelog_service_manager.States.Types.{Event, EventSelector, by_key}
use iracelog_service_manager.Live.Types.{
  RecordingMode, unspecified, persist, do_not_persist, EventProcessingData, EventLookup, Visit,
  PermissionEvaluator, register_event_permission, post_racedata, admin_unregister_all_events, Write,
  analysis_upsert, replay_info_update,
}
use iracelog_service_manager.Live.Lookup.{add_event, get_event, get_events, remove_event, clear}

-- `epd.RecordingMode == RECORDING_MODE_DO_NOT_PERSIST`
unfoldable pub is_transient : RecordingMode → Bool
is_transient unspecified = false
is_transient persist = false
is_transient do_not_persist = true

-- providerv1.RegisterEventRequest
pub record RegisterEventRequest (K : Type 0) : Type 0 where
  pub key : String
  pub event : Event
  pub track : K
  pub recording_mode : RecordingMode

-- What RegisterEvent uses of the repositories; creating an event gives it its ids.
pub record EventRepositories (K : Type 0) : Type 0 where
  pub ensure_track : K → Result {0} Unit
  pub create : Event → ℕ → Result Event
  pub load_track : ℕ → Result K

-- containerv1.EventContainer
pub record EventContainer (K : Type 0) : Type 0 where
  pub event : Event
  pub track : K
  pub owner : String

-- What UnregisterEvent and UnregisterAll leave: the lookup and the writes to the database.
pub record Left (T K X R : Type 0) : Type 0 where
  pub lookup : EventLookup T K
  pub writes : List (Write T X)
  pub answer : Result R

module _ {K : Type 0} where
  -- The loop of ListLiveEvents; `owned` tells whether the tenant that was asked for owns the event.
  unfoldable pub owned_events : (String → Bool) → List (EventContainer K) → List (Event × K)
  owned_events owned [] = []
  owned_events owned (c ∷ cs) =
      let rest = owned_events owned cs in if owned c.owner then (c.event, c.track) ∷ rest else rest

module _ {T K : Type 0} where
  unfoldable pub container_of : EventProcessingData T K → EventContainer K
  container_of epd = record { event = epd.event; track = epd.track; owner = epd.owner }

  -- LiveEvents of the proxy.
  unfoldable pub containers_of : List (EventProcessingData T K) → List (EventContainer K)
  unfolding container_of
  containers_of [] = []
  containers_of (epd ∷ epds) = container_of epd ∷ containers_of epds

  unfoldable pub live_events : Visit T K → EventLookup T K → List (EventContainer K)
  unfolding containers_of get_events
  live_events visit l = containers_of (get_events visit l)

  -- ListLiveEvents, for the tenant of the selector if there is one; `show` prints its id.
  unfoldable pub list_live_events :
      Visit T K → (ℕ → String) → Option ℕ → EventLookup T K → List (Event × K)
  unfolding owned_events live_events
  list_live_events visit show none l = owned_events (λ _. true) (live_events visit l)
  list_live_events visit show (some t) l =
      owned_events (λ owner. show t == owner) (live_events visit l)

module _ {T K X : Type 0} where
  -- storeAnalysisData
  unfoldable pub store_analysis_data : EventProcessingData T K → List (Write T X)
  unfolding is_transient
  store_analysis_data epd =
      if is_transient epd.recording_mode
      then []
      else analysis_upsert epd.event.event_id epd.last_analysis_data ∷ []

  -- storeReplayInfo
  unfoldable pub store_replay_info : EventProcessingData T K → List (Write T X)
  unfolding is_transient
  store_replay_info epd =
      if is_transient epd.recording_mode
      then []
      else replay_info_update epd.event.event_id epd.last_replay_info ∷ []

  -- The loop of UnregisterAll.
  unfoldable pub store_all : List (EventProcessingData T K) → List (Write T X)
  unfolding store_analysis_data
  store_all [] = []
  store_all (epd ∷ epds) = store_analysis_data epd ++ store_all epds

module _ {A T K : Type 0} (pe : PermissionEvaluator A) where
  -- validateEventAccess
  unfoldable pub validate_event_access :
      A → EventSelector → EventLookup T K → Result (EventProcessingData T K)
  unfolding get_event
  validate_event_access a selector l = elim (get_event selector l) [
    | none ↦ elim (pe.tenant_of a) [
      | none ↦ fail permission_denied
      | some tenant ↦
          if pe.has_tenant_permission a post_racedata tenant
          then fail not_found
          else fail permission_denied
    ]
    | some epd ↦
        if pe.has_object_permission a post_racedata epd.owner
        then done epd
        else fail permission_denied
  ]

module _ {A T K X : Type 0} (pe : PermissionEvaluator A) where
  -- UnregisterEvent
  unfoldable pub unregister_event : A → EventSelector → EventLookup T K → Left T K X Unit
  unfolding validate_event_access store_analysis_data store_replay_info remove_event
  unregister_event a selector l = elim (validate_event_access pe a selector l) [
    | fail e ↦ record { lookup = l; writes = []; answer = fail e }
    | done epd ↦ record {
      lookup = remove_event selector l;
      writes = store_analysis_data epd ++ store_replay_info epd;
      answer = done tt;
    }
  ]

  -- UnregisterAll
  unfoldable pub unregister_all : Visit T K → A → EventLookup T K → Left T K X (List (Event × K))
  unfolding store_all owned_events live_events clear
  unregister_all visit a l =
      if pe.has_permission a admin_unregister_all_events
      then record {
        lookup = clear l;
        writes = store_all (get_events visit l);
        answer = done (owned_events (λ _. true) (live_events visit l));
      }
      else record { lookup = l; writes = []; answer = fail permission_denied }

module _ {K : Type 0} (db : EventRepositories K) where
  -- storeData of RegisterEvent: the event with the ids that the database gave it.
  unfoldable pub create_event : RegisterEventRequest K → ℕ → Result Event
  unfolding is_transient
  create_event req tenant =
      if is_transient req.recording_mode
      then done req.event
      else and_then (db.ensure_track req.track) (λ _. db.create req.event tenant)

  -- `dbTrack`
  unfoldable pub track_of : RegisterEventRequest K → Event → K
  track_of req event = elim (db.load_track event.track_id) [ done t ↦ t | fail _ ↦ req.track ]

module _ {A T K : Type 0} ⦃F : Float32 T⦄ (pe : PermissionEvaluator A) (show : ℕ → String)
    (db : EventRepositories K) where
  -- The end of RegisterEvent: AddEvent returns nil if the key of the event is taken, and the worker
  -- for the analysis data reads through it.
  unfoldable pub enter_event :
      ℕ
      → RegisterEventRequest K
      → ℕ
      → Event
      → EventLookup T K
      → Outcome (EventLookup T K × Result (Event × K))
  unfolding track_of add_event
  enter_event now req tenant event l =
      let track = track_of db req event in
      let (added, l') = add_event now event track req.recording_mode (show tenant) l in
      deref added >>= λ epd. ok (l', done (event, track))

  -- RegisterEvent
  unfoldable pub register_event :
      ℕ
      → A
      → RegisterEventRequest K
      → EventLookup T K
      → Outcome (EventLookup T K × Result (Event × K))
  unfolding get_event create_event enter_event
  register_event now a req l = elim (pe.tenant_of a) [
    | none ↦ ok (l, fail permission_denied)
    | some tenant ↦
        if not (pe.has_tenant_permission a register_event_permission tenant)
        then ok (l, fail permission_denied)
        else elim (get_event (by_key req.key) l) [
          | some _ ↦ ok (l, fail already_exists)
          | none ↦ elim (create_event db req tenant) [
            | fail e ↦ ok (l, fail e)
            | done event ↦ enter_event now req tenant event l
          ]
        ]
  ]
