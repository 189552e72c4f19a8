-- ===== src/Live/Held.antt =====
-- What UnregisterEvent stores of an event that has had messages of its processor.
use iracelog_service_manager.Base.{
  String, true, Option, some, List, [], ◌∷◌, ◌++◌, ◌≡◌, refl, ◌∙◌, ap, lookup, insert, delete, ◌==◌,
  string_key, key_refl, none, Bool-cases, inl, inr, if◌then◌else◌, GoMap, Key, lookup-insert_self,
}
use iracelog_service_manager.Base.Results.{done}
use iracelog_service_manager.Processing.Compose.{Analysis}
use iracelog_service_manager.Processing.Steps.{
  Sent, analysis, racestate, driver_data, speedmap, replay, snapshot,
}
use iracelog_service_manager.Race.Types.{ReplayInfo}
use iracelog_service_manager.Car.Types.{StateRequest}
use iracelog_service_manager.States.Types.{Event, by_key}
use iracelog_service_manager.Live.Types.{
  RecordingMode, unspecified, persist, do_not_persist, EventProcessingData, EventLookup,
  PermissionEvaluator, post_racedata, Write, analysis_upsert, replay_info_update,
}
use iracelog_service_manager.Live.Lookup.{get_event, remove_event, listen, listen_all}
use iracelog_service_manager.Live.Provider.{
  is_transient, validate_event_access, store_analysis_data, store_replay_info, unregister_event,
}
use iracelog_service_manager.Live.Lookups.{delete-insert_absent}
use iracelog_service_manager.Live.Access.{unless_transient}

module _ {K V : Type 0} ⦃e : Key K⦄ where
  -- The second assignment to a key replaces the first.
  pub insert-insert : (k : K) (v w : V) (m : GoMap K V) → insert k w (insert k v m) ≡ insert k w m
  unfolding insert
  insert-insert k v w [] = rw (key_refl k) refl
  insert-insert k v w ((j, u) ∷ m) = elim (Bool-cases (j == k)) [
    | inl p ↦ rw (p, key_refl k) refl
    | inr p ↦ rw (p, p, insert-insert k v w m) refl
  ]

-- Messages that end with those that a state message makes the processor send.
abbrev pub with_state :
    {T : Type 0} → List (Sent T) → Analysis T → StateRequest T → ReplayInfo T → List (Sent T)
with_state ms a s r = ms ++ analysis a ∷ racestate s ∷ replay r ∷ []

module _ {T K : Type 0} where
  -- An event keeps what it was registered with.
  abbrev IsSame : EventProcessingData T K → EventProcessingData T K → Type 0
  IsSame epd d =
      (d.event ≡ epd.event) × (d.owner ≡ epd.owner) × (d.recording_mode ≡ epd.recording_mode)

  listen-IsSame : (m : Sent T) (epd : EventProcessingData T K) → IsSame epd (listen m epd)
  unfolding listen
  listen-IsSame (analysis a) epd = (refl, refl, refl)
  listen-IsSame (racestate s) epd = (refl, refl, refl)
  listen-IsSame (driver_data d) epd = (refl, refl, refl)
  listen-IsSame (speedmap s) epd = (refl, refl, refl)
  listen-IsSame (replay r) epd = (refl, refl, refl)
  listen-IsSame (snapshot s) epd = (refl, refl, refl)

  listen_all-IsSame :
      (ms : List (Sent T)) (epd : EventProcessingData T K) → IsSame epd (listen_all ms epd)
  unfolding listen_all
  listen_all-IsSame [] epd = (refl, refl, refl)
  listen_all-IsSame (m ∷ ms) epd =
      let (p, q, r) = listen-IsSame m epd in
      let (p', q', r') = listen_all-IsSame ms (listen m epd) in (p' ∙ p, q' ∙ q, r' ∙ r)

  listen_all-append :
      (ms ns : List (Sent T)) (epd : EventProcessingData T K)
      → listen_all (ms ++ ns) epd ≡ listen_all ns (listen_all ms epd)
  unfolding listen_all
  listen_all-append [] ns epd = refl
  listen_all-append (m ∷ ms) ns epd = listen_all-append ms ns (listen m epd)

  -- An event that has had messages that end with those of a state message.
  pub listen_all-with_state :
      (ms : List (Sent T)) (a : Analysis T) (s : StateRequest T) (r : ReplayInfo T)
      → (epd : EventProcessingData T K)
      → (let held = listen_all (with_state ms a s r) epd in
          IsSame epd held × (held.last_analysis_data ≡ some a) × (held.last_replay_info ≡ some r))
  unfolding listen_all listen
  listen_all-with_state ms a s r epd =
      let split = listen_all-append ms (analysis a ∷ racestate s ∷ replay r ∷ []) epd in
      (
        listen_all-IsSame (with_state ms a s r) epd,
        ap (λ d. d.last_analysis_data) split,
        ap (λ d. d.last_replay_info) split,
      )

module _ {T X : Type 0} where
  if_stored :
      (mode : RecordingMode) (v w : Write T X)
      → (if is_transient mode then [] else v ∷ []) ++ (if is_transient mode then [] else w ∷ [])
        ≡ unless_transient mode (v ∷ w ∷ [])
  unfolding is_transient
  if_stored unspecified v w = refl
  if_stored persist v w = refl
  if_stored do_not_persist v w = refl

module _ {X T K : Type 0} where
  stored_data :
      (d : EventProcessingData T K) (event : Event) (mode : RecordingMode)
      → (a : Option (Analysis T)) (r : Option (ReplayInfo T)) → d.event ≡ event
      → d.recording_mode ≡ mode
      → d.last_analysis_data ≡ a
      → d.last_replay_info ≡ r
      → store_analysis_data {X = X} d ++ store_replay_info d
        ≡ unless_transient mode
            (analysis_upsert event.event_id a ∷ replay_info_update event.event_id r ∷ [])
  unfolding store_analysis_data store_replay_info
  stored_data d event mode a r p q f g =
      (λ i.
        (if is_transient (q i) then [] else analysis_upsert (p i).event_id (f i) ∷ [])
        ++ (if is_transient (q i) then [] else replay_info_update (p i).event_id (g i) ∷ []))
      ∙ if_stored mode (analysis_upsert event.event_id a) (replay_info_update event.event_id r)

  -- Unregistering an event by its key, under which it alone was entered.
  pub unregister_event_held :
      {A : Type 0} (pe : PermissionEvaluator A) (b : A) (l : EventLookup T K)
      → (d : EventProcessingData T K) (event : Event) (owner : String) (mode : RecordingMode)
      → (a : Option (Analysis T)) (r : Option (ReplayInfo T)) → lookup event.key l ≡ none
      → pe.has_object_permission b post_racedata owner ≡ true
      → d.event ≡ event
      → d.owner ≡ owner
      → d.recording_mode ≡ mode
      → d.last_analysis_data ≡ a
      → d.last_replay_info ≡ r
      → unregister_event {X = X} pe b (by_key event.key) (insert event.key d l) ≡ record {
        lookup = l;
        writes =
            unless_transient mode
              (analysis_upsert event.event_id a ∷ replay_info_update event.event_id r ∷ []);
        answer = done tt;
      }
  unfolding unregister_event validate_event_access remove_event get_event
  unregister_event_held pe b l d event owner mode a r free permitted p o q f g =
      let found = lookup-insert_self event.key d l in
      let allowed : pe.has_object_permission b post_racedata d.owner ≡ true =
        ap (pe.has_object_permission b post_racedata) o ∙ permitted in
      let own : validate_event_access pe b (by_key event.key) (insert event.key d l) ≡ done d =
        rw (validate_event_access, found, allowed) refl in
      let left : remove_event (by_key event.key) (insert event.key d l) ≡ l =
        rw (remove_event, found)
          (ap (λ (x : Event). delete x.key (insert event.key d l)) p
            ∙ delete-insert_absent event.key d l free) in
      let stored = stored_data d event mode a r p q f g in
      rw (unregister_event, own)
        (λ i. record { lookup = left i; writes = stored i; answer = done tt })
