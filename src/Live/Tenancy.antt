-- ===== src/Live/Tenancy.antt =====
-- Registering, listing and unregistering events.
use mathlib.Core.List.{append-nil, filter_map, Perm, perm_middle}
use mathlib.Core.List.Perm
use iracelog_service_manager.Base.{
  ℕ, String, Bool, true, false, inl, inr, Option, none, some, if◌then◌else◌, subst, sym, List, [],
  ◌∷◌, ◌++◌, ◌≡◌, refl, ◌∙◌, ap, lookup, Bool-cases, insert, ◌==◌, string_key, key_refl, Float32,
  ok, panic,
}
use iracelog_service_manager.Base.Results.{done}
use iracelog_service_manager.States.Types.{Event, by_key}
use iracelog_service_manager.Live.Types.{
  EventProcessingData, EventLookup, Visit, PermissionEvaluator, post_racedata,
  register_event_permission, analysis_upsert, replay_info_update,
}
use iracelog_service_manager.Live.Lookup.{new_event, listen_all, get_event, get_events, values_of}
use iracelog_service_manager.Live.Provider.{
  RegisterEventRequest, EventRepositories, container_of, containers_of, live_events, owned_events,
  list_live_events, unregister_event, create_event, track_of, enter_event, register_event,
}
use iracelog_service_manager.Live.Lookups.{insert_absent}
use iracelog_service_manager.Live.Access.{unless_transient}
use iracelog_service_manager.Live.Held.{
  with_state, listen_all-with_state, insert-insert, unregister_event_held,
}
use iracelog_service_manager.Processing.Compose.{Analysis}
use iracelog_service_manager.Processing.Steps.{Sent}
use iracelog_service_manager.Race.Types.{ReplayInfo}
use iracelog_service_manager.Car.Types.{StateRequest}
use iracelog_service_manager.Live.Watchdog.{add_event_free, add_event_taken}

module _ {T K : Type 0} where
  -- What is listed of an entry of the map.
  abbrev listed : (String → Bool) → String × EventProcessingData T K → Option (Event × K)
  listed owned (k, epd) = if owned epd.owner then some (epd.event, epd.track) else none

  owned_events-filter_map :
      (owned : String → Bool) (l : EventLookup T K)
      → owned_events owned (containers_of (values_of l)) ≡ filter_map (listed owned) l
  unfolding owned_events containers_of container_of values_of filter_map
  owned_events-filter_map owned [] = refl
  owned_events-filter_map owned ((k, epd) ∷ l) = elim (Bool-cases (owned epd.owner)) [
    | inl e ↦ rw e (
        ap {B = List (Event × K)} (λ more. (epd.event, epd.track) ∷ more)
          (owned_events-filter_map owned l))
    | inr e ↦ rw e (owned_events-filter_map owned l)
  ]

  module _ (visit : Visit T K) (visits : (m : EventLookup T K) → Perm (visit m) m)
      (owned : String → Bool) (k : String) (epd : EventProcessingData T K) (l : EventLookup T K)
      (free : lookup k l ≡ none) where
    -- After an entry, the loop over the map lists what it listed before, and the new entry.
    joins :
        Perm
          (owned_events owned (live_events visit (insert k epd l)))
          (filter_map (listed owned) ((k, epd) ∷ visit l))
    unfolding live_events get_events
    joins =
        subst (λ xs. Perm xs (filter_map (listed owned) ((k, epd) ∷ visit l)))
          (sym (owned_events-filter_map owned (visit (insert k epd l))))
          (Perm.filter_map (listed owned) (
            Perm.trans (visits (insert k epd l)) (
              Perm.trans
                (subst (λ m. Perm m ((k, epd) ∷ l ++ [])) (sym (insert_absent k epd l free))
                  (perm_middle l []))
                (Perm.cons (k, epd)
                  (subst (λ m. Perm m (visit l)) (sym (append-nil l)) (Perm.symm (visits l)))))))

    joins_owned :
        owned epd.owner ≡ true
        → Perm
            (owned_events owned (live_events visit (insert k epd l)))
            ((epd.event, epd.track) ∷ owned_events owned (live_events visit l))
    unfolding live_events get_events filter_map
    joins_owned e =
        rw (owned_events-filter_map owned (visit l))
          (subst (Perm (owned_events owned (live_events visit (insert k epd l)))) (rw e refl) joins)

    joins_other :
        owned epd.owner ≡ false
        → Perm
            (owned_events owned (live_events visit (insert k epd l)))
            (owned_events owned (live_events visit l))
    unfolding live_events get_events filter_map
    joins_other e =
        rw (owned_events-filter_map owned (visit l))
          (subst (Perm (owned_events owned (live_events visit (insert k epd l)))) (rw e refl) joins)

module _ {A T K : Type 0} ⦃F : Float32 T⦄ (pe : PermissionEvaluator A) (show : ℕ → String)
    (db : EventRepositories K) (now : ℕ) (a : A) (req : RegisterEventRequest K) (tenant : ℕ)
    (event : Event) (l : EventLookup T K) (known : pe.tenant_of a ≡ some tenant)
    (allowed : pe.has_tenant_permission a register_event_permission tenant ≡ true)
    (unused : lookup req.key l ≡ none) (created : create_event db req tenant ≡ done event) where
  -- What RegisterEvent enters.
  abbrev pub registered : EventProcessingData T K
  registered = new_event now event (track_of db req event) req.recording_mode (show tenant)

  register_enters :
      register_event pe show db now a req l ≡ enter_event pe show db now req tenant event l
  unfolding register_event get_event
  register_enters = rw (register_event, known, allowed, unused, created) refl

  register_event_free :
      lookup event.key l ≡ none
      → register_event pe show db now a req l
        ≡ ok (insert event.key registered l, done (event, track_of db req event))
  unfolding enter_event
  register_event_free free =
      register_enters
      ∙ rw
          (
            enter_event,
            add_event_free now event (track_of db req event) req.recording_mode (show tenant) l
                free,
          )
          refl

  -- If a tenant with the permission registers an event, the key of the request is unused and the
  -- created event has a key that is taken, RegisterEvent panics.
  pub register_event-panics :
      (old : EventProcessingData T K)
      → lookup event.key l ≡ some old
      → register_event pe show db now a req l ≡ panic
  unfolding enter_event
  register_event-panics old taken =
      register_enters
      ∙ rw
          (
            enter_event,
            add_event_taken now event (track_of db req event) req.recording_mode (show tenant) l old
                taken,
          )
          refl

  -- The lookup once the event is registered.
  abbrev with_event : EventLookup T K
  with_event = insert event.key registered l

  -- RegisterEvent of a tenant with the permission, when the key of the request and that of the
  -- created event are unused: the event is entered, the answer is the event and its track, and the
  -- event joins the live events that are listed for its tenant and those that are listed for no
  -- tenant, but not those of a tenant whose id prints differently, whatever the order in which the
  -- loop over the map visits them, before and after.
  pub register_event-list_live_events :
      (visit : Visit T K)
      → ((m : EventLookup T K) → Perm (visit m) m)
      → (other : ℕ) → lookup event.key l ≡ none
      → (show other == show tenant) ≡ false
      → (let track = track_of db req event in
          (register_event pe show db now a req l ≡ ok (with_event, done (event, track)))
          × Perm
              (list_live_events visit show (some tenant) with_event)
              ((event, track) ∷ list_live_events visit show (some tenant) l)
          × Perm
              (list_live_events visit show none with_event)
              ((event, track) ∷ list_live_events visit show none l)
          × Perm
              (list_live_events visit show (some other) with_event)
              (list_live_events visit show (some other) l))
  unfolding list_live_events new_event
  register_event-list_live_events visit visits other free different = (
    register_event_free free,
    joins_owned visit visits (λ owner. show tenant == owner) event.key registered l free
        (key_refl (show tenant)),
    joins_owned visit visits (λ _. true) event.key registered l free refl,
    joins_other visit visits (λ owner. show other == owner) event.key registered l free different,
  )

  -- An event is registered by a tenant with the permission, under unused keys; its processor then
  -- sends any messages, at last those for a state message, which are delivered; and it is
  -- unregistered by its key by someone who may post data for it. The lookup is then again what it
  -- was before, and unless the event is not to be stored, the database gets exactly the last analysis
  -- and the last replay info, under the id of the event.
  pub register_event-unregister_event :
      {X : Type 0} (b : A) (ms : List (Sent T))
      → (last_analysis : Analysis T) (state : StateRequest T) (last_replay : ReplayInfo T)
      → lookup event.key l ≡ none
      → pe.has_object_permission b post_racedata (show tenant) ≡ true
      → (let held = listen_all (with_state ms last_analysis state last_replay) registered in
          (register_event pe show db now a req l
            ≡ ok (with_event, done (event, track_of db req event)))
          × (unregister_event {X = X} pe b (by_key event.key) (insert event.key held with_event)
              ≡ record {
                lookup = l;
                writes = unless_transient req.recording_mode (
                    analysis_upsert event.event_id (some last_analysis)
                    ∷ replay_info_update event.event_id (some last_replay)
                    ∷ []);
                answer = done tt;
              }))
  unfolding new_event
  register_event-unregister_event {X} b ms last_analysis state last_replay free permitted =
      let held = listen_all (with_state ms last_analysis state last_replay) registered in
      let ((p, o, q), f, g) = listen_all-with_state ms last_analysis state last_replay registered in
      (
        register_event_free free,
        ap (unregister_event {X = X} pe b (by_key event.key))
              (insert-insert event.key registered held l)
            ∙ unregister_event_held pe b l held event (show tenant) req.recording_mode
                (some last_analysis) (some last_replay) free permitted p o q f g,
      )
