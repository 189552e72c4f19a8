-- ===== src/Live/Watchdog.antt =====
-- The operations of the event lookup: what they leave of it.
use iracelog_service_manager.Base.{
  ℕ, ◌+◌, String, Bool, true, false, not, inl, inr, Option, none, some, List, [], ◌∷◌, ◌≡◌, refl,
  sym, ◌∙◌, ap, key_refl, key-cases, Bool-cases, Option-cases, lookup, insert, delete, ◌==◌,
  string_key, ltb, if◌then◌else◌, All, filter, subst, lookup-insert_self, Float32,
}
use iracelog_service_manager.States.Types.{Event, EventSelector, by_key}
use iracelog_service_manager.Live.Types.{RecordingMode, EventProcessingData, EventLookup}
use iracelog_service_manager.Live.Lookup.{
  new_event, add_event, get_event, remove_event, stale_events, delete_events, watchdog_round,
}
use iracelog_service_manager.Live.Lookups.{
  IsLookup, IsKeyed, key_ne_sym, delete_absent, delete-insert_absent, insert-IsLookup,
  remove_event-IsLookup, delete-IsLookup,
}

module _ {T K : Type 0} (now stale : ℕ) where
  -- Whether an event has had data lately.
  abbrev pub is_fresh : String × EventProcessingData T K → Bool
  is_fresh (k, epd) = not (ltb (epd.last_data_event + stale) now)

  delete_events_other :
      (k : String) (epd : EventProcessingData T K) (epds : List (EventProcessingData T K))
      → (l : EventLookup T K) → All (λ d. (k == d.event.key) ≡ false) epds
      → delete_events epds ((k, epd) ∷ l) ≡ (k, epd) ∷ delete_events epds l
  unfolding delete_events delete
  delete_events_other k epd [] l h = refl
  delete_events_other k epd (d ∷ ds) l (h, hs) =
      rw h (delete_events_other k epd ds (delete d.event.key l) hs)

  has_other_key :
      {A : Type 0} (k j : String) (v : EventProcessingData T K)
      (o : Option (EventProcessingData T K))
      → j ≡ k
      → (if j == k then some v else o) ≡ none
      → A
  has_other_key k j v o p h =
      let q : (j == k) ≡ true = subst (λ x. (x == k) ≡ true) (sym p) (key_refl k) in
      let h' = rw q at h in absurd (cc)

  stale_others :
      (k : String) (l : EventLookup T K)
      → lookup k l ≡ none
      → IsKeyed l
      → All (λ d. (k == d.event.key) ≡ false) (stale_events now stale l)
  unfolding stale_events lookup
  stale_others k [] h g = tt
  stale_others k ((j, epd) ∷ l) h (g, gs) = elim (key-cases j k) [
    | inl p ↦ has_other_key k j epd (lookup k l) p h
    | inr p ↦
        let rest = stale_others k l (rw p at h) gs in
        let other_key = subst (λ x. (k == x) ≡ false) (sym g) (key_ne_sym j k p) in
        elim (Bool-cases (ltb (epd.last_data_event + stale) now)) [
          | inl e ↦ rw e (other_key, rest)
          | inr e ↦ rw e rest
        ]
  ]

  delete_first :
      (k : String) (epd : EventProcessingData T K) (l : EventLookup T K)
      → lookup k l ≡ none
      → epd.event.key ≡ k
      → delete epd.event.key ((k, epd) ∷ l) ≡ l
  unfolding delete
  delete_first k epd l absent g =
      let here : (k == epd.event.key) ≡ true = subst (λ x. (k == x) ≡ true) (sym g) (key_refl k) in
      let gone : delete epd.event.key l ≡ l =
        delete_absent epd.event.key l (subst (λ x. lookup x l ≡ none) (sym g) absent) in
      rw (here, gone) refl

  delete_events-IsLookup :
      (epds : List (EventProcessingData T K)) (l : EventLookup T K)
      → IsLookup l
      → IsLookup (delete_events epds l)
  unfolding delete_events
  delete_events-IsLookup [] l h = h
  delete_events-IsLookup (d ∷ ds) l h =
      delete_events-IsLookup ds (delete d.event.key l) (delete-IsLookup d.event.key l h)

  watchdog_round-IsLookup :
      (l : EventLookup T K) → IsLookup l → IsLookup (watchdog_round now stale l)
  unfolding watchdog_round
  watchdog_round-IsLookup l h = delete_events-IsLookup (stale_events now stale l) l h

  -- A round of the watchdog removes exactly the events whose last data are older than the stale
  -- duration, and keeps the others in their order, for a lookup with one entry for each key.
  pub watchdog_round-filter :
      (l : EventLookup T K) → IsLookup l → watchdog_round now stale l ≡ filter is_fresh l
  unfolding watchdog_round stale_events delete_events delete
  watchdog_round-filter [] h = refl
  watchdog_round-filter ((k, epd) ∷ l) ((absent, h), (g, gs)) =
      elim (Bool-cases (ltb (epd.last_data_event + stale) now)) [
        | inl e ↦ rw e (
            ap (delete_events (stale_events now stale l)) (delete_first k epd l absent g)
            ∙ watchdog_round-filter l (h, gs))
        | inr e ↦ rw e (
            delete_events_other k epd (stale_events now stale l) l (stale_others k l absent gs)
            ∙ ap {B = EventLookup T K} (λ m. (k, epd) ∷ m) (watchdog_round-filter l (h, gs)))
      ]

module _ {T K : Type 0} ⦃F : Float32 T⦄ (now : ℕ) (event : Event) (track : K) (mode : RecordingMode)
    (owner : String) (l : EventLookup T K) where
  abbrev pub new_entry : EventProcessingData T K
  new_entry = new_event now event track mode owner

  pub add_event_free :
      lookup event.key l ≡ none
      → add_event now event track mode owner l ≡ (some new_entry, insert event.key new_entry l)
  unfolding add_event
  add_event_free free = rw (add_event, free) refl

  pub add_event_taken :
      (old : EventProcessingData T K)
      → lookup event.key l ≡ some old
      → add_event now event track mode owner l ≡ (none, l)
  unfolding add_event
  add_event_taken old taken = rw (add_event, taken) refl

  pub remove_new_entry :
      lookup event.key l ≡ none → remove_event (by_key event.key) (insert event.key new_entry l) ≡ l
  unfolding remove_event get_event new_event
  remove_new_entry free =
      rw (remove_event, lookup-insert_self event.key new_entry l)
        (delete-insert_absent event.key new_entry l free)

  -- An event whose key is free is entered, is found under its key, and removing it by its key gives
  -- the lookup that there was before.
  pub add_event-remove_event :
      lookup event.key l ≡ none
      → (let (added, m) = add_event now event track mode owner l in
          (added ≡ some new_entry)
          × (get_event (by_key event.key) m ≡ some new_entry)
          × (remove_event (by_key event.key) m ≡ l))
  unfolding get_event
  add_event-remove_event free =
      let entered = add_event_free free in
      (
        ap (λ r. r.0) entered,
        ap (λ r. lookup event.key r.1) entered ∙ lookup-insert_self event.key new_entry l,
        ap (λ r. remove_event (by_key event.key) r.1) entered ∙ remove_new_entry free,
      )

  insert_new : IsLookup l → IsLookup (insert event.key new_entry l)
  unfolding new_event
  insert_new h = insert-IsLookup new_entry l h

  -- The lookup keeps one entry for each key, that of the event with this key, whatever event is
  -- added, removed or found stale.
  pub operations-IsLookup :
      (stale : ℕ) (selector : EventSelector)
      → IsLookup l
      → IsLookup (add_event now event track mode owner l).1
        × IsLookup (remove_event selector l)
        × IsLookup (watchdog_round now stale l)
  operations-IsLookup stale selector h = (
    elim (Option-cases (lookup event.key l)) [
      | inl free ↦ subst (λ r. IsLookup r.1) (sym (add_event_free free)) (insert_new h)
      | inr (old, taken) ↦ subst (λ r. IsLookup r.1) (sym (add_event_taken old taken)) h
    ],
    remove_event-IsLookup selector l h,
    watchdog_round-IsLookup now stale l h,
  )
