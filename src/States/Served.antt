-- ===== src/States/Served.antt =====
-- The calls for stored messages send what was asked for.
use iracelog_service_manager.Base.{
  ℕ, ◌-◌, ◌<◌, ◌≤◌, Bool, true, false, none, some, List, [], ◌∷◌, ◌++◌, ◌≡◌, refl, sym, ◌∙◌, ap,
  arith, Bool-cases, inl, inr, word, All, All-filter, filter, filter_cong, filter-All, take, length,
  sign_bit, leb,
}
use iracelog_service_manager.Base.Results.{done}
use iracelog_service_manager.States.Types.{
  Event, EventSelector, Table, race_state_protos, speedmap_protos, car_state_protos, StartSelector,
  id, Store,
}
use iracelog_service_manager.States.Repos.{racestate, speedmap, car_proto}
use iracelog_service_manager.States.Pages.{
  resolve_event, state_page, other_page, racestates_initial, racestates_next, speedmaps_initial,
  driver_data_initial,
}
use iracelog_service_manager.States.Streams.{
  get_states, get_speedmaps, get_driver_data, get_state_stream,
}
use iracelog_service_manager.States.Rows.{
  Stored, id_of, IsSorted, IsSorted-filter, IsRowId, is_after, messages, Answers, IsPage,
}
use iracelog_service_manager.States.Paging.{allowed}
use iracelog_service_manager.States.Reads.{
  racestate-ReadsTable, speedmap-ReadsTable, car_proto-ReadsTable, IsKnown, in_scope, selected,
  filter-from_id,
}
use iracelog_service_manager.States.Sent.{request, page_bound, get_stream_sends, get_page-IsPage}

module _ {F D P : Type 0} where
  same_from :
      (i : ℕ) (rs : List (Stored F D P))
      → All IsRowId rs
      → All (λ r. is_after (i - 1) r ≡ leb i (id_of r)) rs
  same_from i [] h = tt
  same_from i (r ∷ rs) ((k, _), h) = (ground arith, same_from i rs h)

  leb-from :
      (i j : ℕ) (rs : List (Stored F D P))
      → i ≤ j
      → All (λ r. j < id_of r) rs
      → All (λ r. leb i (id_of r) ≡ true) rs
  leb-from i j [] h k = tt
  leb-from i j (r ∷ rs) h (k, ks) = (ground arith, leb-from i j rs h ks)

  -- In sorted rows, those from an id on are the last ones.
  sorted_split :
      (i : ℕ) (rs : List (Stored F D P))
      → IsSorted rs
      → (before : List (Stored F D P)) × (rs ≡ before ++ filter (λ r. leb i (id_of r)) rs)
  sorted_split i [] h = ([], refl)
  sorted_split i (r ∷ rs) (h, k) =
      let (before, split) = sorted_split i rs k in
      elim (Bool-cases (leb i (id_of r))) [
        | inl e ↦
            let low : i ≤ id_of r = ground arith in
            ([], rw (e, filter-All _ rs (leb-from i (id_of r) rs low h)) refl)
        | inr e ↦ (r ∷ before, rw e (ap {B = List (Stored F D P)} (λ l. r ∷ l) split))
      ]

module _ {F D P S M R : Type 0} (states : Store F D P S) (speedmaps : Store F D P M)
    (drivers : Store F D P R) (at_most : D → D → Bool)
    (s_rows m_rows d_rows : Table → List (Stored F D P)) where
  -- The calls that return one page, when the database answers queries as documented, the event is
  -- found and the start selector is of a known kind: they return the messages of the first rows that
  -- the selector asks for, at most 2000 race states, 1000 speedmaps and 1000 driver data, and at
  -- most `num` if it is positive, with the id of the last of these rows.
  pub pages_returned :
      Answers states at_most s_rows race_state_protos
      → Answers speedmaps at_most m_rows speedmap_protos
      → Answers drivers at_most d_rows car_state_protos
      → (selector : EventSelector) (start : StartSelector F) (num : ℕ) (e : Event)
      → resolve_event states selector ≡ done e
      → resolve_event speedmaps selector ≡ done e
      → resolve_event drivers selector ≡ done e
      → IsKnown start
      → num < word
      → IsPage states
          (take (page_bound 2000 num) (selected at_most s_rows race_state_protos e states start))
          (get_states states (request selector start num))
        × IsPage speedmaps
            (take (page_bound 1000 num) (selected at_most m_rows speedmap_protos e speedmaps start))
            (get_speedmaps speedmaps (request selector start num))
        × IsPage drivers
            (take (page_bound 1000 num) (selected at_most d_rows car_state_protos e drivers start))
            (get_driver_data drivers (request selector start num))
  unfolding get_states get_speedmaps get_driver_data racestates_initial speedmaps_initial
      driver_data_initial
  pages_returned s_answers m_answers d_answers selector start num e s_found m_found d_found known
        small =
      (
        get_page-IsPage states at_most s_rows race_state_protos s_answers false (racestate states)
            (racestate-ReadsTable states) state_page (ground arith) (ground arith) selector start
            num e s_found known small,
        get_page-IsPage speedmaps at_most m_rows speedmap_protos m_answers false
            (speedmap speedmaps) (speedmap-ReadsTable speedmaps) other_page (ground arith)
            (ground arith) selector start num e m_found known small,
        get_page-IsPage drivers at_most d_rows car_state_protos d_answers true (car_proto drivers)
            (car_proto-ReadsTable drivers) other_page (ground arith) (ground arith) selector start
            num e d_found known small,
      )

module _ {F D P E : Type 0} (store : Store F D P E) (at_most : D → D → Bool)
    (rows : Table → List (Stored F D P))
    (answers : Answers store at_most rows race_state_protos) where
  -- The rows of the event from an id on.
  abbrev pub from_row : Event → ℕ → List (Stored F D P)
  from_row e i = filter (λ r. leb i (id_of r)) (in_scope at_most rows race_state_protos e (id i))

  from_row-selected :
      (e : Event) (i : ℕ)
      → i < sign_bit
      → selected at_most rows race_state_protos e store (id i) ≡ from_row e i
  from_row-selected e i small =
      filter-from_id at_most race_state_protos e.event_id none false i 0 (i - 1)
        (rows race_state_protos) (omega arith) (omega arith) answers.in_range
      ∙ filter_cong (is_after (i - 1)) (λ r. leb i (id_of r))
          (in_scope at_most rows race_state_protos e (id i))
          (same_from i (in_scope at_most rows race_state_protos e (id i))
            (All-filter IsRowId _ (rows race_state_protos) answers.in_range))

  module _ (sorted : IsSorted (rows race_state_protos)) (accepts : ℕ → Bool)
      (fine : (n : ℕ) → accepts n ≡ true) where
    -- The stream of the race states of an event, or of one of its sessions. The database answers
    -- queries as documented, the rows have distinct ids, the event is found, the start selector is of a
    -- known kind and all sends
    -- succeed. If the rows that the selector asks for are the last ones of the event or session, and
    -- the fuel exceeds their number, the stream sends exactly the messages of the first `num` of
    -- them, or of all of them if `num` is not positive, in order, and ends without an error.
    pub get_state_stream_sends :
        (fuel : ℕ) (selector : EventSelector) (start : StartSelector F) (num : ℕ) (e : Event)
        → (before : List (Stored F D P)) → resolve_event store selector ≡ done e
        → IsKnown start
        → num < word
        → in_scope at_most rows race_state_protos e start
          ≡ before ++ selected at_most rows race_state_protos e store start
        → length (selected at_most rows race_state_protos e store start) < fuel
        → get_state_stream store (request selector start num) accepts fuel
          ≡ some (record {
            sent =
                messages store
                  (allowed num num (selected at_most rows race_state_protos e store start));
            failure = none;
          })
    unfolding get_state_stream racestates_initial racestates_next
    get_state_stream_sends =
        get_stream_sends store at_most rows race_state_protos answers false (racestate store)
          (racestate-ReadsTable store) state_page (ground arith) (ground arith) sorted accepts fine

    -- The stream of the race states of an event from the row id `i` on, an `int32` that is not
    -- negative. The database answers queries as documented, the rows have distinct ids, the event is
    -- found and all sends
    -- succeed. If the fuel exceeds the number of those rows, the stream sends exactly the messages
    -- of the first `num` rows of the event whose id is at least `i`, or of all of them if `num` is
    -- not positive, and ends without an error.
    pub get_state_stream_from_id :
        (fuel : ℕ) (selector : EventSelector) (i num : ℕ) (e : Event)
        → resolve_event store selector ≡ done e
        → i < sign_bit
        → num < word
        → length (from_row e i) < fuel
        → get_state_stream store (request selector (id i) num) accepts fuel
          ≡ some (record { sent = messages store (allowed num num (from_row e i)); failure = none })
    get_state_stream_from_id fuel selector i num e found positive small enough =
        let same = from_row-selected e i positive in
        let (before, split) =
          sorted_split i (in_scope at_most rows race_state_protos e (id i))
            (IsSorted-filter _ (rows race_state_protos) sorted) in
        get_state_stream_sends fuel selector (id i) num e before found tt small
          (split ∙ ap (λ rs. before ++ rs) (sym same)) (rw same enough)
        ∙ ap (λ rs. some (record { sent = messages store (allowed num num rs); failure = none }))
            same
