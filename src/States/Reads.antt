-- ===== src/States/Reads.antt =====
-- What the repositories ask of the database, and the pages that follow from its answers.
use iracelog_service_manager.Base.{
  ℕ, ◌-◌, ◌%◌, ◌<◌, Bool, true, false, not, ◌&&◌, Option, none, some, List, [], ◌∷◌, ◌≡◌, refl,
  arith, Bool-cases, inl, inr, lt32, word, All, filter, sign_bit, ◌==◌, nat_key,
}
use iracelog_service_manager.States.Types.{
  Event, Table, race_state_protos, speedmap_protos, car_state_protos, StartSelector, record_stamp,
  session_time, session_time_selector, id, unknown, Query, Store,
}
use iracelog_service_manager.States.Repos.{
  RangeRepository, load_rows, of_event_query, racestate, speedmap, car_proto,
}
use iracelog_service_manager.States.Pages.{get_default_session_num}
use iracelog_service_manager.States.Rows.{Stored, id_of, matches, if_set, IsRowId, is_after}

-- The query for the rows of an event, or of one of its sessions.
abbrev pub scope_query : {D : Type 0} → Table → ℕ → Option ℕ → Bool → Query D
scope_query table event_id session by_stamp = record {
  table = table;
  of_event = event_id % word;
  from_stamp = none;
  in_session = session;
  from_session_time = none;
  from_id = none;
  limit = 0;
  then_by_stamp = by_stamp;
}

-- The rows of such a query from an id on.
abbrev pub from_id_query : {D : Type 0} → Table → ℕ → Option ℕ → Bool → ℕ → ℕ → Query D
from_id_query table event_id session by_stamp i limit =
    record (scope_query table event_id session by_stamp) {
      from_id = some (i % word);
      limit = limit;
    }

module _ {F D P E : Type 0} (store : Store F D P E) (table : Table) (by_stamp : Bool) where
  -- The four reads of a repository are the queries of one table.
  pub record ReadsTable (repo : RangeRepository F D E) : Type 0 where
    pub range :
        (event_id ts limit : ℕ)
        → repo.load_range event_id ts limit
          ≡ load_rows store (record (scope_query table event_id none false) {
            from_stamp = some ts;
            limit = limit;
          })
    pub range_by_session_time :
        (event_id n : ℕ) (t : D) (limit : ℕ)
        → repo.load_range_by_session_time event_id n t limit
          ≡ load_rows store (record (scope_query table event_id (some (n % word)) false) {
            from_session_time = some t;
            limit = limit;
          })
    pub range_by_id :
        (event_id i limit : ℕ)
        → repo.load_range_by_id event_id i limit
          ≡ load_rows store (from_id_query table event_id none by_stamp i limit)
    pub range_within_session :
        (event_id n i limit : ℕ)
        → repo.load_range_by_id_within_session event_id n i limit
          ≡ load_rows store (from_id_query table event_id (some (n % word)) by_stamp i limit)

module _ {F D P E : Type 0} (store : Store F D P E) where
  pub racestate-ReadsTable : ReadsTable store race_state_protos false (racestate store)
  unfolding racestate of_event_query
  racestate-ReadsTable = record {
    range = λ event_id ts limit. refl;
    range_by_session_time = λ event_id n t limit. refl;
    range_by_id = λ event_id i limit. refl;
    range_within_session = λ event_id n i limit. refl;
  }

  pub speedmap-ReadsTable : ReadsTable store speedmap_protos false (speedmap store)
  unfolding speedmap of_event_query
  speedmap-ReadsTable = record {
    range = λ event_id ts limit. refl;
    range_by_session_time = λ event_id n t limit. refl;
    range_by_id = λ event_id i limit. refl;
    range_within_session = λ event_id n i limit. refl;
  }

  pub car_proto-ReadsTable : ReadsTable store car_state_protos true (car_proto store)
  unfolding car_proto of_event_query
  car_proto-ReadsTable = record {
    range = λ event_id ts limit. refl;
    range_by_session_time = λ event_id n t limit. refl;
    range_by_id = λ event_id i limit. refl;
    range_within_session = λ event_id n i limit. refl;
  }

-- The session that the pages after the first one are limited to.
abbrev pub session_of : {F : Type 0} → StartSelector F → Option ℕ
session_of (record_stamp _) = none
session_of (session_time _) = none
session_of (session_time_selector n _) = some (n % word % word)
session_of (id _) = none
session_of unknown = none

-- The query of the first page, for a selector of a known kind.
abbrev pub first_query :
    {F D P E : Type 0}
    → Store F D P E
    → Table
    → Bool
    → Event
    → StartSelector F
    → ℕ
    → Option (Query D)
first_query store table by_stamp e (record_stamp ts) limit =
    some (record (scope_query table e.event_id none false) { from_stamp = some ts; limit = limit })
first_query store table by_stamp e (session_time t) limit =
    some (record (scope_query table e.event_id (some (get_default_session_num e % word)) false) {
      from_session_time = some (store.of_float t);
      limit = limit;
    })
first_query store table by_stamp e (session_time_selector n d) limit =
    some (record (scope_query table e.event_id (some (n % word % word)) false) {
      from_session_time = some (store.of_duration d);
      limit = limit;
    })
first_query store table by_stamp e (id i) limit =
    some (from_id_query table e.event_id none by_stamp i limit)
first_query store table by_stamp e unknown limit = none

-- A selector of a kind that the handlers know.
abbrev pub IsKnown : {F : Type 0} → StartSelector F → Type 0
IsKnown (record_stamp _) = Unit
IsKnown (session_time _) = Unit
IsKnown (session_time_selector _ _) = Unit
IsKnown (id _) = Unit
IsKnown unknown = ⊥

module _ {F D P : Type 0} (at_most : D → D → Bool) (rows : Table → List (Stored F D P))
    (table : Table) (e : Event) where
  -- The rows of the event, or of the session that the selector names.
  abbrev pub in_scope : StartSelector F → List (Stored F D P)
  in_scope start =
      filter (matches at_most (scope_query table e.event_id (session_of start) false)) (rows table)

  -- The rows that the selector asks for, from the first page on.
  abbrev pub selected : {E : Type 0} → Store F D P E → StartSelector F → List (Stored F D P)
  selected store start =
      filter
        (λ r. elim (first_query store table false e start 0) [
          | none ↦ false
          | some q ↦ matches at_most q r
        ])
        (rows table)

-- A test that is the conjunction of two.
filter_and :
    {A : Type 0} (p q r : A → Bool) (xs : List A)
    → All (λ x. p x ≡ (q x && r x)) xs
    → filter p xs ≡ filter r (filter q xs)
filter_and p q r [] h = refl
filter_and p q r (x ∷ xs) (e, h) = elim (Bool-cases (q x)) [
  | inl f ↦ elim (Bool-cases (r x)) [
    | inl g ↦ rw (e, f, g, filter_and p q r xs h) refl
    | inr g ↦ rw (e, f, g, filter_and p q r xs h) refl
  ]
  | inr f ↦ rw (e, f, filter_and p q r xs h) refl
]

and_last : (a b c d : Bool) → c ≡ d → (a && (b && (c && true))) ≡ ((a && (b && true)) && d)
and_last true true true d h = h
and_last true true false d h = h
and_last true false c d h = refl
and_last false b c d h = refl

module _ {F D P : Type 0} (at_most : D → D → Bool) (table : Table) (event_id : ℕ)
    (session : Option ℕ) (by_stamp : Bool) (i limit : ℕ) where
  -- The rows from an id on, among those of the event or session.
  matches-from_id :
      (j : ℕ) (rs : List (Stored F D P))
      → j ≡ i % word - 1
      → i % word < sign_bit
      → All IsRowId rs
      → All
          (λ r.
            matches at_most (from_id_query table event_id session by_stamp i limit) r
            ≡ (matches at_most (scope_query table event_id session by_stamp) r && is_after j r))
          rs
  matches-from_id j [] e h ids = tt
  matches-from_id j (r ∷ rs) e h ((k, k'), ids) =
      let same : not (lt32 (id_of r) (i % word)) ≡ is_after j r = ground arith in
      (
        and_last (r.event == event_id % word) (if_set session (λ n. r.session == n))
            (not (lt32 (id_of r) (i % word))) (is_after j r) same,
        matches-from_id j rs e h ids,
      )

  pub filter-from_id :
      (j : ℕ) (rs : List (Stored F D P))
      → j ≡ i % word - 1
      → i % word < sign_bit
      → All IsRowId rs
      → filter (matches at_most (from_id_query table event_id session by_stamp i limit)) rs
        ≡ filter
            (is_after j)
            (filter (matches at_most (scope_query table event_id session by_stamp)) rs)
  filter-from_id j rs e h ids =
      filter_and (matches at_most (from_id_query table event_id session by_stamp i limit))
        (matches at_most (scope_query table event_id session by_stamp)) (is_after j) rs
        (matches-from_id j rs e h ids)
