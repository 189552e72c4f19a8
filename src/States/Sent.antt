-- ===== src/States/Sent.antt =====
-- What any of the streams sends, and any of the pages returns.
use iracelog_service_manager.Base.{
  ℕ, ◌<◌, Bool, true, none, some, List, ◌++◌, ◌≡◌, refl, ◌∙◌, ap, arith, Bool-cases, inl, inr, lt32,
  ltb, leb, ◌&&◌, subst, word, if◌then◌else◌, All-filter, take, length, sign_bit,
}
use iracelog_service_manager.Base.Results.{done}
use iracelog_service_manager.States.Types.{
  Event, EventSelector, Table, StartSelector, StatesRequest, Store,
}
use iracelog_service_manager.States.Repos.{RangeRepository}
use iracelog_service_manager.States.Pages.{
  max_int32, resolve_event, create_states_container, to_fetch_entries, initial_request,
  next_request,
}
use iracelog_service_manager.States.Streams.{first_page, get_page, get_stream}
use iracelog_service_manager.States.Rows.{
  Stored, IsSorted, IsSorted-filter, IsRowId, messages, last_id, Decodes, Answers, IsPage,
}
use iracelog_service_manager.States.Paging.{allowed}
use iracelog_service_manager.States.Parts.{at}
use iracelog_service_manager.States.Loop.{loop_sends}
use iracelog_service_manager.States.Reads.{ReadsTable, IsKnown, in_scope, selected}
use iracelog_service_manager.States.Whole.{next_request-AsksAfter, initial_request-IsNext}

-- A request for `num` messages of an event.
abbrev pub request : {F : Type 0} → EventSelector → StartSelector F → ℕ → StatesRequest F
request selector start num = record { event = some selector; start = some start; num = num }

-- The messages that a new container may still send.
abbrev pub initial_remain : ℕ → ℕ
initial_remain num = if lt32 0 num then num else max_int32

-- A page has at most `page` messages, and at most `num` if it is positive.
abbrev pub page_bound : ℕ → ℕ → ℕ
page_bound page num =
    if ltb 0 num && ltb num sign_bit then (if leb num page then num else page) else page

module _ {F D P E : Type 0} (store : Store F D P E) where
  pub create_states_container_done :
      (selector : EventSelector) (start : StartSelector F) (num : ℕ) (e : Event)
      → resolve_event store selector ≡ done e
      → create_states_container store (request selector start num)
        ≡ done (at e (initial_remain num) 0)
  unfolding create_states_container
  create_states_container_done selector start num e h = rw h refl

  allowed_initially :
      (num : ℕ) (rs : List (Stored F D P))
      → allowed num (initial_remain num) rs ≡ allowed num num rs
  allowed_initially num rs = elim (Bool-cases (lt32 0 num)) [
    | inl e ↦ rw e refl
    | inr e ↦ rw e refl
  ]

  module _ (at_most : D → D → Bool) (rows : Table → List (Stored F D P)) (table : Table)
      (answers : Answers store at_most rows table) (by_stamp : Bool) (repo : RangeRepository F D E)
      (law : ReadsTable store table by_stamp repo) (page : ℕ) (page_positive : 0 < page)
      (page_small : page < sign_bit) where
    -- The entries of the first page.
    page_bound_lem :
        (num : ℕ) (e : Event)
        → num < word
        → to_fetch_entries page num (at e (initial_remain num) 0) ≡ page_bound page num
    unfolding to_fetch_entries
    page_bound_lem num e small = ground arith

    pub get_page-IsPage :
        (selector : EventSelector) (start : StartSelector F) (num : ℕ) (e : Event)
        → resolve_event store selector ≡ done e
        → IsKnown start
        → num < word
        → IsPage store (take (page_bound page num) (selected at_most rows table e store start)) (
            get_page store
              (request selector start num)
              (λ start' num'. initial_request store repo page start' num'))
    unfolding get_page first_page
    get_page-IsPage selector start num e found known small =
        let few : lt32 0 num ≡ true → initial_remain num < sign_bit = λ t. ground arith in
        let (ret, answer, items, last) =
          initial_request-IsNext store at_most rows table answers by_stamp repo law e page num
            page_positive page_small small start (initial_remain num) known few in
        let bound = page_bound_lem num e small in
        let rs = selected at_most rows table e store start in
        (
          ret,
          rw (create_states_container_done selector start num e found) (ap (λ p. p.1) answer),
          subst (λ n. ret.items ≡ messages store (take n rs)) bound items,
          subst (λ n. ret.last_rs_info_id ≡ last_id 0 (take n rs)) bound last,
        )

    pub get_stream_sends :
        IsSorted (rows table)
        → (accepts : ℕ → Bool) → ((n : ℕ) → accepts n ≡ true)
        → (fuel : ℕ) (selector : EventSelector) (start : StartSelector F) (num : ℕ) (e : Event)
        → (before : List (Stored F D P)) → resolve_event store selector ≡ done e
        → IsKnown start
        → num < word
        → in_scope at_most rows table e start ≡ before ++ selected at_most rows table e store start
        → length (selected at_most rows table e store start) < fuel
        → get_stream store
            (request selector start num)
            accepts
            fuel
            (λ start' num'. initial_request store repo page start' num')
            (λ start' num'. next_request store repo page start' num')
          ≡ some (record {
            sent = messages store (allowed num num (selected at_most rows table e store start));
            failure = none;
          })
    unfolding get_stream first_page
    get_stream_sends sorted accepts fine fuel selector start num e before found known small split
          enough =
        let few : lt32 0 num ≡ true → initial_remain num < sign_bit = λ t. ground arith in
        rw (get_stream, create_states_container_done selector start num e found)
          (loop_sends store accepts fine (next_request store repo page start num) e page num
              page_positive page_small small (in_scope at_most rows table e start)
              (IsSorted-filter _ (rows table) sorted)
              (All-filter IsRowId _ (rows table) answers.in_range)
              (All-filter (Decodes store) _ (rows table) answers.decodes)
              (next_request-AsksAfter store at_most rows table answers by_stamp repo law e page num
                page_positive page_small small start)
              fuel before (selected at_most rows table e store start) (initial_remain num)
              (initial_request store repo page start num (at e (initial_remain num) 0)) split few
              (initial_request-IsNext store at_most rows table answers by_stamp repo law e page num
                page_positive page_small small start (initial_remain num) known few)
              enough
            ∙ ap (λ rs. some (record { sent = messages store rs; failure = none }))
                (allowed_initially num (selected at_most rows table e store start)))
