-- ===== src/States/Whole.antt =====
-- The whole streams of stored messages, from the request to the last page.
use iracelog_service_manager.Base.{
  ℕ, ◌%◌, ◌<◌, Bool, true, false, none, some, List, ◌≡◌, refl, sym, ap, subst, arith, lt32, add64,
  word, filter, take, sign_bit, long_sign,
}
use iracelog_service_manager.Base.Results.{Result}
use iracelog_service_manager.States.Types.{
  Event, Table, StartSelector, record_stamp, session_time, session_time_selector, id, unknown,
  Query, RangeContainer, Store,
}
use iracelog_service_manager.States.Repos.{RangeRepository, load_rows}
use iracelog_service_manager.States.Pages.{
  to_fetch_entries, get_default_session_num, advance, initial_request, next_request,
}
use iracelog_service_manager.States.Rows.{Stored, matches, Answers, IsPage, load_rows-IsPage}
use iracelog_service_manager.States.Paging.{to_fetch_entries_bounds}
use iracelog_service_manager.States.Parts.{at, IsNext, AsksAfter}
use iracelog_service_manager.States.Reads.{
  scope_query, from_id_query, ReadsTable, session_of, IsKnown, in_scope, selected, filter-from_id,
}

module _ {F D P E : Type 0} (store : Store F D P E) where
  advance-IsNext :
      (e : Event) (page num remain i : ℕ) (back : List (Stored F D P))
      → (result : Result (RangeContainer F E))
      → IsPage store (take (to_fetch_entries page num (at e remain i)) back) result
      → IsNext store e page num remain i back (advance (at e remain i) result)
  unfolding advance
  advance-IsNext e page num remain i back result (ret, f, items, last) =
      (ret, ap (advance (at e remain i)) f, items, last)

  module _ (at_most : D → D → Bool) (rows : Table → List (Stored F D P)) (table : Table)
      (answers : Answers store at_most rows table) (by_stamp : Bool) (repo : RangeRepository F D E)
      (law : ReadsTable store table by_stamp repo) (e : Event) (page num : ℕ)
      (page_positive : 0 < page) (page_small : page < sign_bit) (num_small : num < word) where
    abbrev next_query : StartSelector F → ℕ → ℕ → Query D
    next_query start remain i =
        from_id_query table e.event_id (session_of start) by_stamp (add64 i 1)
          (to_fetch_entries page num (at e remain i))

    next_request_reads :
        (start : StartSelector F) (remain i : ℕ)
        → next_request store repo page start num (at e remain i)
          ≡ advance (at e remain i) (load_rows store (next_query start remain i))
    unfolding next_request
    next_request_reads (record_stamp ts) remain i =
        ap (advance (at e remain i)) (law.range_by_id _ _ _)
    next_request_reads (session_time t) remain i =
        ap (advance (at e remain i)) (law.range_by_id _ _ _)
    next_request_reads (session_time_selector n d) remain i =
        ap (advance (at e remain i)) (law.range_within_session _ _ _ _)
    next_request_reads (id j) remain i = ap (advance (at e remain i)) (law.range_by_id _ _ _)
    next_request_reads unknown remain i = ap (advance (at e remain i)) (law.range_by_id _ _ _)

    pub next_request-AsksAfter :
        (start : StartSelector F)
        → AsksAfter store
            (next_request store repo page start num)
            e
            page
            num
            (in_scope at_most rows table e start)
    next_request-AsksAfter start remain i small few =
        let q = next_query start remain i in
        let (limited, _, _) =
          to_fetch_entries_bounds page num (at e remain i) page_positive page_small num_small few in
        let same =
          filter-from_id at_most table e.event_id (session_of start) by_stamp (add64 i 1)
            (to_fetch_entries page num (at e remain i)) i (rows table) (omega arith) (omega arith)
            answers.in_range in
        subst (IsNext store e page num remain i (filter _ (in_scope at_most rows table e start)))
          (sym (next_request_reads start remain i))
          (advance-IsNext e page num remain i _ (load_rows store q) (
            subst
              (λ rs.
                IsPage store (take (to_fetch_entries page num (at e remain i)) rs)
                  (load_rows store q))
              same (load_rows-IsPage store at_most rows table answers q refl limited)))

    first_page-IsNext :
        (start : StartSelector F) (remain : ℕ) (q : Query D)
        → q.table ≡ table
        → (let limit = to_fetch_entries page num (at e remain 0) in
            limit < long_sign
            → q.limit ≡ limit
            → filter (matches at_most q) (rows q.table) ≡ selected at_most rows table e store start
            → initial_request store repo page start num (at e remain 0)
              ≡ advance (at e remain 0) (load_rows store q)
            → IsNext store e page num remain 0
                (selected at_most rows table e store start)
                (initial_request store repo page start num (at e remain 0)))
    first_page-IsNext start remain q same limited full rows_same reads =
        subst (IsNext store e page num remain 0 (selected at_most rows table e store start))
          (sym reads)
          (advance-IsNext e page num remain 0 (selected at_most rows table e store start)
            (load_rows store q)
            (subst (λ rs. IsPage store rs (load_rows store q)) (rw (full, rows_same) refl)
              (load_rows-IsPage store at_most rows table answers q same (rw full limited))))

    pub initial_request-IsNext :
        (start : StartSelector F) (remain : ℕ)
        → IsKnown start
        → (lt32 0 num ≡ true → remain < sign_bit)
        → IsNext store e page num remain 0
            (selected at_most rows table e store start)
            (initial_request store repo page start num (at e remain 0))
    unfolding initial_request
    initial_request-IsNext (record_stamp ts) remain known few =
        first_page-IsNext (record_stamp ts) remain
          (record (scope_query table e.event_id none false) {
            from_stamp = some ts;
            limit = to_fetch_entries page num (at e remain 0);
          })
          refl
          (to_fetch_entries_bounds page num (at e remain 0) page_positive page_small num_small
            few).0
          refl refl (ap (advance (at e remain 0)) (law.range _ _ _))
    initial_request-IsNext (session_time t) remain known few =
        first_page-IsNext (session_time t) remain
          (record (scope_query table e.event_id (some (get_default_session_num e % word)) false) {
            from_session_time = some (store.of_float t);
            limit = to_fetch_entries page num (at e remain 0);
          })
          refl
          (to_fetch_entries_bounds page num (at e remain 0) page_positive page_small num_small
            few).0
          refl refl (ap (advance (at e remain 0)) (law.range_by_session_time _ _ _ _))
    initial_request-IsNext (session_time_selector n d) remain known few =
        first_page-IsNext (session_time_selector n d) remain
          (record (scope_query table e.event_id (some (n % word % word)) false) {
            from_session_time = some (store.of_duration d);
            limit = to_fetch_entries page num (at e remain 0);
          })
          refl
          (to_fetch_entries_bounds page num (at e remain 0) page_positive page_small num_small
            few).0
          refl refl (ap (advance (at e remain 0)) (law.range_by_session_time _ _ _ _))
    initial_request-IsNext (id i) remain known few =
        first_page-IsNext (id i) remain
          (from_id_query table e.event_id none by_stamp i
            (to_fetch_entries page num (at e remain 0)))
          refl
          (to_fetch_entries_bounds page num (at e remain 0) page_positive page_small num_small
            few).0
          refl refl (ap (advance (at e remain 0)) (law.range_by_id _ _ _))
    initial_request-IsNext unknown remain known few = absurd known
