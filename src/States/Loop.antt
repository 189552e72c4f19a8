-- ===== src/States/Loop.antt =====
-- The loop of a stream, for pages that hold the next rows.
use mathlib.Core.List.{append_assoc, append-nil}
use iracelog_service_manager.Base.{
  ℕ, zero, suc, ◌-◌, ◌<◌, Bool, true, none, some, List, [], ◌∷◌, ◌++◌, ◌≡◌, refl, sym, ◌∙◌, ap,
  subst, arith, inl, inr, lt32, sub64, word, All, filter, take, drop, take-append-drop,
  length-take-append_drop, length-take-le, length, sign_bit,
}
use iracelog_service_manager.Base.Results.{Result}
use iracelog_service_manager.States.Types.{RangeContainer, Store, Event}
use iracelog_service_manager.States.Pages.{Container, to_fetch_entries}
use iracelog_service_manager.States.Streams.{Pager, stream_loop}
use iracelog_service_manager.States.Rows.{
  Stored, IsSorted, IsRowId, last_id, is_after, messages, messages-append, Decodes, All-take,
}
use iracelog_service_manager.States.Paging.{
  allowed, take_nil, to_fetch_entries_bounds, page_done, page_more,
}
use iracelog_service_manager.States.Parts.{
  at, All-append_back, last_id-append, last_id_small, rows_after, allowed_nil, allowed_split,
  length-messages, IsNext, AsksAfter,
}

module _ {F D P E : Type 0} (store : Store F D P E) where
  module _ (accepts : ℕ → Bool) (fine : (n : ℕ) → accepts n ≡ true) (next : Pager F E) (e : Event)
      (page num : ℕ) (page_positive : 0 < page) (page_small : page < sign_bit)
      (num_small : num < word) (all : List (Stored F D P)) (sorted : IsSorted all)
      (ids : All IsRowId all) (readable : All (Decodes store) all)
      (asks : AsksAfter store next e page num all) where
    -- With this fuel, the loop sends the rows after those of a first part.
    abbrev GoesOn : ℕ → Type 0
    GoesOn fuel =
        (front back : List (Stored F D P)) (sent : List E) (remain : ℕ)
        → all ≡ front ++ back
        → (lt32 0 num ≡ true → remain < sign_bit)
        → length back < fuel
        → stream_loop accepts next fuel sent (next (at e remain (last_id 0 front)))
          ≡ some
              (record { sent = sent ++ messages store (allowed num remain back); failure = none })

    -- One page is sent, and the loop goes on with the rows that are left.
    loop_step :
        (fuel : ℕ) (front : List (Stored F D P)) (b : Stored F D P) (bs : List (Stored F D P))
        → (sent : List E) (remain i k : ℕ) (answer : Container × Result (RangeContainer F E))
        → all ≡ front ++ b ∷ bs
        → (lt32 0 num ≡ true → remain < sign_bit)
        → suc k ≡ to_fetch_entries page num (at e remain i)
        → IsNext store e page num remain i (b ∷ bs) answer
        → length (b ∷ bs) < suc fuel
        → GoesOn fuel
        → stream_loop accepts next (suc fuel) sent answer
          ≡ some (record {
            sent = sent ++ messages store (allowed num remain (b ∷ bs));
            failure = none;
          })
    loop_step fuel front b bs sent remain i k answer split small size (ret, e', items, last)
          fuel_left rest =
        let decoded =
          All-append_back (Decodes store) front (b ∷ bs)
            (subst (All (Decodes store)) split readable) in
        let (_, most, _) =
          to_fetch_entries_bounds page num (at e remain i) page_positive page_small num_small
            small in
        let chunk : take (to_fetch_entries page num (at e remain i)) (b ∷ bs) ≡ b ∷ take k bs =
          rw (sym size) refl in
        let items' : ret.items ≡ decoded.0.0 ∷ messages store (take k bs) =
          items ∙ ap (messages store) chunk ∙ rw (decoded.0.1, messages) refl in
        let len : length ret.items ≡ length (b ∷ take k bs) =
          ap length items'
          ∙ ap suc (length-messages store (take k bs) (All-take (Decodes store) k bs decoded.1)) in
        let left = sub64 remain (length ret.items) in
        let taken = length-take-le k bs in
        let whole = length-take-append_drop k bs in
        let small' : lt32 0 num ≡ true → left < sign_bit =
          λ t. let few = small t in let bound = most t in omega arith in
        let last' : ret.last_rs_info_id ≡ last_id 0 (front ++ b ∷ take k bs) =
          last ∙ ap (last_id 0) chunk ∙ sym (last_id-append 0 0 front b (take k bs)) in
        let split' : all ≡ (front ++ b ∷ take k bs) ++ drop k bs =
          split
          ∙ ap (λ l. front ++ b ∷ l) (sym (take-append-drop k bs))
          ∙ sym (append_assoc front (b ∷ take k bs) (drop k bs)) in
        let sends =
          rest (front ++ b ∷ take k bs) (drop k bs) (sent ++ ret.items) left split' small'
            (omega arith) in
        let parts : allowed num remain (b ∷ bs) ≡ (b ∷ take k bs) ++ allowed num left (drop k bs) =
          allowed_split num remain (suc k) (b ∷ bs) (λ t. let bound = most t in omega arith) small
          ∙ ap (λ n. b ∷ take k bs ++ allowed num (sub64 remain n) (drop k bs)) (sym len) in
        let total : (sent ++ ret.items) ++ messages store (allowed num left (drop k bs))
            ≡ sent ++ messages store (allowed num remain (b ∷ bs)) =
          append_assoc sent ret.items (messages store (allowed num left (drop k bs)))
          ∙ ap (λ l. sent ++ (l ++ messages store (allowed num left (drop k bs))))
              (items ∙ ap (messages store) chunk)
          ∙ ap (λ l. sent ++ l)
              (sym (messages-append store (b ∷ take k bs) (allowed num left (drop k bs)))
                ∙ ap (messages store) (sym parts)) in
        ap (stream_loop accepts next (suc fuel) sent) e'
        ∙ page_more accepts fine next fuel sent (at e left ret.last_rs_info_id) ret decoded.0.0
            (messages store (take k bs)) items'
        ∙ ap (λ l. stream_loop accepts next fuel (sent ++ l) (next (at e left ret.last_rs_info_id)))
            (sym items')
        ∙ ap (λ j. stream_loop accepts next fuel (sent ++ ret.items) (next (at e left j))) last'
        ∙ sends
        ∙ ap (λ l. some (record { sent = l; failure = none })) total

    -- A page without rows ends the stream.
    loop_ends :
        (fuel : ℕ) (back : List (Stored F D P)) (sent : List E) (remain i : ℕ)
        → (answer : Container × Result (RangeContainer F E))
        → IsNext store e page num remain i back answer
        → take (to_fetch_entries page num (at e remain i)) back ≡ []
        → allowed num remain back ≡ []
        → stream_loop accepts next (suc fuel) sent answer
          ≡ some
              (record { sent = sent ++ messages store (allowed num remain back); failure = none })
    loop_ends fuel back sent remain i answer (ret, e', items, last) none_left nothing =
        ap (stream_loop accepts next (suc fuel) sent) e'
        ∙ page_done accepts fine next fuel sent
            (at e (sub64 remain (length ret.items)) ret.last_rs_info_id) ret
            (items ∙ ap (messages store) none_left)
        ∙ ap (λ l. some (record { sent = l; failure = none }))
            (sym (ap (λ rs. sent ++ messages store rs) nothing ∙ append-nil sent))

    -- The loop from an answer on, once the loop is known to go on well.
    loop_on :
        (fuel : ℕ) (front back : List (Stored F D P)) (sent : List E) (remain i : ℕ)
        → (answer : Container × Result (RangeContainer F E)) → all ≡ front ++ back
        → (lt32 0 num ≡ true → remain < sign_bit)
        → IsNext store e page num remain i back answer
        → length back < suc fuel
        → GoesOn fuel
        → stream_loop accepts next (suc fuel) sent answer
          ≡ some
              (record { sent = sent ++ messages store (allowed num remain back); failure = none })
    loop_on fuel front [] sent remain i answer split small is_next enough rest =
        loop_ends fuel [] sent remain i answer is_next
          (take_nil (to_fetch_entries page num (at e remain i))) (allowed_nil num remain)
    loop_on fuel front (b ∷ bs) sent remain i answer split small is_next enough rest =
        let s = at e remain i in
        let (_, most, some_or_none) =
          to_fetch_entries_bounds page num s page_positive page_small num_small small in
        elim some_or_none [
          | inl h ↦
              loop_step fuel front b bs sent remain i (to_fetch_entries page num s - 1) answer split
                small (omega arith) is_next enough rest
          | inr (bounded, zero_left) ↦
              let bound = most bounded in
              let nothing : to_fetch_entries page num s ≡ 0 = omega arith in
              loop_ends fuel (b ∷ bs) sent remain i answer is_next
                (ap (λ n. take n (b ∷ bs)) nothing) (rw (bounded, zero_left) refl)
        ]

    -- Enough fuel: more than there are rows left.
    loop-GoesOn : (fuel : ℕ) → GoesOn fuel
    loop-GoesOn zero front back sent remain split small enough = absurd (omega arith)
    loop-GoesOn (suc fuel) front back sent remain split small enough =
        let i = last_id 0 front in
        let ids' : All IsRowId (front ++ back) = subst (All IsRowId) split ids in
        let after : filter (is_after i) all ≡ back =
          ap (filter (is_after i)) split
          ∙ rows_after front back (subst IsSorted split sorted) ids' in
        loop_on fuel front back sent remain i (next (at e remain i)) split small
          (subst (λ rs. IsNext store e page num remain i rs (next (at e remain i))) after
            (asks remain i (last_id_small 0 front back (omega arith) ids') small))
          enough (loop-GoesOn fuel)

    -- A first page of the last rows: the stream sends them all, up to the limit.
    pub loop_sends :
        (fuel : ℕ) (before back : List (Stored F D P)) (remain : ℕ)
        → (answer : Container × Result (RangeContainer F E)) → all ≡ before ++ back
        → (lt32 0 num ≡ true → remain < sign_bit)
        → IsNext store e page num remain 0 back answer
        → length back < fuel
        → stream_loop accepts next fuel [] answer
          ≡ some (record { sent = messages store (allowed num remain back); failure = none })
    loop_sends zero before back remain answer split small is_next enough = absurd (omega arith)
    loop_sends (suc fuel) before back remain answer split small is_next enough =
        loop_on fuel before back [] remain 0 answer split small is_next enough (loop-GoesOn fuel)
