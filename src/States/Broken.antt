-- ===== src/States/Broken.antt =====
-- A stream whose client goes away: nothing is sent after the first send that fails.
use mathlib.Core.List.{append_assoc, append-nil}
use iracelog_service_manager.Base.{
  List-cases, ℕ, zero, suc, ◌<◌, ◌≤◌, Bool, true, false, Option, none, some, some-injective, List,
  [], ◌∷◌, ◌++◌, ◌≡◌, refl, sym, ◌∙◌, ap, arith, take, length, length-append, inl, inr, ◌⊎◌, ltb,
  Bool-cases, subst,
}
use iracelog_service_manager.Base.Results.{Result, done, fail, send_error}
use iracelog_service_manager.States.Types.{StartSelector, StatesRequest, RangeContainer, Store}
use iracelog_service_manager.States.Pages.{Container, racestates_initial, racestates_next}
use iracelog_service_manager.States.Streams.{
  Streamed, Pager, first_page, send_all, stream_loop, get_stream, get_state_stream,
}

module _ {E : Type 0} where
  send_all-always : (sent xs : List E) → send_all (λ _. true) sent xs ≡ (sent ++ xs, true)
  unfolding send_all
  send_all-always sent [] = rw (append-nil sent) refl
  send_all-always sent (x ∷ xs) =
      send_all-always (sent ++ x ∷ []) xs ∙ ap (λ l. (l, true)) (append_assoc sent (x ∷ []) xs)

  take-append : (n : ℕ) (xs ys : List E) → n ≤ length xs → take n (xs ++ ys) ≡ take n xs
  take-append zero xs ys h = refl
  take-append (suc n) [] ys h = absurd (omega arith)
  take-append (suc n) (x ∷ xs) ys h =
      ap {B = List E} (λ l. x ∷ l) (take-append n xs ys (omega arith))

  take_all : (n : ℕ) (xs : List E) → length xs ≡ n → take n xs ≡ xs
  take_all zero [] h = refl
  take_all zero (x ∷ xs) h = absurd (omega arith)
  take_all (suc n) [] h = refl
  take_all (suc n) (x ∷ xs) h = ap {B = List E} (λ l. x ∷ l) (take_all n xs (omega arith))

  module _ (accepts : ℕ → Bool) (n : ℕ) (before : (k : ℕ) → k < n → accepts k ≡ true)
      (broken : accepts n ≡ false) where
    send_all-broken :
        (sent xs : List E)
        → length sent ≤ n
        → ((n < length (sent ++ xs)) × (send_all accepts sent xs ≡ (take n (sent ++ xs), false)))
          ⊎ ((length (sent ++ xs) ≤ n) × (send_all accepts sent xs ≡ (sent ++ xs, true)))
    unfolding send_all
    send_all-broken sent [] h = rw (append-nil sent) (inr (h, refl))
    send_all-broken sent (x ∷ xs) h =
        let size = length-append sent (x ∷ xs) in
        let one = length-append sent (x ∷ []) in
        elim (Bool-cases (ltb (length sent) n)) [
          | inl e ↦
              let low : length sent < n = ground arith in
              rw (before (length sent) low) (
                subst
                  (λ l.
                    ((n < length l) × (send_all accepts (sent ++ x ∷ []) xs ≡ (take n l, false)))
                    ⊎ ((length l ≤ n) × (send_all accepts (sent ++ x ∷ []) xs ≡ (l, true))))
                  (append_assoc sent (x ∷ []) xs)
                  (send_all-broken (sent ++ x ∷ []) xs (omega arith)))
          | inr e ↦
              let here : length sent ≡ n = ground arith in
              let stopped : accepts (length sent) ≡ false = ap accepts here ∙ broken in
              rw stopped (
                inl (
                  omega arith,
                  ap (λ l. (l, false))
                      (sym (take-append n sent (x ∷ xs) (omega arith) ∙ take_all n sent here)),
                ))
        ]

module _ {F E : Type 0} (next : Pager F E) where
  -- What follows the sends of a page.
  abbrev after_sends : (ℕ → Bool) → ℕ → Container → List E × Bool → Option (Streamed E)
  after_sends accepts fuel s (sent, fine) = elim fine [
    | true ↦ stream_loop accepts next fuel sent (next s)
    | false ↦ some (record { sent = sent; failure = some send_error })
  ]

  page_sends :
      (accepts : ℕ → Bool) (fuel : ℕ) (sent : List E) (s : Container) (ret : RangeContainer F E)
      → (x : E) (xs : List E) → ret.items ≡ x ∷ xs
      → stream_loop accepts next (suc fuel) sent (s, done ret)
        ≡ after_sends accepts fuel s (send_all accepts sent (x ∷ xs))
  unfolding stream_loop
  page_sends accepts fuel sent s ret x xs e = rw e refl

  page_ends :
      (accepts : ℕ → Bool) (fuel : ℕ) (sent : List E) (s : Container) (ret : RangeContainer F E)
      → ret.items ≡ []
      → stream_loop accepts next (suc fuel) sent (s, done ret)
        ≡ some (record { sent = sent; failure = none })
  unfolding stream_loop
  page_ends accepts fuel sent s ret e = rw e refl

  module _ (accepts : ℕ → Bool) (n : ℕ) (before : (k : ℕ) → k < n → accepts k ≡ true)
      (broken : accepts n ≡ false) where
    -- What the unbroken loop sends extends what was sent before.
    loop-extends :
        (fuel : ℕ) (sent : List E) (page : Container × Result (RangeContainer F E))
        (out : Streamed E)
        → stream_loop (λ _. true) next fuel sent page ≡ some out
        → (more : List E) × (out.sent ≡ sent ++ more)
    unfolding stream_loop
    loop-extends zero sent page out e = absurd (cc)
    loop-extends (suc fuel) sent (s, fail f) out e =
        ([], sym (ap (λ o. o.sent) (some-injective _ _ e)) ∙ sym (append-nil sent))
    loop-extends (suc fuel) sent (s, done ret) out e = elim (List-cases ret.items) [
      | inl none_left ↦
          let ended = sym (page_ends (λ _. true) fuel sent s ret none_left) ∙ e in
          ([], sym (ap (λ o. o.sent) (some-injective _ _ ended)) ∙ sym (append-nil sent))
      | inr (x, xs, items) ↦
          let goes_on =
            sym (
              page_sends (λ _. true) fuel sent s ret x xs items
              ∙ ap (after_sends (λ _. true) fuel s) (send_all-always sent (x ∷ xs)))
            ∙ e in
          let (more, same) = loop-extends fuel (sent ++ x ∷ xs) (next s) out goes_on in
          (x ∷ xs ++ more, same ∙ append_assoc sent (x ∷ xs) more)
    ]

    loop_breaks :
        (fuel : ℕ) (sent : List E) (page : Container × Result (RangeContainer F E))
        (out : Streamed E)
        → stream_loop (λ _. true) next fuel sent page ≡ some out
        → length sent ≤ n
        → n < length out.sent
        → stream_loop accepts next fuel sent page
          ≡ some (record { sent = take n out.sent; failure = some send_error })
    unfolding stream_loop
    loop_breaks zero sent page out e h k = absurd (cc)
    loop_breaks (suc fuel) sent (s, fail f) out e h k =
        let same = ap (λ o. length o.sent) (some-injective _ _ e) in absurd (omega arith)
    loop_breaks (suc fuel) sent (s, done ret) out e h k = elim (List-cases ret.items) [
      | inl none_left ↦
          let ended = sym (page_ends (λ _. true) fuel sent s ret none_left) ∙ e in
          let same = ap (λ o. length o.sent) (some-injective _ _ ended) in absurd (omega arith)
      | inr (x, xs, items) ↦
          let goes_on =
            sym (
              page_sends (λ _. true) fuel sent s ret x xs items
              ∙ ap (after_sends (λ _. true) fuel s) (send_all-always sent (x ∷ xs)))
            ∙ e in
          page_sends accepts fuel sent s ret x xs items
          ∙ elim (send_all-broken accepts n before broken sent (x ∷ xs) h) [
            | inl (here, stops) ↦
                let (more, same) = loop-extends fuel (sent ++ x ∷ xs) (next s) out goes_on in
                ap (after_sends accepts fuel s) stops
                ∙ ap (λ l. some (record { sent = l; failure = some send_error }))
                    (sym (ap (take n) same ∙ take-append n (sent ++ x ∷ xs) more (omega arith)))
            | inr (later, sends) ↦
                ap (after_sends accepts fuel s) sends
                ∙ loop_breaks fuel (sent ++ x ∷ xs) (next s) out goes_on later k
          ]
    ]

module _ {F E : Type 0} (num fuel : ℕ) (next : StartSelector F → ℕ → Pager F E) where
  -- What follows the first page.
  abbrev pub after_first_page :
      (ℕ → Bool)
      → Result (StartSelector F × Container × Result (RangeContainer F E))
      → Option (Streamed E)
  after_first_page accepts first = elim first [
    | fail e ↦ some (record { sent = []; failure = some e })
    | done (start, s, page) ↦ stream_loop accepts (next start num) fuel [] (s, page)
  ]

  first_page_breaks :
      (accepts : ℕ → Bool) (n : ℕ)
      → (first : Result (StartSelector F × Container × Result (RangeContainer F E)))
      → (out : Streamed E) → ((k : ℕ) → k < n → accepts k ≡ true)
      → accepts n ≡ false
      → after_first_page (λ _. true) first ≡ some out
      → n < length out.sent
      → after_first_page accepts first
        ≡ some (record { sent = take n out.sent; failure = some send_error })
  first_page_breaks accepts n (fail e) out before broken sends h =
      let same = ap (λ o. length o.sent) (some-injective _ _ sends) in absurd (omega arith)
  first_page_breaks accepts n (done (start, s, page)) out before broken sends h =
      loop_breaks (next start num) accepts n before broken fuel [] (s, page) out sends (omega arith)
        h

-- When the first sends succeed and the `n`-th, counted from 0, fails, the stream of race states ends
-- with the error of that send and has sent exactly the first `n` of the messages that it sends when
-- every send succeeds, provided that those are more than `n`.
pub broken_state_stream :
    {F D P E : Type 0} (store : Store F D P E) (req : StatesRequest F) (fuel n : ℕ)
    → (accepts : ℕ → Bool) (out : Streamed E) → ((k : ℕ) → k < n → accepts k ≡ true)
    → accepts n ≡ false
    → get_state_stream store req (λ _. true) fuel ≡ some out
    → n < length out.sent
    → get_state_stream store req accepts fuel
      ≡ some (record { sent = take n out.sent; failure = some send_error })
unfolding get_state_stream get_stream
broken_state_stream store req fuel n accepts out before broken sends h =
    first_page_breaks req.num fuel (racestates_next store) accepts n
      (first_page store req (racestates_initial store)) out before broken sends h
