-- ===== src/Replay/Provided.antt =====
-- What the fetcher of a container hands on is what the stream of the same pages sends.
use mathlib.Core.List.{append_assoc, append-nil}
use iracelog_service_manager.Base.{
  ℕ, zero, suc, ◌+◌, ◌-◌, ◌<◌, Bool, true, none, some, List, [], ◌∷◌, ◌++◌, ◌≡◌, refl, sym, ◌∙◌, ap,
  arith, length, length-append, List-cases, ok, inl, inr,
}
use iracelog_service_manager.Base.Results.{Result, done, fail}
use iracelog_service_manager.States.Types.{RangeContainer}
use iracelog_service_manager.States.Pages.{Container}
use iracelog_service_manager.States.Streams.{Pager, stream_loop}
use iracelog_service_manager.States.Paging.{page_done, page_more}
use iracelog_service_manager.Replay.Fetch.{fetch, refilled, next, provide}

module _ {F E : Type 0} (next_request : Pager F E) where
  -- The items of the buffer go first.
  pub provide-buffer :
      (n : ℕ) (s : Container) (xs given : List E)
      → provide next_request (length xs + n) (record { container = s; buffer = xs }) given
        ≡ provide next_request n (record { container = s; buffer = [] }) (given ++ xs)
  unfolding provide next refilled
  provide-buffer n s [] given =
      rw (append-nil given) (
        ap (λ k. provide next_request k (record { container = s; buffer = [] }) given)
          (omega arith))
  provide-buffer n s (x ∷ xs) given =
      let one_more : suc (length xs) + n ≡ suc (length xs + n) = omega arith in
      ap (λ k. provide next_request k (record { container = s; buffer = x ∷ xs }) given) one_more
      ∙ provide-buffer n s xs (given ++ x ∷ [])
      ∙ ap (provide next_request n (record { container = s; buffer = [] }))
          (append_assoc given (x ∷ []) xs)

  module _ (s s' : Container) (rc : RangeContainer F E) (given : List E)
      (answer : next_request s ≡ (s', done rc)) where
    -- A page is fetched when the buffer is empty.
    provide-fetch :
        (n : ℕ) (x : E) (xs : List E)
        → rc.items ≡ x ∷ xs
        → provide next_request (suc n) (record { container = s; buffer = [] }) given
          ≡ provide next_request n (record { container = s'; buffer = xs }) (given ++ x ∷ [])
    unfolding provide next refilled fetch
    provide-fetch n x xs e =
        rw (answer, e, provide)
          (ap
            (λ p.
              provide next_request n (record { container = p.0; buffer = xs }) (given ++ x ∷ []))
            answer)

    -- An empty page is the end.
    provide-end :
        (n : ℕ)
        → rc.items ≡ []
        → provide next_request (suc n) (record { container = s; buffer = [] }) given
          ≡ some (ok given)
    unfolding provide next refilled fetch
    provide-end n e = rw (answer, e, provide) refl

  module _ (accepts : ℕ → Bool) (fine : (n : ℕ) → accepts n ≡ true) where
    -- A stream that ends well has sent `rest`, and so does the fetcher.
    pub provide-stream_loop :
        (fuel : ℕ) (s : Container) (given all : List E)
        (page : Container × Result (RangeContainer F E))
        → next_request s ≡ page
        → stream_loop accepts next_request fuel given page
          ≡ some (record { sent = all; failure = none })
        → (rest : List E) × (all ≡ given ++ rest)
          × ((n : ℕ)
              → length rest < n
              → provide next_request n (record { container = s; buffer = [] }) given
                ≡ some (ok all))
    unfolding stream_loop
    provide-stream_loop zero s given all page answer h = absurd cc
    provide-stream_loop (suc fuel) s given all (s', fail e) answer h =
        let wrong : some e ≡ none = ap (λ r. elim r [ none ↦ none | some r ↦ r.failure ]) h in
        absurd cc
    provide-stream_loop (suc fuel) s given all (s', done rc) answer h = elim (List-cases rc.items) [
      | inl e ↦
          let ended : given ≡ all =
            ap (λ r. elim r [ none ↦ [] | some r ↦ r.sent ])
              (sym (page_done accepts fine next_request fuel given s' rc e) ∙ h) in
          (
            [],
            sym ended ∙ sym (append-nil given),
            (λ n enough.
                let one_left : n ≡ suc (n - 1) = omega (arith, enough) in
                ap (λ k. provide next_request k (record { container = s; buffer = [] }) given)
                  one_left
                ∙ provide-end s s' rc given answer (n - 1) e
                ∙ ap (λ g. some (ok g)) ended),
          )
      | inr (x, xs, e) ↦
          let (rest, split, runs) =
            provide-stream_loop fuel s' (given ++ x ∷ xs) all (next_request s') refl
              (sym (page_more accepts fine next_request fuel given s' rc x xs e) ∙ h) in
          (
            x ∷ xs ++ rest,
            split ∙ append_assoc given (x ∷ xs) rest,
            (λ n enough.
                let size = length-append xs rest in
                let m = n - suc (length xs) in
                let left : n ≡ suc (length xs + m) = omega (arith, enough, size) in
                ap (λ k. provide next_request k (record { container = s; buffer = [] }) given) left
                ∙ provide-fetch s s' rc given answer (length xs + m) x xs e
                ∙ provide-buffer m s' xs (given ++ x ∷ [])
                ∙ ap (provide next_request m (record { container = s'; buffer = [] }))
                    (append_assoc given (x ∷ []) xs)
                ∙ runs m (omega (arith, enough, size))),
          )
    ]
