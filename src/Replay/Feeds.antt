-- ===== src/Replay/Feeds.antt =====
-- What a fetcher hands on: the same messages as the stream of the event.
use iracelog_service_manager.Base.{
  ℕ, zero, suc, ◌+◌, ◌-◌, ◌<◌, true, none, some, some-injective, List, [], ◌∷◌, ◌≡◌, ◌≢◌, refl, sym,
  ◌∙◌, ap, arith, inl, inr, length, length-append, List-cases, ok,
}
use iracelog_service_manager.Base.Results.{Result, done, fail, and_then}
use iracelog_service_manager.States.Types.{Event, StartSelector, id, Store, RangeContainer}
use iracelog_service_manager.States.Pages.{Container, create_states_container}
use iracelog_service_manager.States.Streams.{Pager, first_page, get_stream, stream_loop}
use iracelog_service_manager.States.Paging.{page_done, page_more}
use iracelog_service_manager.States.Broken.{after_first_page}
use iracelog_service_manager.Replay.Fetch.{provide}
use iracelog_service_manager.Replay.Provided.{provide-buffer, provide-stream_loop}
use iracelog_service_manager.Replay.Recompute.{state_selector, new_fetcher}

some-none : {A : Type 0} {a : A} → some a ≡ none → ⊥
some-none h = absurd cc

module _ {F E : Type 0} (next : Pager F E) where
  -- A stream that starts with a page that is not empty, and the fetcher of this page.
  provide-first_page :
      (fuel : ℕ) (s : Container) (rc : RangeContainer F E) (all : List E)
      → stream_loop (λ n. true) next (suc fuel) [] (s, done rc)
        ≡ some (record { sent = all; failure = none })
      → all ≢ []
      → (n : ℕ) → length all < n
      → provide next n (new_fetcher s rc) [] ≡ some (ok all)
  provide-first_page fuel s rc all h some_item n enough = elim (List-cases rc.items) [
    | inl e ↦
        let ended : [] ≡ all =
          ap (λ r. elim r [ none ↦ [] | some r ↦ r.sent ])
            (sym (page_done (λ n. true) (λ n. refl) next fuel [] s rc e) ∙ h) in
        absurd (some_item (sym ended))
    | inr (x, xs, e) ↦
        let (rest, split, runs) =
          provide-stream_loop next (λ n. true) (λ n. refl) fuel s (x ∷ xs) all (next s) refl
            (sym (page_more (λ n. true) (λ n. refl) next fuel [] s rc x xs e) ∙ h) in
        let size = length-append (x ∷ xs) rest in
        let m = n - suc (length xs) in
        let left : n ≡ suc (length xs) + m = omega (arith, enough, ap length split, size) in
        ap (λ k. provide next k (new_fetcher s rc) []) left
        ∙ ap (λ ys. provide next (suc (length xs) + m) (record { container = s; buffer = ys }) []) e
        ∙ provide-buffer next m s (x ∷ xs) []
        ∙ runs m (omega (arith, enough, ap length split, size))
  ]

module _ {F E : Type 0} (next : StartSelector F → ℕ → Pager F E) where
  from_page :
      (fuel : ℕ) (all : List E) (page : Container × Result (RangeContainer F E))
      → stream_loop (λ n. true) (next (id 0) 0) fuel [] page
        ≡ some (record { sent = all; failure = none })
      → all ≢ []
      → (s : Container) × (rc : RangeContainer F E) × (page ≡ (s, done rc))
        × ((n : ℕ)
            → length all < n
            → provide (next (id 0) 0) n (new_fetcher s rc) [] ≡ some (ok all))
  unfolding stream_loop
  from_page zero all page h some_item = absurd (cc)
  from_page (suc fuel) all (s, fail f) h some_item =
      absurd (some-none (ap (λ o. o.failure) (some-injective _ _ h)))
  from_page (suc fuel) all (s, done rc) h some_item =
      (s, rc, refl, provide-first_page (next (id 0) 0) fuel s rc all h some_item)

  abbrev first_of :
      (StartSelector F → ℕ → Pager F E)
      → Container
      → Result (StartSelector F × Container × Result (RangeContainer F E))
  first_of initial c = let (s, page) = initial (id 0) 0 c in done (id 0, s, page)

  from_container :
      (initial : StartSelector F → ℕ → Pager F E) (fuel : ℕ) (all : List E) (r : Result Container)
      → after_first_page 0 fuel next (λ n. true) (and_then r (first_of initial))
        ≡ some (record { sent = all; failure = none })
      → all ≢ []
      → (s : Container) × (rc : RangeContainer F E) × (and_then r (first_of initial)
          ≡ done (id 0, s, done rc))
        × ((n : ℕ)
            → length all < n
            → provide (next (id 0) 0) n (new_fetcher s rc) [] ≡ some (ok all))
  from_container initial fuel all (fail f) h some_item =
      absurd (some-none (ap (λ o. o.failure) (some-injective _ _ h)))
  from_container initial fuel all (done c) h some_item =
      let (s, rc, same, given) = from_page fuel all (initial (id 0) 0 c) h some_item in
      (s, rc, ap (λ p. done (id 0, p.0, p.1)) same, given)

-- A stream of all messages of an event that ends without an error has found a first page, and the
-- fetcher of this page hands on the same messages.
pub provides_all :
    {F D P E : Type 0} (store : Store F D P E) (initial next : StartSelector F → ℕ → Pager F E)
    → (e : Event) (fuel : ℕ) (all : List E)
    → get_stream store (state_selector e) (λ n. true) fuel initial next
      ≡ some (record { sent = all; failure = none })
    → all ≢ []
    → (s : Container) × (rc : RangeContainer F E) × (first_page store (state_selector e) initial
        ≡ done (id 0, s, done rc))
      × ((n : ℕ) → length all < n → provide (next (id 0) 0) n (new_fetcher s rc) [] ≡ some (ok all))
unfolding get_stream first_page
provides_all store initial next e fuel all sends some_item =
    from_container next initial fuel all (create_states_container store (state_selector e)) sends
      some_item
