-- ===== src/Replay/Fetch.antt =====
-- data_fetcher.go, and the loops provideStateData and provideDriverData of replay_task.go: the messages
-- of a container, one at a time. A send on the channel adds to the list of what it will give.
use iracelog_service_manager.Base.{
  ℕ, zero, suc, Option, none, some, List, [], ◌∷◌, ◌++◌, Outcome, ok, panic, ◌>>=◌,
}
use iracelog_service_manager.Base.Results.{done, fail}
use iracelog_service_manager.States.Pages.{Container}
use iracelog_service_manager.States.Streams.{Pager}

-- commonFetcher, with the container that its loader asks.
pub record Fetcher (E : Type 0) : Type 0 where
  pub container : Container
  pub buffer : List E

module _ {F E : Type 0} (next_request : Pager F E) where
  -- fetch, with the loader of newDataProviderImpl: it reads the data of what NextRequest returns, which
  -- is nil on an error.
  unfoldable pub fetch : Fetcher E → Outcome (Fetcher E)
  fetch f =
      let (s, page) = next_request f.container in
      elim page [ fail e ↦ panic | done rc ↦ ok (record { container = s; buffer = rc.items }) ]

  -- next: the buffer is filled when it is empty.
  unfoldable pub refilled : Fetcher E → Outcome (Fetcher E)
  unfolding fetch
  refilled f = elim f.buffer [ [] ↦ fetch f | _ ∷ _ ↦ ok f ]

  unfoldable pub next : Fetcher E → Outcome (Option E × Fetcher E)
  unfolding refilled
  next f = refilled f >>= λ g. elim g.buffer [
    | [] ↦ ok (none, g)
    | x ∷ xs ↦ ok (some x, record g { buffer = xs })
  ]

  -- The loop, with fuel; `none` means that the fuel ran out.
  unfoldable pub provide : ℕ → Fetcher E → List E → Option (Outcome (List E))
  unfolding next
  provide zero f given = none
  provide (suc fuel) f given = elim (next f) [
    | panic ↦ some panic
    | ok (none, g) ↦ some (ok given)
    | ok (some x, g) ↦ provide fuel g (given ++ x ∷ [])
  ]
