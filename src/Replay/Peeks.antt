-- ===== src/Replay/Peeks.antt =====
-- peek.go and the loops of replay_task.go (sendData in cmd/replay/util, processData in
-- grpc/server/analysis). A channel is the list of the messages that it will give before it is closed;
-- times are nanoseconds since the epoch. A pointer to a peek is the name of its provider.
use iracelog_service_manager.Base.{
  ℕ, zero, suc, String, Bool, true, false, Option, none, some, List, [], ◌∷◌, ◌++◌, length, ltb,
  ◌==◌, string_key, if◌then◌else◌, Outcome, ok, panic, deref, ◌>>=◌,
}

-- A message with its timestamp.
pub record Stamped (M : Type 0) : Type 0 where
  pub stamp : ℕ
  pub message : M

-- commonStateData
pub record Peek (M : Type 0) : Type 0 where
  pub provider : String
  pub data_req : Option (Stamped M)
  pub data_chan : List (Stamped M)

-- `time.Unix(0, 0).Add(1<<63 - 1)`
abbrev pub max_time : ℕ
max_time = 9223372036854775807

-- The variables of a round: `nextTS`, `current` and `currentIdx`.
pub record Selected : Type 0 where
  pub next_ts : ℕ
  pub current : Option String
  pub current_idx : ℕ

module _ {M : Type 0} where
  -- refill
  unfoldable pub refill : Peek M → Peek M × Bool
  refill p = elim p.data_chan [
    | [] ↦ (record p { data_req = none }, false)
    | x ∷ xs ↦ (record p { data_req = some x; data_chan = xs }, true)
  ]

  -- The first loop: every peek is refilled, and one that is exhausted stays.
  unfoldable pub refill_all : List (Peek M) → List (Peek M)
  unfolding refill
  refill_all [] = []
  refill_all (p ∷ ps) = (refill p).0 ∷ refill_all ps

  -- ts
  unfoldable pub ts : Peek M → Outcome ℕ
  ts p = deref p.data_req >>= λ x. ok x.stamp

  -- The loop that looks for the earliest message, from index `i` on.
  unfoldable pub select : ℕ → List (Peek M) → Selected → Outcome Selected
  unfolding ts
  select i [] c = ok c
  select i (p ∷ ps) c = ts p >>= λ t. select (suc i) ps (
      if ltb t c.next_ts
      then record { next_ts = t; current = some p.provider; current_idx = i }
      else c)

  -- The peek that a pointer names; one that was removed is exhausted.
  unfoldable pub find_peek : String → List (Peek M) → Option (Peek M)
  find_peek name [] = none
  find_peek name (p ∷ ps) =
      let rest = find_peek name ps in if p.provider == name then some p else rest

  -- A write through the pointer.
  unfoldable pub put_peek : Peek M → List (Peek M) → List (Peek M)
  put_peek q [] = []
  put_peek q (p ∷ ps) = if p.provider == q.provider then q ∷ ps else p ∷ put_peek q ps

  -- `append(pData[:i], pData[i+1:]...)`
  unfoldable pub remove_at : ℕ → List (Peek M) → List (Peek M)
  remove_at i [] = []
  remove_at zero (p ∷ ps) = ps
  remove_at (suc i) (p ∷ ps) = p ∷ remove_at i ps

  -- The peek that `current` names, with its message.
  unfoldable pub current_peek : Option String → List (Peek M) → Outcome (Peek M × Stamped M)
  unfolding find_peek
  current_peek current peeks = deref current >>= λ name.
      deref (find_peek name peeks) >>= λ p. deref p.data_req >>= λ x. ok (p, x)

  -- `current.refill()`, and the removal of a peek that is exhausted.
  unfoldable pub refill_current : Peek M → ℕ → List (Peek M) → List (Peek M)
  unfolding refill put_peek remove_at
  refill_current p i peeks =
      let (p', more) = refill p in
      let peeks' = put_peek p' peeks in if more then peeks' else remove_at i peeks'

-- What a loop has handed on, by provider, and whether it ended on an error.
pub record Replayed (S M : Type 0) : Type 0 where
  pub out : List (String × Stamped M)
  pub state : S
  pub broken : Bool

-- The loop, with fuel; `none` means that the fuel ran out. `pace` is what a round does with the time
-- of the message before it is handed on, and `accepts` tells whether the n-th hand-over succeeds.
module _ {S M : Type 0} (pace : S → ℕ → S) (accepts : ℕ → Bool) where
  unfoldable pub replay_loop :
      ℕ
      → List (Peek M)
      → Option String
      → S
      → List (String × Stamped M)
      → Option (Outcome (Replayed S M))
  unfolding select current_peek refill_current
  replay_loop zero peeks current s out = none
  replay_loop (suc fuel) peeks current s out =
      elim (select 0 peeks (record { next_ts = max_time; current = current; current_idx = 0 })) [
        | panic ↦ some panic
        | ok c ↦ elim (current_peek c.current peeks) [
          | panic ↦ some panic
          | ok (p, x) ↦
              let s' = pace s c.next_ts in
              elim (accepts (length out)) [
                | false ↦ some (ok (record { out = out; state = s'; broken = true }))
                | true ↦
                    let out' = out ++ (p.provider, x) ∷ [] in
                    elim (refill_current p c.current_idx peeks) [
                      | [] ↦ some (ok (record { out = out'; state = s'; broken = false }))
                      | q ∷ qs ↦ replay_loop fuel (q ∷ qs) c.current s' out'
                    ]
              ]
        ]
      ]
