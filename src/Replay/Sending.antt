-- ===== src/Replay/Sending.antt =====
-- replay_task.go of cmd/replay/util (sendData): messages are published with the pauses between them.
-- Times are nanoseconds since the epoch, the zero time is `none`. A wait that is not positive is no sleep,
-- so a negative one is 0.
use Prim.Native.Nat.{◌/◌}
use iracelog_service_manager.Base.{
  ℕ, ◌+◌, ◌-◌, Bool, false, Option, none, some, List, [], ◌∷◌, Outcome, ltb, if◌then◌else◌,
}
use iracelog_service_manager.Replay.Peeks.{Stamped, Replayed, refill_all, replay_loop}
use iracelog_service_manager.Replay.Recompute.{new_peek}

-- `lastTS` of sendData, `ffStopTime`, and how long the loop has slept.
pub record Clock : Type 0 where
  pub last_ts : Option ℕ
  pub ff_stop_time : Option ℕ
  pub slept : ℕ

-- The options of the replay: `fastForward` and `Speed`, which is positive or counts as 0.
module _ (fast_forward speed : ℕ) where
  -- computeFastForwardStop
  unfoldable pub compute_fast_forward_stop : ℕ → Clock → Clock
  compute_fast_forward_stop cur c =
      if ltb 0 fast_forward
      then elim c.ff_stop_time [
        | none ↦ record c { ff_stop_time = some (cur + fast_forward) }
        | some _ ↦ c
      ]
      else c

  -- `nextTS.Before(r.ffStopTime)`; no time of a message is before the zero time.
  abbrev pub is_before : ℕ → Option ℕ → Bool
  is_before t none = false
  is_before t (some stop) = ltb t stop

  -- calcWaitTime
  unfoldable pub calc_wait_time : ℕ → ℕ → Clock → ℕ
  calc_wait_time next_ts last_ts c =
      let delta = next_ts - last_ts in
      if is_before next_ts c.ff_stop_time then 0 else (if ltb 0 speed then delta / speed else delta)

  -- The pause before the message of the time `next_ts`, unless it is the first one.
  unfoldable pub pause : ℕ → Clock → Clock
  unfolding calc_wait_time
  pause next_ts c =
      let wait : ℕ = elim c.last_ts [ none ↦ 0 | some last ↦ calc_wait_time next_ts last c ] in
      record c { last_ts = some next_ts; slept = c.slept + wait }

  -- What a round of sendData does before it publishes the message of the time `next_ts`.
  unfoldable pub pace : Clock → ℕ → Clock
  unfolding compute_fast_forward_stop pause
  pace c next_ts = pause next_ts (compute_fast_forward_stop next_ts c)

  -- sendData; the n-th call to publish succeeds if `accepts n`.
  unfoldable pub send_data :
      {M : Type 0}
      → (ℕ → Bool)
      → ℕ
      → List (Stamped M)
      → List (Stamped M)
      → List (Stamped M)
      → Option (Outcome (Replayed Clock M))
  unfolding refill_all replay_loop pace
  send_data accepts fuel states driver_data speedmaps =
      replay_loop pace accepts fuel
        (refill_all (
          new_peek "StateData" states
          ∷ new_peek "DriverData" driver_data
          ∷ new_peek "SpeedmapData" speedmaps
          ∷ []))
        none (record { last_ts = none; ff_stop_time = none; slept = 0 }) []
