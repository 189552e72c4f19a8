-- ===== src/Replay/Published.antt =====
-- sendData publishes every message of its three sources.
use mathlib.Core.List.{append-nil}
use iracelog_service_manager.Base.{
  ℕ, ◌+◌, ◌-◌, ◌≤◌, String, Bool, true, false, Option, none, some, List, [], ◌∷◌, ◌++◌, ◌≡◌, ◌≢◌,
  refl, sym, ◌∙◌, ap, subst, arith, if◌then◌else◌, ◌==◌, string_key, length, inl, inr, Bool-cases,
  ok, ltb,
}
use iracelog_service_manager.Replay.Peeks.{Stamped, refill, refill_all}
use iracelog_service_manager.Replay.Choice.{InTime, ready}
use iracelog_service_manager.Replay.Merged.{of_provider, InOrder, items}
use iracelog_service_manager.Replay.Loop.{paced, replay_loop-Merges}
use iracelog_service_manager.Replay.Sending.{
  Clock, compute_fast_forward_stop, pause, pace, send_data,
}
use iracelog_service_manager.Replay.Round.{held_of}
use iracelog_service_manager.Replay.Timed.{span, end, clock, paced-slept, paced_real_time}

module _ {M : Type 0} where
  -- The messages of a provider among three sources.
  abbrev pub sources :
      List (Stamped M) → List (Stamped M) → List (Stamped M) → String → List (Stamped M)
  sources states driver_data speedmaps c =
      (if "StateData" == c then states else [])
      ++ ((if "DriverData" == c then driver_data else [])
          ++ (if "SpeedmapData" == c then speedmaps else []))

  held_of-three :
      (c : String) (x y z : Stamped M) (xs ys zs : List (Stamped M))
      → held_of c
          (ready "StateData" x xs ∷ ready "DriverData" y ys ∷ ready "SpeedmapData" z zs ∷ [])
        ≡ sources (x ∷ xs) (y ∷ ys) (z ∷ zs) c
  unfolding held_of
  held_of-three c x y z xs ys zs =
      ap
        (λ l.
          (if "StateData" == c then x ∷ xs else [])
          ++ ((if "DriverData" == c then y ∷ ys else []) ++ l))
        (append-nil (if "SpeedmapData" == c then z ∷ zs else []))

  module _ (fast_forward speed : ℕ) where
    -- The first message is published at once.
    first_pace :
        (x : Stamped M)
        → (stop : Option ℕ) × (pace fast_forward speed
              (record { last_ts = none; ff_stop_time = none; slept = 0 })
              x.stamp
            ≡ clock x.stamp stop 0)
          × (fast_forward ≡ 0 → stop ≡ none)
    unfolding pace pause compute_fast_forward_stop
    first_pace x = elim (Bool-cases (ltb 0 fast_forward)) [
      | inl h ↦ (
        some (x.stamp + fast_forward),
        rw (h, pause, compute_fast_forward_stop) refl,
        (λ zero_ff. absurd (ground arith)),
      )
      | inr h ↦ (none, rw (h, pause, compute_fast_forward_stop) refl, (λ zero_ff. refl))
    ]

    -- The sleeps of a whole replay in the order of time.
    total_sleep :
        (rest : List (String × Stamped M))
        → InOrder (items rest)
        → (let slept =
              (paced
                (pace fast_forward speed)
                (record { last_ts = none; ff_stop_time = none; slept = 0 })
                rest).slept in
            (slept ≤ span rest) × (fast_forward ≡ 0 → speed ≤ 1 → slept ≡ span rest))
    total_sleep [] o = (omega arith, (λ h k. refl))
    total_sleep ((k, x) ∷ rs) (o, os) =
        let (stop, same, real) = first_pace x in
        subst
          (λ c.
            let slept = (paced (pace fast_forward speed) c rs).slept in
            (slept ≤ end x.stamp rs - x.stamp)
            × (fast_forward ≡ 0 → speed ≤ 1 → slept ≡ end x.stamp rs - x.stamp))
          (sym same)
          (
            omega (arith, paced-slept fast_forward speed rs x.stamp stop 0 o os),
            (λ h slow.
                ap (λ f. (paced (pace fast_forward speed) (clock x.stamp f 0) rs).slept) (real h)
                ∙ paced_real_time fast_forward speed rs x.stamp 0 h slow o os
                ∙ omega arith),
          )

    -- A whole replay.
    send_data-all :
        (states driver_data speedmaps : List (Stamped M))
        → states ≢ []
        → driver_data ≢ []
        → speedmaps ≢ []
        → InTime states
        → InTime driver_data
        → InTime speedmaps
        → InOrder states
        → InOrder driver_data
        → InOrder speedmaps
        → (accepts : ℕ → Bool) → ((n : ℕ) → accepts n ≡ true)
        → (fuel : ℕ) → length states + length driver_data + length speedmaps ≤ fuel
        → (out : List (String × Stamped M)) × (clock_end : Clock) × (send_data fast_forward speed
              accepts fuel states driver_data speedmaps
            ≡ some (ok (record { out = out; state = clock_end; broken = false })))
          × ((c : String) → of_provider c out ≡ sources states driver_data speedmaps c)
          × InOrder (items out)
          × (clock_end.slept ≤ span out)
          × (fast_forward ≡ 0 → speed ≤ 1 → clock_end.slept ≡ span out)
    unfolding send_data refill_all refill
    send_data-all [] ds ms h k l _ _ _ _ _ _ accepts takes fuel enough = absurd (h refl)
    send_data-all (x ∷ xs) [] ms h k l _ _ _ _ _ _ accepts takes fuel enough = absurd (k refl)
    send_data-all (x ∷ xs) (y ∷ ys) [] h k l _ _ _ _ _ _ accepts takes fuel enough = absurd (l refl)
    send_data-all (x ∷ xs) (y ∷ ys) (z ∷ zs) h k l in_s in_d in_m o_s o_d o_m accepts takes fuel
          enough =
        let (out, m, runs) =
          replay_loop-Merges (pace fast_forward speed) accepts takes fuel (ready "StateData" x xs)
            (ready "DriverData" y ys ∷ ready "SpeedmapData" z zs ∷ []) none
            (record { last_ts = none; ff_stop_time = none; slept = 0 }) []
            (
              ((x, refl), ((y, refl), ((z, refl), tt))),
              ((refl, (refl, tt)), ((refl, tt), (tt, tt))),
              (in_s, (in_d, (in_m, tt))),
            )
            (omega (arith, enough)) in
        let ordered = m.ordered (o_s, (o_d, (o_m, tt))) in
        let (most, exactly) = total_sleep out ordered in
        (
          out,
          paced (pace fast_forward speed)
              (record { last_ts = none; ff_stop_time = none; slept = 0 }) out,
          runs,
          (λ c. m.kept c ∙ held_of-three c x y z xs ys zs),
          ordered,
          most,
          exactly,
        )

    module _ (states driver_data speedmaps : List (Stamped M)) (some_states : states ≢ [])
        (some_driver_data : driver_data ≢ []) (some_speedmaps : speedmaps ≢ [])
        (states_in_time : InTime states) (driver_data_in_time : InTime driver_data)
        (speedmaps_in_time : InTime speedmaps) (states_ordered : InOrder states)
        (driver_data_ordered : InOrder driver_data) (speedmaps_ordered : InOrder speedmaps)
        (accepts : ℕ → Bool) (takes : (n : ℕ) → accepts n ≡ true) (fuel : ℕ)
        (enough : length states + length driver_data + length speedmaps ≤ fuel) where
      -- Three sources that are not empty and in order, with times before the largest one, every call to
      -- publish succeeds, and fuel for all messages: the replay ends without an error, publishes each message
      -- once, in the order of time, and sleeps no longer than from the first message to the last one.
      pub send_data_publishes :
          (out : List (String × Stamped M)) × (clock_end : Clock) × (send_data fast_forward speed
              accepts fuel states driver_data speedmaps
            ≡ some (ok (record { out = out; state = clock_end; broken = false })))
          × ((c : String) → of_provider c out ≡ sources states driver_data speedmaps c)
          × InOrder (items out)
          × (clock_end.slept ≤ span out)
      send_data_publishes =
          let (out, clock_end, runs, kept, ordered, most, exactly) =
            send_data-all states driver_data speedmaps some_states some_driver_data some_speedmaps
              states_in_time driver_data_in_time speedmaps_in_time states_ordered
              driver_data_ordered speedmaps_ordered accepts takes fuel enough in
          (out, clock_end, runs, kept, ordered, most)

      -- Under the same conditions, without fast forward and with a speed of at most 1, the replay sleeps
      -- exactly as long as it is from the first message to the last one.
      pub send_data_real_time :
          fast_forward ≡ 0
          → speed ≤ 1
          → (out : List (String × Stamped M)) × (clock_end : Clock) × (send_data fast_forward speed
                accepts fuel states driver_data speedmaps
              ≡ some (ok (record { out = out; state = clock_end; broken = false })))
            × (clock_end.slept ≡ span out)
      send_data_real_time no_ff slow =
          let (out, clock_end, runs, kept, ordered, most, exactly) =
            send_data-all states driver_data speedmaps some_states some_driver_data some_speedmaps
              states_in_time driver_data_in_time speedmaps_in_time states_ordered
              driver_data_ordered speedmaps_ordered accepts takes fuel enough in
          (out, clock_end, runs, exactly no_ff slow)
