-- ===== src/Replay/Timed.antt =====
-- How long sendData sleeps, and what it publishes.
use Prim.Native.Nat.{◌/◌}
use iracelog_service_manager.Base.{
  ℕ, ◌+◌, ◌-◌, ◌≤◌, String, Option, none, some, List, [], ◌∷◌, ◌≡◌, refl, sym, ◌∙◌, ap, subst,
  arith, string_key, inl, inr, Bool-cases, All, ltb,
}
use iracelog_service_manager.Replay.Peeks.{Stamped}
use iracelog_service_manager.Replay.Merged.{InOrder, items}
use iracelog_service_manager.Replay.Loop.{paced}
use iracelog_service_manager.Replay.Sending.{
  Clock, compute_fast_forward_stop, calc_wait_time, pause, pace, is_before,
}

module _ {M : Type 0} where
  -- The time of the last message, from the time `t` on.
  abbrev pub end : ℕ → List (String × Stamped M) → ℕ
  end t [] = t
  end t ((_, x) ∷ rs) = end x.stamp rs

  -- The time between the first and the last message.
  abbrev pub span : List (String × Stamped M) → ℕ
  span [] = 0
  span ((_, x) ∷ rs) = end x.stamp rs - x.stamp

  end-ge :
      (t : ℕ) (rs : List (String × Stamped M))
      → All (λ y. t ≤ y.stamp) (items rs)
      → InOrder (items rs)
      → t ≤ end t rs
  end-ge t [] h o = omega arith
  end-ge t ((_, x) ∷ rs) (h, hs) (o, os) = omega (arith, h, end-ge x.stamp rs o os)

-- A clock of a loop that has handed on a message of the time `last`.
abbrev pub clock : ℕ → Option ℕ → ℕ → Clock
clock last stop w = record { last_ts = some last; ff_stop_time = stop; slept = w }

module _ (fast_forward speed : ℕ) where
  pub compute_fast_forward_stop-clock :
      (last : ℕ) (stop : Option ℕ) (w t : ℕ)
      → (stop' : Option ℕ) × (compute_fast_forward_stop fast_forward speed t (clock last stop w)
          ≡ clock last stop' w)
  unfolding compute_fast_forward_stop
  compute_fast_forward_stop-clock last none w t = elim (Bool-cases (ltb 0 fast_forward)) [
    | inl h ↦ (some (t + fast_forward), rw h refl)
    | inr h ↦ (none, rw h refl)
  ]
  compute_fast_forward_stop-clock last (some stop) w t = elim (Bool-cases (ltb 0 fast_forward)) [
    | inl h ↦ (some stop, rw h refl)
    | inr h ↦ (some stop, rw h refl)
  ]

  calc_wait_time-le :
      (t last : ℕ) (c : Clock) → calc_wait_time fast_forward speed t last c ≤ t - last
  unfolding calc_wait_time
  calc_wait_time-le t last c = elim (Bool-cases (is_before fast_forward speed t c.ff_stop_time)) [
    | inl h ↦ rw h (omega arith)
    | inr h ↦ elim (Bool-cases (ltb 0 speed)) [
      | inl k ↦ rw (h, k) (omega arith)
      | inr k ↦ rw (h, k) (omega arith)
    ]
  ]

  -- A round sleeps no longer than the time since the last message.
  pace-clock :
      (last : ℕ) (stop : Option ℕ) (w t : ℕ)
      → (stop' : Option ℕ) × (w' : ℕ) × (pace fast_forward speed (clock last stop w) t
          ≡ clock t stop' w')
        × (w' ≤ w + (t - last))
  unfolding pace pause
  pace-clock last stop w t =
      let (stop', same) = compute_fast_forward_stop-clock last stop w t in
      let wait = calc_wait_time fast_forward speed t last (clock last stop' w) in
      (
        stop',
        w + wait,
        ap (pause fast_forward speed t) same,
        omega (arith, calc_wait_time-le t last (clock last stop' w)),
      )

  pub no_fast_forward :
      (last w t : ℕ)
      → fast_forward ≡ 0
      → compute_fast_forward_stop fast_forward speed t (clock last none w) ≡ clock last none w
  unfolding compute_fast_forward_stop
  no_fast_forward last w t no_ff = rw no_ff refl

  -- In real time, it sleeps exactly that long.
  pace_real_time :
      (last w t : ℕ)
      → fast_forward ≡ 0
      → speed ≤ 1
      → pace fast_forward speed (clock last none w) t ≡ clock t none (w + (t - last))
  unfolding pace pause calc_wait_time
  pace_real_time last w t no_ff slow =
      ap (pause fast_forward speed t) (no_fast_forward last w t no_ff)
      ∙ ap (λ d. clock t none (w + d))
          (elim (Bool-cases (ltb 0 speed)) [
            | inl h ↦
                let one : speed ≡ 1 = ground arith in
                let wait : (t - last) / speed ≡ t - last = rw one (omega arith) in rw (h, wait) refl
            | inr h ↦ rw h refl
          ])

  module _ {M : Type 0} where
    -- The rounds sleep no longer than the time between the messages.
    pub paced-slept :
        (rest : List (String × Stamped M)) (last : ℕ) (stop : Option ℕ) (w : ℕ)
        → All (λ y. last ≤ y.stamp) (items rest)
        → InOrder (items rest)
        → (paced (pace fast_forward speed) (clock last stop w) rest).slept
          ≤ w + (end last rest - last)
    paced-slept [] last stop w h o = omega arith
    paced-slept ((k, x) ∷ rs) last stop w (h, hs) (o, os) =
        let (stop', w', same, bound) = pace-clock last stop w x.stamp in
        let later = paced-slept rs x.stamp stop' w' o os in
        let rest_end = end-ge x.stamp rs o os in
        subst (λ c. (paced (pace fast_forward speed) c rs).slept ≤ w + (end x.stamp rs - last))
          (sym same) (omega (arith, later, bound, rest_end, h))

    pub paced_real_time :
        (rest : List (String × Stamped M)) (last w : ℕ)
        → fast_forward ≡ 0
        → speed ≤ 1
        → All (λ y. last ≤ y.stamp) (items rest)
        → InOrder (items rest)
        → (paced (pace fast_forward speed) (clock last none w) rest).slept
          ≡ w + (end last rest - last)
    paced_real_time [] last w no_ff slow h o = omega arith
    paced_real_time ((k, x) ∷ rs) last w no_ff slow (h, hs) (o, os) =
        let later = paced_real_time rs x.stamp (w + (x.stamp - last)) no_ff slow o os in
        let rest_end = end-ge x.stamp rs o os in
        subst (λ c. (paced (pace fast_forward speed) c rs).slept ≡ w + (end x.stamp rs - last))
          (sym (pace_real_time last w x.stamp no_ff slow)) (omega (arith, later, rest_end, h))
