-- ===== src/Stints/Finish.antt =====
-- The loop of Calc to the end of the race: every round moves forward, so the plan is finished.
use native.Mathlib.Nat.{mul_comm}
use Prim.Native.Nat.{◌%◌}
use iracelog_service_manager.Base.{
  long_word, ℕ, zero, suc, ◌+◌, ◌-◌, ◌*◌, ◌≤◌, ◌<◌, Bool, true, false, Option, some, List, ◌≡◌,
  refl, sym, ◌∙◌, subst, ap, arith, if◌then◌else◌, Bool-cases, inl, inr, add64, sub64, mul64, lt64,
  widen, sub64-small,
}
use iracelog_service_manager.Stints.Calc.{
  PredictParam, Plan, Part, add_stint, add_pitstop, advance_lap, round, loop,
}
use iracelog_service_manager.Stints.Steps.{
  limit, Contiguous, InRange, Reaches, add_stint-Reaches, add_pitstop-Reaches, product_pos,
  lap_product,
}

module _ (ceil_laps : ℕ → ℕ → ℕ) (c : PredictParam) (offset : ℕ) where
  -- A step of the loop from `cur`, in a plan of parts that began at `b`.
  pub record Progress (b cur : ℕ) (s : Plan) : Type 0 where
    pub later : cur < s.cur_dur
    pub bounded : s.cur_dur ≤ 3 * limit
    pub reaches : Reaches ceil_laps c offset b s

  either_way :
      (b cur : ℕ) (q : Bool) (x y : Plan)
      → (q ≡ true → Progress b cur x)
      → Progress b cur y
      → Progress b cur (if q then x else y)
  either_way b cur true x y h k = h refl
  either_way b cur false x y h k = k

  module _ (r : InRange ceil_laps c offset) (b : ℕ) (s : Plan) (open_end : s.cur_dur < c.duration)
      (h : Reaches ceil_laps c offset b s) where
    last_stint :
        Progress b s.cur_dur
          (add_stint ceil_laps c offset (ceil_laps (sub64 c.duration s.cur_dur) c.avg_laptime) s)
    last_stint =
        let left : sub64 c.duration s.cur_dur ≡ c.duration - s.cur_dur =
          sub64-small c.duration s.cur_dur (omega arith) (omega (arith, r.race_le)) in
        subst
          (λ d. Progress b s.cur_dur (add_stint ceil_laps c offset (ceil_laps d c.avg_laptime) s))
          (sym left) (remaining (c.duration - s.cur_dur) (omega arith) (omega arith))
      where
        remaining :
            (d : ℕ)
            → 0 < d
            → d ≤ c.duration
            → Progress b s.cur_dur (add_stint ceil_laps c offset (ceil_laps d c.avg_laptime) s)
        remaining d p l =
            let race = r.race_le in
            let off = r.offset_le in
            let most = r.ceil_le d p l in
            let least =
              product_pos (ceil_laps d c.avg_laptime) c.avg_laptime (r.ceil_pos d p l) r.lap_pos in
            let (sum, reaches) =
              add_stint-Reaches ceil_laps c offset b (ceil_laps d c.avg_laptime) s (r.ceil_lt d p l)
                (omega arith) h in
            record { later = omega arith; bounded = omega arith; reaches = reaches }

    full_stint :
        s.cur_dur + c.lps * c.avg_laptime < c.duration
        → Progress b s.cur_dur (
            let s' =
              advance_lap ceil_laps c offset c.lps
                (add_pitstop ceil_laps c offset (add_stint ceil_laps c offset c.lps s)) in
            if lt64 s'.cur_dur c.duration then s' else add_stint ceil_laps c offset 1 s')
    unfolding advance_lap
    full_stint fits =
        let race = r.race_le in
        let off = r.offset_le in
        let stop = r.overall_le in
        let lap = r.lap_le in
        let positive = r.lap_pos in
        let least = product_pos c.lps c.avg_laptime r.lps_pos r.lap_pos in
        let s1 = add_stint ceil_laps c offset c.lps s in
        let s2 = add_pitstop ceil_laps c offset s1 in
        let s3 = advance_lap ceil_laps c offset c.lps s2 in
        let (sum1, r1) = add_stint-Reaches ceil_laps c offset b c.lps s r.lps_lt (omega arith) h in
        let (sum2, r2) = add_pitstop-Reaches ceil_laps c offset b s1 (omega arith) r1 in
        let r3 : Reaches ceil_laps c offset b s3 = r2 in
        let (sum4, r4) =
          add_stint-Reaches ceil_laps c offset b 1 s3 (omega arith) (omega arith) r3 in
        either_way b s.cur_dur (lt64 s3.cur_dur c.duration) s3 (add_stint ceil_laps c offset 1 s3)
          (λ _. record { later = omega arith; bounded = omega arith; reaches = r2 })
          (record { later = omega arith; bounded = omega arith; reaches = r4 })

    pub round-Progress : Progress b s.cur_dur (round ceil_laps c offset s)
    unfolding round
    round-Progress = either_way b s.cur_dur _ _ _ (λ e. full_stint (fits e)) last_stint
      where
        small :
            (n : ℕ)
            → n ≤ limit
            → lt64 (add64 s.cur_dur n) c.duration ≡ true
            → s.cur_dur + n < c.duration
        small n l e = let race = r.race_le in ground arith

        fits :
            lt64 (add64 s.cur_dur (mul64 c.avg_laptime (widen c.lps))) c.duration ≡ true
            → s.cur_dur + c.lps * c.avg_laptime < c.duration
        fits e =
            let race = r.race_le in
            let most = r.stint_le in
            let d : mul64 c.avg_laptime (widen c.lps) ≡ c.lps * c.avg_laptime =
              ap (λ x. x % long_word) (mul_comm c.avg_laptime (widen c.lps))
              ∙ lap_product ceil_laps c offset c.lps r.lps_lt (omega arith) in
            let t = ap (λ x. lt64 (add64 s.cur_dur x) c.duration) (sym d) ∙ e in
            small (c.lps * c.avg_laptime) most t

  -- A plan without gaps from `b` to the end of the race or later.
  abbrev pub Finishes : ℕ → Option (List Part) → Type 0
  Finishes b result =
      (ps : List Part) × (e : ℕ) × (result ≡ some ps)
      × Contiguous b ps e
      × (c.duration + offset ≤ e)

  -- Let the request be in range, and the fuel more than the nanoseconds to the end of the race. The
  -- loop then ends, and the parts of the plan follow one another without a gap from where they began
  -- to the end of the race or later.
  pub loop-Finishes :
      InRange ceil_laps c offset
      → (fuel b : ℕ) (s : Plan) → s.cur_dur ≤ 3 * limit
      → c.duration - s.cur_dur < fuel
      → Reaches ceil_laps c offset b s
      → Finishes b (loop ceil_laps c offset fuel s)
  unfolding loop
  loop-Finishes r zero b s m f h = absurd (omega arith)
  loop-Finishes r (suc fuel) b s m f h = elim (Bool-cases (lt64 s.cur_dur c.duration)) [
    | inl e ↦
        let open_end = before e in
        let p = round-Progress r b s open_end h in
        let later = p.later in
        rw e (loop-Finishes r fuel b (round ceil_laps c offset s) p.bounded (omega arith) p.reaches)
    | inr e ↦ rw e (s.parts, s.cur_dur + offset, refl, h, after e)
  ]
    where
      before : lt64 s.cur_dur c.duration ≡ true → s.cur_dur < c.duration
      before e = let race = r.race_le in ground arith

      after : lt64 s.cur_dur c.duration ≡ false → c.duration + offset ≤ s.cur_dur + offset
      after e = let race = r.race_le in ground arith
