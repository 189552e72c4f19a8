-- ===== src/Stints/Whole.antt =====
-- Calc as a whole, from any point of the race.
use iracelog_service_manager.Base.{
  ℕ, zero, suc, ◌⊎◌, ◌+◌, ◌-◌, ◌*◌, ◌≤◌, ◌<◌, Bool, true, false, some, [], ◌≡◌, refl, sym, ◌∙◌,
  subst, ap, arith, if◌then◌else◌, Bool-cases, inl, inr, add64, mul64, lt64, lt32, sub32, widen,
  sign_bit, ◌==◌, nat_key, sub64-small, add64-small,
}
use iracelog_service_manager.Stints.Calc.{
  PredictParam, Plan, add_stint, add_pitstop, advance_lap, loop, on_track, calc, reference_point,
  session_offset_of, first_lap,
}
use iracelog_service_manager.Stints.Steps.{
  limit, Contiguous, InRange, Reaches, add_stint-Reaches, add_pitstop-Reaches, lap_product,
}
use iracelog_service_manager.Stints.Finish.{Finishes, loop-Finishes}

product_le : (a b n : ℕ) → a ≤ b → a * n ≤ b * n
product_le zero b n h = omega arith
product_le (suc a) zero n h = absurd (omega arith)
product_le (suc a) (suc b) n h =
    let rest = product_le a b n (omega arith) in
    let left : suc a * n ≡ n + a * n = omega arith in
    let right : suc b * n ≡ n + b * n = omega arith in omega arith

-- Where the plan begins: the time from now, and the session time that is added to it.
abbrev pub start_of : PredictParam → ℕ × ℕ
start_of c = if c.in_pit then (0, session_offset_of c) else reference_point c (session_offset_of c)

module _ (ceil_laps : ℕ → ℕ → ℕ) (c : PredictParam) (offset fuel : ℕ)
    (r : InRange ceil_laps c offset) (enough : c.duration < fuel) (s : Plan)
    (open_end : s.cur_dur < c.duration) (first : s.parts ≡ []) where
  begins : Reaches ceil_laps c offset (s.cur_dur + offset) s
  begins = subst (λ ps. Contiguous (s.cur_dur + offset) ps (s.cur_dur + offset)) (sym first) refl

  test_of :
      (x : ℕ)
      → x ≤ 3 * limit
      → ((lt64 x c.duration ≡ true) × (x < c.duration))
        ⊎ ((lt64 x c.duration ≡ false) × (c.duration ≤ x))
  test_of x h =
      let race = r.race_le in
      elim (Bool-cases (lt64 x c.duration)) [
        | inl e ↦ inl (e, ground arith)
        | inr e ↦ inr (e, ground arith)
      ]

  -- The stint that is running ends before the race: it is driven out, then the loop plans the rest.
  drive_out :
      (remain : ℕ)
      → 0 < remain
      → remain ≤ c.lps
      → s.cur_dur + remain * c.avg_laptime < c.duration
      → Finishes ceil_laps c offset (s.cur_dur + offset) (
          loop ceil_laps c offset fuel (
            advance_lap ceil_laps c offset remain
              (add_pitstop ceil_laps c offset (add_stint ceil_laps c offset remain s))))
  unfolding advance_lap
  drive_out remain p l fits =
      let race = r.race_le in
      let off = r.offset_le in
      let stop = r.overall_le in
      let lps = r.lps_lt in
      let s1 = add_stint ceil_laps c offset remain s in
      let s2 = add_pitstop ceil_laps c offset s1 in
      let s3 = advance_lap ceil_laps c offset remain s2 in
      let (sum1, r1) =
        add_stint-Reaches ceil_laps c offset _ remain s (omega arith) (omega arith) begins in
      let (sum2, r2) = add_pitstop-Reaches ceil_laps c offset _ s1 (omega arith) r1 in
      loop-Finishes ceil_laps c offset r fuel _ s3 (omega arith) (omega arith) r2

  -- The stint that is running is the last one.
  drive_home :
      (d : ℕ)
      → d ≡ c.duration - s.cur_dur
      → Finishes ceil_laps c offset (s.cur_dur + offset) (
          if ceil_laps d c.avg_laptime == 0
          then some s.parts
          else some (add_stint ceil_laps c offset (ceil_laps d c.avg_laptime) s).parts)
  drive_home d e =
      let race = r.race_le in
      let off = r.offset_le in
      let laps = ceil_laps d c.avg_laptime in
      let least = r.ceil_pos d (omega arith) (omega arith) in
      let most = r.ceil_le d (omega arith) (omega arith) in
      let reach = r.ceil_enough d (omega arith) (omega arith) in
      let (sum, k) =
        add_stint-Reaches ceil_laps c offset _ laps s (r.ceil_lt d (omega arith) (omega arith))
          (omega arith) begins in
      let some_laps : (ceil_laps d c.avg_laptime == 0) ≡ false = ground arith in
      rw some_laps (_, _, refl, k, omega arith)

  -- The stint that is running ends with this lap.
  stop_now : Finishes ceil_laps c offset (s.cur_dur + offset) (
      let s' = add_pitstop ceil_laps c offset s in
      if lt64 s'.cur_dur c.duration
      then loop ceil_laps c offset fuel s'
      else some (add_stint ceil_laps c offset 1 s').parts)
  stop_now =
      let race = r.race_le in
      let off = r.offset_le in
      let stop = r.overall_le in
      let lap = r.lap_le in
      let s1 = add_pitstop ceil_laps c offset s in
      let (sum1, r1) = add_pitstop-Reaches ceil_laps c offset _ s (omega arith) begins in
      let (sum2, r2) = add_stint-Reaches ceil_laps c offset _ 1 s1 (omega arith) (omega arith) r1 in
      elim (test_of s1.cur_dur (omega arith)) [
        | inl (e, _) ↦
            rw e (loop-Finishes ceil_laps c offset r fuel _ s1 (omega arith) (omega arith) r1)
        | inr (e, over) ↦ rw e (_, _, refl, r2, omega arith)
      ]

  sum_of :
      (remain : ℕ) → remain ≤ c.lps → mul64 (widen remain) c.avg_laptime ≡ remain * c.avg_laptime
  sum_of remain l =
      let lps = r.lps_lt in
      let most = r.stint_le in
      let part = product_le remain c.lps c.avg_laptime l in
      lap_product ceil_laps c offset remain (omega arith) (omega arith)

  pub on_track-Finishes :
      (remain : ℕ)
      → (lt32 0 remain ≡ true → (0 < remain) × (remain ≤ c.lps))
      → Finishes ceil_laps c offset (s.cur_dur + offset) (on_track ceil_laps c offset fuel remain s)
  unfolding on_track
  on_track-Finishes remain laps_left =
      let race = r.race_le in
      let most = r.stint_le in
      elim (Bool-cases (lt32 0 remain)) [
        | inl e ↦
            let (p, l) = laps_left e in
            let part = product_le remain c.lps c.avg_laptime l in
            let sum : add64 s.cur_dur (mul64 (widen remain) c.avg_laptime)
                ≡ s.cur_dur + remain * c.avg_laptime =
              ap (add64 s.cur_dur) (sum_of remain l) ∙ add64-small s.cur_dur _ (omega arith) in
            elim (test_of (s.cur_dur + remain * c.avg_laptime) (omega arith)) [
              | inl (f, fits) ↦
                  let test = ap (λ x. lt64 x c.duration) sum ∙ f in
                  rw (e, test) (drive_out remain p l fits)
              | inr (f, _) ↦
                  let test = ap (λ x. lt64 x c.duration) sum ∙ f in
                  rw (e, test)
                    (drive_home _ (sub64-small c.duration s.cur_dur (omega arith) (omega arith)))
            ]
        | inr e ↦ rw e stop_now
      ]

-- A plan for a request in range: the reference point lies before the end of the race, the laps
-- driven in the stint are not negative, and the fuel exceeds the nanoseconds of the race. Calc then
-- returns, from every point of the race, and its parts follow one another without a gap from the
-- reference point to the end of the race or later.
pub calc-Finishes :
    (ceil_laps : ℕ → ℕ → ℕ) (c : PredictParam) (fuel : ℕ)
    → InRange ceil_laps c (start_of c).1
    → (start_of c).0 < c.duration
    → c.stint_lap < sign_bit
    → c.duration < fuel
    → Finishes ceil_laps c (start_of c).1 ((start_of c).0 + (start_of c).1) (calc ceil_laps fuel c)
unfolding calc
calc-Finishes ceil_laps c fuel r open_end laps enough = go c.in_pit refl r open_end
  where
    start : ℕ → Plan
    start d = record { cur_dur = d; cur_lap = first_lap c; parts = [] }

    remaining :
        (n : ℕ)
        → n < sign_bit
        → lt32 0 (sub32 n c.stint_lap) ≡ true
        → (0 < sub32 n c.stint_lap) × (sub32 n c.stint_lap ≤ n)
    remaining n h e = (ground arith, ground arith)

    go :
        (b : Bool)
        → c.in_pit ≡ b
        → (let begin =
              if b then (0, session_offset_of c) else reference_point c (session_offset_of c) in
            InRange ceil_laps c begin.1
            → begin.0 < c.duration
            → Finishes ceil_laps c begin.1 (begin.0 + begin.1) (calc ceil_laps fuel c))
    go true e k o = rw e (
        loop-Finishes ceil_laps c (session_offset_of c) k fuel _ (start 0) (omega arith)
          (omega arith) refl)
    go false e k o =
        let (d, offset) = reference_point c (session_offset_of c) in
        rw e (
          on_track-Finishes ceil_laps c offset fuel k enough (start d) o refl
            (sub32 c.lps c.stint_lap) (remaining c.lps k.lps_lt))
