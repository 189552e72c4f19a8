-- ===== src/Stints/Stuck.antt =====
-- A request for stints of no laps and pit stops that take no time.
use iracelog_service_manager.Base.{
  ℕ, zero, suc, ◌≤◌, ◌<◌, true, none, ◌≡◌, refl, ◌∙◌, ap, arith, add64, mul64, lt64, widen,
}
use iracelog_service_manager.Stints.Calc.{
  PredictParam, Plan, add_stint, add_pitstop, advance_lap, round, loop, calc, session_offset_of,
}
use iracelog_service_manager.Stints.Steps.{limit}

module _ (ceil_laps : ℕ → ℕ → ℕ) (c : PredictParam) (offset : ℕ) (no_laps : c.lps ≡ 0)
    (no_stop : c.overall ≡ 0) (race : c.duration ≤ limit) where
  round-stands :
      (s : Plan) → s.cur_dur < c.duration → (round ceil_laps c offset s).cur_dur ≡ s.cur_dur
  unfolding round add_stint add_pitstop advance_lap
  round-stands s h =
      let before : lt64 (add64 s.cur_dur (mul64 c.avg_laptime (widen 0))) c.duration ≡ true =
        ground arith in
      let same : add64 (add64 s.cur_dur (mul64 (widen 0) c.avg_laptime)) 0 ≡ s.cur_dur =
        omega arith in
      let after : lt64 (add64 (add64 s.cur_dur (mul64 (widen 0) c.avg_laptime)) 0) c.duration
          ≡ true =
        ap (λ x. lt64 x c.duration) same ∙ open_end in
      rw (no_laps, no_stop, before, after) same
    where
      open_end : lt64 s.cur_dur c.duration ≡ true
      open_end = ground arith

  loop-runs : (fuel : ℕ) (s : Plan) → s.cur_dur < c.duration → loop ceil_laps c offset fuel s ≡ none
  unfolding loop
  loop-runs zero s h = refl
  loop-runs (suc fuel) s h =
      let stands = round-stands s h in
      let open_end : lt64 s.cur_dur c.duration ≡ true = ground arith in
      rw open_end (loop-runs fuel (round ceil_laps c offset s) (omega arith))

-- For a car in the pits, with stints of no laps and pit stops that take no time, Calc does not
-- return: no fuel is enough.
pub calc-diverges :
    (ceil_laps : ℕ → ℕ → ℕ) (c : PredictParam) (fuel : ℕ)
    → c.in_pit ≡ true
    → c.lps ≡ 0
    → c.overall ≡ 0
    → 0 < c.duration
    → c.duration ≤ limit
    → calc ceil_laps fuel c ≡ none
unfolding calc
calc-diverges ceil_laps c fuel p l o h k =
    rw p (loop-runs ceil_laps c (session_offset_of c) l o k fuel _ h)
