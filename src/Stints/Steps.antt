-- ===== src/Stints/Steps.antt =====
-- One part after the other: what adding a stint or a pit stop does to a plan in range.
use iracelog_service_manager.Base.{
  ℕ, zero, suc, ◌+◌, ◌*◌, ◌≤◌, ◌<◌, List, [], ◌∷◌, ◌++◌, ◌≡◌, refl, sym, ◌∙◌, subst, ap, arith,
  add64, mul64, widen, sign_bit, long_sign, add64-small, mul64-small, widen-small,
}
use iracelog_service_manager.Stints.Calc.{
  PredictParam, Plan, Part, create_part, add_stint, add_pitstop,
}

-- The bound of all durations: 2 ^ 60 ns, some 36 years.
abbrev pub limit : ℕ
limit = 1152921504606846976

pub product_pos : (a b : ℕ) → 0 < a → 0 < b → 0 < a * b
product_pos zero b h k = absurd (omega arith)
product_pos (suc a) b h k =
    let rest : 0 ≤ a * b = omega arith in
    let sum : suc a * b ≡ b + a * b = omega arith in omega arith

-- Parts that follow one another without a gap, from `b` to `e`, each as long as it says.
abbrev pub Contiguous : ℕ → List Part → ℕ → Type 0
Contiguous b [] e = b ≡ e
Contiguous b (p ∷ ps) e =
    (p.start ≡ b) × (p.finish ≡ p.start + p.duration) × Contiguous p.finish ps e

Contiguous-snoc :
    (b e : ℕ) (ps : List Part) (p : Part)
    → Contiguous b ps e
    → p.start ≡ e
    → p.finish ≡ p.start + p.duration
    → Contiguous b (ps ++ p ∷ []) p.finish
Contiguous-snoc b e [] p h s f = (s ∙ sym h, f, refl)
Contiguous-snoc b e (q ∷ ps) p h s f = (h.0, h.1, Contiguous-snoc q.finish e ps p h.2 s f)

module _ (ceil_laps : ℕ → ℕ → ℕ) (c : PredictParam) (offset : ℕ) where
  -- A request that can be planned: all durations in range, a lap takes time and a stint has laps;
  -- the rounded quotient of a duration by the lap time is a positive number of laps that is not
  -- out of proportion.
  pub record InRange : Type 0 where
    pub race_le : c.duration ≤ limit
    pub offset_le : offset ≤ limit
    pub overall_le : c.overall ≤ limit
    pub lap_pos : 0 < c.avg_laptime
    pub lap_le : c.avg_laptime ≤ limit
    pub lps_pos : 0 < c.lps
    pub lps_lt : c.lps < sign_bit
    pub stint_le : c.lps * c.avg_laptime ≤ limit
    pub ceil_pos : (d : ℕ) → 0 < d → d ≤ c.duration → 0 < ceil_laps d c.avg_laptime
    pub ceil_lt : (d : ℕ) → 0 < d → d ≤ c.duration → ceil_laps d c.avg_laptime < sign_bit
    pub ceil_enough :
        (d : ℕ) → 0 < d → d ≤ c.duration → d ≤ ceil_laps d c.avg_laptime * c.avg_laptime
    pub ceil_le :
        (d : ℕ) → 0 < d → d ≤ c.duration → ceil_laps d c.avg_laptime * c.avg_laptime ≤ 2 * limit

  -- The parts so far reach from `b` to where the plan stands.
  abbrev pub Reaches : ℕ → Plan → Type 0
  Reaches b s = Contiguous b s.parts (s.cur_dur + offset)

  reach : (cur n : ℕ) → cur + n + offset < long_sign → add64 (add64 cur offset) n ≡ cur + n + offset
  reach cur n h = omega arith

  pub lap_product :
      (laps : ℕ)
      → laps < sign_bit
      → laps * c.avg_laptime < long_sign
      → mul64 (widen laps) c.avg_laptime ≡ laps * c.avg_laptime
  lap_product laps l h =
      ap (λ w. mul64 w c.avg_laptime) (widen-small laps l) ∙ mul64-small laps c.avg_laptime h

  pub add_stint-Reaches :
      (b laps : ℕ) (s : Plan)
      → laps < sign_bit
      → s.cur_dur + laps * c.avg_laptime + offset < long_sign
      → Reaches b s
      → ((add_stint ceil_laps c offset laps s).cur_dur ≡ s.cur_dur + laps * c.avg_laptime)
        × Reaches b (add_stint ceil_laps c offset laps s)
  unfolding add_stint create_part
  add_stint-Reaches b laps s l h r =
      let d : mul64 (widen laps) c.avg_laptime ≡ laps * c.avg_laptime =
        lap_product laps l (omega arith) in
      let sum : add64 s.cur_dur (mul64 (widen laps) c.avg_laptime)
          ≡ s.cur_dur + laps * c.avg_laptime =
        ap (add64 s.cur_dur) d ∙ add64-small s.cur_dur (laps * c.avg_laptime) (omega arith) in
      let from : add64 s.cur_dur offset ≡ s.cur_dur + offset = omega arith in
      let to : add64 (add64 s.cur_dur offset) (mul64 (widen laps) c.avg_laptime)
          ≡ add64 s.cur_dur (mul64 (widen laps) c.avg_laptime) + offset =
        ap (add64 (add64 s.cur_dur offset)) d
        ∙ reach s.cur_dur (laps * c.avg_laptime) h
        ∙ sym (ap (λ x. x + offset) sum) in
      let fin : add64 (add64 s.cur_dur offset) (mul64 (widen laps) c.avg_laptime)
          ≡ add64 s.cur_dur offset + mul64 (widen laps) c.avg_laptime =
        ap (add64 (add64 s.cur_dur offset)) d
        ∙ add64-small (add64 s.cur_dur offset) (laps * c.avg_laptime) (omega arith)
        ∙ sym (ap (λ x. add64 s.cur_dur offset + x) d) in
      (sum, subst (Contiguous b _) to (Contiguous-snoc b (s.cur_dur + offset) s.parts _ r from fin))

  pub add_pitstop-Reaches :
      (b : ℕ) (s : Plan)
      → s.cur_dur + c.overall + offset < long_sign
      → Reaches b s
      → ((add_pitstop ceil_laps c offset s).cur_dur ≡ s.cur_dur + c.overall)
        × Reaches b (add_pitstop ceil_laps c offset s)
  unfolding add_pitstop create_part
  add_pitstop-Reaches b s h r =
      let sum : add64 s.cur_dur c.overall ≡ s.cur_dur + c.overall = omega arith in
      let from : add64 s.cur_dur offset ≡ s.cur_dur + offset = omega arith in
      let to : add64 (add64 s.cur_dur offset) c.overall ≡ add64 s.cur_dur c.overall + offset =
        omega arith in
      (
        sum,
        subst (Contiguous b _) to
            (Contiguous-snoc b (s.cur_dur + offset) s.parts _ r from (omega arith)),
      )
