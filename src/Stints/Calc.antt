-- ===== src/Stints/Calc.antt =====
-- racestints_grpc.go: Calc. Durations are `int64` nanoseconds and lap numbers `int32`, as patterns;
-- conversions to and from durationpb are identities. The one use of floating point, the rounded up
-- quotient of two durations in seconds as an `int32`, is the argument `ceil_laps`.
use iracelog_service_manager.Base.{
  ℕ, zero, suc, Bool, not, ◌||◌, Option, none, some, List, [], ◌∷◌, ◌++◌, ◌==◌, nat_key,
  if◌then◌else◌, add32, sub32, lt32, add64, sub64, mul64, lt64, widen,
}

pub data PartType : Type 0 where
  stint : ℕ → ℕ → ℕ → PartType
  pitstop : PartType

-- predictv1.Part
pub record Part : Type 0 where
  pub start : ℕ
  pub finish : ℕ
  pub duration : ℕ
  pub part_type : PartType

-- predictv1.PredictParam: the fields that Calc reads.
pub record PredictParam : Type 0 where
  pub duration : ℕ
  pub lc : ℕ
  pub session : Option ℕ
  pub lps : ℕ
  pub avg_laptime : ℕ
  pub overall : ℕ
  pub in_pit : Bool
  pub stint_lap : ℕ
  pub remain_lap_time : Option ℕ

-- The variables of Calc that its closures capture, and those that they do not change.
pub record Plan : Type 0 where
  pub cur_dur : ℕ
  pub cur_lap : ℕ
  pub parts : List Part

module _ (ceil_laps : ℕ → ℕ → ℕ) (c : PredictParam) (session_offset : ℕ) where
  -- createPart
  unfoldable pub create_part : ℕ → ℕ → PartType → Part
  create_part start duration t = record {
    start = add64 start session_offset;
    finish = add64 (add64 start session_offset) duration;
    duration = duration;
    part_type = t;
  }

  -- addStint; the lap number is not advanced.
  unfoldable pub add_stint : ℕ → Plan → Plan
  unfolding create_part
  add_stint laps s =
      let d = mul64 (widen laps) c.avg_laptime in
      record s {
        cur_dur = add64 s.cur_dur d;
        parts =
            s.parts
            ++ create_part s.cur_dur d (stint laps s.cur_lap (sub32 (add32 s.cur_lap laps) 1)) ∷ [];
      }

  -- addPitstop
  unfoldable pub add_pitstop : Plan → Plan
  unfolding create_part
  add_pitstop s = record s {
    cur_dur = add64 s.cur_dur c.overall;
    parts = s.parts ++ create_part s.cur_dur c.overall pitstop ∷ [];
  }

  -- `curLap += laps`
  unfoldable pub advance_lap : ℕ → Plan → Plan
  advance_lap laps s = record s { cur_lap = add32 s.cur_lap laps }

  -- The body of the loop to the end of the race.
  unfoldable pub round : Plan → Plan
  unfolding add_stint add_pitstop advance_lap
  round s =
      if lt64 (add64 s.cur_dur (mul64 c.avg_laptime (widen c.lps))) c.duration
      then (let s' = advance_lap c.lps (add_pitstop (add_stint c.lps s)) in
          if lt64 s'.cur_dur c.duration then s' else add_stint 1 s')
      else add_stint (ceil_laps (sub64 c.duration s.cur_dur) c.avg_laptime) s

  -- The loop, with fuel; `none` means that the fuel ran out.
  unfoldable pub loop : ℕ → Plan → Option (List Part)
  unfolding round
  loop zero s = none
  loop (suc fuel) s =
      let rest = loop fuel (round s) in if lt64 s.cur_dur c.duration then rest else some s.parts

-- `c.Race.Lc != 0 || c.Car.StintLap != 0`
unfoldable pub race_started : PredictParam → Bool
race_started c = not (c.lc == 0) || not (c.stint_lap == 0)

-- `curLap` before the first part.
unfoldable pub first_lap : PredictParam → ℕ
unfolding race_started
first_lap c = if race_started c then add32 c.lc 2 else 1

-- The duration to the next reference point, and the session offset from there on.
unfoldable pub reference_point : PredictParam → ℕ → ℕ × ℕ
unfolding race_started
reference_point c offset = elim c.remain_lap_time [
  | none ↦ (0, offset)
  | some r ↦
      if race_started c
      then (if lt64 0 r then r else c.avg_laptime, if c.lc == 0 then 0 else offset)
      else (0, offset)
]

-- `sessionOffset`: 0 if there is no session time.
unfoldable pub session_offset_of : PredictParam → ℕ
session_offset_of c = elim c.session [ none ↦ 0 | some t ↦ t ]

-- The rest of Calc for a car that is on the track, its remaining laps in the stint given.
unfoldable pub on_track : (ℕ → ℕ → ℕ) → PredictParam → ℕ → ℕ → ℕ → Plan → Option (List Part)
unfolding loop add_stint add_pitstop advance_lap
on_track ceil_laps c offset fuel remain s =
    if lt32 0 remain
    then if lt64 (add64 s.cur_dur (mul64 (widen remain) c.avg_laptime)) c.duration
      then loop ceil_laps c offset fuel (
          advance_lap ceil_laps c offset remain
            (add_pitstop ceil_laps c offset (add_stint ceil_laps c offset remain s)))
      else (let laps = ceil_laps (sub64 c.duration s.cur_dur) c.avg_laptime in
          if laps == 0 then some s.parts else some (add_stint ceil_laps c offset laps s).parts)
    else (let s' = add_pitstop ceil_laps c offset s in
        if lt64 s'.cur_dur c.duration
        then loop ceil_laps c offset fuel s'
        else some (add_stint ceil_laps c offset 1 s').parts)

-- Calc
unfoldable pub calc : (ℕ → ℕ → ℕ) → ℕ → PredictParam → Option (List Part)
unfolding on_track reference_point session_offset_of first_lap
calc ceil_laps fuel c =
    let start : Plan = record { cur_dur = 0; cur_lap = first_lap c; parts = [] } in
    if c.in_pit
    then loop ceil_laps c (session_offset_of c) fuel start
    else (let (cur_dur, offset) = reference_point c (session_offset_of c) in
        on_track ceil_laps c offset fuel (sub32 c.lps c.stint_lap)
          (record start { cur_dur = cur_dur }))
