-- ===== src/Race/Tables.antt =====
-- The slices of laps and of lap entries represent finite maps from lap numbers: recording a lap, or
-- putting an entry, is an update of the map.
use iracelog_service_manager.Base.{
  ℕ, String, Option, none, some, List, [], ◌∷◌, ◌++◌, ◌≡◌, refl, arith, GoMap, ◌==◌, nat_key,
  string_key, if◌then◌else◌, index_func, set, Option-cases, inl, inr, find_by, Distinct,
  index_func-Fresh, Distinct-set, Distinct-snoc, find_by-set, find_by-snoc,
}
use iracelog_service_manager.Car.Types.{TimeInfo}
use iracelog_service_manager.Race.Types.{LapInfo, Lap, RaceGraph}
use iracelog_service_manager.Race.Laps.{record_lap}
use iracelog_service_manager.Race.Graph.{put_entry}

module _ {T : Type 0} where
  abbrev pub lap_key : Lap T → ℕ
  lap_key l = l.lap_no

  abbrev pub entry_key : RaceGraph T → ℕ
  entry_key g = g.lap_no

  -- A slice of lap entries with one entry for a lap keeps one, and the new entry is the one found
  -- under its lap; all other laps read as before.
  pub put_entry-update :
      (g : RaceGraph T) (gs : List (RaceGraph T)) (j : ℕ)
      → Distinct entry_key gs
      → Distinct entry_key (put_entry g gs)
        × (find_by entry_key j (put_entry g gs)
            ≡ (if g.lap_no == j then some g else find_by entry_key j gs))
  unfolding put_entry
  put_entry-update g gs j d =
      elim (Option-cases (index_func (λ (x : RaceGraph T). x.lap_no == g.lap_no) gs)) [
        | inl e ↦
            let f = index_func-Fresh entry_key g.lap_no gs e in
            rw (e, put_entry) (Distinct-snoc entry_key gs g f d, find_by-snoc entry_key j gs g f)
        | inr (i, e) ↦
            rw (e, put_entry) (Distinct-set entry_key gs i g e d, find_by-set entry_key j gs i g e)
      ]

  -- What a lap in the slice is after a lap is recorded, its info left aside.
  abbrev pub time_of : Option (Lap T) → Option T
  time_of none = none
  time_of (some l) = some l.lap_time

  abbrev recorded : String → ℕ → T → GoMap String (TimeInfo T) → List (Lap T) → List (Lap T)
  recorded num lc time infos laps = (record_lap num lc time infos laps).0

  abbrev new_lap : ℕ → T → Option (LapInfo T) → Lap T
  new_lap lc time info = record { lap_no = lc; lap_time = time; lap_info = info }

  recorded-cases {ℓ} :
      (P : List (Lap T) → Type ℓ) (num : String) (lc : ℕ) (time : T)
      (infos : GoMap String (TimeInfo T)) (laps : List (Lap T))
      → ((info : Option (LapInfo T))
          → index_func (λ (l : Lap T). l.lap_no == lc) laps ≡ none
          → P (laps ++ new_lap lc time info ∷ []))
      → ((info : Option (LapInfo T)) (i : ℕ)
          → index_func (λ (l : Lap T). l.lap_no == lc) laps ≡ some i
          → P (set laps i (new_lap lc time info)))
      → P (recorded num lc time infos laps)
  unfolding record_lap
  recorded-cases P num lc time infos laps fresh old = go _ refl
    where
      go :
          (o : Option ℕ)
          → index_func (λ (l : Lap T). l.lap_no == lc) laps ≡ o
          → P (recorded num lc time infos laps)
      go none e = rw (e, recorded, record_lap) (fresh _ e)
      go (some i) e = rw (e, recorded, record_lap) (old _ i e)

  -- A slice with one lap for a number keeps one, the recorded lap has the recorded time, and the
  -- other laps read as before.
  pub record_lap-update :
      (num : String) (lc : ℕ) (time : T) (infos : GoMap String (TimeInfo T)) (laps : List (Lap T))
      (j : ℕ)
      → Distinct lap_key laps
      → Distinct lap_key (recorded num lc time infos laps)
        × (time_of (find_by lap_key j (recorded num lc time infos laps))
            ≡ (if lc == j then some time else time_of (find_by lap_key j laps)))
  record_lap-update num lc time infos laps j d =
      recorded-cases
        (λ ls.
          Distinct lap_key ls
          × (time_of (find_by lap_key j ls)
              ≡ (if lc == j then some time else time_of (find_by lap_key j laps))))
        num lc time infos laps
        (λ info e.
          let f = index_func-Fresh lap_key lc laps e in
          (
            Distinct-snoc lap_key laps (new_lap lc time info) f d,
            rw (find_by-snoc lap_key j laps (new_lap lc time info) f) (ground arith),
          ))
        (λ info i e. (
          Distinct-set lap_key laps i (new_lap lc time info) e d,
          rw (find_by-set lap_key j laps i (new_lap lc time info) e) (ground arith),
        ))
