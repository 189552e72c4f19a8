-- ===== src/Car/Diagram.antt =====
-- The state diagram of a car, with the numbers of its finished stints and pit stops, and the handlers
-- as its implementation.
use iracelog_service_manager.Base.{
  ℕ, suc, ◌+◌, ◌≤◌, String, Option, none, some, List, [], ◌∷◌, ◌++◌, ◌≡◌, refl, arith, lookup,
  string_key, length, length-append, lookup-insert_self, Returns, Bool-cases, inl, inr, Float32,
  zero_t, minus, exceeds, same,
}
use iracelog_service_manager.Car.Types.{
  CarState, init, run, pit, fin, out, other, CarProcessor, CarComputeState, CarStint, CarPit,
}
use iracelog_service_manager.Car.Stints.{enter_pit}
use iracelog_service_manager.Car.Machine.{run_switch}

-- `CarStep s a b s' a' b'`: one message takes a car in state `s` with `a` finished stints and `b`
-- finished pit stops to state `s'` with `a'` and `b'`.
pub data CarStep : CarState → ℕ → ℕ → CarState → ℕ → ℕ → Type 0 where
  stay : {s : CarState} {a b : ℕ} → CarStep s a b s a b
  start : {a b : ℕ} → CarStep init a b run 0 b
  finish : {a b : ℕ} → CarStep run a b fin a b
  retire : {a b : ℕ} → CarStep run a b out (suc a) b
  enter_pits : {a b : ℕ} → CarStep run a b pit (suc a) b
  leave_pits : {a b : ℕ} → CarStep pit a b run a (suc b)
  abandon_pits : {a b : ℕ} → CarStep pit a b out a b
  resume : {a b : ℕ} → CarStep out a b run a b
  tow : {a b : ℕ} → CarStep out a b pit a b

pub length-snoc {ℓ} : {A : Type ℓ} (xs : List A) (x : A) → length (xs ++ x ∷ []) ≡ suc (length xs)
length-snoc xs x = omega (arith, length-append xs (x ∷ []))

abbrev pub stint_count : {T : Type 0} → Option (CarStint T) → ℕ
stint_count none = 0
stint_count (some s) = length s.history

abbrev pub pit_count : {T : Type 0} → Option (CarPit T) → ℕ
pit_count none = 0
pit_count (some s) = length s.history

module _ {T : Type 0} ⦃F : Float32 T⦄ where
  pub enter_pit-history :
      (n : String) (t : T) (lap : ℕ) (o : Option (CarPit T))
      → length (enter_pit n t lap o).history ≡ pit_count o
  unfolding enter_pit
  enter_pit-history n t lap none = refl
  enter_pit-history n t lap (some s) = refl

  -- The result of a handler is one step of the diagram for the car `n`.
  abbrev pub Follows :
      String → CarState → CarProcessor T → CarProcessor T × CarComputeState T → Type 0
  Follows n s p (q, cs) =
      CarStep s (stint_count (lookup n p.stint_lookup)) (pit_count (lookup n p.pit_lookup))
        cs.car_state (stint_count (lookup n q.stint_lookup)) (pit_count (lookup n q.pit_lookup))

  pub run_switch-Follows :
      (cs : CarComputeState T) (lap : ℕ) (state : CarState) (t : T) (stint : CarStint T)
      (p : CarProcessor T)
      → cs.car_state ≡ run
      → stint_count (lookup cs.car_num p.stint_lookup) ≡ length stint.history
      → Returns (Follows cs.car_num run p) (run_switch cs lap state t stint p)
  unfolding run_switch
  run_switch-Follows cs lap run t stint p r e = rw (lookup-insert_self, r, e) CarStep.stay
  run_switch-Follows cs lap fin t stint p r e = rw (lookup-insert_self, e) finish
  run_switch-Follows cs lap pit t stint p r e =
      rw
        (
          lookup-insert_self cs.car_num _ p.stint_lookup,
          lookup-insert_self cs.car_num _ p.pit_lookup,
          enter_pit-history,
          length-snoc,
          e,
        )
        enter_pits
  run_switch-Follows cs lap out t stint p r e = elim (Bool-cases (same cs.out_encountered zero_t)) [
    | inl f ↦ rw f (rw (lookup-insert_self, r, e) CarStep.stay)
    | inr f ↦ elim (Bool-cases (exceeds (minus t cs.out_encountered) F.sixty)) [
      | inl g ↦ rw (f, g) (rw (lookup-insert_self, length-snoc, e) retire)
      | inr g ↦ rw (f, g) (rw (lookup-insert_self, r, e) CarStep.stay)
    ]
  ]
  run_switch-Follows cs lap init t stint p r e = rw (lookup-insert_self, r, e) CarStep.stay
  run_switch-Follows cs lap (other k) t stint p r e = rw (lookup-insert_self, r, e) CarStep.stay

-- Any number of steps of the diagram from a car that has not started.
pub data CarRun : CarState → ℕ → ℕ → Type 0 where
  fresh : CarRun init 0 0
  then_step :
      {s s' : CarState} {a b a' b' : ℕ} → CarRun s a b → CarStep s a b s' a' b' → CarRun s' a' b'

-- In the pits, or out of the race, a stint has ended that no finished pit stop accounts for.
abbrev Accounted : CarState → ℕ → ℕ → Type 0
Accounted init a b = (a ≡ 0) × (b ≡ 0)
Accounted pit a b = b + 1 ≤ a
Accounted out a b = b + 1 ≤ a
Accounted _ a b = b ≤ a

Accounted-step :
    {s s' : CarState} {a b a' b' : ℕ}
    → CarStep s a b s' a' b'
    → Accounted s a b
    → Accounted s' a' b'
Accounted-step stay h = h
Accounted-step start h = omega arith
Accounted-step finish h = h
Accounted-step retire h = omega arith
Accounted-step enter_pits h = omega arith
Accounted-step leave_pits h = omega arith
Accounted-step abandon_pits h = h
Accounted-step resume h = omega arith
Accounted-step tow h = h

Accounted-run : {s : CarState} {a b : ℕ} → CarRun s a b → Accounted s a b
Accounted-run fresh = (refl, refl)
Accounted-run (then_step r st) = Accounted-step st (Accounted-run r)

Accounted-le : (s : CarState) (a b : ℕ) → Accounted s a b → b ≤ a
Accounted-le init a b h = omega arith
Accounted-le pit a b h = omega arith
Accounted-le out a b h = omega arith
Accounted-le run a b h = h
Accounted-le fin a b h = h
Accounted-le (other k) a b h = h

-- However a car's messages interleave, it never has more finished pit stops than finished stints.
pub CarRun-pits_le_stints : {s : CarState} {a b : ℕ} → CarRun s a b → b ≤ a
CarRun-pits_le_stints {s} {a} {b} r = Accounted-le s a b (Accounted-run r)
