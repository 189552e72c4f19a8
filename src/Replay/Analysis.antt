-- ===== src/Replay/Analysis.antt =====
-- What the recomputed analysis of an event is made of.
use mathlib.Core.List.{append-nil}
use iracelog_service_manager.Base.{
  ℕ, suc, ◌+◌, ◌≤◌, String, true, false, none, some, List, [], ◌∷◌, ◌++◌, ◌≡◌, ◌≢◌, refl, ◌∙◌, ap,
  arith, if◌then◌else◌, ◌==◌, string_key, length, ok, panic,
}
use iracelog_service_manager.Replay.Peeks.{Stamped, refill, refill_all, replay_loop, select, ts}
use iracelog_service_manager.Replay.Choice.{InTime, ready}
use iracelog_service_manager.Replay.Round.{held_of}
use iracelog_service_manager.Replay.Merged.{of_provider, InOrder, items}
use iracelog_service_manager.Replay.Loop.{replay_loop-Merges}
use iracelog_service_manager.Replay.Recompute.{process_data}

module _ {M : Type 0} where
  -- A replay of two sources: each message is handed on once, under its provider, those of a provider in
  -- their order, and all by time.
  pub record IsReplay (states driver_data : List (Stamped M)) (out : List (String × Stamped M))
      : Type 0 where
    pub kept :
        (c : String)
        → of_provider c out
          ≡ (if "StateData" == c then states else [])
            ++ (if "DriverData" == c then driver_data else [])
    pub ordered : InOrder (items out)

  held_of-two :
      (c : String) (x y : Stamped M) (xs ys : List (Stamped M))
      → held_of c (ready "StateData" x xs ∷ ready "DriverData" y ys ∷ [])
        ≡ (if "StateData" == c then x ∷ xs else []) ++ (if "DriverData" == c then y ∷ ys else [])
  unfolding held_of
  held_of-two c x y xs ys =
      ap (λ zs. (if "StateData" == c then x ∷ xs else []) ++ zs)
        (append-nil (if "DriverData" == c then y ∷ ys else []))

  -- Two sources that are not empty and in order, with times before the largest one, and fuel for all
  -- messages: the replay ends without an error, and hands on each message once, in the order of time.
  pub process_data-IsReplay :
      (states driver_data : List (Stamped M))
      → states ≢ []
      → driver_data ≢ []
      → InTime states
      → InTime driver_data
      → InOrder states
      → InOrder driver_data
      → (fuel : ℕ) → length states + length driver_data ≤ fuel
      → (out : List (String × Stamped M)) × IsReplay states driver_data out
        × (process_data fuel states driver_data
            ≡ some (ok (record { out = out; state = tt; broken = false })))
  unfolding process_data refill_all refill
  process_data-IsReplay [] ds h k in_s in_d o_s o_d fuel enough = absurd (h refl)
  process_data-IsReplay (x ∷ xs) [] h k in_s in_d o_s o_d fuel enough = absurd (k refl)
  process_data-IsReplay (x ∷ xs) (y ∷ ys) h k in_s in_d o_s o_d fuel enough =
      let (out, m, runs) =
        replay_loop-Merges {S = Unit} (λ s t. s) (λ n. true) (λ n. refl) fuel
          (ready "StateData" x xs) (ready "DriverData" y ys ∷ []) none tt []
          (((x, refl), ((y, refl), tt)), ((refl, tt), (tt, tt)), (in_s, (in_d, tt)))
          (omega (arith, enough)) in
      (
        out,
        record {
          kept = λ c. m.kept c ∙ held_of-two c x y xs ys;
          ordered = m.ordered (o_s, (o_d, tt));
        },
        runs,
      )

  -- A source without messages makes the replay panic in its first round.
  pub process_data-panics :
      (fuel : ℕ) (xs : List (Stamped M))
      → (process_data (suc fuel) [] xs ≡ some panic) × (process_data (suc fuel) xs [] ≡ some panic)
  unfolding process_data refill_all refill replay_loop select ts
  process_data-panics fuel [] = (refl, refl)
  process_data-panics fuel (x ∷ xs) = (refl, refl)
