-- ===== src/Replay/Loop.antt =====
-- The rounds of the loop, and what it hands on in all.
use iracelog_service_manager.Base.{
  ℕ, zero, suc, ◌≤◌, String, Bool, true, false, Option, some, List, [], ◌∷◌, ◌++◌, length, ◌≡◌,
  refl, sym, ◌∙◌, ap, subst, arith, inl, inr, string_key, List-cases, ok,
}
use mathlib.Core.List.{append_assoc}
use iracelog_service_manager.Replay.Peeks.{Stamped, Peek, replay_loop, max_time, select}
use iracelog_service_manager.Replay.Choice.{HeadsFrom, ready}
use iracelog_service_manager.Replay.Round.{after, Lacks, current_peek-middle, refill_current-after}
use iracelog_service_manager.Replay.Kept.{
  total, IsReady, HasDistinct-Lacks, total-after, IsReady-after,
}
use iracelog_service_manager.Replay.Merged.{Merged, Merged-round, Merged-nil, choice}

module _ {S M : Type 0} (pace : S → ℕ → S) where
  -- What the rounds that hand on `rest` do to the state.
  abbrev pub paced : S → List (String × Stamped M) → S
  paced s [] = s
  paced s ((k, x) ∷ rs) = paced (pace s x.stamp) rs

  module _ (accepts : ℕ → Bool) where
    -- A round, with the message at the front of the chosen peek.
    replay_loop-round :
        (fuel : ℕ) (front : List (Peek M)) (k : String) (x : Stamped M) (xs : List (Stamped M))
        (back : List (Peek M)) (current : Option String) (s : S) (out : List (String × Stamped M))
        → Lacks k front
        → accepts (length out) ≡ true
        → select 0
            (front ++ ready k x xs ∷ back)
            (record { next_ts = max_time; current = current; current_idx = 0 })
          ≡ ok (record { next_ts = x.stamp; current = some k; current_idx = length front })
        → replay_loop pace accepts (suc fuel) (front ++ ready k x xs ∷ back) current s out
          ≡ elim (after front k xs back) [
            | [] ↦
                some
                  (ok (record { out = out ++ (k, x) ∷ []; state = pace s x.stamp; broken = false }))
            | q ∷ qs ↦
                replay_loop pace accepts fuel
                  (q ∷ qs)
                  (some k)
                  (pace s x.stamp)
                  (out ++ (k, x) ∷ [])
          ]
    unfolding replay_loop
    replay_loop-round fuel front k x xs back current s out h e chosen =
        rw
          (
            chosen,
            current_peek-middle front k x xs back h,
            e,
            refill_current-after front k x xs back h,
            replay_loop,
          )
          refl

    -- The loop ends, and what it hands on is a merge.
    abbrev Merges : ℕ → List (Peek M) → Option String → S → List (String × Stamped M) → Type 0
    Merges fuel peeks current s out =
        (rest : List (String × Stamped M)) × Merged peeks rest
        × (replay_loop pace accepts fuel peeks current s out
            ≡ some (ok (record { out = out ++ rest; state = paced s rest; broken = false })))

    module _ (takes : (n : ℕ) → accepts n ≡ true) where
      Merges-round :
          (fuel : ℕ) (front : List (Peek M)) (k : String) (x : Stamped M) (xs : List (Stamped M))
          (back : List (Peek M)) (current : Option String) (s : S) (out : List (String × Stamped M))
          → IsReady (front ++ ready k x xs ∷ back)
          → HeadsFrom x.stamp (front ++ ready k x xs ∷ back)
          → select 0
              (front ++ ready k x xs ∷ back)
              (record { next_ts = max_time; current = current; current_idx = 0 })
            ≡ ok (record { next_ts = x.stamp; current = some k; current_idx = length front })
          → ((q : Peek M) (qs : List (Peek M))
              → after front k xs back ≡ q ∷ qs
              → Merges fuel (q ∷ qs) (some k) (pace s x.stamp) (out ++ (k, x) ∷ []))
          → Merges (suc fuel) (front ++ ready k x xs ∷ back) current s out
      Merges-round fuel front k x xs back current s out h heads chosen next =
          let round =
            replay_loop-round fuel front k x xs back current s out
              (HasDistinct-Lacks front (ready k x xs) back h.1) (takes (length out)) chosen in
          elim (List-cases (after front k xs back)) [
            | inl e ↦ (
              (k, x) ∷ [],
              Merged-round front k x xs back [] h heads
                  (subst (λ ps. Merged ps []) (sym e) Merged-nil),
              round ∙ rw e refl,
            )
            | inr (q, qs, e) ↦
                let (rest, m, runs) = next q qs e in
                (
                  (k, x) ∷ rest,
                  Merged-round front k x xs back rest h heads
                      (subst (λ ps. Merged ps rest) (sym e) m),
                  round
                      ∙ rw e (
                          runs
                          ∙ ap
                              (λ o. some (
                                ok (record {
                                  out = o;
                                  state = paced s ((k, x) ∷ rest);
                                  broken = false;
                                })))
                              (append_assoc out ((k, x) ∷ []) rest)),
                )
          ]

      pub replay_loop-Merges :
          (fuel : ℕ) (q : Peek M) (qs : List (Peek M)) (current : Option String) (s : S)
          (out : List (String × Stamped M))
          → IsReady (q ∷ qs)
          → total (q ∷ qs) ≤ fuel
          → Merges fuel (q ∷ qs) current s out
      replay_loop-Merges zero q qs current s out h enough =
          let c = choice q qs current h in
          absurd (
            omega
              (arith, total-after c.front c.name c.item c.later c.back, ap total c.split, enough))
      replay_loop-Merges (suc fuel) q qs current s out h enough =
          let c = choice q qs current h in
          let after_c = after c.front c.name c.later c.back in
          let ready_c = subst IsReady (sym c.split) h in
          let many : total after_c ≤ fuel =
            omega
              (arith, total-after c.front c.name c.item c.later c.back, ap total c.split, enough) in
          let at_c = pace s c.item.stamp in
          subst (λ ps. Merges (suc fuel) ps current s out) c.split
            (Merges-round fuel c.front c.name c.item c.later c.back current s out ready_c
              (subst (HeadsFrom c.item.stamp) (sym c.split) c.heads)
              (subst
                (λ ps.
                  select 0 ps (record { next_ts = max_time; current = current; current_idx = 0 })
                  ≡ ok (record {
                    next_ts = c.item.stamp;
                    current = some c.name;
                    current_idx = length c.front;
                  }))
                (sym c.split) c.selected)
              (λ q' qs' e.
                replay_loop-Merges fuel q' qs' (some c.name) at_c (out ++ (c.name, c.item) ∷ [])
                  (subst IsReady e (IsReady-after c.front c.name c.item c.later c.back ready_c))
                  (omega (arith, many, ap total e))))
