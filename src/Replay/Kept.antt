-- ===== src/Replay/Kept.antt =====
-- What a round keeps of the peeks.
use iracelog_service_manager.Base.{
  ℕ, suc, ◌+◌, String, false, some, List, [], ◌∷◌, ◌++◌, length, ◌==◌, ◌≡◌, refl, arith, All,
  All-append, All-front, All-back, string_key,
}
use iracelog_service_manager.Replay.Peeks.{Stamped, Peek, Selected}
use iracelog_service_manager.Replay.Choice.{held, IsLive, InTime, HasDistinct, ready, Earliest}
use iracelog_service_manager.Replay.Round.{after, Lacks}

module _ {M : Type 0} where
  -- How many messages are still to be handed on.
  abbrev pub total : List (Peek M) → ℕ
  total [] = 0
  total (p ∷ ps) = length (held p) + total ps

  -- The peeks are not exhausted, of different providers, and before the largest time.
  abbrev pub IsReady : List (Peek M) → Type 0
  IsReady ps = All IsLive ps × HasDistinct ps × All (λ p. InTime (held p)) ps

  pub HasDistinct-Lacks :
      (front : List (Peek M)) (p : Peek M) (back : List (Peek M))
      → HasDistinct (front ++ p ∷ back)
      → Lacks p.provider front
  HasDistinct-Lacks [] p back h = tt
  HasDistinct-Lacks (q ∷ qs) p back (h, hs) = (
    (All-back (λ r. (q.provider == r.provider) ≡ false) qs (p ∷ back) h).0,
    HasDistinct-Lacks qs p back hs,
  )

  pub total-after :
      (front : List (Peek M)) (k : String) (x : Stamped M) (xs : List (Stamped M))
      (back : List (Peek M))
      → total (front ++ ready k x xs ∷ back) ≡ suc (total (after front k xs back))
  total-after [] k x [] back = omega arith
  total-after [] k x (y ∷ ys) back = omega arith
  total-after (q ∷ qs) k x [] back = omega (arith, total-after qs k x [] back)
  total-after (q ∷ qs) k x (y ∷ ys) back = omega (arith, total-after qs k x (y ∷ ys) back)

  -- What holds of every peek holds after the round, when the chosen one keeps it.
  module _ (P : Peek M → Type 0) (k : String) (x : Stamped M) where
    pub All-after :
        (front : List (Peek M)) (xs : List (Stamped M)) (back : List (Peek M))
        → All P (front ++ ready k x xs ∷ back)
        → ((y : Stamped M) (ys : List (Stamped M)) → P (ready k x (y ∷ ys)) → P (ready k y ys))
        → All P (after front k xs back)
    All-after front [] back h keeps =
        All-append P front back (All-front P front (ready k x [] ∷ back) h)
          (All-back P front (ready k x [] ∷ back) h).1
    All-after front (y ∷ ys) back h keeps =
        let (first, rest) = All-back P front (ready k x (y ∷ ys) ∷ back) h in
        All-append P front (ready k y ys ∷ back) (All-front P front (ready k x (y ∷ ys) ∷ back) h)
          (keeps y ys first, rest)

  HasDistinct-after :
      (front : List (Peek M)) (k : String) (x : Stamped M) (xs : List (Stamped M))
      (back : List (Peek M))
      → HasDistinct (front ++ ready k x xs ∷ back)
      → HasDistinct (after front k xs back)
  HasDistinct-after [] k x [] back h = h.1
  HasDistinct-after [] k x (y ∷ ys) back h = h
  HasDistinct-after (q ∷ qs) k x [] back (h, hs) = (
    All-after (λ r. (q.provider == r.provider) ≡ false) k x qs [] back h (λ y ys e. e),
    HasDistinct-after qs k x [] back hs,
  )
  HasDistinct-after (q ∷ qs) k x (y ∷ ys) back (h, hs) = (
    All-after (λ r. (q.provider == r.provider) ≡ false) k x qs (y ∷ ys) back h (λ z zs e. e),
    HasDistinct-after qs k x (y ∷ ys) back hs,
  )

  pub IsReady-after :
      (front : List (Peek M)) (k : String) (x : Stamped M) (xs : List (Stamped M))
      (back : List (Peek M))
      → IsReady (front ++ ready k x xs ∷ back)
      → IsReady (after front k xs back)
  IsReady-after front k x xs back (live, differ, in_time) = (
    All-after IsLive k x front xs back live (λ y ys h. (y, refl)),
    HasDistinct-after front k x xs back differ,
    All-after (λ p. InTime (held p)) k x front xs back in_time (λ y ys h. h.1),
  )

  -- The choice as one record.
  pub Earliest-selected :
      (peeks : List (Peek M)) (c : Selected) (r : Earliest peeks 0 c)
      → c ≡ record { next_ts = r.item.stamp; current = some r.name; current_idx = length r.front }
  Earliest-selected peeks c r =
      let here : c.current_idx ≡ length r.front = omega (arith, r.place) in
      λ i. record { next_ts = r.time i; current = r.named i; current_idx = here i }
