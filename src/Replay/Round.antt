-- ===== src/Replay/Round.antt =====
-- What a round of the replay leaves of the peeks, when the chosen one stands between `front` and `back`.
use iracelog_service_manager.Base.{
  String, false, none, some, List, [], ◌∷◌, ◌++◌, length, ◌==◌, ◌≡◌, refl, sym, ◌∙◌, ap, subst, inl,
  inr, Bool-cases, All, string_key, key_refl, key-cases, if◌then◌else◌, ok,
}
use iracelog_service_manager.Replay.Peeks.{
  Stamped, Peek, refill, find_peek, put_peek, remove_at, current_peek, refill_current,
}
use iracelog_service_manager.Replay.Choice.{held, ready}

module _ {M : Type 0} where
  -- No peek has this provider.
  abbrev pub Lacks : String → List (Peek M) → Type 0
  Lacks k ps = All (λ q. (q.provider == k) ≡ false) ps

  -- The peeks after the one between `front` and `back` has handed on its message, with those that
  -- follow it in `xs`.
  abbrev pub after : List (Peek M) → String → List (Stamped M) → List (Peek M) → List (Peek M)
  after front k [] back = front ++ back
  after front k (y ∷ ys) back = front ++ ready k y ys ∷ back

  -- The messages that the peeks of a provider hold.
  unfoldable pub held_of : String → List (Peek M) → List (Stamped M)
  held_of k [] = []
  held_of k (p ∷ ps) = (if p.provider == k then held p else []) ++ held_of k ps

  find_peek-middle :
      (front : List (Peek M)) (p : Peek M) (back : List (Peek M))
      → Lacks p.provider front
      → find_peek p.provider (front ++ p ∷ back) ≡ some p
  unfolding find_peek
  find_peek-middle [] p back h = rw (key_refl p.provider)
  find_peek-middle (q ∷ qs) p back (e, h) = rw e (find_peek-middle qs p back h)

  put_peek-middle :
      (front : List (Peek M)) (p q : Peek M) (back : List (Peek M))
      → p.provider ≡ q.provider
      → Lacks q.provider front
      → put_peek q (front ++ p ∷ back) ≡ front ++ q ∷ back
  unfolding put_peek
  put_peek-middle [] p q back same h = rw (same, key_refl q.provider)
  put_peek-middle (r ∷ rs) p q back same (e, h) =
      rw e (ap (λ ps. r ∷ ps) (put_peek-middle rs p q back same h))

  remove_at-middle :
      (front : List (Peek M)) (q : Peek M) (back : List (Peek M))
      → remove_at (length front) (front ++ q ∷ back) ≡ front ++ back
  unfolding remove_at
  remove_at-middle [] q back = refl
  remove_at-middle (r ∷ rs) q back = ap (λ ps. r ∷ ps) (remove_at-middle rs q back)

  pub refill_current-after :
      (front : List (Peek M)) (k : String) (x : Stamped M) (xs : List (Stamped M))
      (back : List (Peek M))
      → Lacks k front
      → refill_current (ready k x xs) (length front) (front ++ ready k x xs ∷ back)
        ≡ after front k xs back
  unfolding refill_current refill
  refill_current-after front k x [] back h =
      let last : Peek M = record { provider = k; data_req = none; data_chan = [] } in
      ap (remove_at (length front)) (put_peek-middle front (ready k x []) last back refl h)
      ∙ remove_at-middle front last back
  refill_current-after front k x (y ∷ ys) back h =
      put_peek-middle front (ready k x (y ∷ ys)) (ready k y ys) back refl h

  pub current_peek-middle :
      (front : List (Peek M)) (k : String) (x : Stamped M) (xs : List (Stamped M))
      (back : List (Peek M))
      → Lacks k front
      → current_peek (some k) (front ++ ready k x xs ∷ back) ≡ ok (ready k x xs, x)
  unfolding current_peek
  current_peek-middle front k x xs back h = rw (find_peek-middle front (ready k x xs) back h)

  -- A peek behind others of other providers may as well stand before them.
  held_of-behind :
      (c : String) (front : List (Peek M)) (p : Peek M) (back : List (Peek M))
      → Lacks p.provider front
      → held_of c (front ++ p ∷ back)
        ≡ (if p.provider == c then held p else []) ++ held_of c (front ++ back)
  unfolding held_of
  held_of-behind c [] p back h = refl
  held_of-behind c (q ∷ qs) p back (e, h) =
      let own = if q.provider == c then held q else [] in
      let rest = ap (λ zs. own ++ zs) (held_of-behind c qs p back h) in
      elim (key-cases p.provider c) [
        | inl same ↦
            let other : (q.provider == c) ≡ false = subst (λ k. (q.provider == k) ≡ false) same e in
            rest ∙ rw other refl
        | inr other ↦ rest ∙ rw other refl
      ]

  -- The chosen message goes first, and nothing else changes.
  pub held_of-after :
      (c : String) (front : List (Peek M)) (k : String) (x : Stamped M) (xs : List (Stamped M))
      (back : List (Peek M))
      → Lacks k front
      → held_of c (front ++ ready k x xs ∷ back)
        ≡ (if k == c then x ∷ [] else []) ++ held_of c (after front k xs back)
  unfolding held_of
  held_of-after c front k x [] back h = held_of-behind c front (ready k x []) back h
  held_of-after c front k x (y ∷ ys) back h = elim (Bool-cases (k == c)) [
    | inl own ↦
        held_of-behind c front (ready k x (y ∷ ys)) back h
        ∙ rw own
            (ap (λ zs. x ∷ zs) (sym (held_of-behind c front (ready k y ys) back h ∙ rw own refl)))
    | inr other ↦
        held_of-behind c front (ready k x (y ∷ ys)) back h
        ∙ rw other (sym (held_of-behind c front (ready k y ys) back h ∙ rw other refl))
  ]
