-- ===== src/Replay/Merged.antt =====
-- The loop hands on every message, in the order of the times.
use iracelog_service_manager.Base.{
  ℕ, ◌<◌, ◌≤◌, String, Option, none, some, List, [], ◌∷◌, ◌++◌, length, ◌==◌, ◌≡◌, refl, sym, ◌∙◌,
  ap, subst, arith, inl, inr, All, All-mono, All-back, string_key, if◌then◌else◌, ok,
}
use iracelog_service_manager.Replay.Peeks.{Stamped, Peek, Selected, max_time, select}
use iracelog_service_manager.Replay.Choice.{held, IsLive, InTime, HeadsFrom, ready, select-Earliest}
use iracelog_service_manager.Replay.Round.{after, held_of, held_of-after}
use iracelog_service_manager.Replay.Kept.{IsReady, HasDistinct-Lacks, All-after, Earliest-selected}

module _ {M : Type 0} where
  -- The messages of a provider among those handed on.
  unfoldable pub of_provider : String → List (String × Stamped M) → List (Stamped M)
  of_provider c [] = []
  of_provider c ((k, x) ∷ rs) = (if k == c then x ∷ [] else []) ++ of_provider c rs

  -- No message is before an earlier one.
  abbrev pub InOrder : List (Stamped M) → Type 0
  InOrder [] = Unit
  InOrder (x ∷ xs) = All (λ y. x.stamp ≤ y.stamp) xs × InOrder xs

  abbrev pub items : List (String × Stamped M) → List (Stamped M)
  items [] = []
  items ((k, x) ∷ rs) = x ∷ items rs

  -- Every message that is held is at `b` or later.
  abbrev HeldFrom : ℕ → List (Peek M) → Type 0
  HeldFrom b ps = All (λ p. All (λ y. b ≤ y.stamp) (held p)) ps

  -- A merge of what the peeks hold.
  pub record Merged (peeks : List (Peek M)) (rest : List (String × Stamped M)) : Type 0 where
    pub kept : (c : String) → of_provider c rest ≡ held_of c peeks
    pub above : (b : ℕ) → HeldFrom b peeks → All (λ y. b ≤ y.stamp) (items rest)
    pub ordered : All (λ p. InOrder (held p)) peeks → InOrder (items rest)

  -- When each peek is in order and its first message is not before `b`, nothing it holds is.
  HeldFrom-of_heads :
      (b : ℕ) (peeks : List (Peek M))
      → All IsLive peeks
      → HeadsFrom b peeks
      → All (λ p. InOrder (held p)) peeks
      → HeldFrom b peeks
  HeldFrom-of_heads b [] live heads order = tt
  HeldFrom-of_heads b (p ∷ ps) ((x, e), live) (head, heads) (o, order) =
      let hold : held p ≡ x ∷ p.data_chan =
        ap (λ r. elim r [ none ↦ [] | some y ↦ y ∷ p.data_chan ]) e in
      let below : All (λ y. x.stamp ≤ y.stamp) p.data_chan = (subst InOrder hold o).0 in
      (
        subst (λ ys. All (λ y. b ≤ y.stamp) ys) (sym hold)
            (
              head x e,
              All-mono (λ y. x.stamp ≤ y.stamp) (λ y. b ≤ y.stamp) p.data_chan below
                  (λ y l. omega (arith, head x e)),
            ),
        HeldFrom-of_heads b ps live heads order,
      )

  -- The message handed on first, and a merge of what the peeks hold after it.
  pub Merged-round :
      (front : List (Peek M)) (k : String) (x : Stamped M) (xs : List (Stamped M))
      (back : List (Peek M)) (rest : List (String × Stamped M))
      → IsReady (front ++ ready k x xs ∷ back)
      → HeadsFrom x.stamp (front ++ ready k x xs ∷ back)
      → Merged (after front k xs back) rest
      → Merged (front ++ ready k x xs ∷ back) ((k, x) ∷ rest)
  unfolding of_provider
  Merged-round front k x xs back rest (live, differ, in_time) heads m =
      let peeks = front ++ ready k x xs ∷ back in
      let lacks = HasDistinct-Lacks front (ready k x xs) back differ in
      let later : (b : ℕ) → HeldFrom b peeks → HeldFrom b (after front k xs back) = λ b h.
        All-after (λ p. All (λ y. b ≤ y.stamp) (held p)) k x front xs back h (λ y ys l. l.1) in
      record {
        kept = λ c.
            ap (λ ys. (if k == c then x ∷ [] else []) ++ ys) (m.kept c)
            ∙ sym (held_of-after c front k x xs back lacks);
        above = λ b h. (
          (All-back (λ p. All (λ y. b ≤ y.stamp) (held p)) front (ready k x xs ∷ back) h).0.0,
          m.above b (later b h),
        );
        ordered = λ h. (
          m.above x.stamp (later x.stamp (HeldFrom-of_heads x.stamp peeks live heads h)),
          m.ordered (All-after (λ p. InOrder (held p)) k x front xs back h (λ y ys l. l.1)),
        );
      }

  pub Merged-nil : Merged [] []
  unfolding of_provider held_of
  Merged-nil = record { kept = λ c. refl; above = λ b h. tt; ordered = λ h. tt }

  -- What a round chooses among peeks that are ready.
  pub record Chosen (peeks : List (Peek M)) (current : Option String) : Type 0 where
    pub front : List (Peek M)
    pub name : String
    pub item : Stamped M
    pub later : List (Stamped M)
    pub back : List (Peek M)
    pub split : front ++ ready name item later ∷ back ≡ peeks
    pub heads : HeadsFrom item.stamp peeks
    pub selected :
        select 0 peeks (record { next_ts = max_time; current = current; current_idx = 0 })
        ≡ ok (record { next_ts = item.stamp; current = some name; current_idx = length front })

  pub choice :
      (q : Peek M) (qs : List (Peek M)) (current : Option String)
      → IsReady (q ∷ qs)
      → Chosen (q ∷ qs) current
  choice q qs current (((x, e), live), differ, (in_time, in_times)) =
      let start : Selected = record { next_ts = max_time; current = current; current_idx = 0 } in
      let (c, runs, low, heads, found) = select-Earliest 0 (q ∷ qs) start ((x, e), live) in
      elim found [
        | inl same ↦
            let hold : held q ≡ x ∷ q.data_chan =
              ap (λ r. elim r [ none ↦ [] | some y ↦ y ∷ q.data_chan ]) e in
            let before : x.stamp < max_time = (subst InTime hold in_time).0 in
            let top : c.next_ts ≡ max_time = ap (λ d. d.next_ts) same in
            absurd (omega (arith, heads.0 x e, top, before))
        | inr r ↦ record {
          front = r.front;
          name = r.name;
          item = r.item;
          later = r.later;
          back = r.back;
          split = sym r.split;
          heads = subst (λ t. HeadsFrom t (q ∷ qs)) r.time heads;
          selected = runs ∙ ap (λ d. ok d) (Earliest-selected (q ∷ qs) c r);
        }
      ]
