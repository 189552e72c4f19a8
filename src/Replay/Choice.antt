-- ===== src/Replay/Choice.antt =====
-- What a round of the replay does to the peeks.
use iracelog_service_manager.Base.{
  ℕ, suc, ◌+◌, ◌<◌, ◌≤◌, String, false, none, some, List, [], ◌∷◌, ◌++◌, length, ltb, ◌==◌, ◌≡◌,
  refl, sym, ◌∙◌, ap, subst, some-injective, arith, ◌⊎◌, inl, inr, Bool-cases, All, string_key, ok,
}
use iracelog_service_manager.Replay.Peeks.{Stamped, Peek, max_time, Selected, ts, select}

module _ {M : Type 0} where
  -- The messages that a peek has yet to hand on.
  abbrev pub held : Peek M → List (Stamped M)
  held p = elim p.data_req [ none ↦ [] | some x ↦ x ∷ p.data_chan ]

  -- A peek that is not exhausted.
  abbrev pub IsLive : Peek M → Type 0
  IsLive p = (x : Stamped M) × (p.data_req ≡ some x)

  -- The messages are before the largest time.
  abbrev pub InTime : List (Stamped M) → Type 0
  InTime xs = All (λ x. x.stamp < max_time) xs

  -- The providers differ.
  abbrev pub HasDistinct : List (Peek M) → Type 0
  HasDistinct [] = Unit
  HasDistinct (p ∷ ps) = All (λ q. (p.provider == q.provider) ≡ false) ps × HasDistinct ps

  -- The first message of each peek is at `t` or later.
  abbrev pub From : ℕ → List (Peek M) → Type 0
  From t ps = All (λ p. All (λ x. t ≤ x.stamp) (held p)) ps

  -- A peek with a message to hand on and those that follow it.
  abbrev pub ready : String → Stamped M → List (Stamped M) → Peek M
  ready name x xs = record { provider = name; data_req = some x; data_chan = xs }

  -- The peek that was selected, with the earliest message.
  pub record Earliest (peeks : List (Peek M)) (i : ℕ) (c : Selected) : Type 0 where
    pub front : List (Peek M)
    pub name : String
    pub item : Stamped M
    pub later : List (Stamped M)
    pub back : List (Peek M)
    pub split : peeks ≡ front ++ ready name item later ∷ back
    pub named : c.current ≡ some name
    pub place : c.current_idx ≡ i + length front
    pub time : c.next_ts ≡ item.stamp

  -- The head of each peek is not before `t`.
  abbrev pub HeadsFrom : ℕ → List (Peek M) → Type 0
  HeadsFrom t ps = All (λ p. (x : Stamped M) → p.data_req ≡ some x → t ≤ x.stamp) ps

  only_head :
      (p : Peek M) (x : Stamped M) (t : ℕ)
      → p.data_req ≡ some x
      → t ≤ x.stamp
      → (y : Stamped M) → p.data_req ≡ some y
      → t ≤ y.stamp
  only_head p x t e h y f = subst (λ z. t ≤ z.stamp) (some-injective x y (sym e ∙ f)) h

  -- An earliest peek behind `p` is one behind it in the longer list.
  behind :
      (p : Peek M) (ps : List (Peek M)) (i : ℕ) (c : Selected)
      → Earliest ps (suc i) c
      → Earliest (p ∷ ps) i c
  behind p ps i c r = record {
    front = p ∷ r.front;
    name = r.name;
    item = r.item;
    later = r.later;
    back = r.back;
    split = ap (λ qs. p ∷ qs) r.split;
    named = r.named;
    place = omega (arith, r.place);
    time = r.time;
  }

  pub select-Earliest :
      (i : ℕ) (peeks : List (Peek M)) (c : Selected)
      → All IsLive peeks
      → (c' : Selected) × (select i peeks c ≡ ok c')
        × (c'.next_ts ≤ c.next_ts)
        × HeadsFrom c'.next_ts peeks
        × ((c' ≡ c) ⊎ Earliest peeks i c')
  unfolding select ts
  select-Earliest i [] c h = (c, refl, omega arith, tt, inl refl)
  select-Earliest i (p ∷ ps) c ((x, e), h) = elim (Bool-cases (ltb x.stamp c.next_ts)) [
    | inl earlier ↦
        let now : Selected = record {
          next_ts = x.stamp;
          current = some p.provider;
          current_idx = i;
        } in
        let (c', runs, low, heads, found) = select-Earliest (suc i) ps now h in
        let first : Earliest (p ∷ ps) i now = record {
          front = [];
          name = p.provider;
          item = x;
          later = p.data_chan;
          back = ps;
          split = ap (λ r. record p { data_req = r } ∷ ps) e;
          named = refl;
          place = omega arith;
          time = refl;
        } in
        (
          c',
          rw (e, earlier) runs,
          ground arith,
          (only_head p x c'.next_ts e low, heads),
          inr (elim found [
            | inl same ↦ subst (Earliest (p ∷ ps) i) (sym same) first
            | inr behind_p ↦ behind p ps i c' behind_p
          ]),
        )
    | inr later ↦
        let (c', runs, low, heads, found) = select-Earliest (suc i) ps c h in
        (
          c',
          rw (e, later) runs,
          low,
          (only_head p x c'.next_ts e (ground arith), heads),
          elim found [ inl same ↦ inl same | inr behind_p ↦ inr (behind p ps i c' behind_p) ],
        )
  ]
