-- ===== src/Cache/Answers.antt =====
-- The cache as what it promises: the time of the last load of each key, if it is still held.
use iracelog_service_manager.Base.{
  ℕ, ◌+◌, true, false, Option, none, some, ◌≡◌, refl, sym, ◌∙◌, ap, subst, arith, inl, inr, ◌⊎◌,
  GoMap, Key, key_refl, key-cases, Bool-cases, Option-cases, lookup, insert, delete, ◌==◌, ltb, leb,
  lookup-insert_self, lookup-insert_ne, lookup-delete, if◌then◌else◌,
}
use iracelog_service_manager.Base.Results.{Result, Failure, done, fail}
use iracelog_service_manager.Cache.Loader.{Item, Config, is_expired, load, get, invalidate}

Result-cases :
    {V : Type 0} (r : Result V) → ((v : V) × (r ≡ done v)) ⊎ ((x : Failure) × (r ≡ fail x))
Result-cases (done v) = inl (v, refl)
Result-cases (fail x) = inr (x, refl)

-- The loader gives `loads t` at the time `t`.
module _ {K V : Type 0} ⦃e : Key K⦄ (expiration : ℕ) (loads : ℕ → K → Result V) where
  -- The configuration at a time.
  abbrev pub loading : ℕ → Config K V
  loading now = record { expiration = expiration; loader = some (loads now) }

  -- The item of a key, beside the time at which it was loaded.
  abbrev HoldsAt : K → Option (Item V) → Option ℕ → Type 0
  HoldsAt k none none = Unit
  HoldsAt k (some item) (some t) =
      (loads t k ≡ done item.content) × (item.expires ≡ some (t + expiration))
  HoldsAt k none (some t) = ⊥
  HoldsAt k (some item) none = ⊥

  -- Each item is the value loaded at the time that `seen` gives for its key.
  abbrev pub Holds : (K → Option ℕ) → GoMap K (Item V) → Type 0
  Holds seen items = (k : K) → HoldsAt k (lookup k items) (seen k)

  -- The time of the load that Get answers with: the last one, for as long as it is not older than the
  -- expiration, or else the present.
  abbrev pub answer_time : ℕ → Option ℕ → ℕ
  answer_time now none = now
  answer_time now (some t) = if leb now (t + expiration) then t else now

  kept_time : (now t : ℕ) → leb now (t + expiration) ≡ true → answer_time now (some t) ≡ t
  kept_time now t h = rw h refl

  past_time : (now t : ℕ) → leb now (t + expiration) ≡ false → answer_time now (some t) ≡ now
  past_time now t h = rw h refl

  abbrev if_loaded : ℕ → Result V → Option ℕ
  if_loaded t (done v) = some t
  if_loaded t (fail x) = none

  -- The times of the loads once a key is loaded: a load that fails leaves nothing.
  abbrev pub after_load : (K → Option ℕ) → ℕ → K → K → Option ℕ
  after_load seen t key k = if key == k then if_loaded t (loads t key) else seen k

  -- The times of the loads once a key is forgotten.
  abbrev pub without : (K → Option ℕ) → K → K → Option ℕ
  without seen key k = if key == k then none else seen k

  held_none : (k : K) (o : Option ℕ) → HoldsAt k none o → o ≡ none
  held_none k none h = refl
  held_none k (some t) h = absurd h

  held_some :
      (k : K) (item : Item V) (o : Option ℕ)
      → HoldsAt k (some item) o
      → (t : ℕ) × (o ≡ some t)
        × (loads t k ≡ done item.content)
        × (item.expires ≡ some (t + expiration))
  held_some k item none h = absurd h
  held_some k item (some t) (p, q) = (t, refl, p, q)

  -- Only the item of one key changes.
  replaced :
      (seen : K → Option ℕ) (key : K) (o : Option ℕ) (old items : GoMap K (Item V))
      → Holds seen old
      → HoldsAt key (lookup key items) o
      → ((k : K) → (key == k) ≡ false → lookup k items ≡ lookup k old)
      → Holds (λ k. if key == k then o else seen k) items
  replaced seen key o old items h here others k = elim (key-cases key k) [
    | inl p ↦
        subst (λ j. HoldsAt j (lookup j items) (if key == j then o else seen j)) p
          (rw (key_refl key) here)
    | inr p ↦ rw (p, others k p) (h k)
  ]

  lookup-delete_others :
      (key : K) (items : GoMap K (Item V)) (k : K)
      → (key == k) ≡ false
      → lookup k (delete key items) ≡ lookup k items
  lookup-delete_others key items k p = lookup-delete key k items ∙ rw p refl

  lookup-delete_self : (key : K) (items : GoMap K (Item V)) → lookup key (delete key items) ≡ none
  lookup-delete_self key items = lookup-delete key key items ∙ rw (key_refl key) refl

  load-answers :
      (seen : K → Option ℕ) (now : ℕ) (key : K) (old items : GoMap K (Item V))
      → Holds seen old
      → lookup key items ≡ none
      → ((k : K) → (key == k) ≡ false → lookup k items ≡ lookup k old)
      → ((load (loading now) now key items).0 ≡ loads now key)
        × Holds (after_load seen now key) (load (loading now) now key items).1
  unfolding load
  load-answers seen now key old items h missing others = elim (Result-cases (loads now key)) [
    | inl (v, p) ↦
        let item : Item V = record { content = v; expires = some (now + expiration) } in
        let here : HoldsAt key (lookup key (insert key item items)) (some now) =
          rw (lookup-insert_self key item items) (p, refl) in
        rw p (
          refl,
          replaced seen key (some now) old (insert key item items) h here
              (λ k other. lookup-insert_ne key k item items other ∙ others k other),
        )
    | inr (x, p) ↦
        let here : HoldsAt key (lookup key items) none = rw missing tt in
        rw p (refl, replaced seen key none old items h here others)
  ]

  module _ (seen : K → Option ℕ) (now : ℕ) (key : K) (items : GoMap K (Item V))
      (h : Holds seen items) where
    -- What Get leaves when it answers with the load of a time.
    abbrev AnswersWith : ℕ → Type 0
    AnswersWith t =
        ((get (loading now) now key items).0 ≡ loads t key)
        × Holds (after_load seen t key) (get (loading now) now key items).1

    missing-AnswersWith : lookup key items ≡ none → AnswersWith now
    unfolding get
    missing-AnswersWith p =
        rw (get, p) (load-answers seen now key items items h p (λ k other. refl))

    module _ (item : Item V) (p : lookup key items ≡ some item) (t : ℕ)
        (loaded : loads t key ≡ done item.content)
        (expires : item.expires ≡ some (t + expiration)) where
      stale-AnswersWith : ltb (t + expiration) now ≡ true → AnswersWith now
      unfolding get is_expired
      stale-AnswersWith stale =
          rw (get, p, expires, stale)
            (load-answers seen now key items (delete key items) h (lookup-delete_self key items)
              (lookup-delete_others key items))

      held-Holds : Holds (after_load seen t key) items
      held-Holds =
          let here : HoldsAt key (lookup key items) (some t) = rw p (loaded, expires) in
          rw loaded (replaced seen key (some t) items items h here (λ k other. refl))

      held-AnswersWith : ltb (t + expiration) now ≡ false → AnswersWith t
      unfolding get is_expired
      held-AnswersWith live =
          let holds = held-Holds in rw (get, p, expires, live) (sym loaded, holds)

    get-AnswersWith : AnswersWith (answer_time now (seen key))
    get-AnswersWith = elim (Option-cases (lookup key items)) [
      | inl p ↦
          let unseen : seen key ≡ none =
            held_none key (seen key) (subst (λ o. HoldsAt key o (seen key)) p (h key)) in
          subst AnswersWith (sym (ap (answer_time now) unseen)) (missing-AnswersWith p)
      | inr (item, p) ↦
          let (t, known, loaded, expires) =
            held_some key item (seen key) (subst (λ o. HoldsAt key o (seen key)) p (h key)) in
          elim (Bool-cases (leb now (t + expiration))) [
            | inl fresh ↦
                let time : answer_time now (seen key) ≡ t =
                  ap (answer_time now) known ∙ kept_time now t fresh in
                subst AnswersWith (sym time)
                  (held-AnswersWith item p t loaded expires (ground arith))
            | inr old ↦
                let time : answer_time now (seen key) ≡ now =
                  ap (answer_time now) known ∙ past_time now t old in
                subst AnswersWith (sym time)
                  (stale-AnswersWith item p t loaded expires (ground arith))
          ]
    ]

  -- The loader gives `loads t` at the time `t`, and each item is the value that was loaded at the time
  -- of the last load of its key. Get at a time answers with what was loaded then, for as long as that is
  -- not older than the expiration; if it is older, or if there is none, with what the loader gives at
  -- the present. The items that Get leaves are again those of the last loads, where a load that fails
  -- leaves none, and Invalidate forgets the load of its key and of no other.
  pub get-answers :
      (seen : K → Option ℕ) (now : ℕ) (key : K) (items : GoMap K (Item V))
      → Holds seen items
      → (let t = answer_time now (seen key) in
          let result = get (loading now) now key items in
          (result.0 ≡ loads t key)
          × Holds (after_load seen t key) result.1
          × Holds (without seen key) (invalidate key items))
  unfolding invalidate
  get-answers seen now key items h =
      let (answer, holds) = get-AnswersWith seen now key items h in
      let gone : HoldsAt key (lookup key (delete key items)) none =
        rw (lookup-delete_self key items) tt in
      (
        answer,
        holds,
        replaced seen key none items (delete key items) h gone (lookup-delete_others key items),
      )
