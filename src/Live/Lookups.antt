-- ===== src/Live/Lookups.antt =====
-- The lookup of the live events: one event for each key, and what the operations do to it.
use iracelog_service_manager.Base.{
  String, Bool, true, false, inl, inr, Option, none, some, some-injective, [], ◌∷◌, ◌++◌, ◌≡◌, refl,
  sym, ◌∙◌, ap, GoMap, Key, key_refl, key-cases, Bool-cases, Option-cases, lookup, insert, delete,
  ◌==◌, string_key, if◌then◌else◌, All, subst, lookup-insert_ne, lookup-delete,
}
use iracelog_service_manager.States.Types.{EventSelector}
use iracelog_service_manager.Live.Types.{EventProcessingData, EventLookup}
use iracelog_service_manager.Live.Lookup.{get_event, remove_event}

has_value :
    {A V : Type 0} (b : Bool) (v : V) (o : Option V)
    → b ≡ true
    → (if b then some v else o) ≡ none
    → A
has_value b v o p h = let h' = rw p at h in absurd (cc)

none_either : {V : Type 0} (b : Bool) (o : Option V) → o ≡ none → (if b then none else o) ≡ none
none_either true o h = refl
none_either false o h = h

module _ {K : Type 0} ⦃e : Key K⦄ where
  pub key_ne_sym : (j k : K) → (j == k) ≡ false → (k == j) ≡ false
  key_ne_sym j k h = elim (key-cases k j) [
    | inl q ↦ let t = subst (λ x. (j == x) ≡ true) (sym q) (key_refl j) in absurd (cc)
    | inr q ↦ q
  ]

module _ {K V : Type 0} ⦃e : Key K⦄ where
  -- Each key has one entry.
  abbrev pub Distinct : GoMap K V → Type 0
  Distinct [] = Unit
  Distinct ((k, v) ∷ m) = (lookup k m ≡ none) × Distinct m

  pub delete_absent : (k : K) (m : GoMap K V) → lookup k m ≡ none → delete k m ≡ m
  unfolding lookup delete
  delete_absent k [] h = refl
  delete_absent k ((j, v) ∷ m) h = elim (Bool-cases (j == k)) [
    | inl p ↦ has_value (j == k) v (lookup k m) p h
    | inr p ↦ rw (p, delete_absent k m (rw p at h)) refl
  ]

  -- A key that is not there is inserted at the end.
  pub insert_absent :
      (k : K) (v : V) (m : GoMap K V) → lookup k m ≡ none → insert k v m ≡ m ++ (k, v) ∷ []
  unfolding lookup insert
  insert_absent k v [] h = refl
  insert_absent k v ((j, w) ∷ m) h = elim (Bool-cases (j == k)) [
    | inl p ↦ has_value (j == k) w (lookup k m) p h
    | inr p ↦ rw (p, insert_absent k v m (rw p at h)) refl
  ]

  pub delete-insert_absent :
      (k : K) (v : V) (m : GoMap K V) → lookup k m ≡ none → delete k (insert k v m) ≡ m
  unfolding lookup insert delete
  delete-insert_absent k v [] h = rw (key_refl k) refl
  delete-insert_absent k v ((j, w) ∷ m) h = elim (Bool-cases (j == k)) [
    | inl p ↦ has_value (j == k) w (lookup k m) p h
    | inr p ↦ rw (p, p, delete-insert_absent k v m (rw p at h)) refl
  ]

  pub insert-Distinct : (k : K) (v : V) (m : GoMap K V) → Distinct m → Distinct (insert k v m)
  unfolding lookup insert
  insert-Distinct k v [] h = (refl, tt)
  insert-Distinct k v ((j, w) ∷ m) (h, hs) = elim (key-cases j k) [
    | inl p ↦
        rw (subst (λ x. (x == k) ≡ true) (sym p) (key_refl k))
          (subst (λ x. lookup x m ≡ none) p h, hs)
    | inr p ↦ rw p (lookup-insert_ne k j v m (key_ne_sym j k p) ∙ h, insert-Distinct k v m hs)
  ]

  pub delete-Distinct : (k : K) (m : GoMap K V) → Distinct m → Distinct (delete k m)
  unfolding lookup delete
  delete-Distinct k [] h = tt
  delete-Distinct k ((j, w) ∷ m) (h, hs) = elim (Bool-cases (j == k)) [
    | inl p ↦ rw p (delete-Distinct k m hs)
    | inr p ↦
        rw p (lookup-delete k j m ∙ none_either (k == j) (lookup j m) h, delete-Distinct k m hs)
  ]

module _ {T K : Type 0} where
  -- Each event is entered under its key.
  abbrev pub IsKeyed : EventLookup T K → Type 0
  IsKeyed l = All (λ entry. entry.1.event.key ≡ entry.0) l

  -- The lookup has one entry for each key, that of the event with this key.
  abbrev pub IsLookup : EventLookup T K → Type 0
  IsLookup l = Distinct l × IsKeyed l

  pub insert-IsKeyed :
      (k : String) (epd : EventProcessingData T K) (l : EventLookup T K)
      → epd.event.key ≡ k
      → IsKeyed l
      → IsKeyed (insert k epd l)
  unfolding insert
  insert-IsKeyed k epd [] h hs = (h, tt)
  insert-IsKeyed k epd ((j, old) ∷ l) h (g, hs) = elim (Bool-cases (j == k)) [
    | inl p ↦ rw p (h, hs)
    | inr p ↦ rw p (g, insert-IsKeyed k epd l h hs)
  ]

  pub insert-IsLookup :
      (epd : EventProcessingData T K) (l : EventLookup T K)
      → IsLookup l
      → IsLookup (insert epd.event.key epd l)
  insert-IsLookup epd l (h, k) =
      (insert-Distinct epd.event.key epd l h, insert-IsKeyed epd.event.key epd l refl k)

  delete-IsKeyed : (k : String) (l : EventLookup T K) → IsKeyed l → IsKeyed (delete k l)
  unfolding delete
  delete-IsKeyed k [] h = tt
  delete-IsKeyed k ((j, old) ∷ l) (g, hs) = elim (Bool-cases (j == k)) [
    | inl p ↦ rw p (delete-IsKeyed k l hs)
    | inr p ↦ rw p (g, delete-IsKeyed k l hs)
  ]

  pub delete-IsLookup : (k : String) (l : EventLookup T K) → IsLookup l → IsLookup (delete k l)
  delete-IsLookup k l (h, g) = (delete-Distinct k l h, delete-IsKeyed k l g)

  pub remove_event-IsLookup :
      (selector : EventSelector) (l : EventLookup T K)
      → IsLookup l
      → IsLookup (remove_event selector l)
  unfolding remove_event
  remove_event-IsLookup selector l h = elim (Option-cases (get_event selector l)) [
    | inl e ↦ rw (remove_event, e) h
    | inr (epd, e) ↦ rw (remove_event, e) (delete-IsLookup epd.event.key l h)
  ]

  -- What is found under a key has this key.
  pub lookup-key :
      (k : String) (l : EventLookup T K) (epd : EventProcessingData T K)
      → IsKeyed l
      → lookup k l ≡ some epd
      → epd.event.key ≡ k
  unfolding lookup
  lookup-key k [] epd h e = absurd (cc)
  lookup-key k ((j, old) ∷ l) epd (g, hs) e = elim (key-cases j k) [
    | inl p ↦
        let q : (j == k) ≡ true = subst (λ x. (x == k) ≡ true) (sym p) (key_refl k) in
        ap (λ (x : EventProcessingData T K). x.event.key) (sym (some-injective old epd (rw q at e)))
        ∙ g
        ∙ p
    | inr p ↦ lookup-key k l epd hs (rw p at e)
  ]
