-- ===== src/Examples/Near.antt =====
-- The role graph, searched to the depth that it has.
use iracelog_service_manager.Base.{
  Option-cases, key_refl, String, Bool, true, false, ◌||◌, Option, none, some, some-injective, List,
  [], ◌∷◌, GoMap, lookup, ◌==◌, ◌≡◌, refl, sym, ◌∙◌, ap, string_key, key-cases, Bool-cases, inl,
  inr, if◌then◌else◌,
}
use iracelog_service_manager.Auth.Policy.{roles_graph, is_in, some_in, items_of}
use iracelog_service_manager.Auth.Reach.{Reached, start, step, IsReachable}
use iracelog_service_manager.Examples.Data.{millis}

-- A role of the graph that is given, or that a given role leads to.
abbrev pub near : List String → String → Bool
near from r = elim (lookup r roles_graph) [
  | none ↦ false
  | some _ ↦ is_in r from || some_in (λ q. is_in r (items_of (lookup q roles_graph))) from
]

or_true : (b : Bool) → (b || true) ≡ true
or_true true = refl
or_true false = refl

some_in-of :
    (f : String → Bool) (q : String) (xs : List String)
    → is_in q xs ≡ true
    → f q ≡ true
    → some_in f xs ≡ true
some_in-of f q [] h k = absurd cc
some_in-of f q (x ∷ xs) h k = elim (key-cases x q) [
  | inl same ↦ ap (λ b. b || some_in f xs) (ap f same ∙ k)
  | inr other ↦
      let rest : is_in q xs ≡ true = sym (ap (λ b. b || is_in q xs) other) ∙ h in
      ap (λ b. f x || b) (some_in-of f q xs rest k) ∙ or_true (f x)
]

some_in-found :
    (f : String → Bool) (xs : List String)
    → some_in f xs ≡ true
    → (q : String) × (is_in q xs ≡ true) × (f q ≡ true)
some_in-found f [] h = absurd cc
some_in-found f (x ∷ xs) h = elim (Bool-cases (f x)) [
  | inl e ↦ (x, ap (λ b. b || is_in x xs) (key_refl {A = String} x), e)
  | inr e ↦
      let (q, k, found) = some_in-found f xs (sym (ap (λ b. b || some_in f xs) e) ∙ h) in
      (q, ap (λ b. x == q || b) k ∙ or_true (x == q), found)
]

-- The values of a map are empty.
abbrev AllEmpty : GoMap String (List String) → Type 0
AllEmpty [] = Unit
AllEmpty ((_, v) ∷ m) = (v ≡ []) × AllEmpty m

empty_value :
    (q : String) (ns : List String) (m : GoMap String (List String))
    → AllEmpty m
    → lookup q m ≡ some ns
    → ns ≡ []
unfolding lookup
empty_value q ns [] h e = absurd cc
empty_value q ns ((k, v) ∷ m) (h, hs) e = elim (Bool-cases (k == q)) [
  | inl own ↦
      let here = ap (λ b. if b then some v else lookup q m) own in
      some-injective ns v (sym e ∙ here) ∙ h
  | inr other ↦
      let there = ap (λ b. if b then some v else lookup q m) other in
      empty_value q ns m hs (sym there ∙ e)
]

-- Only the admin leads on.
leads_on :
    (q r : String) (ns : List String)
    → lookup q roles_graph ≡ some ns
    → is_in r ns ≡ true
    → "admin" ≡ q
unfolding lookup
leads_on q r ns h k = elim (key-cases "admin" q) [
  | inl same ↦ same
  | inr other ↦
      let leaves : GoMap String (List String) =
        ("editor", [])
        ∷ ("racedata-provider", [])
        ∷ ("tenant-manager", [])
        ∷ ("track-manager", [])
        ∷ [] in
      let there : lookup q roles_graph ≡ lookup q leaves =
        ap
          (λ b.
            if b
            then some ("racedata-provider" ∷ "track-manager" ∷ "tenant-manager" ∷ [])
            else lookup q leaves)
          other in
      let empty = empty_value q ns leaves (refl, (refl, (refl, (refl, tt)))) (sym there ∙ h) in
      let no : false ≡ true = sym (ap (is_in r) empty) ∙ k in absurd cc
]

admin_given :
    (from : List String) (q : String)
    → Reached roles_graph from q
    → "admin" ≡ q
    → is_in q from ≡ true
unfolding lookup
admin_given from q (start _ ns h k) same = h
admin_given from q (step p _ ns ms h e i k) same =
    let first = leads_on p q ns e i in
    let children : some ns ≡ some ("racedata-provider" ∷ "track-manager" ∷ "tenant-manager" ∷ []) =
      sym e ∙ ap (λ k. lookup k roles_graph) (sym first) in
    let no : false ≡ true =
      ap (λ k. is_in k ("racedata-provider" ∷ "track-manager" ∷ "tenant-manager" ∷ [])) same
      ∙ ap (λ o. is_in q (items_of o)) (sym children)
      ∙ i in
    absurd cc

-- The roles that lead to `r`.
abbrev leads_to : String → String → Bool
leads_to r q = is_in r (items_of (lookup q roles_graph))

near_of :
    (from : List String) (r : String) (o : Option (List String))
    → lookup r roles_graph ≡ o
    → near from r ≡ elim o [ none ↦ false | some _ ↦ is_in r from || some_in (leads_to r) from ]
near_of from r o h =
    ap (λ p. elim p [ none ↦ false | some _ ↦ is_in r from || some_in (leads_to r) from ]) h

near_sound : (from : List String) (r : String) → near from r ≡ true → Reached roles_graph from r
near_sound from r h = elim (Option-cases (lookup r roles_graph)) [
  | inl e ↦ let no : false ≡ true = sym (near_of from r none e) ∙ h in absurd cc
  | inr (ns, e) ↦ elim (Bool-cases (is_in r from)) [
    | inl given ↦ start r ns given e
    | inr other ↦
        let led : some_in (leads_to r) from ≡ true =
          sym (near_of from r (some ns) e ∙ ap (λ b. b || some_in (leads_to r) from) other) ∙ h in
        let (q, given, leads) = some_in-found (leads_to r) from led in
        elim (Option-cases (lookup q roles_graph)) [
          | inl f ↦
              let no : false ≡ true = sym (ap (λ o. is_in r (items_of o)) f) ∙ leads in absurd cc
          | inr (ms, f) ↦
              step q r ms ns (start q ms given f) f (sym (ap (λ o. is_in r (items_of o)) f) ∙ leads)
                e
        ]
  ]
]

near_complete : (from : List String) (r : String) → Reached roles_graph from r → near from r ≡ true
near_complete from r (start _ ns h k) =
    near_of from r (some ns) k ∙ ap (λ b. b || some_in (leads_to r) from) h
near_complete from r (step q _ ns ms h e i k) =
    let given = admin_given from q h (leads_on q r ns e i) in
    let led = some_in-of (leads_to r) q from given (ap (λ o. is_in r (items_of o)) e ∙ i) in
    near_of from r (some ms) k ∙ ap (λ b. is_in r from || b) led ∙ or_true (is_in r from)

pub near-IsReachable : IsReachable near
near-IsReachable = record { sound = near_sound; complete = near_complete }
