-- ===== src/Auth/Reach.antt =====
-- graph.reachable of the policy engine, and what is reached in the role graph of data.json.
use iracelog_service_manager.Base.{
  String, Bool, true, false, ◌||◌, some, some-injective, List, [], ◌∷◌, GoMap, lookup, ◌==◌, ◌≡◌,
  refl, sym, ◌∙◌, ap, subst, string_key, Bool-cases, key-cases, key_refl, inl, inr,
}
use iracelog_service_manager.Auth.Policy.{is_in, roles_graph}

-- A role that is reached from some of the roles in the graph, whose keys are the roles there are.
pub data Reached (g : GoMap String (List String)) (from : List String) : String → Type 0 where
  start :
      (r : String) (ns : List String)
      → is_in r from ≡ true
      → lookup r g ≡ some ns
      → Reached g from r
  step :
      (q r : String) (ns ms : List String)
      → Reached g from q
      → lookup q g ≡ some ns
      → is_in r ns ≡ true
      → lookup r g ≡ some ms
      → Reached g from r

-- The function of the policy engine, on the role graph.
pub record IsReachable (reachable : List String → String → Bool) : Type 0 where
  pub sound :
      (from : List String) (r : String) → reachable from r ≡ true → Reached roles_graph from r
  pub complete :
      (from : List String) (r : String) → Reached roles_graph from r → reachable from r ≡ true

-- Nothing is reached from no role.
Reached-nil : (g : GoMap String (List String)) (r : String) → Reached g [] r → ⊥
Reached-nil g r (start _ ns h k) = absurd cc
Reached-nil g r (step q _ ns ms h e i k) = Reached-nil g q h

-- A role that leads nowhere reaches itself only.
Reached-leaf :
    (g : GoMap String (List String)) (q r : String)
    → lookup q g ≡ some []
    → Reached g (q ∷ []) r
    → q ≡ r
Reached-leaf g q r leaf (start _ ns h k) = elim (key-cases q r) [
  | inl same ↦ same
  | inr other ↦ let no : false ≡ true = sym (ap (λ b. b || false) other) ∙ h in absurd cc
]
Reached-leaf g q r leaf (step p _ ns ms h e i k) =
    let same = Reached-leaf g q p leaf h in
    let none_left : ns ≡ [] =
      some-injective ns [] (sym e ∙ subst (λ k. lookup k g ≡ some []) same leaf) in
    let no : false ≡ true = sym (ap (is_in r) none_left) ∙ i in absurd cc

module _ (reachable : List String → String → Bool) (law : IsReachable reachable) where
  pub no_role : (r : String) → reachable [] r ≡ false
  no_role r = elim (Bool-cases (reachable [] r)) [
    | inl h ↦ absurd (Reached-nil roles_graph r (law.sound [] r h))
    | inr h ↦ h
  ]

  -- From the role of a data provider only this role is reached.
  pub provider_only :
      (r : String)
      → ("racedata-provider" == r) ≡ false
      → reachable ("racedata-provider" ∷ []) r ≡ false
  unfolding lookup
  provider_only r other = elim (Bool-cases (reachable ("racedata-provider" ∷ []) r)) [
    | inl h ↦
        let same =
          Reached-leaf roles_graph "racedata-provider" r refl
            (law.sound ("racedata-provider" ∷ []) r h) in
        let no : true ≡ false =
          sym (key_refl {A = String} "racedata-provider")
          ∙ ap (λ k. "racedata-provider" == k) same
          ∙ other in
        absurd cc
    | inr h ↦ h
  ]

  pub provider_itself : reachable ("racedata-provider" ∷ []) "racedata-provider" ≡ true
  unfolding lookup
  provider_itself =
      law.complete ("racedata-provider" ∷ []) "racedata-provider"
        (start "racedata-provider" [] refl refl)

  pub admin_itself : reachable ("admin" ∷ []) "admin" ≡ true
  unfolding lookup
  admin_itself =
      law.complete ("admin" ∷ []) "admin"
        (start "admin" ("racedata-provider" ∷ "track-manager" ∷ "tenant-manager" ∷ []) refl refl)
