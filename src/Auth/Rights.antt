-- ===== src/Auth/Rights.antt =====
-- The rights of the callers, when the policy engine follows the role graph as documented.
use iracelog_service_manager.Base.{
  ℕ, String, Bool, true, false, ◌&&◌, ◌||◌, List, [], ◌∷◌, lookup, insert, ◌==◌, ◌≡◌, refl, sym,
  ◌∙◌, ap, string_key, if◌then◌else◌, key-cases, inl, inr,
}
use iracelog_service_manager.Auth.Policy.{
  is_in, some_in, permissions, known_roles, EvalRequest, items_of, keys, has_admin_role,
  has_user_permission, has_scoped_permission, allow,
}
use iracelog_service_manager.Auth.Callers.{
  tenant_auth, simple_auth, identity, associate, has_permission, has_object_permission,
}
use iracelog_service_manager.Auth.Reach.{
  IsReachable, no_role, provider_only, provider_itself, admin_itself,
}

and_or_false : (a b : Bool) → ((a && (b || false)) || false) ≡ (a && b)
and_or_false true true = refl
and_or_false true false = refl
and_or_false false b = refl

if_same : (b c : Bool) → (if b then c else c) ≡ c
if_same true c = refl
if_same false c = refl

and_false : (a : Bool) → (a && false) ≡ false
and_false true = refl
and_false false = refl

some_in-none :
    {A : Type 0} (f : A → Bool) (xs : List A) → ((x : A) → f x ≡ false) → some_in f xs ≡ false
some_in-none f [] h = refl
some_in-none f (x ∷ xs) h = rw (h x) (some_in-none f xs h)

-- The actions of a data provider.
abbrev pub provider_actions : List String
provider_actions = items_of (lookup "racedata-provider" permissions)

-- The request of a data provider with one scope.
abbrev pub provider_input : String → String → String → EvalRequest
provider_input scope action owner = record {
  roles = [];
  scoped = ("racedata-provider", scope ∷ []) ∷ [];
  action = action;
  object_owner = owner;
}

-- A function that writes a tenant id: it never writes the empty text, and differs for each id.
pub record IsShow (show : ℕ → String) : Type 0 where
  pub not_empty : (n : ℕ) → (show n == "") ≡ false
  pub injective : (m n : ℕ) → show m ≡ show n → m ≡ n

module _ (reachable : List String → String → Bool) (law : IsReachable reachable) where
  -- Without roles nothing is permitted that needs no owner.
  no_user_permission :
      (input : EvalRequest) → input.roles ≡ [] → has_user_permission reachable input ≡ false
  unfolding has_user_permission
  no_user_permission input h =
      some_in-none
        (λ role.
          reachable input.roles role && is_in input.action (items_of (lookup role permissions)))
        known_roles
        (λ role.
          ap (λ b. b && is_in input.action (items_of (lookup role permissions)))
            (ap (λ rs. reachable rs role) h ∙ no_role reachable law role))

  no_admin : (input : EvalRequest) → input.roles ≡ [] → has_admin_role reachable input ≡ false
  unfolding has_admin_role
  no_admin input h = ap (λ rs. reachable rs "admin") h ∙ no_role reachable law "admin"

  -- The scopes of a data provider with one scope.
  scoped_provider :
      (scope action owner : String)
      → has_scoped_permission reachable (provider_input scope action owner)
        ≡ (is_in action provider_actions && scope == owner)
  unfolding has_scoped_permission lookup
  scoped_provider scope action owner =
      rw
        (
          provider_only reachable law "admin" refl,
          provider_only reachable law "editor" refl,
          provider_itself reachable law,
          provider_only reachable law "tenant-manager" refl,
          provider_only reachable law "track-manager" refl,
        )
        (and_or_false (is_in action provider_actions) (scope == owner))

  no_scopes :
      (input : EvalRequest) → input.scoped ≡ [] → has_scoped_permission reachable input ≡ false
  unfolding has_scoped_permission
  no_scopes input h =
      some_in-none
        (λ role.
          reachable (keys input.scoped) role
          && (is_in input.action (items_of (lookup role permissions))
              && is_in input.object_owner (items_of (lookup role input.scoped))))
        known_roles
        (λ role.
          ap
            (λ b.
              b
              && (is_in input.action (items_of (lookup role permissions))
                  && is_in input.object_owner (items_of (lookup role input.scoped))))
            (ap (λ m. reachable (keys m) role) h ∙ no_role reachable law role))

  -- Without roles only scopes count, and only for an object with an owner.
  allow_no_roles :
      (input : EvalRequest)
      → input.roles ≡ []
      → allow reachable input
        ≡ (if input.object_owner == "" then false else has_scoped_permission reachable input)
  unfolding allow
  allow_no_roles input h =
      ap
        (λ b.
          b
          || (if input.object_owner == ""
              then has_user_permission reachable input
              else has_scoped_permission reachable input))
        (no_admin input h)
      ∙ ap (λ b. if input.object_owner == "" then b else has_scoped_permission reachable input)
          (no_user_permission input h)

  -- The scopes of a data provider are never the empty owner.
  owner_scoped :
      (scope action owner : String)
      → (scope == "") ≡ false
      → (if owner == ""
          then false
          else has_scoped_permission reachable (provider_input scope action owner))
        ≡ (is_in action provider_actions && scope == owner)
  owner_scoped scope action owner some_scope = elim (key-cases owner "") [
    | inl empty ↦
        ap
          (λ o.
            if o == ""
            then false
            else has_scoped_permission reachable (provider_input scope action o))
          empty
        ∙ sym (
            ap (λ o. is_in action provider_actions && scope == o) empty
            ∙ ap (λ b. is_in action provider_actions && b) some_scope
            ∙ and_false (is_in action provider_actions))
    | inr other ↦
        ap
          (λ b.
            if b
            then false
            else has_scoped_permission reachable (provider_input scope action owner))
          other
        ∙ scoped_provider scope action owner
  ]

  -- The key of a tenant permits nothing by itself, and on an object exactly the actions of a data
  -- provider, if the tenant owns it. The policy engine follows the role graph as documented, and tenant
  -- ids are written as different texts that are not empty.
  pub tenant_rights :
      (show : ℕ → String)
      → IsShow show
      → (name : String) (tenant_id : ℕ) (action owner : String)
      → (let a =
            tenant_auth
              (record {
                name = name;
                roles = [];
                scoped_roles =
                    record { role = "racedata-provider"; scopes = show tenant_id ∷ [] } ∷ [];
              })
              tenant_id in
          (has_permission reachable show a action ≡ false)
          × (has_object_permission reachable show a action owner
              ≡ (is_in action provider_actions && show tenant_id == owner)))
  unfolding has_permission has_object_permission associate insert identity
  tenant_rights show writes name tenant_id action owner = (
    allow_no_roles (record { roles = []; scoped = []; action = action; object_owner = "" }) refl,
    allow_no_roles (provider_input (show tenant_id) action owner) refl
        ∙ owner_scoped (show tenant_id) action owner (writes.not_empty tenant_id),
  )

  -- The admin may do everything, and who is anonymous nothing. The policy engine follows the role
  -- graph as documented.
  pub admin_anonymous_rights :
      (show : ℕ → String) (name : String) (action owner : String)
      → (let admin =
            simple_auth (record { name = name; roles = "admin" ∷ []; scoped_roles = [] }) in
          let anonymous = simple_auth (record { name = name; roles = []; scoped_roles = [] }) in
          (has_permission reachable show admin action ≡ true)
          × (has_object_permission reachable show admin action owner ≡ true)
          × (has_permission reachable show anonymous action ≡ false)
          × (has_object_permission reachable show anonymous action owner ≡ false))
  unfolding has_permission has_object_permission allow associate identity has_admin_role
  admin_anonymous_rights show name action owner = (
    rw (admin_itself reachable law) refl,
    rw (admin_itself reachable law) refl,
    allow_no_roles (record { roles = []; scoped = []; action = action; object_owner = "" }) refl,
    allow_no_roles (record { roles = []; scoped = []; action = action; object_owner = owner }) refl
        ∙ ap (λ b. if owner == "" then false else b)
            (no_scopes (record { roles = []; scoped = []; action = action; object_owner = owner })
              refl)
        ∙ if_same (owner == "") false,
  )
