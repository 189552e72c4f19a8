-- ===== src/Auth/Found.antt =====
-- handleAuth, and the caller that it finds.
use iracelog_service_manager.Base.{
  ℕ, String, true, false, Option, none, some, [], ◌∷◌, ◌==◌, ◌≡◌, refl, sym, ◌∙◌, ap, string_key,
  if◌then◌else◌, Bool-cases, inl, inr,
}
use iracelog_service_manager.Base.Results.{Result, done, fail}
use iracelog_service_manager.Auth.Callers.{
  Authenticated, Authentication, simple_auth, tenant_auth, session_auth, Tenant, SessionInfo,
  Request, authenticate_tenant, authenticate_api_key, authenticate_session, authenticate_anonymous,
  first_authentication, anon, handle_auth,
}

-- The authentication of a tenant's key.
abbrev pub tenant_caller : (ℕ → String) → Tenant → Authentication
tenant_caller show t =
    tenant_auth
      (record {
        name = t.name;
        roles = [];
        scoped_roles = record { role = "racedata-provider"; scopes = show t.id ∷ [] } ∷ [];
      })
      t.id

-- The authentication without a key that is accepted.
abbrev pub session_caller : Option SessionInfo → Authentication
session_caller none = anon
session_caller (some s) =
    session_auth
      (record { name = s.session_name; roles = s.session_roles; scoped_roles = s.session_scopes })
      s.session_id s.user_id 0

module _ (show : ℕ → String) (admin_token : String) (hash : String → String)
    (tenant_of_key : String → Result Tenant) where
  -- The request has a key that is not the admin's, and the key is that of an active tenant.
  pub record HasTenantKey (r : Request) (t : Tenant) : Type 0 where
    pub some_key : (r.api_token == "") ≡ false
    pub not_admin : (r.api_token == admin_token) ≡ false
    pub found : tenant_of_key (hash r.api_token) ≡ done t
    pub active : t.is_active ≡ true

  -- The providers after that of API keys.
  next_session :
      (token : String) (s : Option SessionInfo)
      → first_authentication
          (authenticate_session ∷ authenticate_anonymous ∷ [])
          (record { api_token = token; session = s })
        ≡ some (session_caller s)
  unfolding first_authentication authenticate_session authenticate_anonymous
  next_session token none = refl
  next_session token (some s) = refl

  pub after_key :
      (r : Request) (o : Option Authentication)
      → (authenticate_api_key show admin_token hash tenant_of_key r).0 ≡ o
      → handle_auth show admin_token hash tenant_of_key r
        ≡ elim o [ none ↦ some (session_caller r.session) | some a ↦ some a ]
  unfolding handle_auth first_authentication
  after_key r none h =
      ap
        (λ k. elim k [
          | none ↦ first_authentication (authenticate_session ∷ authenticate_anonymous ∷ []) r
          | some a ↦ some a
        ])
        h
      ∙ next_session r.api_token r.session
  after_key r (some b) h =
      ap
        (λ k. elim k [
          | none ↦ first_authentication (authenticate_session ∷ authenticate_anonymous ∷ []) r
          | some a ↦ some a
        ])
        h

  admin_key :
      (r : Request)
      → (r.api_token == "") ≡ false
      → (r.api_token == admin_token) ≡ true
      → (authenticate_api_key show admin_token hash tenant_of_key r).0
        ≡ some (simple_auth (record { name = "admin"; roles = "admin" ∷ []; scoped_roles = [] }))
  unfolding authenticate_api_key
  admin_key r key admin = rw (key, admin) refl

  pub tenant_key :
      (r : Request) (t : Tenant)
      → HasTenantKey r t
      → (authenticate_api_key show admin_token hash tenant_of_key r).0 ≡ some (tenant_caller show t)
  unfolding authenticate_api_key authenticate_tenant
  tenant_key r t h =
      rw (h.some_key, h.not_admin, h.found)
        (ap
          (λ b.
            let out : Authenticated =
              if b then (some (tenant_caller show t), none) else (none, none) in
            out.0)
          h.active)

  -- Who calls: the admin or the active tenant whose key the request has, or else the session, or else
  -- nobody known.
  abbrev pub caller : Request → Authentication
  caller r =
      if r.api_token == ""
      then session_caller r.session
      else (if r.api_token == admin_token
          then simple_auth (record { name = "admin"; roles = "admin" ∷ []; scoped_roles = [] })
          else elim (tenant_of_key (hash r.api_token)) [
            | fail e ↦ session_caller r.session
            | done t ↦ if t.is_active then tenant_caller show t else session_caller r.session
          ])

  no_key :
      (r : Request)
      → (r.api_token == "") ≡ true
      → (authenticate_api_key show admin_token hash tenant_of_key r).0 ≡ none
  unfolding authenticate_api_key
  no_key r e = rw e refl

  no_tenant :
      (r : Request) (found : Result Tenant)
      → (r.api_token == "") ≡ false
      → (r.api_token == admin_token) ≡ false
      → tenant_of_key (hash r.api_token) ≡ found
      → (authenticate_tenant show admin_token hash tenant_of_key found).0 ≡ none
      → (authenticate_api_key show admin_token hash tenant_of_key r).0 ≡ none
  unfolding authenticate_api_key
  no_tenant r found e f g h =
      rw (e, f) (ap (λ o. (authenticate_tenant show admin_token hash tenant_of_key o).0) g ∙ h)

  by_tenant :
      (r : Request)
      → (r.api_token == "") ≡ false
      → (r.api_token == admin_token) ≡ false
      → (found : Result Tenant) → tenant_of_key (hash r.api_token) ≡ found
      → handle_auth show admin_token hash tenant_of_key r ≡ some (caller r)
  unfolding authenticate_tenant
  by_tenant r e f (fail x) g =
      after_key r none (no_tenant r (fail x) e f g refl) ∙ rw (e, f, g) refl
  by_tenant r e f (done t) g = elim (Bool-cases t.is_active) [
    | inl active ↦
        after_key r (some (tenant_caller show t))
          (tenant_key r t (record { some_key = e; not_admin = f; found = g; active = active }))
        ∙ rw (e, f, g)
            (ap (λ b. some (if b then tenant_caller show t else session_caller r.session))
              (sym active))
    | inr inactive ↦
        after_key r none (
          no_tenant r (done t) e f g (
            ap
              (λ b.
                let out : Authenticated =
                  if b then (some (tenant_caller show t), none) else (none, none) in
                out.0)
              inactive))
        ∙ rw (e, f, g)
            (ap (λ b. some (if b then tenant_caller show t else session_caller r.session))
              (sym inactive))
  ]

  -- handleAuth finds the caller, whatever the request brings: never none, even when the cache of tenants
  -- fails.
  pub handle_auth-caller :
      (r : Request) → handle_auth show admin_token hash tenant_of_key r ≡ some (caller r)
  handle_auth-caller r = elim (Bool-cases (r.api_token == "")) [
    | inl e ↦ after_key r none (no_key r e) ∙ rw e refl
    | inr e ↦ elim (Bool-cases (r.api_token == admin_token)) [
      | inl f ↦ after_key r (some _) (admin_key r e f) ∙ rw (e, f) refl
      | inr f ↦ by_tenant r e f (tenant_of_key (hash r.api_token)) refl
    ]
  ]
