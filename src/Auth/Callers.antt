-- ===== src/Auth/Callers.antt =====
-- auth_impl.go: the authenticators, handleAuth, and the evaluator of opa.go for their authentications.
-- The header of a request is its API key, empty if there is none; the cache of tenants is a function, as is
-- the hash of a key.
use iracelog_service_manager.Base.{
  ℕ, String, Bool, Option, none, some, List, [], ◌∷◌, GoMap, insert, ◌==◌, string_key,
  if◌then◌else◌,
}
use iracelog_service_manager.Base.Results.{Result, done, fail, Failure}
use iracelog_service_manager.Live.Types.{PermissionEvaluator}
use iracelog_service_manager.Auth.Policy.{allow, name_of}

-- auth.ScopedRole
pub record ScopedRole : Type 0 where
  pub role : String
  pub scopes : List String

-- The principal and the roles of an authentication.
pub record Identity : Type 0 where
  pub name : String
  pub roles : List String
  pub scoped_roles : List ScopedRole

-- SimpleAuth, TenantAuth with the id of the tenant, and SessionAuth with the session, the user and
-- the tenant id.
pub data Authentication : Type 0 where
  simple_auth : Identity → Authentication
  tenant_auth : Identity → ℕ → Authentication
  session_auth : Identity → String → String → ℕ → Authentication

unfoldable pub identity : Authentication → Identity
identity (simple_auth i) = i
identity (tenant_auth i _) = i
identity (session_auth i _ _ _) = i

-- The type test for a TenantAuthentication, with GetTenantID.
unfoldable pub get_tenant_id : Authentication → Option ℕ
get_tenant_id (simple_auth _) = none
get_tenant_id (tenant_auth _ id) = some id
get_tenant_id (session_auth _ _ _ id) = some id

-- model.Tenant
pub record Tenant : Type 0 where
  pub id : ℕ
  pub name : String
  pub is_active : Bool

-- session.Session
pub record SessionInfo : Type 0 where
  pub session_id : String
  pub user_id : String
  pub session_name : String
  pub session_roles : List String
  pub session_scopes : List ScopedRole

-- What a request brings: the API key and the session of its context.
pub record Request : Type 0 where
  pub api_token : String
  pub session : Option SessionInfo

-- What Authenticate returns.
abbrev pub Authenticated : Type 0
Authenticated = Option Authentication × Option Failure

-- sessionAuthenticator.Authenticate; the tenant id is not set.
unfoldable pub authenticate_session : Request → Authenticated
authenticate_session r = elim r.session [
  | none ↦ (none, none)
  | some s ↦ (
    some (
        session_auth
          (record {
            name = s.session_name;
            roles = s.session_roles;
            scoped_roles = s.session_scopes;
          })
          s.session_id s.user_id 0),
    none,
  )
]

-- anon
abbrev pub anon : Authentication
anon = simple_auth (record { name = "anon"; roles = []; scoped_roles = [] })

-- anonymousAuthenticator.Authenticate
unfoldable pub authenticate_anonymous : Request → Authenticated
authenticate_anonymous r = (some anon, none)

-- The loop of handleAuth: the first authentication that is not nil.
unfoldable pub first_authentication :
    List (Request → Authenticated) → Request → Option Authentication
first_authentication [] r = none
first_authentication (p ∷ ps) r =
    let rest = first_authentication ps r in elim (p r).0 [ none ↦ rest | some a ↦ some a ]

module _ (show : ℕ → String) (admin_token : String) (hash : String → String)
    (tenant_of_key : String → Result Tenant) where
  -- apiKeyAuthenticator.Authenticate, for a key that is not the admin's.
  unfoldable pub authenticate_tenant : Result Tenant → Authenticated
  authenticate_tenant (done t) =
      if t.is_active
      then (
        some (
            tenant_auth
              (record {
                name = t.name;
                roles = [];
                scoped_roles = record { role = "racedata-provider"; scopes = show t.id ∷ [] } ∷ [];
              })
              t.id),
        none,
      )
      else (none, none)
  authenticate_tenant (fail e) = (none, some e)

  -- apiKeyAuthenticator.Authenticate
  unfoldable pub authenticate_api_key : Request → Authenticated
  unfolding authenticate_tenant
  authenticate_api_key r =
      if r.api_token == ""
      then (none, none)
      else (if r.api_token == admin_token
          then (
            some (simple_auth (record { name = "admin"; roles = "admin" ∷ []; scoped_roles = [] })),
            none,
          )
          else authenticate_tenant (tenant_of_key (hash r.api_token)))

  -- handleAuth with the providers of NewAuthInterceptor: what is added to the context.
  unfoldable pub handle_auth : Request → Option Authentication
  unfolding first_authentication authenticate_api_key authenticate_session authenticate_anonymous
  handle_auth =
      first_authentication
        (authenticate_api_key ∷ authenticate_session ∷ authenticate_anonymous ∷ [])

-- lo.Associate over the scoped roles: a role that comes again replaces its scopes.
unfoldable pub associate : List ScopedRole → GoMap String (List String) → GoMap String (List String)
associate [] m = m
associate (r ∷ rs) m = associate rs (insert r.role r.scopes m)

module _ (reachable : List String → String → Bool) (show : ℕ → String) where
  -- HasPermission
  unfoldable pub has_permission : Authentication → String → Bool
  unfolding allow identity
  has_permission a perm =
      allow reachable
        (record { roles = (identity a).roles; scoped = []; action = perm; object_owner = "" })

  -- HasObjectPermission
  unfoldable pub has_object_permission : Authentication → String → String → Bool
  unfolding allow identity associate
  has_object_permission a perm object_owner = allow reachable (record {
    roles = (identity a).roles;
    scoped = associate (identity a).scoped_roles [];
    action = perm;
    object_owner = object_owner;
  })

  -- HasTenantPermission
  unfoldable pub has_tenant_permission : Authentication → String → ℕ → Bool
  unfolding has_object_permission
  has_tenant_permission a perm tenant_id = has_object_permission a perm (show tenant_id)

  -- OpaPermissionEvaluator as the servers use it.
  unfoldable pub opa : PermissionEvaluator Authentication
  unfolding get_tenant_id has_permission has_object_permission has_tenant_permission name_of
  opa = record {
    tenant_of = get_tenant_id;
    has_permission = λ a p. has_permission a (name_of p);
    has_tenant_permission = λ a p t. has_tenant_permission a (name_of p) t;
    has_object_permission = λ a p o. has_object_permission a (name_of p) o;
  }
