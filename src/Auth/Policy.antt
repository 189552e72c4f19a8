-- ===== src/Auth/Policy.antt =====
-- policy.rego and data.json of grpc/permission, and the evaluator in opa.go that asks for `allow`. A rego
-- set is a test; `graph.reachable` is a function of the policy engine. Actions hold no underscore, so
-- the texts "action_owner" that the policy compares agree if and only if the pairs do.
use iracelog_service_manager.Base.{
  String, Bool, false, ◌&&◌, ◌||◌, Option, none, some, List, [], ◌∷◌, GoMap, lookup, ◌==◌,
  string_key, if◌then◌else◌,
}
use iracelog_service_manager.Live.Types.{
  Permission, register_event_permission, post_racedata, admin_unregister_all_events, update_event,
}

-- `x in xs`, for a text and an array.
abbrev pub is_in : String → List String → Bool
is_in x [] = false
is_in x (y ∷ ys) = y == x || is_in x ys

-- Some item of an array passes the test.
abbrev pub some_in : {A : Type 0} → (A → Bool) → List A → Bool
some_in test [] = false
some_in test (x ∷ xs) = test x || some_in test xs

-- data.roles_graph
abbrev pub roles_graph : GoMap String (List String)
roles_graph =
    ("admin", "racedata-provider" ∷ "track-manager" ∷ "tenant-manager" ∷ [])
    ∷ ("editor", [])
    ∷ ("racedata-provider", [])
    ∷ ("tenant-manager", [])
    ∷ ("track-manager", [])
    ∷ []

-- data.permissions
abbrev pub permissions : GoMap String (List String)
permissions =
    ("admin", "unregister-all-events" ∷ [])
    ∷ ("editor", "update-event" ∷ "delete-event" ∷ [])
    ∷ (
      "racedata-provider",
      "register-event" ∷ "update-event" ∷ "delete-event" ∷ "unregister-event" ∷ "post-racedata"
          ∷ [],
    )
    ∷ ("tenant-manager", "create-tenant" ∷ "update-tenant" ∷ "delete-tenant" ∷ "read-tenant" ∷ [])
    ∷ ("track-manager", "create-track" ∷ "update-track" ∷ "delete-track" ∷ [])
    ∷ []

-- The roles that are keys of data.permissions.
abbrev pub known_roles : List String
known_roles = "admin" ∷ "editor" ∷ "racedata-provider" ∷ "tenant-manager" ∷ "track-manager" ∷ []

-- EvalRequest
pub record EvalRequest : Type 0 where
  pub roles : List String
  pub scoped : GoMap String (List String)
  pub action : String
  pub object_owner : String

-- The keys of an object.
abbrev pub keys : {V : Type 0} → GoMap String V → List String
keys [] = []
keys ((k, _) ∷ m) = k ∷ keys m

-- An undefined array has no items.
abbrev pub items_of : Option (List String) → List String
items_of none = []
items_of (some xs) = xs

-- `graph.reachable(data.roles_graph, from)` holds the role.
module _ (reachable : List String → String → Bool) where
  -- has_admin_role
  unfoldable pub has_admin_role : EvalRequest → Bool
  has_admin_role input = reachable input.roles "admin"

  -- `input.action in user_permissions`
  unfoldable pub has_user_permission : EvalRequest → Bool
  has_user_permission input =
      some_in
        (λ role.
          reachable input.roles role && is_in input.action (items_of (lookup role permissions)))
        known_roles

  -- has_scoped_permission; it is undefined without an owner.
  unfoldable pub has_scoped_permission : EvalRequest → Bool
  has_scoped_permission input =
      some_in
        (λ role.
          reachable (keys input.scoped) role
          && (is_in input.action (items_of (lookup role permissions))
              && is_in input.object_owner (items_of (lookup role input.scoped))))
        known_roles

  -- allow; an empty owner is left out of the request.
  unfoldable pub allow : EvalRequest → Bool
  unfolding has_admin_role has_user_permission has_scoped_permission
  allow input =
      has_admin_role input
      || (if input.object_owner == ""
          then has_user_permission input
          else has_scoped_permission input)

-- The names of the permissions that the servers ask for.
unfoldable pub name_of : Permission → String
name_of register_event_permission = "register-event"
name_of post_racedata = "post-racedata"
name_of admin_unregister_all_events = "unregister-all-events"
name_of update_event = "update-event"
