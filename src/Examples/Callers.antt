-- ===== src/Examples/Callers.antt =====
-- Tests of the authentication and the rights.
use iracelog_service_manager.Base.{
  String, true, false, ◌&&◌, none, some, [], ◌∷◌, ◌==◌, ◌≡◌, refl, string_key, if◌then◌else◌, ok, ℕ,
}
use iracelog_service_manager.Auth.Policy.{is_in}
use iracelog_service_manager.Base.Results.{Result, done, fail, no_rows, permission_denied}
use iracelog_service_manager.Auth.Callers.{
  Authentication, simple_auth, Tenant, Request, handle_auth, opa, has_permission,
  has_object_permission,
}
use iracelog_service_manager.Auth.Rights.{provider_actions, tenant_rights, admin_anonymous_rights}
use iracelog_service_manager.Auth.Found.{HasTenantKey, tenant_caller, handle_auth-caller}
use iracelog_service_manager.Auth.Isolation.{own_access, tenant_isolated}
use iracelog_service_manager.States.Types.{by_id}
use iracelog_service_manager.Live.Types.{EventLookup}
use iracelog_service_manager.Live.Lookup.{get_event, new_event}
use iracelog_service_manager.Live.Provider.{validate_event_access, unregister_event}
use iracelog_service_manager.Live.Publishing.{
  post_access, publish_state, publish_speedmap, publish_driver_data, publish_event_extra_info,
}
use iracelog_service_manager.Live.Access.{refused}
use iracelog_service_manager.Examples.Data.{millis}
use iracelog_service_manager.Examples.Hosted.{
  hosted, live, live_found, state_db, empty_state, empty_speedmap, no_drivers,
}
use iracelog_service_manager.Examples.Tally.{tally, tally-IsShow}
use iracelog_service_manager.Examples.Near.{near, near-IsReachable}

abbrev acme : Tenant
acme = record { id = 3; name = "acme"; is_active = true }

-- One key belongs to a tenant.
abbrev tenant_of_key : String → Result Tenant
tenant_of_key k = if k == "acme-key" then done acme else fail no_rows

abbrev with_key : Request
with_key = record { api_token = "acme-key"; session = none }

acme_key : HasTenantKey tally "admin-key" (λ k. k) tenant_of_key with_key acme
acme_key = record { some_key = refl; not_admin = refl; found = refl; active = refl }

tenant_rights_example :
    (let a = tenant_caller tally acme in
      (has_permission near tally a "post-racedata" ≡ false)
      × (has_object_permission near tally a "post-racedata" "1111"
          ≡ (is_in "post-racedata" provider_actions && tally 3 == "1111")))
tenant_rights_example =
    tenant_rights near near-IsReachable tally tally-IsShow "acme" 3 "post-racedata" "1111"

admin_anonymous_rights_example :
    (let admin = simple_auth (record { name = "admin"; roles = "admin" ∷ []; scoped_roles = [] }) in
      let anonymous = simple_auth (record { name = "admin"; roles = []; scoped_roles = [] }) in
      (has_permission near tally admin "create-track" ≡ true)
      × (has_object_permission near tally admin "create-track" "7" ≡ true)
      × (has_permission near tally anonymous "create-track" ≡ false)
      × (has_object_permission near tally anonymous "create-track" "7" ≡ false))
admin_anonymous_rights_example =
    admin_anonymous_rights near near-IsReachable tally "admin" "create-track" "7"

handle_auth-caller_example :
    handle_auth tally "admin-key" (λ k. k) tenant_of_key with_key ≡ some (tenant_caller tally acme)
handle_auth-caller_example = handle_auth-caller tally "admin-key" (λ k. k) tenant_of_key with_key

abbrev own_live : EventLookup ℕ ℕ
own_live = ("evening", record hosted { owner = "1111" }) ∷ []

own_live_found : get_event (by_id 7) own_live ≡ some (record hosted { owner = "1111" })
unfolding get_event new_event
own_live_found = refl

own_access_example :
    (a : Authentication) × (handle_auth tally "admin-key" (λ k. k) tenant_of_key with_key ≡ some a)
    × (post_access (opa near tally) a (by_id 7) own_live ≡ done (record hosted { owner = "1111" }))
    × (validate_event_access (opa near tally) a (by_id 7) own_live
        ≡ done (record hosted { owner = "1111" }))
own_access_example =
    own_access tally "admin-key" (λ k. k) tenant_of_key near near-IsReachable tally-IsShow with_key
      acme acme_key (by_id 7) own_live (record hosted { owner = "1111" }) own_live_found refl

tenant_isolated_example :
    (a : Authentication) × (handle_auth tally "admin-key" (λ k. k) tenant_of_key with_key ≡ some a)
    × (publish_state (opa near tally) state_db 200 a (by_id 7) empty_state live
        ≡ ok (refused {X = ℕ} live (fail permission_denied)))
    × (publish_speedmap (opa near tally) state_db a (by_id 7) empty_speedmap live
        ≡ ok (refused {X = ℕ} live (fail permission_denied)))
    × (publish_driver_data (opa near tally) state_db a (by_id 7) no_drivers live
        ≡ ok (refused {X = ℕ} live (fail permission_denied)))
    × (publish_event_extra_info {X = ℕ} (opa near tally) state_db a (by_id 7) none 77 live
        ≡ refused live (fail permission_denied))
    × (unregister_event {X = ℕ} (opa near tally) a (by_id 7) live
        ≡ record { lookup = live; writes = []; answer = fail permission_denied })
unfolding new_event
tenant_isolated_example =
    tenant_isolated tally "admin-key" (λ k. k) tenant_of_key near near-IsReachable tally-IsShow
      state_db with_key acme acme_key 200 (by_id 7) live empty_state empty_speedmap no_drivers none
      77 hosted live_found refl
