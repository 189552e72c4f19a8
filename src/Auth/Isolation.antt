-- ===== src/Auth/Isolation.antt =====
-- What a tenant may do to the live events.
use iracelog_service_manager.Base.{
  ℕ, String, Bool, true, false, Option, some, List, [], ◌==◌, ◌≡◌, refl, ◌∙◌, ap, string_key, ok,
  lookup, Float32, key_refl,
}
use iracelog_service_manager.Base.Results.{Result, done, fail, permission_denied}
use iracelog_service_manager.Car.Types.{StateRequest, DriverDataRequest}
use iracelog_service_manager.Processing.Steps.{SpeedmapRequest}
use iracelog_service_manager.States.Types.{EventSelector}
use iracelog_service_manager.Live.Types.{
  EventProcessingData, EventLookup, TrackPitInfo, post_racedata,
}
use iracelog_service_manager.Live.Lookup.{get_event}
use iracelog_service_manager.Live.Provider.{validate_event_access, unregister_event}
use iracelog_service_manager.Live.Publishing.{
  StateRepositories, post_access, publish_state, publish_speedmap, publish_driver_data,
  publish_event_extra_info,
}
use iracelog_service_manager.Live.Access.{refused, no_permission-refused}
use iracelog_service_manager.Auth.Policy.{name_of}
use iracelog_service_manager.Auth.Callers.{Authentication, Tenant, Request, handle_auth, opa}
use iracelog_service_manager.Auth.Reach.{IsReachable}
use iracelog_service_manager.Auth.Rights.{IsShow, tenant_rights}
use iracelog_service_manager.Auth.Found.{tenant_caller, HasTenantKey, after_key, tenant_key}

module _ (show : ℕ → String) (admin_token : String) (hash : String → String)
    (tenant_of_key : String → Result Tenant) where
  module _ (reachable : List String → String → Bool) (law : IsReachable reachable)
      (writes : IsShow show) where
    -- A tenant may post race data for the events with its id as owner only.
    post_right :
        (t : Tenant) (owner : String)
        → (opa reachable show).has_object_permission (tenant_caller show t) post_racedata owner
          ≡ (show t.id == owner)
    unfolding opa name_of lookup
    post_right t owner =
        (tenant_rights reachable law show writes t.name t.id "post-racedata" owner).1

    -- A request with the key of an active tenant, not the admin's, about a live event that this tenant
    -- owns: handleAuth finds the tenant, and both servers give access to the event. The policy engine
    -- follows the role graph as documented, and tenant ids are written as different texts that are not
    -- empty.
    pub own_access :
        {T K : Type 0} (r : Request) (t : Tenant)
        → HasTenantKey show admin_token hash tenant_of_key r t
        → (selector : EventSelector) (l : EventLookup T K) (epd : EventProcessingData T K)
        → get_event selector l ≡ some epd
        → epd.owner ≡ show t.id
        → (a : Authentication) × (handle_auth show admin_token hash tenant_of_key r ≡ some a)
          × (post_access (opa reachable show) a selector l ≡ done epd)
          × (validate_event_access (opa reachable show) a selector l ≡ done epd)
    unfolding post_access validate_event_access
    own_access r t h selector l epd found own =
        let right : (opa reachable show).has_object_permission (tenant_caller show t) post_racedata
              epd.owner
            ≡ true =
          post_right t epd.owner ∙ ap (λ o. show t.id == o) own ∙ key_refl (show t.id) in
        (
          tenant_caller show t,
          after_key show admin_token hash tenant_of_key r (some (tenant_caller show t))
              (tenant_key show admin_token hash tenant_of_key r t h),
          rw (found, right, post_access) refl,
          rw (found, right, validate_event_access) refl,
        )

    -- A request with the key of an active tenant, not the admin's, about a live event that another tenant
    -- owns: handleAuth finds the tenant, and each of the publishing calls and UnregisterEvent answers that
    -- the permission is denied, changes nothing and sends nothing. The policy engine follows the role
    -- graph as documented, and tenant ids are written as different texts that are not empty.
    pub tenant_isolated :
        {T K X : Type 0} ⦃F : Float32 T⦄ (db : StateRepositories T) (r : Request) (t : Tenant)
        → HasTenantKey show admin_token hash tenant_of_key r t
        → (now : ℕ) (selector : EventSelector) (l : EventLookup T K) (state : StateRequest T)
        → (speedmap : SpeedmapRequest T) (drivers : DriverDataRequest T)
        → (pit_info : Option (TrackPitInfo T)) (extra : X) (epd : EventProcessingData T K)
        → get_event selector l ≡ some epd
        → (show t.id == epd.owner) ≡ false
        → (a : Authentication) × (handle_auth show admin_token hash tenant_of_key r ≡ some a)
          × (publish_state (opa reachable show) db now a selector state l
              ≡ ok (refused {X = X} l (fail permission_denied)))
          × (publish_speedmap (opa reachable show) db a selector speedmap l
              ≡ ok (refused {X = X} l (fail permission_denied)))
          × (publish_driver_data (opa reachable show) db a selector drivers l
              ≡ ok (refused {X = X} l (fail permission_denied)))
          × (publish_event_extra_info (opa reachable show) db a selector pit_info extra l
              ≡ refused l (fail permission_denied))
          × (unregister_event {X = X} (opa reachable show) a selector l
              ≡ record { lookup = l; writes = []; answer = fail permission_denied })
    tenant_isolated {X = X} db r t h now selector l state speedmap drivers pit_info extra epd found
          other =
        let (no_state, no_speedmap, no_drivers, no_extra, no_end) =
          no_permission-refused {X = X} (opa reachable show) db now (tenant_caller show t) selector
            l state speedmap drivers pit_info extra epd found (post_right t epd.owner ∙ other) in
        (
          tenant_caller show t,
          after_key show admin_token hash tenant_of_key r (some (tenant_caller show t))
              (tenant_key show admin_token hash tenant_of_key r t h),
          no_state,
          no_speedmap,
          no_drivers,
          no_extra,
          no_end,
        )
