-- ===== src/Router/Route/Bound.antt =====
-- Whom a connection of `route` in backend/database_router/router.py belongs to.
use snack_portal.Common.{
  ◌≡◌, inl, inr, refl, sym, ap, ◌∙◌, Bool, true, false, Option, none, some, [], Bool-cases,
  if◌then◌else◌, arith,
}
use snack_portal.Common.Text.{Text, text, text_eq, text_eq_sound}
use snack_portal.Router.Pool.{Connection, Manager, Acquired, got, failed, acquire, release}
use snack_portal.Router.Pool.Binding.{IsIsolated}
use snack_portal.Router.Pool.Isolation.{acquire-Grants, returned-IsIsolated, Grants}
use snack_portal.Router.Resolver.{
  RoutingDenied, TenantRoutingView, Resolved, resolved, refused, crashed, unavailable,
}
use snack_portal.Router.Route.{
  RequestContext, RoutingAuditEvent, Services, Settings, Router, RouteResult, Lane, Outcome,
  Determined, to_tenant, to_control, no_target, determine_target, target_of, control_or_denied,
  initiate, denied_event, deny, route_control, control_event, route_event, anomaly_event,
  discard_in, isolation_fault, hand_back, bind_connection, acquire_in, route_view, route_tenant,
  open_fn, route_to, route, release_result, with_manager, manager_for,
}
use snack_portal.Router.Route.Separated.{
  IsSeparated, Hands, manager_for-IsIsolated, with_manager-IsSeparated,
}

determined :
    (ctx : RequestContext) (bootstrap : Bool)
    → determine_target ctx bootstrap ≡ target_of ctx.active_tenant_id ctx.role bootstrap
unfolding determine_target
determined ctx bootstrap = refl

to_control-control :
    (tenant role : Option Text) (bootstrap : Bool)
    → target_of tenant role bootstrap ≡ to_control
    → (tenant ≡ none) × (role ≡ some (text "CONTROL"))
unfolding target_of control_or_denied
to_control-control (some t) role bootstrap h = absurd (ground arith)
to_control-control none none bootstrap h = absurd (cc)
to_control-control none (some r) bootstrap h =
    (refl, ap some (text_eq_sound r (text "CONTROL") (ground arith)))

to_tenant-active :
    (tenant role : Option Text) (bootstrap : Bool) (t : Text)
    → target_of tenant role bootstrap ≡ to_tenant t
    → tenant ≡ some t
unfolding target_of control_or_denied
to_tenant-active (some t) role bootstrap u h = ground arith
to_tenant-active none none bootstrap u h = absurd (cc)
to_tenant-active none (some r) bootstrap u h = absurd (ground arith)

-- The promise of a step: the lanes stay separated and the outcome hands on what it may.
abbrev pub IsSound : RequestContext → Outcome × Router → Type 0
IsSound ctx result = IsSeparated result.1 × Hands ctx result.0

module _ (services : Services) where
  branch-IsSound :
      (ctx : RequestContext) (b : Bool) (good bad : Outcome × Router)
      → IsSound ctx good
      → IsSound ctx bad
      → IsSound ctx (if b then good else bad)
  branch-IsSound ctx true good bad g b = g
  branch-IsSound ctx false good bad g b = b

  noted :
      (e : RoutingAuditEvent) (router : Router)
      → IsSeparated router
      → IsSeparated (initiate services e router).1
  unfolding initiate
  noted e router s = record { interactive_lane = s.interactive_lane; bulk_lane = s.bulk_lane }

  deny-IsSound :
      (ctx : RequestContext) (tenant_id : Option Text) (d : RoutingDenied) (router : Router)
      → IsSeparated router
      → IsSound ctx (deny services ctx tenant_id d router)
  unfolding deny
  deny-IsSound ctx tenant_id d router s =
      let s' = noted (denied_event services ctx tenant_id d.public_code) router s in
      branch-IsSound ctx _ _ _ (s', tt) (s', tt)

  discard_in-IsSeparated :
      (lane : Lane) (c : Connection) (router : Router)
      → IsSeparated router
      → IsSeparated (discard_in services lane c router)
  unfolding discard_in
  discard_in-IsSeparated lane c router s =
      with_manager-IsSeparated lane _ router
        (returned-IsIsolated 0 0 services.pool c [] [] (manager_for lane router)
          (manager_for-IsIsolated lane router s)).1
        s

  route_control-IsSound :
      (ctx : RequestContext) (router : Router)
      → ctx.active_tenant_id ≡ none
      → ctx.role ≡ some (text "CONTROL")
      → IsSeparated router
      → IsSound ctx (route_control services ctx router)
  unfolding route_control
  route_control-IsSound ctx router a r s =
      let s' = noted (control_event services ctx) router s in
      branch-IsSound ctx _ _ _ (s', inl (refl, a, r, refl)) (s', tt)

  isolation_fault-IsSound :
      (ctx : RequestContext) (lane : Lane) (t : Text) (c : Connection) (router : Router)
      → IsSeparated router
      → IsSound ctx (isolation_fault services ctx lane t c router)
  unfolding isolation_fault
  isolation_fault-IsSound ctx lane t c router s =
      let s' = noted (anomaly_event services ctx t c.tenant_id) router s in
      branch-IsSound ctx _ _ _ (discard_in-IsSeparated lane c _ s', tt) (s', tt)

  hand_back-IsSound :
      (ctx : RequestContext) (lane : Lane) (t : Text) (view : TenantRoutingView) (c : Connection)
      (router : Router)
      → ctx.active_tenant_id ≡ some t
      → c.tenant_id ≡ t
      → IsSeparated router
      → IsSound ctx (hand_back services ctx lane t view c router)
  unfolding hand_back
  hand_back-IsSound ctx lane t view c router a same s =
      let s' = noted (route_event services ctx lane t view c) router s in
      branch-IsSound ctx _ _ _ (s', inr (refl, (c, refl, a ∙ ap some (sym same), refl)))
        (discard_in-IsSeparated lane c _ s', tt)

  bind_connection-IsSound :
      (ctx : RequestContext) (lane : Lane) (t : Text) (view : TenantRoutingView) (router : Router)
      (acquired : Acquired)
      → ctx.active_tenant_id ≡ some t
      → IsSeparated router
      → IsSound ctx (bind_connection services ctx lane t view router acquired)
  unfolding bind_connection
  bind_connection-IsSound ctx lane t view router (failed why) a s =
      deny-IsSound ctx (some t) (unavailable (text "connection_unavailable")) router s
  bind_connection-IsSound ctx lane t view router (got c) a s =
      elim (Bool-cases (text_eq c.tenant_id t)) [
        | inl e ↦
            rw e (hand_back-IsSound ctx lane t view c router a (text_eq_sound c.tenant_id t e) s)
        | inr e ↦ rw e (isolation_fault-IsSound ctx lane t c router s)
      ]

  granted-IsIsolated : (t v : Text) (r : Acquired × Manager) → Grants t v r → IsIsolated r.1
  granted-IsIsolated t v (got c, m) g = g.1
  granted-IsIsolated t v (failed why, m) g = g

  module _ (settings : Settings) where
    acquire_in-IsSeparated :
        (lane : Lane) (view : TenantRoutingView) (router : Router)
        → IsSeparated router
        → IsSeparated (acquire_in services settings lane view router).1
    unfolding acquire_in
    acquire_in-IsSeparated lane view router s =
        let m = manager_for lane router in
        let t = view.tenant_id in
        let v = view.database_association_ref.version in
        let opened = open_fn services t view.database_association_ref in
        let result = acquire settings.pool_max settings.idle_timeout services.pool t v opened m in
        with_manager-IsSeparated lane result.1 router
          (granted-IsIsolated t v result (
            acquire-Grants settings.pool_max settings.idle_timeout services.pool t v opened m
              (manager_for-IsIsolated lane router s)))
          s

    route_view-IsSound :
        (ctx : RequestContext) (lane : Lane) (t : Text) (router : Router) (answer : Resolved)
        → ctx.active_tenant_id ≡ some t
        → IsSeparated router
        → IsSound ctx (route_view services settings ctx lane t router answer)
    unfolding route_view
    route_view-IsSound ctx lane t router crashed a s = (s, tt)
    route_view-IsSound ctx lane t router (refused d) a s = deny-IsSound ctx (some t) d router s
    route_view-IsSound ctx lane t router (resolved view) a s =
        bind_connection-IsSound ctx lane t view _ _ a (acquire_in-IsSeparated lane view router s)

    route_to-IsSound :
        (ctx : RequestContext) (bootstrap : Bool) (lane : Lane) (router : Router) (to : Determined)
        → determine_target ctx bootstrap ≡ to
        → IsSeparated router
        → IsSound ctx (route_to services settings ctx lane router to)
    unfolding route_to route_tenant
    route_to-IsSound ctx bootstrap lane router (no_target d) e s =
        deny-IsSound ctx ctx.active_tenant_id d router s
    route_to-IsSound ctx bootstrap lane router to_control e s =
        let (a, r) =
          to_control-control ctx.active_tenant_id ctx.role bootstrap
            (sym (determined ctx bootstrap) ∙ e) in
        route_control-IsSound ctx router a r s
    route_to-IsSound ctx bootstrap lane router (to_tenant t) e s =
        route_view-IsSound ctx lane t (record router { views = _ }) _
          (to_tenant-active ctx.active_tenant_id ctx.role bootstrap t
            (sym (determined ctx bootstrap) ∙ e))
          (record { interactive_lane = s.interactive_lane; bulk_lane = s.bulk_lane })

    -- A request on lanes that keep every connection with its tenant leaves them so, whatever the read
    -- port, the secret store, the factory and the sink answer; and a result that it returns is either
    -- for the control plane, without a connection, for a caller of the control role without an active
    -- tenant, or has a connection of the signed active tenant, in the association version that it says.
    pub route-IsSound :
        (ctx : RequestContext) (bootstrap_phase0 : Bool) (lane : Lane) (router : Router)
        → IsSeparated router
        → IsSound ctx (route services settings ctx bootstrap_phase0 lane router)
    unfolding route
    route-IsSound ctx bootstrap_phase0 lane router s =
        route_to-IsSound ctx bootstrap_phase0 lane router (determine_target ctx bootstrap_phase0)
          refl s

    -- The release of a result keeps every connection with its tenant.
    pub release_result-IsSeparated :
        (result : RouteResult) (router : Router)
        → IsSeparated router
        → IsSeparated (release_result services settings result router)
    unfolding release_result
    release_result-IsSeparated result router s = go result.connection
      where
        go :
            (conn : Option Connection)
            → IsSeparated (elim conn [
              | none ↦ router
              | some c ↦
                  with_manager result.lane
                    (release settings.pool_max settings.idle_timeout services.pool c
                      (manager_for result.lane router))
                    router
            ])
        go none = s
        go (some c) =
            with_manager-IsSeparated result.lane _ router
              (returned-IsIsolated settings.pool_max settings.idle_timeout services.pool c [] []
                (manager_for result.lane router) (manager_for-IsIsolated result.lane router s)).0
              s
