-- ===== src/Router/Route/Audited.antt =====
-- The audit of `route` in backend/database_router/router.py.
use snack_portal.Common.{
  ◌≡◌, ◌≢◌, ◌⊎◌, inl, inr, refl, sym, ap, ◌∙◌, subst, Bool, true, false, Option, some, List, ◌∷◌,
  ◌++◌, length, Bool-cases, if◌then◌else◌, ◌≤◌, ◌<◌, arith,
}
use snack_portal.Common.Text.{Text, text, text_eq, text_eq_sound, text_eq_ne}
use snack_portal.Router.Pool.{Connection, Manager, Acquired, got, failed}
use snack_portal.Router.Resolver.{
  RoutingDenied, TenantRoutingView, Resolved, resolved, refused, crashed, unavailable,
}
use snack_portal.Router.Resolver.Routable.{resolve-IsRoutable}
use snack_portal.Router.Route.{
  RequestContext, RoutingAuditEvent, Services, Settings, Router, Lane, Outcome, routed, denied,
  raised, Determined, to_tenant, to_control, no_target, determine_target, mint, initiate,
  denied_event, deny, control_event, route_control, anomaly_event, route_event, discard_in,
  isolation_fault, hand_back, bind_connection, acquire_in, route_view, route_tenant, route_to,
  route, with_manager,
}

with_manager-trail :
    (lane : Lane) (m : Manager) (router : Router)
    → (with_manager lane m router).trail ≡ router.trail
unfolding with_manager
with_manager-trail Lane.interactive m router = refl
with_manager-trail Lane.bulk m router = ground arith

denied-ne-success : (code : Text) → text "denied:" ++ code ≢ text "success"
unfolding text_eq
denied-ne-success code = text_eq_ne (text "denied:" ++ code) (text "success") refl

anomaly-ne-success : text "anomaly:tenant_binding" ≢ text "success"
unfolding text_eq
anomaly-ne-success = text_eq_ne (text "anomaly:tenant_binding") (text "success") refl

module _ (services : Services) where
  -- The one event of a request and the outcome that it goes with.
  abbrev pub Accounts : RoutingAuditEvent → Outcome → Type 0
  Accounts e (routed r) =
      (services.takes e ≡ true)
      × (e.outcome ≡ text "success")
      × (e.resolved_tenant_ref ≡ r.tenant_id)
      × (e.association_version ≡ r.association_version)
  Accounts e (denied d) =
      ((services.takes e ≡ true) × (e.outcome ≢ text "success"))
      ⊎ ((services.takes e ≡ false) × (d ≡ unavailable (text "routing_audit_unavailable")))
  Accounts e raised = (services.takes e ≡ false) × (e.outcome ≢ text "success")

  abbrev pub IsRecorded : List (RoutingAuditEvent × Bool) → Outcome × Router → Type 0
  IsRecorded trail result =
      (e : RoutingAuditEvent) × (result.1.trail ≡ (e, services.takes e) ∷ trail)
      × Accounts e result.0

  -- One attempt, and a branch on whether the sink took it.
  branch-IsRecorded :
      (e : RoutingAuditEvent) (trail : List (RoutingAuditEvent × Bool))
      (good bad : Outcome × Router)
      → good.1.trail ≡ (e, services.takes e) ∷ trail
      → bad.1.trail ≡ (e, services.takes e) ∷ trail
      → (services.takes e ≡ true → Accounts e good.0)
      → (services.takes e ≡ false → Accounts e bad.0)
      → IsRecorded trail (if services.takes e then good else bad)
  branch-IsRecorded e trail good bad tg tb ag ab = elim (Bool-cases (services.takes e)) [
    | inl y ↦ (
      e,
      ap (λ b. (if b then good else bad).1.trail) y ∙ tg,
      subst (λ b. Accounts e (if b then good else bad).0) (sym y) (ag y),
    )
    | inr n ↦ (
      e,
      ap (λ b. (if b then good else bad).1.trail) n ∙ tb,
      subst (λ b. Accounts e (if b then good else bad).0) (sym n) (ab n),
    )
  ]

  deny-IsRecorded :
      (ctx : RequestContext) (tenant_id : Option Text) (d : RoutingDenied) (router : Router)
      → IsRecorded router.trail (deny services ctx tenant_id d router)
  unfolding deny initiate denied_event mint
  deny-IsRecorded ctx tenant_id d router =
      branch-IsRecorded (denied_event services ctx tenant_id d.public_code) router.trail _ _ refl
        refl (λ y. inl (y, denied-ne-success d.public_code))
        (λ n. (n, denied-ne-success d.public_code))

  route_control-IsRecorded :
      (ctx : RequestContext) (router : Router)
      → IsRecorded router.trail (route_control services ctx router)
  unfolding route_control initiate control_event mint
  route_control-IsRecorded ctx router =
      branch-IsRecorded (control_event services ctx) router.trail _ _ refl refl
        (λ y. (y, refl, refl, refl)) (λ n. inr (n, refl))

  isolation_fault-IsRecorded :
      (ctx : RequestContext) (lane : Lane) (t : Text) (c : Connection) (router : Router)
      → IsRecorded router.trail (isolation_fault services ctx lane t c router)
  unfolding isolation_fault initiate anomaly_event mint discard_in
  isolation_fault-IsRecorded ctx lane t c router =
      branch-IsRecorded (anomaly_event services ctx t c.tenant_id) router.trail _ _
        (with_manager-trail lane _ _) refl (λ y. inl (y, anomaly-ne-success))
        (λ n. (n, anomaly-ne-success))

  hand_back-IsRecorded :
      (ctx : RequestContext) (lane : Lane) (t : Text) (view : TenantRoutingView) (c : Connection)
      (router : Router)
      → c.tenant_id ≡ t
      → IsRecorded router.trail (hand_back services ctx lane t view c router)
  unfolding hand_back initiate route_event mint discard_in
  hand_back-IsRecorded ctx lane t view c router same =
      branch-IsRecorded (route_event services ctx lane t view c) router.trail _ _ refl
        (with_manager-trail lane _ _) (λ y. (y, refl, ap some same, refl)) (λ n. inr (n, refl))

  bind_connection-IsRecorded :
      (ctx : RequestContext) (lane : Lane) (t : Text) (view : TenantRoutingView) (router : Router)
      (acquired : Acquired)
      → IsRecorded router.trail (bind_connection services ctx lane t view router acquired)
  unfolding bind_connection
  bind_connection-IsRecorded ctx lane t view router (failed why) =
      deny-IsRecorded ctx (some t) (unavailable (text "connection_unavailable")) router
  bind_connection-IsRecorded ctx lane t view router (got c) =
      elim (Bool-cases (text_eq c.tenant_id t)) [
        | inl e ↦
            rw e (hand_back-IsRecorded ctx lane t view c router (text_eq_sound c.tenant_id t e))
        | inr e ↦ rw e (isolation_fault-IsRecorded ctx lane t c router)
      ]

  module _ (settings : Settings) where
    route_view-IsRecorded :
        (ctx : RequestContext) (lane : Lane) (t : Text) (router : Router) (answer : Resolved)
        → answer ≢ crashed
        → IsRecorded router.trail (route_view services settings ctx lane t router answer)
    unfolding route_view acquire_in
    route_view-IsRecorded ctx lane t router crashed h = absurd (h refl)
    route_view-IsRecorded ctx lane t router (refused d) h = deny-IsRecorded ctx (some t) d router
    route_view-IsRecorded ctx lane t router (resolved view) h =
        let (acquired, router') = acquire_in services settings lane view router in
        subst
          (λ trail. IsRecorded trail (bind_connection services ctx lane t view router' acquired))
          (with_manager-trail lane _ router)
          (bind_connection-IsRecorded ctx lane t view router' acquired)

    route_to-IsRecorded :
        (ctx : RequestContext) (lane : Lane) (router : Router) (to : Determined)
        → 0 < settings.cache_max
        → length router.views ≤ settings.cache_max
        → IsRecorded router.trail (route_to services settings ctx lane router to)
    unfolding route_to route_tenant
    route_to-IsRecorded ctx lane router (no_target d) positive bound =
        deny-IsRecorded ctx ctx.active_tenant_id d router
    route_to-IsRecorded ctx lane router to_control positive bound =
        route_control-IsRecorded ctx router
    route_to-IsRecorded ctx lane router (to_tenant t) positive bound =
        let (_, ends, _) =
          resolve-IsRoutable settings.cache_max settings.cache_ttl settings.supported services.now
            services.read t router.views positive bound in
        route_view-IsRecorded ctx lane t (record router { views = _ }) _ ends

    -- With a positive bound on the cache that is kept so far, a request attempts exactly one audit
    -- event. A result is handed out only if the sink took the event, which is one of success and names
    -- the tenant and the version of the result. A denial comes with an event that the sink took and
    -- that is none of success, or it is the denial for an audit that failed. Another exception escapes
    -- only where the sink refused such an event.
    pub route-IsRecorded :
        (ctx : RequestContext) (bootstrap_phase0 : Bool) (lane : Lane) (router : Router)
        → 0 < settings.cache_max
        → length router.views ≤ settings.cache_max
        → IsRecorded router.trail (route services settings ctx bootstrap_phase0 lane router)
    unfolding route
    route-IsRecorded ctx bootstrap_phase0 lane router positive bound =
        route_to-IsRecorded ctx lane router (determine_target ctx bootstrap_phase0) positive bound
