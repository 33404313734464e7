-- ===== src/Router/Route.antt =====
-- The database router (`DatabaseRouter` of backend/database_router/router.py) on the resolver and the
-- connection managers of its two lanes. The sink, the secret store, the connection factory, the clocks
-- and the minted identity of an event are parameters. The trail holds each attempt at an audit event
-- and whether the sink took it.
pub mod Audited
pub mod Separated
pub mod Bound
use snack_portal.Common.{ℕ, Bool, true, false, Option, none, some, List, ◌∷◌, ◌++◌, if◌then◌else◌}
use snack_portal.Common.Text.{Text, text, text_eq, is_empty}
use snack_portal.Control.Records.{SecretRef}
use snack_portal.Router.Pool.{
  Connection, Manager, Acquired, got, failed, Opened, raises, Env, acquire, release, discard,
}
use snack_portal.Router.Resolver.{
  RoutingDenied, TenantRoutingView, Read, Resolved, resolved, refused, crashed, Views, resolve,
  unavailable, forbidden,
}

pub data RoutingTarget : Type 0 where
  tenant_target control_target : RoutingTarget

pub data Lane : Type 0 where
  interactive bulk : Lane

pub record RequestContext : Type 0 where
  pub correlation_id : Text
  pub request_id : Option Text
  pub active_tenant_id : Option Text
  pub principal_ref : Option Text
  pub role : Option Text

pub record RouteResult : Type 0 where
  pub target : RoutingTarget
  pub tenant_id : Option Text
  pub association_version : Option Text
  pub connection : Option Connection
  pub lane : Lane

pub record RoutingAuditEvent : Type 0 where
  pub actor_ref : Text
  pub action : Text
  pub correlation_id : Text
  pub outcome : Text
  pub target_ref : Option Text
  pub event_id : Text
  pub event_version : ℕ
  pub occurred_at : Text
  pub source_service : Text
  pub source_version : Text
  pub request_ref : Option Text
  pub resolved_tenant_ref : Option Text
  pub public_code : Option Text
  pub association_store_ref : Option Text
  pub association_version : Option Text
  pub lane : Option Text

-- What the router's collaborators do during one request.
pub record Services : Type 0 where
  pub now : ℕ
  pub read : Text → Read
  pub resolve_secret : SecretRef → Option Text
  pub open_connection : Text → Text → Text → Opened
  pub pool : Env
  pub takes : RoutingAuditEvent → Bool
  pub event_id : Text
  pub occurred_at : Text

pub record Settings : Type 0 where
  pub cache_max : ℕ
  pub cache_ttl : ℕ
  pub supported : List Text
  pub pool_max : ℕ
  pub idle_timeout : ℕ

pub record Router : Type 0 where
  pub views : Views
  pub pool : Manager
  pub bulk_pool : Option Manager
  pub trail : List (RoutingAuditEvent × Bool)

-- A call of `route` returns a result, raises a denial, or lets another exception escape.
pub data Outcome : Type 0 where
  routed : RouteResult → Outcome
  denied : RoutingDenied → Outcome
  raised : Outcome

pub data Determined : Type 0 where
  to_tenant : Text → Determined
  to_control : Determined
  no_target : RoutingDenied → Determined

unfoldable pub control_or_denied : Option Text → Determined
control_or_denied none = no_target (forbidden (text "no_active_tenant"))
control_or_denied (some role) =
    if text_eq role (text "CONTROL")
    then to_control
    else no_target (forbidden (text "no_active_tenant"))

unfoldable pub target_of : Option Text → Option Text → Bool → Determined
target_of none role bootstrap_phase0 = control_or_denied role
target_of (some tenant_id) role bootstrap_phase0 =
    if bootstrap_phase0
    then no_target (unavailable (text "tenant_routing_unavailable"))
    else to_tenant tenant_id

unfoldable pub determine_target : RequestContext → Bool → Determined
determine_target ctx bootstrap_phase0 = target_of ctx.active_tenant_id ctx.role bootstrap_phase0

unfoldable pub lane_value : Lane → Text
lane_value Lane.interactive = text "interactive"
lane_value Lane.bulk = text "bulk"

-- `ctx.principal_ref or "<unknown>"`
unfoldable pub actor_of : Option Text → Text
actor_of none = text "<unknown>"
actor_of (some p) = if is_empty p then text "<unknown>" else p

-- The router with one lane's manager replaced, and the manager of a lane.
unfoldable pub manager_for : Lane → Router → Manager
manager_for Lane.interactive router = router.pool
manager_for Lane.bulk router = elim router.bulk_pool [ none ↦ router.pool | some b ↦ b ]

unfoldable pub with_manager : Lane → Manager → Router → Router
with_manager Lane.interactive m router = record router { pool = m }
with_manager Lane.bulk m router = elim router.bulk_pool [
  | none ↦ record router { pool = m }
  | some _ ↦ record router { bulk_pool = some m }
]

module _ (services : Services) where
  unfoldable pub mint :
      RequestContext
      → Text
      → Text
      → Option Text
      → Option Text
      → Option Text
      → Option Text
      → Option Text
      → Option Text
      → RoutingAuditEvent
  mint ctx action outcome tenant_id resolved_tenant_ref public_code store_ref version lane =
      record {
        actor_ref = actor_of ctx.principal_ref;
        action = action;
        correlation_id = ctx.correlation_id;
        outcome = outcome;
        target_ref = tenant_id;
        event_id = services.event_id;
        event_version = 1;
        occurred_at = services.occurred_at;
        source_service = text "database_router";
        source_version = text "4";
        request_ref = ctx.request_id;
        resolved_tenant_ref = resolved_tenant_ref;
        public_code = public_code;
        association_store_ref = store_ref;
        association_version = version;
        lane = lane;
      }

  -- `self._audit.initiate(event)`: whether it goes through, and the attempt on the trail.
  unfoldable pub initiate : RoutingAuditEvent → Router → Bool × Router
  initiate event router =
      (services.takes event, record router { trail = (event, services.takes event) ∷ router.trail })

  unfoldable pub denied_event : RequestContext → Option Text → Text → RoutingAuditEvent
  denied_event ctx tenant_id code =
      mint ctx (text "RouteDenied") (text "denied:" ++ code) tenant_id none (some code) none none
        none

  -- The denial's event, and then the denial; or the exception of the sink.
  unfoldable pub deny : RequestContext → Option Text → RoutingDenied → Router → Outcome × Router
  deny ctx tenant_id denial router =
      let (taken, router') = initiate (denied_event ctx tenant_id denial.public_code) router in
      if taken then (denied denial, router') else (raised, router')

  unfoldable pub control_event : RequestContext → RoutingAuditEvent
  control_event ctx = mint ctx (text "RouteControl") (text "success") none none none none none none

  unfoldable pub route_control : RequestContext → Router → Outcome × Router
  route_control ctx router =
      let (taken, router') = initiate (control_event ctx) router in
      if taken
      then (
        routed record {
          target = RoutingTarget.control_target;
          tenant_id = none;
          association_version = none;
          connection = none;
          lane = Lane.interactive;
        },
        router',
      )
      else (denied (unavailable (text "routing_audit_unavailable")), router')

  -- `open_fn`
  unfoldable pub open_fn : Text → SecretRef → Opened
  open_fn tenant_id association_ref = elim (services.resolve_secret association_ref) [
    | none ↦ raises
    | some material ↦ services.open_connection tenant_id association_ref.version material
  ]

  unfoldable pub anomaly_event : RequestContext → Text → Text → RoutingAuditEvent
  anomaly_event ctx tenant_id resolved_tenant_ref =
      mint ctx (text "IsolationAnomaly") (text "anomaly:tenant_binding") (some tenant_id)
        (some resolved_tenant_ref) none none none none

  unfoldable pub route_event :
      RequestContext → Lane → Text → TenantRoutingView → Connection → RoutingAuditEvent
  route_event ctx lane tenant_id view conn =
      mint ctx (text "Route") (text "success") (some tenant_id) (some conn.tenant_id) none
        (some view.database_association_ref.store_ref) (some conn.association_version)
        (some (lane_value lane))

  unfoldable pub discard_in : Lane → Connection → Router → Router
  discard_in lane conn router = with_manager lane (discard conn (manager_for lane router)) router

  -- The end of `route` on a connection of another tenant: no discard if the sink raises.
  unfoldable pub isolation_fault :
      RequestContext → Lane → Text → Connection → Router → Outcome × Router
  isolation_fault ctx lane tenant_id conn router =
      let (taken, router') = initiate (anomaly_event ctx tenant_id conn.tenant_id) router in
      if taken
      then (denied (unavailable (text "routing_isolation_fault")), discard_in lane conn router')
      else (raised, router')

  unfoldable pub hand_back :
      RequestContext → Lane → Text → TenantRoutingView → Connection → Router → Outcome × Router
  hand_back ctx lane tenant_id view conn router =
      let (taken, router') = initiate (route_event ctx lane tenant_id view conn) router in
      if taken
      then (
        routed record {
          target = RoutingTarget.tenant_target;
          tenant_id = some tenant_id;
          association_version = some conn.association_version;
          connection = some conn;
          lane = lane;
        },
        router',
      )
      else (denied (unavailable (text "routing_audit_unavailable")), discard_in lane conn router')

  unfoldable pub bind_connection :
      RequestContext → Lane → Text → TenantRoutingView → Router → Acquired → Outcome × Router
  bind_connection ctx lane tenant_id view router (failed why) =
      deny ctx (some tenant_id) (unavailable (text "connection_unavailable")) router
  bind_connection ctx lane tenant_id view router (got conn) =
      if text_eq conn.tenant_id tenant_id
      then hand_back ctx lane tenant_id view conn router
      else isolation_fault ctx lane tenant_id conn router

  module _ (settings : Settings) where
    unfoldable pub acquire_in : Lane → TenantRoutingView → Router → Acquired × Router
    acquire_in lane view router =
        let (acquired, m) =
          acquire settings.pool_max settings.idle_timeout services.pool view.tenant_id
            view.database_association_ref.version
            (open_fn view.tenant_id view.database_association_ref) (manager_for lane router) in
        (acquired, with_manager lane m router)

    unfoldable pub route_view : RequestContext → Lane → Text → Router → Resolved → Outcome × Router
    route_view ctx lane tenant_id router crashed = (raised, router)
    route_view ctx lane tenant_id router (refused denial) = deny ctx (some tenant_id) denial router
    route_view ctx lane tenant_id router (resolved view) =
        let (acquired, router') = acquire_in lane view router in
        bind_connection ctx lane tenant_id view router' acquired

    unfoldable pub route_tenant : RequestContext → Lane → Text → Router → Outcome × Router
    route_tenant ctx lane tenant_id router =
        let (answer, views) =
          resolve settings.cache_max settings.cache_ttl settings.supported services.now
            services.read tenant_id router.views in
        route_view ctx lane tenant_id (record router { views = views }) answer

    unfoldable pub route_to : RequestContext → Lane → Router → Determined → Outcome × Router
    route_to ctx lane router (no_target denial) = deny ctx ctx.active_tenant_id denial router
    route_to ctx lane router to_control = route_control ctx router
    route_to ctx lane router (to_tenant tenant_id) = route_tenant ctx lane tenant_id router

    unfoldable pub route : RequestContext → Bool → Lane → Router → Outcome × Router
    route ctx bootstrap_phase0 lane router =
        route_to ctx lane router (determine_target ctx bootstrap_phase0)

    unfoldable pub release_result : RouteResult → Router → Router
    release_result result router = elim result.connection [
      | none ↦ router
      | some conn ↦
          with_manager result.lane
            (release settings.pool_max settings.idle_timeout services.pool conn
              (manager_for result.lane router))
            router
    ]
