-- ===== src/Router/RouteTests.antt =====
-- Concrete requests to the router, and each theorem at one.
use snack_portal.Common.{◌≤◌, ◌≡◌, ◌≢◌, ◌↔◌, true, false, none, some, [], ◌∷◌, length, arith}
use snack_portal.Common.Text.{Text, text}
use snack_portal.Router.Pool.{mints}
use snack_portal.Router.Resolver.{TenantRoutingView, Read, read_answers, resolved, crashed, resolve}
use snack_portal.Router.Resolver.Routable.{IsSeen, IsRoutable, resolve-IsRoutable}
use snack_portal.Router.Route.{
  Lane, RequestContext, Router, Services, Settings, RouteResult, RoutingTarget, route,
}
use snack_portal.Router.Route.Audited.{IsRecorded, route-IsRecorded}
use snack_portal.Router.Route.Bound.{IsSound, route-IsSound}
use snack_portal.Router.Route.Separated.{IsSeparated}

abbrev acme_view : TenantRoutingView
acme_view = record {
  tenant_id = text "acme";
  lifecycle_state = text "Ready";
  ready = true;
  database_association_ref = record { store_ref = text "db/acme"; version = text "1" };
  expected_schema_version = text "7";
}

abbrev reads_acme : Text → Read
reads_acme tenant_id = read_answers (some acme_view)

abbrev services : Services
services = record {
  now = 10;
  read = reads_acme;
  resolve_secret = λ r. some (text "material");
  open_connection =
      λ t v material. mints (record { object = 1; tenant_id = t; association_version = v });
  pool = record { now = 10; is_alive = λ c. true; resets = λ c. true };
  takes = λ e. true;
  event_id = text "e1";
  occurred_at = text "now";
}

abbrev settings : Settings
settings = record {
  cache_max = 10;
  cache_ttl = 5;
  supported = text "7" ∷ [];
  pool_max = 5;
  idle_timeout = 60;
}

abbrev idle_router : Router
idle_router = record {
  views = [];
  pool = record { pools = []; closed = [] };
  bulk_pool = some (record { pools = []; closed = [] });
  trail = [];
}

abbrev ctx : RequestContext
ctx = record {
  correlation_id = text "c1";
  request_id = none;
  active_tenant_id = some (text "acme");
  principal_ref = some (text "ann");
  role = some (text "TENANT_AGENT");
}

resolve-IsRoutable_example :
    ((view : TenantRoutingView)
      → ((resolve 10 5 (text "7" ∷ []) 10 reads_acme (text "acme") []).0 ≡ resolved view)
        ↔ (IsSeen 10 reads_acme (text "acme") [] view × IsRoutable (text "7" ∷ []) view))
    × ((resolve 10 5 (text "7" ∷ []) 10 reads_acme (text "acme") []).0 ≢ crashed)
    × (length (resolve 10 5 (text "7" ∷ []) 10 reads_acme (text "acme") []).1 ≤ 10)
resolve-IsRoutable_example =
    resolve-IsRoutable 10 5 (text "7" ∷ []) 10 reads_acme (text "acme") [] (omega arith)
      (omega arith)

route-IsRecorded_example :
    IsRecorded services [] (route services settings ctx false Lane.bulk idle_router)
route-IsRecorded_example =
    route-IsRecorded services settings ctx false Lane.bulk idle_router (omega arith) (omega arith)

idle-IsSeparated : IsSeparated idle_router
idle-IsSeparated = record { interactive_lane = tt; bulk_lane = tt }

route-IsSound_example : IsSound ctx (route services settings ctx false Lane.bulk idle_router)
route-IsSound_example =
    route-IsSound services settings ctx false Lane.bulk idle_router idle-IsSeparated

abbrev bulk_result : RouteResult
bulk_result = record {
  target = RoutingTarget.tenant_target;
  tenant_id = some (text "acme");
  association_version = some (text "1");
  connection =
      some (record { object = 1; tenant_id = text "acme"; association_version = text "1" });
  lane = Lane.bulk;
}
