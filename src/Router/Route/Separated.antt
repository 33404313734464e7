-- ===== src/Router/Route/Separated.antt =====
-- The lanes of the router of backend/database_router/router.py, each connection with its tenant.
use snack_portal.Common.{◌≡◌, ◌⊎◌, refl, Option, none, some}
use snack_portal.Common.Text.{text}
use snack_portal.Router.Pool.{Connection, Manager}
use snack_portal.Router.Pool.Binding.{IsIsolated}
use snack_portal.Router.Route.{
  RequestContext, Router, Lane, Outcome, routed, RoutingTarget, with_manager, manager_for,
}

abbrev pub OnManager : Option Manager → Type 0
OnManager none = Unit {0}
OnManager (some m) = IsIsolated m

-- Both lanes keep every connection with its tenant.
pub record IsSeparated (router : Router) : Type 0 where
  pub interactive_lane : IsIsolated router.pool
  pub bulk_lane : OnManager router.bulk_pool

-- A result for the control plane has no connection and no tenant asks for it; a result for a tenant
-- has a connection of the signed active tenant.
abbrev pub Hands : RequestContext → Outcome → Type 0
Hands ctx (routed r) =
    ((r.target ≡ RoutingTarget.control_target)
      × (ctx.active_tenant_id ≡ none)
      × (ctx.role ≡ some (text "CONTROL"))
      × (r.connection ≡ none))
    ⊎ ((r.target ≡ RoutingTarget.tenant_target)
        × ((c : Connection) × (r.connection ≡ some c)
            × (ctx.active_tenant_id ≡ some c.tenant_id)
            × (r.association_version ≡ some c.association_version)))
Hands ctx _ = Unit {0}

pub manager_for-IsIsolated :
    (lane : Lane) (router : Router) → IsSeparated router → IsIsolated (manager_for lane router)
unfolding manager_for
manager_for-IsIsolated Lane.interactive router s = s.interactive_lane
manager_for-IsIsolated Lane.bulk router s = go router.bulk_pool s.bulk_lane
  where
    go :
        (b : Option Manager) → OnManager b → IsIsolated (elim b [ none ↦ router.pool | some m ↦ m ])
    go none h = s.interactive_lane
    go (some m) h = h

pub with_manager-IsSeparated :
    (lane : Lane) (m : Manager) (router : Router)
    → IsIsolated m
    → IsSeparated router
    → IsSeparated (with_manager lane m router)
unfolding with_manager
with_manager-IsSeparated Lane.interactive m router h s = record {
  interactive_lane = h;
  bulk_lane = s.bulk_lane;
}
with_manager-IsSeparated Lane.bulk m router h s = go router.bulk_pool refl
  where
    go :
        (b : Option Manager)
        → router.bulk_pool ≡ b
        → IsSeparated (elim b [
          | none ↦ record router { pool = m }
          | some _ ↦ record router { bulk_pool = some m }
        ])
    go none e = record { interactive_lane = h; bulk_lane = s.bulk_lane }
    go (some _) e = record { interactive_lane = s.interactive_lane; bulk_lane = h }
