-- ===== src/Control/Trail.antt =====
-- The lifecycle graph of contracts/IC-002, and the replay of a tenant's audit trail along it. The
-- graph is written down from the contract and from its re-association rule, not from the code.
pub mod Replay
pub mod Sound
pub mod Step
pub mod Commit
pub mod Registry
pub mod Gate
pub mod Verify
pub mod Onboarding
pub mod Recovery
use snack_portal.Common.{
  ◌≡◌, Bool, true, false, ◌&&◌, not, Option, none, some, List, [], ◌∷◌, if◌then◌else◌,
}
use snack_portal.Common.Text.{Text, text_eq}
use snack_portal.Common.Dict.{lookup}
use snack_portal.Control.Records.{
  TenantLifecycleState, TenantRecord, ControlAuditRecord, Shared, state_eq,
}
use snack_portal.Control.Registry.{in_states}
use snack_portal.Control.Distinctness.Ledger.{OneOwner}

-- `edge from to`: the contract allows the transition.
unfoldable pub edge : TenantLifecycleState → TenantLifecycleState → Bool
edge from TenantLifecycleState.registered = false
edge from TenantLifecycleState.provisioning = state_eq from TenantLifecycleState.registered
edge from TenantLifecycleState.verifying =
    not (state_eq from TenantLifecycleState.quarantined)
    && not (state_eq from TenantLifecycleState.decommissioned)
edge from TenantLifecycleState.ready = state_eq from TenantLifecycleState.verifying
edge from TenantLifecycleState.suspended = state_eq from TenantLifecycleState.ready
edge from TenantLifecycleState.failed = state_eq from TenantLifecycleState.verifying
edge from TenantLifecycleState.quarantined = in_states from (
    TenantLifecycleState.verifying ∷ TenantLifecycleState.provisioning ∷ TenantLifecycleState.failed
    ∷ [])
edge from TenantLifecycleState.decommissioned = in_states from (
    TenantLifecycleState.registered ∷ TenantLifecycleState.provisioning
    ∷ TenantLifecycleState.suspended ∷ TenantLifecycleState.failed
    ∷ TenantLifecycleState.quarantined ∷ [])

-- The state that a record moves the tenant into, if it is a transition of that tenant.
unfoldable pub moves_to : Text → ControlAuditRecord → Option TenantLifecycleState
moves_to tenant_id r = elim r.tenant_id [
  | none ↦ none
  | some t ↦ if text_eq t tenant_id then r.to_state else none
]

-- A registration opens a trail; every other record starts where the trail stands.
unfoldable pub step_allowed :
    Option TenantLifecycleState → Option TenantLifecycleState → TenantLifecycleState → Bool
step_allowed none none to = state_eq to TenantLifecycleState.registered
step_allowed (some now) (some from) to = state_eq now from && edge from to
step_allowed _ _ _ = false

-- The state at the end of a tenant's trail; `none` if some record of it is not allowed.
unfoldable pub replay :
    Text
    → Option TenantLifecycleState
    → List ControlAuditRecord
    → Option (Option TenantLifecycleState)
replay tenant_id now [] = some now
replay tenant_id now (r ∷ rs) = elim (moves_to tenant_id r) [
  | none ↦ replay tenant_id now rs
  | some to ↦
      let rest = replay tenant_id (some to) rs in
      if step_allowed now r.from_state to then rest else none
]

unfoldable pub state_of_record : Option TenantRecord → Option TenantLifecycleState
state_of_record none = none
state_of_record (some rec) = some rec.lifecycle_state

-- The tables agree: a record stands under its own id, and the audit trail of every tenant is a path
-- of the graph that ends in the state that the tenant table has; and one physical database has one
-- owner in the ledger.
pub record IsSound (s : Shared) : Type 0 where
  pub keyed : (i : Text) (rec : TenantRecord) → lookup i s.tenants ≡ some rec → rec.tenant_id ≡ i
  pub replayed : (i : Text) → replay i none s.audit ≡ some (state_of_record (lookup i s.tenants))
  pub owned : OneOwner s.ledger
