-- ===== src/Control/Records.antt =====
-- The record shapes of backend/control_plane/records.py and backend/shared/secrets.py, and the
-- audit vocabulary of backend/control_plane/events.py. An enum member stands for its `.value`.
use snack_portal.Common.{Bool, true, false, ℕ, Option, List, ◌≡◌, ◌↔◌, arith}
use snack_portal.Common.Text.{Text}
use snack_portal.Common.Dict.{Dict}

pub data TenantLifecycleState : Type 0 where
  registered provisioning verifying ready suspended failed quarantined decommissioned :
      TenantLifecycleState

pub record SecretRef : Type 0 where
  pub store_ref : Text
  pub version : Text

pub record TenantRecord : Type 0 where
  pub tenant_id : Text
  pub organization_ref : Text
  pub lifecycle_state : TenantLifecycleState
  pub expected_schema_version : Text
  pub database_association_ref : SecretRef
  pub federation_config_ref : Text
  pub created_at : Text
  pub updated_at : Text
  pub version : ℕ

-- The actions that the registry writes itself, and then the names of `events.py`.
pub data Action : Type 0 where
  register_tenant mark_provisioning suspend_tenant decommission_tenant quarantine_tenant : Action
  database_provision_requested database_provision_succeeded database_provision_failed : Action
  database_associated secret_reference_registered : Action
  tenant_schema_application_started tenant_schema_application_succeeded : Action
  tenant_schema_application_failed : Action
  distinctness_verification_started distinctness_verification_passed : Action
  distinctness_verification_failed verification_incomplete isolation_anomaly : Action
  routing_enabled routing_disabled router_cache_invalidated registry_mapping_changed : Action
  tenant_quarantined onboarding_recovery_started onboarding_recovery_completed : Action
  onboarding_recovery_failed : Action
  tenant_deprovision_requested tenant_deprovision_completed tenant_deprovision_failed : Action

pub record ControlAuditRecord : Type 0 where
  pub actor : Text
  pub tenant_id : Option Text
  pub action : Action
  pub from_state : Option TenantLifecycleState
  pub to_state : Option TenantLifecycleState
  pub timestamp : Text
  pub correlation_id : Text

unfoldable pub state_eq : TenantLifecycleState → TenantLifecycleState → Bool
state_eq TenantLifecycleState.registered TenantLifecycleState.registered = true
state_eq TenantLifecycleState.provisioning TenantLifecycleState.provisioning = true
state_eq TenantLifecycleState.verifying TenantLifecycleState.verifying = true
state_eq TenantLifecycleState.ready TenantLifecycleState.ready = true
state_eq TenantLifecycleState.suspended TenantLifecycleState.suspended = true
state_eq TenantLifecycleState.failed TenantLifecycleState.failed = true
state_eq TenantLifecycleState.quarantined TenantLifecycleState.quarantined = true
state_eq TenantLifecycleState.decommissioned TenantLifecycleState.decommissioned = true
state_eq _ _ = false

pub state_eq_iff : (a b : TenantLifecycleState) → (state_eq a b ≡ true) ↔ (a ≡ b)
unfolding state_eq
state_eq_iff a b = ground arith

-- The physical evidence about one database (`DistinctnessEvidence` of distinctness.py).
pub record DistinctnessEvidence : Type 0 where
  pub system_identifier : Text
  pub database_identity : Text
  pub observed_target : Text
  pub secret_ref_key : Text
  pub sentinel_namespace : Text
  pub sentinel_token : Option Text
  pub sentinel_written : Bool

-- What the concurrent writers share: the tables of `InMemoryControlStore`, and the mapping of
-- `InMemoryDistinctnessLedger`.
pub record Shared : Type 0 where
  pub tenants : Dict TenantRecord
  pub audit : List ControlAuditRecord
  pub ledger : Dict DistinctnessEvidence
