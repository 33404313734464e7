-- ===== src/Control/Recovery.antt =====
-- The compensation service (`RecoveryCompensationService` of backend/control_plane/recovery.py).
pub mod Latch
pub mod Deprovision
pub mod Facts
pub mod Drop
use snack_portal.Common.{
  Bool, true, false, ◌&&◌, ◌||◌, not, Option, none, some, List, [], ◌∷◌, if◌then◌else◌, any,
}
use snack_portal.Common.Text.{Text, text_eq, starts_with, strip_prefix}
use snack_portal.Common.Dict.{Dict, lookup}
use snack_portal.Control.Records.{TenantLifecycleState, TenantRecord, Action, DistinctnessEvidence}
use snack_portal.Control.World.{
  M, Result, ok, raised, Error, ◌>>=◌, ◌>>◌, pure, raise, attempt, call, Context,
}
use snack_portal.Control.Ports.{Ports, DatabaseInspection, call_deprovision}
use snack_portal.Control.Store.{get_tenant, event}
use snack_portal.Control.Registry.{in_states, quarantine_tenant}
use snack_portal.Control.Distinctness.{fingerprint, evidence_excluding}
use snack_portal.Control.Provisioning.{default_tenant_db_prefix, tenant_database_name}
use snack_portal.Control.Onboarding.{tenant_id_from_dsn_ref}
use snack_portal.Control.Census.{Content, classify_content, inspection_fingerprint}

-- The `REASON_*` constants of this module.
pub data Refusal : Type 0 where
  deprovisioned absent_noop unknown_tenant ineligible_state outside_namespace : Refusal
  control_target control_unavailable non_canonical_ref content_not_empty : Refusal
  ledger_collision fingerprint_mismatch inspection_unavailable deprovision_failed : Refusal

abbrev pub deprovision_eligible_states : List TenantLifecycleState
deprovision_eligible_states =
    TenantLifecycleState.provisioning ∷ TenantLifecycleState.failed
    ∷ TenantLifecycleState.quarantined ∷ []

abbrev pub quarantine_eligible_states : List TenantLifecycleState
quarantine_eligible_states = TenantLifecycleState.provisioning ∷ TenantLifecycleState.failed ∷ []

-- `reason in _ANOMALY_REASONS`
unfoldable pub is_anomaly_reason : Refusal → Bool
is_anomaly_reason Refusal.outside_namespace = true
is_anomaly_reason Refusal.control_target = true
is_anomaly_reason Refusal.non_canonical_ref = true
is_anomaly_reason Refusal.content_not_empty = true
is_anomaly_reason Refusal.ledger_collision = true
is_anomaly_reason Refusal.fingerprint_mismatch = true
is_anomaly_reason _ = false

pub record DeprovisionOutcome : Type 0 where
  pub tenant_id : Text
  pub target : Text
  pub dropped : Bool
  pub completed : Bool
  pub reason : Refusal

-- The loop of `_non_content_proof` over the other tenants' evidence.
unfoldable pub evidence_identifies : Text → Option Text → Dict DistinctnessEvidence → Bool
evidence_identifies target print [] = false
evidence_identifies target none ((_, e) ∷ d) =
    if text_eq e.observed_target target then true else evidence_identifies target none d
evidence_identifies target (some f) ((_, e) ∷ d) =
    if text_eq e.observed_target target || text_eq (fingerprint e) f
    then true
    else evidence_identifies target (some f) d

-- The tenant's own evidence disagrees with the observed database.
unfoldable pub own_mismatch : Text → Text → Option DistinctnessEvidence → Bool
own_mismatch target print none = false
own_mismatch target print (some own) =
    not (text_eq (fingerprint own) print) || not (text_eq own.observed_target target)

module _ (ports : Ports) where
  -- Element 5, both legs.
  unfoldable pub ledger_proof : Text → Text → Option Text → M (Option Refusal)
  ledger_proof tenant_id target print = do
    others ← evidence_excluding tenant_id
    if evidence_identifies target print others
        then pure (some Refusal.ledger_collision)
        else (elim print [
          | none ↦ pure none
          | some f ↦ do
            everything ← evidence_excluding []
            pure (
                if own_mismatch target f (lookup tenant_id everything)
                then some Refusal.fingerprint_mismatch
                else none)
        ])

  -- Element 2 against the Control database, and then element 5.
  unfoldable pub control_proof : Text → Text → Option Text → Option Text → M (Option Refusal)
  control_proof tenant_id target print none = pure (some Refusal.control_unavailable)
  control_proof tenant_id target print (some control_name) =
      if text_eq target control_name
      then pure (some Refusal.control_target)
      else ledger_proof tenant_id target print

  unfoldable pub record_proof : Text → Text → Option Text → Option TenantRecord → M (Option Refusal)
  record_proof tenant_id target print none = pure (some Refusal.unknown_tenant)
  record_proof tenant_id target print (some rec) =
      if not (in_states rec.lifecycle_state deprovision_eligible_states)
      then pure (some Refusal.ineligible_state)
      else if not (starts_with default_tenant_db_prefix target)
      then pure (some Refusal.outside_namespace)
      else (do
        control_name ← call ports.control_database_name
        control_proof tenant_id target print control_name)

  -- `_non_content_proof`: elements 1, 2 and 5 of the ownership proof; `none` where all hold.
  unfoldable pub non_content_proof : Text → Text → Option Text → M (Option Refusal)
  non_content_proof tenant_id target print = do
    found ← get_tenant tenant_id
    record_proof tenant_id target print found

  unfoldable pub quarantine_found : Context → Text → Option TenantRecord → M (Unit {0})
  quarantine_found ctx tenant_id none = pure tt
  quarantine_found ctx tenant_id (some rec) =
      if in_states rec.lifecycle_state quarantine_eligible_states
      then (do
        quarantine_tenant ports ctx tenant_id
        event ports ctx tenant_id Action.tenant_quarantined)
      else pure tt

  -- The quarantine of `_fail`.
  unfoldable pub quarantine_where_applicable : Context → Text → Refusal → Bool → M (Unit {0})
  quarantine_where_applicable ctx tenant_id reason quarantine =
      if quarantine && is_anomaly_reason reason
      then (do found ← get_tenant tenant_id; quarantine_found ctx tenant_id found)
      else pure tt
