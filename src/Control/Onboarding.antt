-- ===== src/Control/Onboarding.antt =====
-- The onboarding orchestrator (backend/control_plane/onboarding.py).
pub mod Naming
use snack_portal.Common.{
  Bool, true, false, ◌&&◌, not, Option, none, some, List, [], ◌∷◌, ◌++◌, if◌then◌else◌, any,
}
use snack_portal.Common.Text.{Text, text, text_eq, is_empty, has_char, strip_prefix, strip_suffix}
use snack_portal.Control.Records.{
  TenantLifecycleState, SecretRef, TenantRecord, Action, ControlAuditRecord, state_eq,
}
use snack_portal.Control.World.{
  M, Result, ok, raised, Error, ◌>>=◌, ◌>>◌, pure, raise, raise_if, or_raise, attempt, Context,
}
use snack_portal.Control.Ports.{Ports, call_provision, call_apply_schema}
use snack_portal.Control.Store.{get_tenant, list_audit, event}
use snack_portal.Control.Registry.{register_tenant, mark_provisioning, quarantine_tenant}
use snack_portal.Control.Distinctness.{
  DistinctnessResult, Reason, DistinctnessOutcome, outcome, routable,
}
use snack_portal.Control.Provisioning.{Gate, tenant_database_name, verify}

unfoldable pub tenant_dsn_ref : Text → Text
tenant_dsn_ref tenant_id = text "tenant/" ++ (tenant_id ++ text "/dsn")

-- The test on `inner`.
unfoldable pub plain_id : Text → Option Text
plain_id inner = if not (is_empty inner) && not (has_char b'/' inner) then some inner else none

unfoldable pub tenant_id_from_dsn_ref : Text → Option Text
unfolding plain_id
tenant_id_from_dsn_ref store_ref = elim (strip_prefix (text "tenant/") store_ref) [
  | none ↦ none
  | some rest ↦ elim (strip_suffix (text "/dsn") rest) [ none ↦ none | some inner ↦ plain_id inner ]
]

-- `_TERMINAL_ONBOARD_REASONS.get(state, "already_onboarded")`
unfoldable pub terminal_onboard_reason : TenantLifecycleState → Reason
terminal_onboard_reason TenantLifecycleState.failed = Reason.recover_required
terminal_onboard_reason TenantLifecycleState.quarantined = Reason.quarantined
terminal_onboard_reason TenantLifecycleState.suspended = Reason.suspended
terminal_onboard_reason TenantLifecycleState.decommissioned = Reason.decommissioned
terminal_onboard_reason _ = Reason.already_onboarded

-- The test of `recover` on one audit record.
unfoldable pub is_anomaly_of : Text → ControlAuditRecord → Bool
is_anomaly_of tenant_id r = elim r.tenant_id [
  | none ↦ false
  | some t ↦ text_eq t tenant_id && elim r.action [ Action.isolation_anomaly ↦ true | _ ↦ false ]
]

module _ (ports : Ports) (gate : Gate) where
  -- The tail behind a successful schema application.
  unfoldable pub associate_and_verify : Context → Text → M DistinctnessOutcome
  associate_and_verify ctx tenant_id = do
    event ports ctx tenant_id Action.tenant_schema_application_succeeded
    event ports ctx tenant_id Action.secret_reference_registered
    event ports ctx tenant_id Action.database_associated
    verify ports gate ctx tenant_id

  unfoldable pub after_apply : Context → Text → Result (Unit {0}) → M DistinctnessOutcome
  after_apply ctx tenant_id (ok _) = associate_and_verify ctx tenant_id
  after_apply ctx tenant_id (raised e) = do
    event ports ctx tenant_id Action.tenant_schema_application_failed
    pure (outcome DistinctnessResult.verification_incomplete Reason.schema_application_failed)

  unfoldable pub after_provision :
      Context → Text → Text → SecretRef → Result (Unit {0}) → M DistinctnessOutcome
  after_provision ctx tenant_id target association_ref (ok _) = do
    event ports ctx tenant_id Action.database_provision_succeeded
    event ports ctx tenant_id Action.tenant_schema_application_started
    applied ← attempt (call_apply_schema ports tenant_id target association_ref)
    after_apply ctx tenant_id applied
  after_provision ctx tenant_id target association_ref (raised e) = do
    event ports ctx tenant_id Action.database_provision_failed
    pure (outcome DistinctnessResult.verification_incomplete Reason.provision_failed)

  unfoldable pub provision_apply_verify : Context → Text → Text → SecretRef → M DistinctnessOutcome
  provision_apply_verify ctx tenant_id target association_ref = do
    event ports ctx tenant_id Action.database_provision_requested
    provisioned ← attempt (call_provision ports tenant_id target)
    after_provision ctx tenant_id target association_ref provisioned

  -- The terminal record of a recovery, and its outcome or exception.
  unfoldable pub close_recovery :
      Context → Text → Result DistinctnessOutcome → M DistinctnessOutcome
  close_recovery ctx tenant_id (ok o) = do
    event ports ctx tenant_id (
        if routable o
        then Action.onboarding_recovery_completed
        else Action.onboarding_recovery_failed)
    pure o
  close_recovery ctx tenant_id (raised e) = do
    event ports ctx tenant_id Action.onboarding_recovery_failed
    raise e

  -- `_resume`
  unfoldable pub resume : Context → TenantRecord → Text → M DistinctnessOutcome
  resume ctx rec target = do
    event ports ctx rec.tenant_id Action.onboarding_recovery_started
    done ← attempt (provision_apply_verify ctx rec.tenant_id target rec.database_association_ref)
    close_recovery ctx rec.tenant_id done

  unfoldable pub recover_classified : Context → Text → Bool → M DistinctnessOutcome
  recover_classified ctx tenant_id true = do
    quarantine_tenant ports ctx tenant_id
    event ports ctx tenant_id Action.tenant_quarantined
    event ports ctx tenant_id Action.onboarding_recovery_failed
    pure (outcome DistinctnessResult.isolation_anomaly Reason.anomaly_history)
  recover_classified ctx tenant_id false = do
    done ← attempt (verify ports gate ctx tenant_id)
    close_recovery ctx tenant_id done

  unfoldable pub recover : Context → Text → M DistinctnessOutcome
  recover ctx tenant_id = do
    found ← get_tenant tenant_id
    rec ← or_raise found Error.unknown_tenant
    raise_if (not (state_eq rec.lifecycle_state TenantLifecycleState.failed))
        Error.illegal_transition
    event ports ctx tenant_id Action.onboarding_recovery_started
    records ← list_audit
    recover_classified ctx tenant_id (any (is_anomaly_of tenant_id) records)

  -- Steps 1 and 2 of a fresh run, and the tail.
  unfoldable pub onboard_fresh : Context → Text → Text → Text → Text → M DistinctnessOutcome
  onboard_fresh ctx tenant_id organization_ref federation_config_ref expected_schema_version = do
    let association_ref : SecretRef = record {
      store_ref = tenant_dsn_ref tenant_id;
      version = text "1";
    }
    register_tenant ports ctx tenant_id organization_ref expected_schema_version association_ref
        federation_config_ref
    mark_provisioning ports ctx tenant_id
    provision_apply_verify ctx tenant_id (tenant_database_name tenant_id) association_ref

  -- The onboarding fence: what a tenant that exists and is not Registered gets.
  unfoldable pub fenced :
      Context → TenantRecord → Text → TenantLifecycleState → M DistinctnessOutcome
  fenced ctx rec target TenantLifecycleState.ready =
      pure (outcome DistinctnessResult.verified Reason.already_onboarded)
  fenced ctx rec target TenantLifecycleState.provisioning = resume ctx rec target
  fenced ctx rec target state =
      pure (outcome DistinctnessResult.verification_incomplete (terminal_onboard_reason state))

  unfoldable pub onboard_existing : Context → TenantRecord → Text → M DistinctnessOutcome
  onboard_existing ctx rec target = fenced ctx rec target rec.lifecycle_state

  unfoldable pub fence :
      Context → Text → Text → Text → Text → Option TenantRecord → M DistinctnessOutcome
  fence ctx tenant_id organization_ref federation_config_ref expected_schema_version none =
      onboard_fresh ctx tenant_id organization_ref federation_config_ref expected_schema_version
  fence ctx tenant_id organization_ref federation_config_ref expected_schema_version (some rec) =
      if state_eq rec.lifecycle_state TenantLifecycleState.registered
      then onboard_fresh ctx tenant_id organization_ref federation_config_ref
          expected_schema_version
      else onboard_existing ctx rec (tenant_database_name tenant_id)

  unfoldable pub onboard : Context → Text → Text → Text → Text → M DistinctnessOutcome
  onboard ctx tenant_id organization_ref federation_config_ref expected_schema_version = do
    existing ← get_tenant tenant_id
    fence ctx tenant_id organization_ref federation_config_ref expected_schema_version existing
