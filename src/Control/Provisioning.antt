-- ===== src/Control/Provisioning.antt =====
-- The verification gate (backend/control_plane/provisioning.py).
use snack_portal.Common.{
  Bool, true, false, ◌&&◌, not, Option, none, some, List, [], ◌∷◌, ◌++◌, if◌then◌else◌, any,
}
use snack_portal.Common.Text.{Text, text, text_eq}
use snack_portal.Control.Records.{
  TenantLifecycleState, SecretRef, TenantRecord, Action, DistinctnessEvidence,
}
use snack_portal.Control.World.{
  M, Result, ok, raised, Error, ◌>>=◌, ◌>>◌, pure, raise, raise_if, or_raise, attempt, call,
  Context,
}
use snack_portal.Control.Ports.{Ports, ProbeResult, call_invalidate}
use snack_portal.Control.Store.{get_tenant, compare_and_swap_tenant, now_iso, record_audit, event}
use snack_portal.Control.Registry.{in_states, commit_transition}
use snack_portal.Control.Distinctness.{
  DistinctnessResult, Reason, DistinctnessOutcome, outcome, secret_ref_key, verify_distinctness,
  record_evidence, evidence_excluding, remove_evidence,
}

unfoldable pub default_tenant_db_prefix : Text
default_tenant_db_prefix = text "sp2_tenant_"

unfoldable pub tenant_database_name : Text → Text
tenant_database_name tenant_id = default_tenant_db_prefix ++ tenant_id

-- What the gate is composed with, beside its ports.
pub record Gate : Type 0 where
  pub control : DistinctnessEvidence
  pub supported : List Text
  pub sentinel_prefix : Text

-- `raise ProvisioningError("concurrent lifecycle transition")` for a lost race, and the other
-- exceptions as they are.
abbrev pub as_concurrent : Error → Error
as_concurrent Error.stale_version = Error.concurrent_transition
as_concurrent e = e

abbrev pub reraise : {A : Type 0} → Result A → M A
reraise (ok a) = pure a
reraise (raised e) = raise (as_concurrent e)

-- The versions that the schema probe admits.
unfoldable pub schema_matches : List Text → Text → Option Text → Bool
schema_matches supported expected none = false
schema_matches supported expected (some v) = any (text_eq v) supported && text_eq v expected

abbrev pub yield_states : List TenantLifecycleState
yield_states =
    TenantLifecycleState.suspended ∷ TenantLifecycleState.quarantined
    ∷ TenantLifecycleState.decommissioned ∷ TenantLifecycleState.failed ∷ []

abbrev pub refused_states : List TenantLifecycleState
refused_states =
    TenantLifecycleState.decommissioned ∷ TenantLifecycleState.suspended
    ∷ TenantLifecycleState.quarantined ∷ []

-- How the entry into Verifying ended: with the record as written, or by giving way to a winner.
pub data Entry : Type 0 where
  entered : TenantRecord → Entry
  yielded : Entry

-- `_require`
unfoldable pub require : Text → M TenantRecord
require tenant_id = do found ← get_tenant tenant_id; or_raise found Error.unknown_tenant

module _ (ports : Ports) where
  -- `_transition`
  unfoldable pub gate_transition :
      Context → TenantRecord → TenantLifecycleState → Action → M TenantRecord
  gate_transition ctx rec to_state action =
      commit_transition ports ctx rec.tenant_id rec to_state action

  unfoldable pub invalidate : Context → Text → M (Unit {0})
  invalidate ctx tenant_id = do
    call_invalidate ports tenant_id ctx.correlation_id
    event ports ctx tenant_id Action.router_cache_invalidated

  -- The transition of `_fail`.
  unfoldable pub fail_transition : Context → TenantRecord → Action → Bool → M (Unit {0})
  fail_transition ctx rec event_action true = do
    gate_transition ctx rec TenantLifecycleState.quarantined event_action
    event ports ctx rec.tenant_id Action.tenant_quarantined
    event ports ctx rec.tenant_id Action.isolation_anomaly
  fail_transition ctx rec event_action false = do
    gate_transition ctx rec TenantLifecycleState.failed event_action
    pure tt

  -- `_fail`
  unfoldable pub fail :
      Context → TenantRecord → DistinctnessResult → Reason → Action → Bool → M DistinctnessOutcome
  fail ctx rec result reason event_action anomaly = do
    remove_evidence rec.tenant_id
    done ← attempt (fail_transition ctx rec event_action anomaly)
    reraise done
    pure (outcome result reason)

  -- A lost race on the entry write: give way to a winner, or try once more.
  unfoldable pub retry_entry : Context → Text → M Entry
  retry_entry ctx tenant_id = do
    fresh ← require tenant_id
    if in_states fresh.lifecycle_state yield_states
        then pure yielded
        else (if in_states fresh.lifecycle_state
              (TenantLifecycleState.verifying ∷ TenantLifecycleState.provisioning ∷ [])
            then (do
              again ← attempt (
                  gate_transition ctx fresh TenantLifecycleState.verifying
                    Action.distinctness_verification_started)
              rec ← reraise again
              pure (entered rec))
            else raise Error.concurrent_transition)

  unfoldable pub after_entry : Context → Text → Result TenantRecord → M Entry
  after_entry ctx tenant_id (ok rec) = pure (entered rec)
  after_entry ctx tenant_id (raised Error.stale_version) = retry_entry ctx tenant_id
  after_entry ctx tenant_id (raised e) = raise e

  -- The `try` around the entry write.
  unfoldable pub enter_verifying : Context → Text → TenantRecord → M Entry
  enter_verifying ctx tenant_id rec = do
    first ← attempt (
        gate_transition ctx rec TenantLifecycleState.verifying
          Action.distinctness_verification_started)
    after_entry ctx tenant_id first

  -- The commit of Ready, once the evidence is recorded.
  unfoldable pub commit_ready :
      Context → Text → TenantRecord → DistinctnessOutcome → M DistinctnessOutcome
  commit_ready ctx tenant_id rec o = do
    committed ←
        attempt (
          gate_transition ctx rec TenantLifecycleState.ready
            Action.distinctness_verification_passed)
    reraise committed
    event ports ctx tenant_id Action.routing_enabled
    pure o

  unfoldable pub after_recording :
      Context
      → Text
      → TenantRecord
      → DistinctnessOutcome
      → Result (Unit {0})
      → M DistinctnessOutcome
  after_recording ctx tenant_id rec o (ok _) = commit_ready ctx tenant_id rec o
  after_recording ctx tenant_id rec o (raised Error.fingerprint_collision) =
      fail ctx rec DistinctnessResult.isolation_anomaly Reason.tenant_collision
        Action.distinctness_verification_failed true
  after_recording ctx tenant_id rec o (raised e) = raise e

  -- What follows the verifier's VERIFIED.
  unfoldable pub accept :
      Context
      → Text
      → TenantRecord
      → DistinctnessOutcome
      → DistinctnessEvidence
      → M DistinctnessOutcome
  accept ctx tenant_id rec o evidence = do
    recorded ← attempt (record_evidence tenant_id evidence)
    after_recording ctx tenant_id rec o recorded

  -- What follows any other result.
  unfoldable pub reject :
      Context → Text → TenantRecord → DistinctnessOutcome → M DistinctnessOutcome
  reject ctx tenant_id rec o = do
    remove_evidence tenant_id
    elim o.result [
      | DistinctnessResult.isolation_anomaly ↦
          fail ctx rec o.result o.reason Action.distinctness_verification_failed true
      | DistinctnessResult.verification_incomplete ↦
          fail ctx rec o.result o.reason Action.verification_incomplete false
      | _ ↦ fail ctx rec o.result o.reason Action.distinctness_verification_failed false
    ]
    pure o

  unfoldable pub decide :
      Context
      → Text
      → TenantRecord
      → Option DistinctnessEvidence
      → DistinctnessOutcome
      → M DistinctnessOutcome
  decide ctx tenant_id rec none o = reject ctx tenant_id rec o
  decide ctx tenant_id rec (some evidence) o = elim o.result [
    | DistinctnessResult.verified ↦ accept ctx tenant_id rec o evidence
    | _ ↦ reject ctx tenant_id rec o
  ]

  unfoldable pub disable_routing : Context → Text → M (Unit {0})
  disable_routing ctx tenant_id = do
    remove_evidence tenant_id
    event ports ctx tenant_id Action.routing_disabled
    invalidate ctx tenant_id

module _ (ports : Ports) (gate : Gate) where
  -- Evidence, and the decision on it.
  unfoldable pub check_distinctness : Context → Text → TenantRecord → M DistinctnessOutcome
  check_distinctness ctx tenant_id rec = do
    token ← call (λ n. ok (ports.token n))
    evidence ←
        call (λ n.
          ports.gather n rec.database_association_ref token (gate.sentinel_prefix ++ tenant_id))
    inventory ← evidence_excluding tenant_id
    decide ports ctx tenant_id rec evidence (
        verify_distinctness tenant_id evidence (tenant_database_name tenant_id) gate.control
          inventory)

  -- Reachability, schema and the secret-reference guard, in front of the evidence.
  unfoldable pub check_probe : Context → Text → TenantRecord → ProbeResult → M DistinctnessOutcome
  check_probe ctx tenant_id rec p =
      if not p.reachable
      then fail ports ctx rec DistinctnessResult.verification_incomplete Reason.incomplete_evidence
          Action.verification_incomplete false
      else if not
          (schema_matches gate.supported rec.expected_schema_version p.observed_schema_version)
      then fail ports ctx rec DistinctnessResult.verification_failed Reason.schema_mismatch
          Action.distinctness_verification_failed false
      else if text_eq (secret_ref_key rec.database_association_ref) gate.control.secret_ref_key
      then fail ports ctx rec DistinctnessResult.isolation_anomaly Reason.control_db_collision
          Action.distinctness_verification_failed true
      else check_distinctness ctx tenant_id rec

  unfoldable pub after_enter : Context → Text → Entry → M DistinctnessOutcome
  after_enter ctx tenant_id yielded =
      pure (outcome DistinctnessResult.verification_incomplete Reason.concurrent_lifecycle_winner)
  after_enter ctx tenant_id (entered rec) = do
    p ← call (λ n. ports.probe n rec.database_association_ref)
    check_probe ctx tenant_id rec p

  unfoldable pub verify : Context → Text → M DistinctnessOutcome
  verify ctx tenant_id = do
    rec ← require tenant_id
    raise_if (in_states rec.lifecycle_state refused_states) Error.illegal_transition
    entry ← enter_verifying ports ctx tenant_id rec
    after_enter ctx tenant_id entry

  unfoldable pub reassociate : Context → Text → SecretRef → M DistinctnessOutcome
  reassociate ctx tenant_id new_association_ref = do
    rec ← require tenant_id
    raise_if
        (in_states rec.lifecycle_state
          (TenantLifecycleState.quarantined ∷ TenantLifecycleState.decommissioned ∷ []))
        Error.illegal_transition
    ts ← now_iso ports
    swapped ← attempt (
        compare_and_swap_tenant
          (record rec {
            database_association_ref = new_association_ref;
            lifecycle_state = TenantLifecycleState.verifying;
            updated_at = ts;
          })
          rec.version)
    reraise swapped
    record_audit ports ctx tenant_id Action.database_associated (some rec.lifecycle_state)
        (some TenantLifecycleState.verifying)
    event ports ctx tenant_id Action.secret_reference_registered
    event ports ctx tenant_id Action.registry_mapping_changed
    invalidate ports ctx tenant_id
    verify ctx tenant_id
