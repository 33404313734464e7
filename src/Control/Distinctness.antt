-- ===== src/Control/Distinctness.antt =====
-- Physical distinctness (backend/control_plane/distinctness.py): the verifier's decision, and the
-- in-memory ledger of evidence.
pub mod Ledger
pub mod Isolation
use snack_portal.Common.{
  Bool, true, false, ◌&&◌, ◌||◌, not, Option, none, some, List, [], ◌∷◌, ◌++◌, if◌then◌else◌, any,
}
use snack_portal.Common.Text.{Text, text, text_eq, is_empty}
use snack_portal.Common.Dict.{Dict, insert, erase}
use snack_portal.Control.Records.{SecretRef, DistinctnessEvidence, Shared}
use snack_portal.Control.World.{M, Result, ok, raised, Error, gets, update}

pub data DistinctnessResult : Type 0 where
  verified verification_failed verification_incomplete isolation_anomaly : DistinctnessResult

-- The `REASON_*` constants of this module and of provisioning.py, and the reasons of onboarding.py.
pub data Reason : Type 0 where
  verified incomplete_evidence sentinel_failure system_id_only misrouted_target : Reason
  control_db_collision tenant_collision : Reason
  schema_mismatch concurrent_lifecycle_winner : Reason
  already_onboarded recover_required quarantined suspended decommissioned : Reason
  provision_failed schema_application_failed anomaly_history : Reason

pub record DistinctnessOutcome : Type 0 where
  pub result : DistinctnessResult
  pub reason : Reason

abbrev pub outcome : DistinctnessResult → Reason → DistinctnessOutcome
outcome r why = record { result = r; reason = why }

-- `DistinctnessOutcome.routable`
unfoldable pub routable : DistinctnessOutcome → Bool
routable o = elim o.result [ DistinctnessResult.verified ↦ true | _ ↦ false ]

-- `f"{self.system_identifier}::{self.database_identity}"`
unfoldable pub fingerprint_of : Text → Text → Text
fingerprint_of system_identifier database_identity =
    system_identifier ++ (text "::" ++ database_identity)

abbrev pub fingerprint : DistinctnessEvidence → Text
fingerprint e = fingerprint_of e.system_identifier e.database_identity

unfoldable pub secret_ref_key : SecretRef → Text
secret_ref_key ref = ref.store_ref

-- `token is not None and other == token`
unfoldable pub same_token : Option Text → Option Text → Bool
same_token none other = false
same_token (some t) none = false
same_token (some t) (some other) = text_eq other t

-- `not token`, where the token may be `None`
unfoldable pub no_token : Option Text → Bool
no_token none = true
no_token (some t) = is_empty t

-- The collision test against the Control database.
unfoldable pub collides_with_control : DistinctnessEvidence → DistinctnessEvidence → Bool
collides_with_control candidate control_db =
    text_eq (fingerprint candidate) (fingerprint control_db)
    || text_eq candidate.observed_target control_db.observed_target
    || text_eq candidate.secret_ref_key control_db.secret_ref_key
    || text_eq candidate.sentinel_namespace control_db.sentinel_namespace
    || same_token control_db.sentinel_token candidate.sentinel_token

-- The collision test against another tenant.
unfoldable pub collides_with_tenant : DistinctnessEvidence → DistinctnessEvidence → Bool
collides_with_tenant candidate other =
    text_eq (fingerprint candidate) (fingerprint other)
    || text_eq candidate.observed_target other.observed_target
    || text_eq candidate.secret_ref_key other.secret_ref_key
    || same_token other.sentinel_token candidate.sentinel_token

-- The loop over the inventory.
unfoldable pub inventory_collides : Text → DistinctnessEvidence → Dict DistinctnessEvidence → Bool
inventory_collides tenant_id candidate [] = false
inventory_collides tenant_id candidate ((other_id, other) ∷ inventory) =
    if text_eq other_id tenant_id
    then inventory_collides tenant_id candidate inventory
    else if collides_with_tenant candidate other
    then true
    else inventory_collides tenant_id candidate inventory

-- `PhysicalDistinctnessVerifier.verify`, once there is evidence.
unfoldable pub verify_candidate :
    Text
    → DistinctnessEvidence
    → Text
    → DistinctnessEvidence
    → Dict DistinctnessEvidence
    → DistinctnessOutcome
verify_candidate tenant_id candidate intended_target control_db inventory =
    if is_empty candidate.system_identifier || is_empty candidate.database_identity
    then outcome DistinctnessResult.verification_incomplete (
        if is_empty candidate.system_identifier
        then Reason.incomplete_evidence
        else Reason.system_id_only)
    else if not candidate.sentinel_written || no_token candidate.sentinel_token
    then outcome DistinctnessResult.verification_incomplete Reason.sentinel_failure
    else if not (text_eq candidate.observed_target intended_target)
    then outcome DistinctnessResult.isolation_anomaly Reason.misrouted_target
    else if collides_with_control candidate control_db
    then outcome DistinctnessResult.isolation_anomaly Reason.control_db_collision
    else if inventory_collides tenant_id candidate inventory
    then outcome DistinctnessResult.isolation_anomaly Reason.tenant_collision
    else outcome DistinctnessResult.verified Reason.verified

unfoldable pub verify_distinctness :
    Text
    → Option DistinctnessEvidence
    → Text
    → DistinctnessEvidence
    → Dict DistinctnessEvidence
    → DistinctnessOutcome
unfolding verify_candidate
verify_distinctness tenant_id none intended_target control_db inventory =
    outcome DistinctnessResult.verification_incomplete Reason.incomplete_evidence
verify_distinctness tenant_id (some candidate) intended_target control_db inventory =
    verify_candidate tenant_id candidate intended_target control_db inventory

-- The loop of `InMemoryDistinctnessLedger.record_evidence`.
unfoldable pub fingerprint_taken : Text → Text → Dict DistinctnessEvidence → Bool
fingerprint_taken tenant_id print [] = false
fingerprint_taken tenant_id print ((other_id, other) ∷ d) =
    if not (text_eq other_id tenant_id) && text_eq (fingerprint other) print
    then true
    else fingerprint_taken tenant_id print d

unfoldable pub record_if_free : Text → DistinctnessEvidence → Shared → Result (Unit {0}) × Shared
record_if_free tenant_id evidence s =
    if fingerprint_taken tenant_id (fingerprint evidence) s.ledger
    then (raised Error.fingerprint_collision, s)
    else (ok tt, record s { ledger = insert tenant_id evidence s.ledger })

unfoldable pub record_evidence : Text → DistinctnessEvidence → M (Unit {0})
unfolding record_if_free
record_evidence tenant_id evidence = update (record_if_free tenant_id evidence)

unfoldable pub evidence_excluding : Text → M (Dict DistinctnessEvidence)
evidence_excluding tenant_id = gets (λ s. erase tenant_id s.ledger)

unfoldable pub remove_evidence : Text → M (Unit {0})
remove_evidence tenant_id = update (λ s. (ok tt, record s { ledger = erase tenant_id s.ledger }))
