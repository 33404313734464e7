-- ===== src/Control/Trail/Verify.antt =====
-- The whole gate, its re-association and the routing companion follow the lifecycle graph.
use snack_portal.Common.{◌≡◌, refl, true, false, not, Option, none, some}
use snack_portal.Common.Text.{Text, text_eq}
use snack_portal.Control.Records.{
  TenantLifecycleState, SecretRef, TenantRecord, Action, DistinctnessEvidence,
}
use snack_portal.Control.World.{Context}
use snack_portal.Control.Ports.{Ports, ProbeResult, call_invalidate}
use snack_portal.Control.Store.{now_iso}
use snack_portal.Control.Distinctness.{DistinctnessResult, DistinctnessOutcome, secret_ref_key}
use snack_portal.Control.Provisioning.{
  Gate, Entry, entered, yielded, schema_matches, fail, accept, reject, decide, check_distinctness,
  check_probe, after_enter, verify, reassociate, invalidate, disable_routing,
}
use snack_portal.Control.Trail.Step.{
  Keeps, nothing, AnyResult, Keeps-bind, Keeps-then, Keeps-if, Keeps-pure-nothing, Keeps-raise_if,
  Keeps-attempt_all, Keeps-call, Keeps-note, Keeps-event,
}
use snack_portal.Control.Trail.Commit.{Keeps-swap_attempted}
use snack_portal.Control.Trail.Gate.{
  know_entered, FactEntered, edge_from_accepted, edge_from_associated, Keeps-record_evidence,
  Keeps-remove_evidence, Keeps-evidence_excluding, Keeps-require, Keeps-fail, Keeps-enter_verifying,
  Keeps-after_recording,
}

module _ (ports : Ports) (ctx : Context) where
  Keeps-accept :
      (i : Text) (rec : TenantRecord) (o : DistinctnessOutcome) (e : DistinctnessEvidence)
      → rec.lifecycle_state ≡ TenantLifecycleState.verifying
      → Keeps (some rec) (accept ports ctx i rec o e) nothing AnyResult
  unfolding accept
  Keeps-accept i rec o e state =
      Keeps-bind (Keeps-attempt_all (Keeps-record_evidence i e))
        λ r _. Keeps-after_recording ports ctx i rec o r state

  Keeps-reject :
      (i : Text) (rec : TenantRecord) (o : DistinctnessOutcome)
      → rec.lifecycle_state ≡ TenantLifecycleState.verifying
      → Keeps (some rec) (reject ports ctx i rec o) nothing AnyResult
  unfolding reject
  Keeps-reject i rec o state =
      Keeps-bind (Keeps-remove_evidence i)
        λ _ _. Keeps-bind (by_result o.result) λ _ _. Keeps-pure-nothing none o
    where
      by_result :
          (r : DistinctnessResult)
          → Keeps
              (some rec)
              (elim r [
                | DistinctnessResult.isolation_anomaly ↦
                    fail ports ctx rec o.result o.reason Action.distinctness_verification_failed
                      true
                | DistinctnessResult.verification_incomplete ↦
                    fail ports ctx rec o.result o.reason Action.verification_incomplete false
                | _ ↦
                    fail ports ctx rec o.result o.reason Action.distinctness_verification_failed
                      false
              ])
              nothing
              AnyResult
      by_result DistinctnessResult.isolation_anomaly = Keeps-fail ports ctx rec _ _ _ _ state
      by_result _ = Keeps-fail ports ctx rec _ _ _ _ state

  Keeps-decide :
      (i : Text) (rec : TenantRecord) (e : Option DistinctnessEvidence) (o : DistinctnessOutcome)
      → rec.lifecycle_state ≡ TenantLifecycleState.verifying
      → Keeps (some rec) (decide ports ctx i rec e o) nothing AnyResult
  unfolding decide
  Keeps-decide i rec none o state = Keeps-reject i rec o state
  Keeps-decide i rec (some e) o state = by_result o.result
    where
      by_result :
          (r : DistinctnessResult)
          → Keeps
              (some rec)
              (elim r [
                | DistinctnessResult.verified ↦ accept ports ctx i rec o e
                | _ ↦ reject ports ctx i rec o
              ])
              nothing
              AnyResult
      by_result DistinctnessResult.verified = Keeps-accept i rec o e state
      by_result _ = Keeps-reject i rec o state

  module _ (gate : Gate) where
    Keeps-check_distinctness :
        (i : Text) (rec : TenantRecord)
        → rec.lifecycle_state ≡ TenantLifecycleState.verifying
        → Keeps (some rec) (check_distinctness ports gate ctx i rec) nothing AnyResult
    unfolding check_distinctness
    Keeps-check_distinctness i rec state = Keeps-bind (Keeps-call _) λ token _.
        Keeps-bind (Keeps-call _) λ evidence _.
          Keeps-bind (Keeps-evidence_excluding i) λ inventory _. Keeps-decide i rec _ _ state

    Keeps-check_probe :
        (i : Text) (rec : TenantRecord) (p : ProbeResult)
        → rec.lifecycle_state ≡ TenantLifecycleState.verifying
        → Keeps (some rec) (check_probe ports gate ctx i rec p) nothing AnyResult
    unfolding check_probe
    Keeps-check_probe i rec p state =
        Keeps-if (not p.reachable) (λ _. Keeps-fail ports ctx rec _ _ _ _ state)
          λ _.
            Keeps-if
              (not (
                schema_matches gate.supported rec.expected_schema_version
                  p.observed_schema_version))
              (λ _. Keeps-fail ports ctx rec _ _ _ _ state)
              λ _.
                Keeps-if
                  (text_eq (secret_ref_key rec.database_association_ref)
                    gate.control.secret_ref_key)
                  (λ _. Keeps-fail ports ctx rec _ _ _ _ state)
                  (λ _. Keeps-check_distinctness i rec state)

    Keeps-after_enter :
        (i : Text) (e : Entry)
        → FactEntered i e
        → Keeps (know_entered e) (after_enter ports gate ctx i e) nothing AnyResult
    unfolding after_enter
    Keeps-after_enter i yielded fact = Keeps-pure-nothing none _
    Keeps-after_enter i (entered rec) fact =
        Keeps-bind (Keeps-call _) λ p _. Keeps-check_probe i rec p fact.1

    pub Keeps-verify : (i : Text) → Keeps none (verify ports gate ctx i) nothing AnyResult
    unfolding verify
    Keeps-verify i = Keeps-bind (Keeps-require i) λ rec own.
        Keeps-bind (Keeps-raise_if _ _) λ _ accepted.
          Keeps-bind
            (Keeps-enter_verifying ports ctx i rec own
              (edge_from_accepted ports ctx rec.lifecycle_state accepted))
            λ entry fact. Keeps-after_enter i entry fact

    Keeps-invalidate : (i : Text) → Keeps none (invalidate ports ctx i) nothing AnyResult
    unfolding invalidate call_invalidate
    Keeps-invalidate i =
        Keeps-then (Keeps-then (Keeps-note _) λ _. Keeps-call _) λ _. Keeps-event ports ctx _ _

    pub Keeps-reassociate :
        (i : Text) (ref : SecretRef)
        → Keeps none (reassociate ports gate ctx i ref) nothing AnyResult
    unfolding reassociate now_iso
    Keeps-reassociate i ref = Keeps-bind (Keeps-require i) λ rec own.
        Keeps-bind (Keeps-raise_if _ _) λ _ accepted. Keeps-bind (Keeps-call _) λ ts _.
          Keeps-swap_attempted ports ctx i Action.database_associated rec
            (record rec {
              database_association_ref = ref;
              lifecycle_state = TenantLifecycleState.verifying;
              updated_at = ts;
            })
            own refl (edge_from_associated ports ctx rec.lifecycle_state accepted) _
            (Keeps-then (Keeps-event ports ctx _ _) λ _.
              Keeps-then (Keeps-event ports ctx _ _)
                λ _. Keeps-then (Keeps-invalidate i) λ _. Keeps-verify i)

    pub Keeps-disable_routing :
        (i : Text) → Keeps none (disable_routing ports ctx i) nothing AnyResult
    unfolding disable_routing
    Keeps-disable_routing i =
        Keeps-then (Keeps-remove_evidence i)
          λ _. Keeps-then (Keeps-event ports ctx _ _) λ _. Keeps-invalidate i
