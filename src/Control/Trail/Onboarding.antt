-- ===== src/Control/Trail/Onboarding.antt =====
-- Onboarding, resumption and recovery follow the lifecycle graph.
use snack_portal.Common.{Bool, true, false, Option, none, some}
use snack_portal.Common.Text.{Text}
use snack_portal.Control.Records.{TenantLifecycleState, SecretRef, TenantRecord, state_eq}
use snack_portal.Control.World.{Result, ok, raised, Context}
use snack_portal.Control.Ports.{Ports, call_provision, call_apply_schema}
use snack_portal.Control.Store.{list_audit}
use snack_portal.Control.Distinctness.{DistinctnessOutcome}
use snack_portal.Control.Provisioning.{Gate}
use snack_portal.Control.Onboarding.{
  associate_and_verify, after_apply, after_provision, provision_apply_verify, close_recovery,
  resume, recover_classified, recover, onboard_fresh, onboard_existing, fenced, fence, onboard,
}
use snack_portal.Control.Trail.Step.{
  Keeps, nothing, AnyResult, Keeps-bind, Keeps-then, Keeps-if, Keeps-pure-nothing, Keeps-raise,
  Keeps-raise_if, Keeps-or_raise, Keeps-forget, Keeps-call, Keeps-note, Keeps-gets,
  Keeps-get_tenant, Keeps-event, Keeps-attempt-nothing,
}
use snack_portal.Control.Trail.Registry.{
  Keeps-register_tenant, Keeps-mark_provisioning, Keeps-quarantine_tenant,
}
use snack_portal.Control.Trail.Verify.{Keeps-verify}

module _ (ports : Ports) (gate : Gate) (ctx : Context) (i : Text) where
  Keeps-associate_and_verify : Keeps none (associate_and_verify ports gate ctx i) nothing AnyResult
  unfolding associate_and_verify
  Keeps-associate_and_verify = Keeps-then (Keeps-event ports ctx _ _) λ _.
      Keeps-then (Keeps-event ports ctx _ _)
        λ _. Keeps-then (Keeps-event ports ctx _ _) λ _. Keeps-verify ports ctx gate i

  Keeps-after_apply :
      (r : Result (Unit {0})) → Keeps none (after_apply ports gate ctx i r) nothing AnyResult
  unfolding after_apply
  Keeps-after_apply (ok _) = Keeps-associate_and_verify
  Keeps-after_apply (raised e) =
      Keeps-then (Keeps-event ports ctx _ _) λ _. Keeps-pure-nothing none _

  Keeps-after_provision :
      (target : Text) (ref : SecretRef) (r : Result (Unit {0}))
      → Keeps none (after_provision ports gate ctx i target ref r) nothing AnyResult
  unfolding after_provision call_apply_schema
  Keeps-after_provision target ref (ok _) = Keeps-then (Keeps-event ports ctx _ _) λ _.
      Keeps-then (Keeps-event ports ctx _ _) λ _.
        Keeps-then (Keeps-attempt-nothing (Keeps-then (Keeps-note _) λ _. Keeps-call _))
          λ r. Keeps-after_apply r
  Keeps-after_provision target ref (raised e) =
      Keeps-then (Keeps-event ports ctx _ _) λ _. Keeps-pure-nothing none _

  Keeps-provision_apply_verify :
      (target : Text) (ref : SecretRef)
      → Keeps none (provision_apply_verify ports gate ctx i target ref) nothing AnyResult
  unfolding provision_apply_verify call_provision
  Keeps-provision_apply_verify target ref = Keeps-then (Keeps-event ports ctx _ _) λ _.
      Keeps-then (Keeps-attempt-nothing (Keeps-then (Keeps-note _) λ _. Keeps-call _))
        λ r. Keeps-after_provision target ref r

  Keeps-close_recovery :
      (r : Result DistinctnessOutcome)
      → Keeps none (close_recovery ports gate ctx i r) nothing AnyResult
  unfolding close_recovery
  Keeps-close_recovery (ok o) =
      Keeps-then (Keeps-event ports ctx _ _) λ _. Keeps-pure-nothing none o
  Keeps-close_recovery (raised e) = Keeps-then (Keeps-event ports ctx _ _) λ _. Keeps-raise e

  Keeps-recover_classified :
      (anomaly : Bool) → Keeps none (recover_classified ports gate ctx i anomaly) nothing AnyResult
  unfolding recover_classified
  Keeps-recover_classified true = Keeps-then (Keeps-quarantine_tenant ports ctx i) λ _.
      Keeps-then (Keeps-event ports ctx _ _)
        λ _. Keeps-then (Keeps-event ports ctx _ _) λ _. Keeps-pure-nothing none _
  Keeps-recover_classified false =
      Keeps-then (Keeps-attempt-nothing (Keeps-verify ports ctx gate i)) λ r. Keeps-close_recovery r

  pub Keeps-recover : Keeps none (recover ports gate ctx i) nothing AnyResult
  unfolding recover list_audit
  Keeps-recover = Keeps-bind (Keeps-get_tenant i) λ found _.
      Keeps-bind (Keeps-or_raise found _) λ rec _. Keeps-bind (Keeps-raise_if _ _) λ _ _.
        Keeps-forget (
          Keeps-then (Keeps-event ports ctx _ _)
            λ _. Keeps-then (Keeps-gets _) λ records. Keeps-recover_classified _)

module _ (ports : Ports) (gate : Gate) (ctx : Context) where
  Keeps-resume :
      (rec : TenantRecord) (target : Text)
      → Keeps none (resume ports gate ctx rec target) nothing AnyResult
  unfolding resume
  Keeps-resume rec target = Keeps-then (Keeps-event ports ctx _ _) λ _.
      Keeps-then
        (Keeps-attempt-nothing (Keeps-provision_apply_verify ports gate ctx rec.tenant_id target _))
        λ r. Keeps-close_recovery ports gate ctx rec.tenant_id r

  Keeps-onboard_fresh :
      (i org federation schema : Text)
      → Keeps none (onboard_fresh ports gate ctx i org federation schema) nothing AnyResult
  unfolding onboard_fresh
  Keeps-onboard_fresh i org federation schema =
      Keeps-then (Keeps-register_tenant ports ctx i org schema _ federation) λ _.
        Keeps-then (Keeps-mark_provisioning ports ctx i)
          λ _. Keeps-provision_apply_verify ports gate ctx i _ _

  Keeps-onboard_existing :
      (rec : TenantRecord) (target : Text)
      → Keeps none (onboard_existing ports gate ctx rec target) nothing AnyResult
  unfolding onboard_existing fenced
  Keeps-onboard_existing rec target = by_state rec.lifecycle_state
    where
      by_state :
          (s : TenantLifecycleState)
          → Keeps none (fenced ports gate ctx rec target s) nothing AnyResult
      by_state TenantLifecycleState.provisioning = Keeps-resume rec target
      by_state TenantLifecycleState.ready = Keeps-pure-nothing none _
      by_state _ = Keeps-pure-nothing none _

  Keeps-fence :
      (i org federation schema : Text) (found : Option TenantRecord)
      → Keeps none (fence ports gate ctx i org federation schema found) nothing AnyResult
  unfolding fence
  Keeps-fence i org federation schema none = Keeps-onboard_fresh i org federation schema
  Keeps-fence i org federation schema (some rec) =
      Keeps-if (state_eq rec.lifecycle_state TenantLifecycleState.registered)
        (λ _. Keeps-onboard_fresh i org federation schema) (λ _. Keeps-onboard_existing rec _)

  pub Keeps-onboard :
      (i org federation schema : Text)
      → Keeps none (onboard ports gate ctx i org federation schema) nothing AnyResult
  unfolding onboard
  Keeps-onboard i org federation schema =
      Keeps-bind (Keeps-get_tenant i)
        λ found _. Keeps-forget (Keeps-fence i org federation schema found)
