-- ===== src/Control/Trail/Recovery.antt =====
-- Compensation follows the lifecycle graph.
use snack_portal.Common.{Bool, true, false, not, ◌&&◌, Option, none, some, List, [], if◌then◌else◌}
use snack_portal.Common.Text.{Text, text_eq, starts_with}
use snack_portal.Common.Dict.{lookup}
use snack_portal.Control.Records.{TenantRecord, Action, DistinctnessEvidence, Shared}
use snack_portal.Control.World.{World, M, Result, ok, raised, Context}
use snack_portal.Control.Ports.{Ports, DatabaseInspection, call_deprovision}
use snack_portal.Control.Store.{event}
use snack_portal.Control.Registry.{in_states}
use snack_portal.Control.Provisioning.{default_tenant_db_prefix, tenant_database_name}
use snack_portal.Control.Census.{Content, inspection_fingerprint}
use snack_portal.Control.Recovery.{
  Refusal, DeprovisionOutcome, own_mismatch, evidence_identifies, is_anomaly_reason,
  deprovision_eligible_states, quarantine_eligible_states, ledger_proof, control_proof,
  record_proof, non_content_proof, quarantine_found, quarantine_where_applicable,
}
use snack_portal.Control.Recovery.Latch.{L, ◌>>=◌, pure, lift, set_latch}
use snack_portal.Control.Recovery.Deprovision.{
  refuse, complete, after_drop, drop_proven, by_content, check_content, after_inspection,
  after_exists, after_proof, prove_reference, proven_deprovision, close_request,
  deprovision_tenant_database,
}
use snack_portal.Control.Trail.Sound.{IsSafe}
use snack_portal.Control.Trail.Step.{
  Keeps, nothing, AnyResult, After-nothing, Keeps-bind, Keeps-then, Keeps-if, Keeps-pure-nothing,
  Keeps-forget, Keeps-weaken, Keeps-attempt-nothing, Keeps-call, Keeps-note, Keeps-get_tenant,
  Keeps-event,
}
use snack_portal.Control.Trail.Registry.{Keeps-quarantine_tenant}
use snack_portal.Control.Trail.Gate.{Keeps-evidence_excluding}

-- A call under the latch keeps the tables in agreement.
pub record KeepsLatched {A : Type 0} (m : L A) : Type 0 where
  pub at : (base : Shared) (b : Bool) (w : World) → IsSafe base w → IsSafe base (m b w).2

after_latched :
    {A B : Type 0} (base : Shared) (f : A → L B) (r : Result A) (b : Bool) (w : World)
    → IsSafe base w
    → ((a : A) → KeepsLatched (f a))
    → IsSafe base (◌>>=◌ (λ c v. (r, b, w)) f b w).2
unfolding ◌>>=◌
after_latched base f (ok a) b w safe kf = (kf a).at base b w safe
after_latched base f (raised e) b w safe kf = safe

Latched-bind :
    {A B : Type 0} {m : L A} {f : A → L B}
    → KeepsLatched m
    → ((a : A) → KeepsLatched (f a))
    → KeepsLatched (m >>= f)
unfolding ◌>>=◌
Latched-bind {m = m} {f = f} km kf = record {
  at = λ base b w safe.
      let (r, b', w') = m b w in after_latched base f r b' w' (km.at base b w safe) kf;
}

Latched-lift : {A : Type 0} {m : M A} → Keeps none m nothing AnyResult → KeepsLatched (lift m)
unfolding ◌>>=◌
Latched-lift {m = m} km = record {
  at = λ base b w safe. After-nothing base (m w) (km.at base w safe tt);
}

Latched-pure : {A : Type 0} (a : A) → KeepsLatched (pure a)
unfolding ◌>>=◌
Latched-pure a = record { at = λ base b w safe. safe }

Latched-set : KeepsLatched set_latch
unfolding ◌>>=◌
Latched-set = record { at = λ base b w safe. safe }

Latched-if :
    {A : Type 0} {m n : L A} (b : Bool)
    → KeepsLatched m
    → KeepsLatched n
    → KeepsLatched (if b then m else n)
Latched-if true km kn = km
Latched-if false km kn = kn

module _ (ports : Ports) where
  Keeps-ledger_proof :
      (i target : Text) (print : Option Text)
      → Keeps none (ledger_proof ports i target print) nothing AnyResult
  unfolding ledger_proof
  Keeps-ledger_proof i target none = Keeps-then (Keeps-evidence_excluding i) λ others.
      Keeps-if (evidence_identifies target none others) (λ _. Keeps-pure-nothing none _)
        (λ _. Keeps-pure-nothing none _)
  Keeps-ledger_proof i target (some f) = Keeps-then (Keeps-evidence_excluding i) λ others.
      Keeps-if (evidence_identifies target (some f) others) (λ _. Keeps-pure-nothing none _)
        (λ _. Keeps-then (Keeps-evidence_excluding []) λ everything. Keeps-pure-nothing none _)

  Keeps-control_proof :
      (i target : Text) (print control : Option Text)
      → Keeps none (control_proof ports i target print control) nothing AnyResult
  unfolding control_proof
  Keeps-control_proof i target print none = Keeps-pure-nothing none _
  Keeps-control_proof i target print (some name) =
      Keeps-if (text_eq target name) (λ _. Keeps-pure-nothing none _)
        (λ _. Keeps-ledger_proof i target print)

  Keeps-record_proof :
      (i target : Text) (print : Option Text) (found : Option TenantRecord)
      → Keeps none (record_proof ports i target print found) nothing AnyResult
  unfolding record_proof
  Keeps-record_proof i target print none = Keeps-pure-nothing none _
  Keeps-record_proof i target print (some rec) =
      Keeps-if (not (in_states rec.lifecycle_state deprovision_eligible_states))
        (λ _. Keeps-pure-nothing none _)
        λ _.
          Keeps-if (not (starts_with default_tenant_db_prefix target))
            (λ _. Keeps-pure-nothing none _)
            λ _. Keeps-then (Keeps-call _) λ name. Keeps-control_proof i target print name

  Keeps-non_content_proof :
      (i target : Text) (print : Option Text)
      → Keeps none (non_content_proof ports i target print) nothing AnyResult
  unfolding non_content_proof
  Keeps-non_content_proof i target print =
      Keeps-bind (Keeps-get_tenant i)
        λ found _. Keeps-forget (Keeps-record_proof i target print found)

  Keeps-quarantine_found :
      (ctx : Context) (i : Text) (found : Option TenantRecord)
      → Keeps none (quarantine_found ports ctx i found) nothing AnyResult
  unfolding quarantine_found
  Keeps-quarantine_found ctx i none = Keeps-pure-nothing none tt
  Keeps-quarantine_found ctx i (some rec) =
      Keeps-if (in_states rec.lifecycle_state quarantine_eligible_states)
        (λ _. Keeps-then (Keeps-quarantine_tenant ports ctx i) λ _. Keeps-event ports ctx _ _)
        (λ _. Keeps-pure-nothing none tt)

  Keeps-quarantine_where_applicable :
      (ctx : Context) (i : Text) (reason : Refusal) (quarantine : Bool)
      → Keeps none (quarantine_where_applicable ports ctx i reason quarantine) nothing AnyResult
  unfolding quarantine_where_applicable
  Keeps-quarantine_where_applicable ctx i reason quarantine =
      Keeps-if (quarantine && is_anomaly_reason reason)
        (λ _.
          Keeps-bind (Keeps-get_tenant i)
            λ found _. Keeps-forget (Keeps-quarantine_found ctx i found))
        (λ _. Keeps-pure-nothing none tt)

  module _ (supported : List Text) (ctx : Context) (i target : Text) where
    Latched-refuse :
        (reason : Refusal) (quarantine : Bool)
        → KeepsLatched (refuse ports supported ctx i target reason quarantine)
    unfolding refuse
    Latched-refuse reason quarantine =
        Latched-bind (Latched-lift (Keeps-quarantine_where_applicable ctx i reason quarantine)) λ _.
          Latched-bind Latched-set
            λ _. Latched-bind (Latched-lift (Keeps-event ports ctx _ _)) λ _. Latched-pure _

    Latched-complete :
        (dropped : Bool) (reason : Refusal)
        → KeepsLatched (complete ports supported ctx i target dropped reason)
    unfolding complete
    Latched-complete dropped reason =
        Latched-bind Latched-set
          λ _. Latched-bind (Latched-lift (Keeps-event ports ctx _ _)) λ _. Latched-pure _

    Latched-after_drop :
        (r : Result (Unit {0})) → KeepsLatched (after_drop ports supported ctx i target r)
    unfolding after_drop
    Latched-after_drop (ok _) = Latched-complete true Refusal.deprovisioned
    Latched-after_drop (raised e) = Latched-refuse Refusal.deprovision_failed false

    Latched-drop_proven :
        (failure : Option Refusal) → KeepsLatched (drop_proven ports supported ctx i target failure)
    unfolding drop_proven call_deprovision
    Latched-drop_proven (some reason) = Latched-refuse reason true
    Latched-drop_proven none =
        Latched-bind
          (Latched-lift (Keeps-attempt-nothing (Keeps-then (Keeps-note _) λ _. Keeps-call _)))
          λ r. Latched-after_drop r

    Latched-by_content :
        (inspection : DatabaseInspection) (c : Content)
        → KeepsLatched (by_content ports supported ctx i target inspection c)
    unfolding by_content
    Latched-by_content inspection Content.non_empty = Latched-refuse Refusal.content_not_empty true
    Latched-by_content inspection _ =
        Latched-bind (Latched-lift (Keeps-non_content_proof i target _))
          λ failure. Latched-drop_proven failure

    Latched-check_content :
        (inspection : DatabaseInspection) (own : Option DistinctnessEvidence)
        → KeepsLatched (check_content ports supported ctx i target inspection own)
    unfolding check_content
    Latched-check_content inspection own =
        Latched-if (own_mismatch target (inspection_fingerprint inspection) own)
          (Latched-refuse Refusal.fingerprint_mismatch true) (Latched-by_content inspection _)

    Latched-after_inspection :
        (found : Option DatabaseInspection)
        → KeepsLatched (after_inspection ports supported ctx i target found)
    unfolding after_inspection
    Latched-after_inspection none = Latched-refuse Refusal.inspection_unavailable true
    Latched-after_inspection (some inspection) =
        Latched-bind (Latched-lift (Keeps-evidence_excluding []))
          λ everything. Latched-check_content inspection (lookup i everything)

    Latched-after_exists :
        (exists : Option Bool) → KeepsLatched (after_exists ports supported ctx i target exists)
    unfolding after_exists
    Latched-after_exists none = Latched-refuse Refusal.inspection_unavailable true
    Latched-after_exists (some false) = Latched-complete false Refusal.absent_noop
    Latched-after_exists (some true) =
        Latched-bind (Latched-lift (Keeps-call _)) λ inspection. Latched-after_inspection inspection

    Latched-after_proof :
        (failure : Option Refusal) → KeepsLatched (after_proof ports supported ctx i target failure)
    unfolding after_proof
    Latched-after_proof (some reason) = Latched-refuse reason true
    Latched-after_proof none =
        Latched-bind (Latched-lift (Keeps-call _)) λ exists. Latched-after_exists exists

    Latched-prove_reference :
        (first : Option Refusal) → KeepsLatched (prove_reference ports supported i first)
    unfolding prove_reference
    Latched-prove_reference (some reason) = Latched-pure _
    Latched-prove_reference none =
        Latched-bind (Latched-lift (Keeps-weaken (Keeps-get_tenant i))) λ found. Latched-pure _

    Latched-proven_deprovision : KeepsLatched (proven_deprovision ports supported ctx i target)
    unfolding proven_deprovision
    Latched-proven_deprovision =
        Latched-bind (Latched-lift (Keeps-non_content_proof i target none)) λ first.
          Latched-bind (Latched-prove_reference first) λ failure. Latched-after_proof failure

  close_request-IsSafe :
      (ctx : Context) (supported : List Text) (i : Text) (base : Shared)
      (r : Result DeprovisionOutcome × Bool × World)
      → IsSafe base r.2
      → IsSafe base (close_request ports supported ctx i r).1
  unfolding close_request
  close_request-IsSafe ctx supported i base (ok o, latch, w) safe = safe
  close_request-IsSafe ctx supported i base (raised e, true, w) safe = safe
  close_request-IsSafe ctx supported i base (raised e, false, w) safe =
      After-nothing base (event ports ctx i Action.tenant_deprovision_failed w)
        ((Keeps-event {k = none} ports ctx i Action.tenant_deprovision_failed).at base w safe tt)

  pub deprovision-IsSafe :
      (ctx : Context) (supported : List Text) (i : Text) (base : Shared) (w : World)
      → IsSafe base w
      → IsSafe base (deprovision_tenant_database ports supported ctx i w).1
  unfolding deprovision_tenant_database
  deprovision-IsSafe ctx supported i base w safe =
      let asked = event ports ctx i Action.tenant_deprovision_requested w in
      close_request-IsSafe ctx supported i base _ (
        (Latched-proven_deprovision supported ctx i (tenant_database_name i)).at base false asked.1
          (After-nothing base asked (
            (Keeps-event {k = none} ports ctx i Action.tenant_deprovision_requested).at base w safe
              tt)))
