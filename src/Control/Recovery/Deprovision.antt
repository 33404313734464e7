-- ===== src/Control/Recovery/Deprovision.antt =====
-- `deprovision_tenant_database` and `_proven_deprovision` of recovery.py.
use snack_portal.Common.{Bool, true, false, Option, none, some, List, [], if◌then◌else◌}
use snack_portal.Common.Text.{Text, text_eq}
use snack_portal.Common.Dict.{lookup}
use snack_portal.Control.Records.{TenantRecord, Action, DistinctnessEvidence}
use snack_portal.Control.World.{M, World, Result, ok, raised, attempt, call, Context}
use snack_portal.Control.Ports.{Ports, DatabaseInspection, call_deprovision}
use snack_portal.Control.Store.{get_tenant, event}
use snack_portal.Control.Distinctness.{evidence_excluding}
use snack_portal.Control.Provisioning.{tenant_database_name}
use snack_portal.Control.Onboarding.{tenant_id_from_dsn_ref}
use snack_portal.Control.Census.{Content, classify_content, inspection_fingerprint}
use snack_portal.Control.Recovery.{
  Refusal, DeprovisionOutcome, own_mismatch, non_content_proof, quarantine_where_applicable,
}
use snack_portal.Control.Recovery.Latch.{L, ◌>>=◌, ◌>>◌, pure, lift, set_latch}

abbrev pub completed_outcome : Text → Text → Bool → Refusal → DeprovisionOutcome
completed_outcome tenant_id target was_dropped why = record {
  tenant_id = tenant_id;
  target = target;
  dropped = was_dropped;
  completed = true;
  reason = why;
}

abbrev pub refused_outcome : Text → Text → Refusal → DeprovisionOutcome
refused_outcome tenant_id target why = record {
  tenant_id = tenant_id;
  target = target;
  dropped = false;
  completed = false;
  reason = why;
}

-- Element 3, the canonical shape of the association reference.
unfoldable pub reference_proof : Text → Option TenantRecord → Option Refusal
reference_proof tenant_id none = some Refusal.unknown_tenant
reference_proof tenant_id (some rec) =
    elim (tenant_id_from_dsn_ref rec.database_association_ref.store_ref) [
      | none ↦ some Refusal.non_canonical_ref
      | some t ↦ if text_eq t tenant_id then none else some Refusal.non_canonical_ref
    ]

module _ (ports : Ports) (supported : List Text) where
  -- `_fail`
  unfoldable pub refuse : Context → Text → Text → Refusal → Bool → L DeprovisionOutcome
  refuse ctx tenant_id target reason quarantine = do
    lift (quarantine_where_applicable ports ctx tenant_id reason quarantine)
    set_latch
    lift (event ports ctx tenant_id Action.tenant_deprovision_failed)
    pure (refused_outcome tenant_id target reason)

  -- The terminal record of a request that has been carried out.
  unfoldable pub complete : Context → Text → Text → Bool → Refusal → L DeprovisionOutcome
  complete ctx tenant_id target was_dropped reason = do
    set_latch
    lift (event ports ctx tenant_id Action.tenant_deprovision_completed)
    pure (completed_outcome tenant_id target was_dropped reason)

  unfoldable pub after_drop : Context → Text → Text → Result (Unit {0}) → L DeprovisionOutcome
  after_drop ctx tenant_id target (ok _) = complete ctx tenant_id target true Refusal.deprovisioned
  after_drop ctx tenant_id target (raised e) =
      refuse ctx tenant_id target Refusal.deprovision_failed false

  -- The destructive step, behind its last proof.
  unfoldable pub drop_proven : Context → Text → Text → Option Refusal → L DeprovisionOutcome
  drop_proven ctx tenant_id target (some reason) = refuse ctx tenant_id target reason true
  drop_proven ctx tenant_id target none = do
    dropped ← lift (attempt (call_deprovision ports target))
    after_drop ctx tenant_id target dropped

  -- What the census says of the database that was found.
  unfoldable pub by_content :
      Context → Text → Text → DatabaseInspection → Content → L DeprovisionOutcome
  by_content ctx tenant_id target inspection Content.non_empty =
      refuse ctx tenant_id target Refusal.content_not_empty true
  by_content ctx tenant_id target inspection _ = do
    failure ←
        lift (non_content_proof ports tenant_id target (some (inspection_fingerprint inspection)))
    drop_proven ctx tenant_id target failure

  unfoldable pub check_content :
      Context
      → Text
      → Text
      → DatabaseInspection
      → Option DistinctnessEvidence
      → L DeprovisionOutcome
  check_content ctx tenant_id target inspection own =
      if own_mismatch target (inspection_fingerprint inspection) own
      then refuse ctx tenant_id target Refusal.fingerprint_mismatch true
      else by_content ctx tenant_id target inspection (classify_content supported inspection)

  unfoldable pub after_inspection :
      Context → Text → Text → Option DatabaseInspection → L DeprovisionOutcome
  after_inspection ctx tenant_id target none =
      refuse ctx tenant_id target Refusal.inspection_unavailable true
  after_inspection ctx tenant_id target (some inspection) = do
    everything ← lift (evidence_excluding [])
    check_content ctx tenant_id target inspection (lookup tenant_id everything)

  unfoldable pub after_exists : Context → Text → Text → Option Bool → L DeprovisionOutcome
  after_exists ctx tenant_id target none =
      refuse ctx tenant_id target Refusal.inspection_unavailable true
  after_exists ctx tenant_id target (some false) =
      complete ctx tenant_id target false Refusal.absent_noop
  after_exists ctx tenant_id target (some true) = do
    inspection ← lift (call (λ n. ports.inspect_database n target))
    after_inspection ctx tenant_id target inspection

  unfoldable pub after_proof : Context → Text → Text → Option Refusal → L DeprovisionOutcome
  after_proof ctx tenant_id target (some reason) = refuse ctx tenant_id target reason true
  after_proof ctx tenant_id target none = do
    exists ← lift (call (λ n. ports.database_exists n target))
    after_exists ctx tenant_id target exists

  -- Element 3, which reads the registry once more.
  unfoldable pub prove_reference : Text → Option Refusal → L (Option Refusal)
  prove_reference tenant_id (some reason) = pure (some reason)
  prove_reference tenant_id none = do
    found ← lift (get_tenant tenant_id)
    pure (reference_proof tenant_id found)

  -- `_proven_deprovision`
  unfoldable pub proven_deprovision : Context → Text → Text → L DeprovisionOutcome
  proven_deprovision ctx tenant_id target = do
    first ← lift (non_content_proof ports tenant_id target none)
    failure ← prove_reference tenant_id first
    after_proof ctx tenant_id target failure

  -- The handler around it: on an exception, one terminal record unless one was attempted.
  unfoldable pub close_request :
      Context → Text → Result DeprovisionOutcome × Bool × World → Result DeprovisionOutcome × World
  close_request ctx tenant_id (ok o, latch, w) = (ok o, w)
  close_request ctx tenant_id (raised e, true, w) = (raised e, w)
  close_request ctx tenant_id (raised e, false, w) =
      let (_, w') = event ports ctx tenant_id Action.tenant_deprovision_failed w in (raised e, w')

  unfoldable pub deprovision_tenant_database : Context → Text → M DeprovisionOutcome
  deprovision_tenant_database ctx tenant_id w =
      let (_, w') = event ports ctx tenant_id Action.tenant_deprovision_requested w in
      close_request ctx tenant_id
        (proven_deprovision ctx tenant_id (tenant_database_name tenant_id) false w')
