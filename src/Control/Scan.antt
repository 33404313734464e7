-- ===== src/Control/Scan.antt =====
-- The orphan scan (`OrphanScanService` of backend/control_plane/recovery.py).
pub mod Safety
pub mod Reads
use snack_portal.Common.{
  ℕ, Bool, true, false, ◌&&◌, ◌||◌, not, Option, none, some, List, [], ◌∷◌, ◌++◌, if◌then◌else◌,
  any, ltb, ◌==◌, map,
}
use snack_portal.Common.Text.{Text, text_eq, is_empty, strip_prefix}
use snack_portal.Common.Dict.{Dict, lookup}
use snack_portal.Control.Records.{TenantLifecycleState, TenantRecord, DistinctnessEvidence}
use snack_portal.Control.World.{M, Result, Error, ◌>>=◌, pure, or_raise, call, gets}
use snack_portal.Control.Ports.{Ports, DatabaseInspection}
use snack_portal.Control.Store.{get_tenant}
use snack_portal.Control.Registry.{in_states}
use snack_portal.Control.Distinctness.{fingerprint, evidence_excluding}
use snack_portal.Control.Provisioning.{default_tenant_db_prefix, tenant_database_name}
use snack_portal.Control.Onboarding.{tenant_id_from_dsn_ref}
use snack_portal.Control.Census.{Content, classify_content, inspection_fingerprint}
use snack_portal.Control.Recovery.{deprovision_eligible_states}

-- `REF_*`
pub data RefStatus : Type 0 where
  canonical non_canonical no_record : RefStatus

-- `CLASS_*`
pub data Classification : Type 0 where
  eligible_empty eligible_bootstrap_only non_empty_evidence active_tenant : Classification
  no_registry_record registry_no_database ledger_collision fingerprint_mismatch : Classification
  control_db_target uninspectable : Classification

-- `ACTION_*`
pub data Recommended : Type 0 where
  explicit_deprovision preserve_evidence manual_review no_action : Recommended

-- The sentences of the field `reason`, in the order of the source.
pub data ScanReason : Type 0 where
  database_absent census_unavailable resolves_to_control without_record : ScanReason
  identified_by_other identity_disagrees not_eligible evidence_kept : ScanReason
  reference_not_canonical preconditions_hold : ScanReason

pub record OrphanScanEntry : Type 0 where
  pub tenant_id : Option Text
  pub database_name : Text
  pub registry_state : Option TenantLifecycleState
  pub association_ref_status : RefStatus
  pub content_class : Option Content
  pub ledger_conflict : Bool
  pub fingerprint_mismatch : Bool
  pub control_db_target : Bool
  pub classification : Classification
  pub recommended_action : Recommended
  pub safe_to_deprovision : Bool
  pub reason : ScanReason

-- What the chain of tests of `_classify_database` decides together.
pub record Verdict : Type 0 where
  pub classification : Classification
  pub action : Recommended
  pub safe : Bool
  pub reason : ScanReason

abbrev pub verdict : Classification → Recommended → Bool → ScanReason → Verdict
verdict c a s r = record { classification = c; action = a; safe = s; reason = r }

-- `_ref_status`
unfoldable pub ref_status : Option TenantRecord → RefStatus
ref_status none = RefStatus.no_record
ref_status (some rec) = elim (tenant_id_from_dsn_ref rec.database_association_ref.store_ref) [
  | none ↦ RefStatus.non_canonical
  | some t ↦ if text_eq t rec.tenant_id then RefStatus.canonical else RefStatus.non_canonical
]

-- `evidence.observed_target == name or evidence.fingerprint == inspection.fingerprint`
unfoldable pub identifies : Text → Text → DistinctnessEvidence → Bool
identifies name print e = text_eq e.observed_target name || text_eq (fingerprint e) print

-- `evidence.observed_target != name or evidence.fingerprint != inspection.fingerprint`
unfoldable pub disagrees : Text → Text → DistinctnessEvidence → Bool
disagrees name print e = not (text_eq e.observed_target name) || not (text_eq (fingerprint e) print)

-- `record is not None and other_id == record.tenant_id`
unfoldable pub is_own : Option TenantRecord → Text → Bool
is_own none other_id = false
is_own (some rec) other_id = text_eq other_id rec.tenant_id

-- The two flags of the loop over the evidence.
unfoldable pub has_conflict : Option TenantRecord → Text → Text → Dict DistinctnessEvidence → Bool
has_conflict rec name print evidence =
    any (λ o. not (is_own rec o.0) && identifies name print o.1) evidence

unfoldable pub has_mismatch : Option TenantRecord → Text → Text → Dict DistinctnessEvidence → Bool
has_mismatch rec name print evidence =
    any (λ o. is_own rec o.0 && disagrees name print o.1) evidence

-- The last branch, where every precondition holds.
unfoldable pub eligible_verdict : Content → Verdict
eligible_verdict Content.empty =
    verdict Classification.eligible_empty Recommended.explicit_deprovision true
      ScanReason.preconditions_hold
eligible_verdict _ =
    verdict Classification.eligible_bootstrap_only Recommended.explicit_deprovision true
      ScanReason.preconditions_hold

unfoldable pub content_verdict : RefStatus → Content → Verdict
content_verdict status Content.non_empty =
    verdict Classification.non_empty_evidence Recommended.preserve_evidence false
      ScanReason.evidence_kept
content_verdict RefStatus.canonical content = eligible_verdict content
content_verdict _ content =
    verdict Classification.uninspectable Recommended.manual_review false
      ScanReason.reference_not_canonical

-- The `elif` chain behind the test for the Control database.
unfoldable pub record_verdict : Option TenantRecord → Bool → Bool → Content → Verdict
record_verdict none conflict mismatch content =
    verdict Classification.no_registry_record Recommended.manual_review false
      ScanReason.without_record
record_verdict (some rec) conflict mismatch content =
    if conflict
    then verdict Classification.ledger_collision Recommended.manual_review false
        ScanReason.identified_by_other
    else if mismatch
    then verdict Classification.fingerprint_mismatch Recommended.manual_review false
        ScanReason.identity_disagrees
    else if not (in_states rec.lifecycle_state deprovision_eligible_states)
    then verdict Classification.active_tenant Recommended.no_action false ScanReason.not_eligible
    else content_verdict (ref_status (some rec)) content

unfoldable pub id_of : Option TenantRecord → Option Text
id_of none = none
id_of (some rec) = some rec.tenant_id

unfoldable pub state_of : Option TenantRecord → Option TenantLifecycleState
state_of none = none
state_of (some rec) = some rec.lifecycle_state

-- `_classify_database`, once the record and the inspection are there.
unfoldable pub entry_for :
    List Text
    → Text
    → Text
    → Dict DistinctnessEvidence
    → Option TenantRecord
    → Option DatabaseInspection
    → OrphanScanEntry
entry_for supported name control_name evidence rec none = record {
  tenant_id = id_of rec;
  database_name = name;
  registry_state = state_of rec;
  association_ref_status = ref_status rec;
  content_class = none;
  ledger_conflict = false;
  fingerprint_mismatch = false;
  control_db_target = text_eq name control_name;
  classification = Classification.uninspectable;
  recommended_action = Recommended.manual_review;
  safe_to_deprovision = false;
  reason = ScanReason.census_unavailable;
}
entry_for supported name control_name evidence rec (some inspection) =
    let print = inspection_fingerprint inspection in
    let conflict = has_conflict rec name print evidence in
    let mismatch = has_mismatch rec name print evidence in
    let content = classify_content supported inspection in
    let v =
      if text_eq name control_name
      then verdict Classification.control_db_target Recommended.manual_review false
          ScanReason.resolves_to_control
      else record_verdict rec conflict mismatch content in
    record {
      tenant_id = id_of rec;
      database_name = name;
      registry_state = state_of rec;
      association_ref_status = ref_status rec;
      content_class = some content;
      ledger_conflict = conflict;
      fingerprint_mismatch = mismatch;
      control_db_target = text_eq name control_name;
      classification = v.classification;
      recommended_action = v.action;
      safe_to_deprovision = v.safe;
      reason = v.reason;
    }

-- `a < b` on texts
unfoldable pub text_less : Text → Text → Bool
text_less [] [] = false
text_less [] (b ∷ bs) = true
text_less (a ∷ as') [] = false
text_less (a ∷ as') (b ∷ bs) = if ltb a b then true else (a == b) && text_less as' bs

unfoldable pub insert_unique : Text → List Text → List Text
insert_unique t [] = t ∷ []
insert_unique t (u ∷ us) =
    if text_less t u then t ∷ u ∷ us else if text_eq t u then u ∷ us else u ∷ insert_unique t us

-- `sorted(set(names))`
unfoldable pub sorted_unique : List Text → List Text
sorted_unique [] = []
sorted_unique (t ∷ ts) = insert_unique t (sorted_unique ts)

-- `e.tenant_id or ""`
unfoldable pub id_or_empty : Option Text → Text
id_or_empty none = []
id_or_empty (some t) = t

-- The order of the report, by `(e.database_name, e.tenant_id or "")`.
unfoldable pub row_less : OrphanScanEntry → OrphanScanEntry → Bool
row_less a b =
    text_less a.database_name b.database_name
    || (text_eq a.database_name b.database_name
        && text_less (id_or_empty a.tenant_id) (id_or_empty b.tenant_id))

-- A row goes in front of the first row that is greater, so that equal rows keep their order.
unfoldable pub insert_row : OrphanScanEntry → List OrphanScanEntry → List OrphanScanEntry
insert_row e [] = e ∷ []
insert_row e (f ∷ fs) = if row_less f e then f ∷ insert_row e fs else e ∷ f ∷ fs

unfoldable pub sort_rows : List OrphanScanEntry → List OrphanScanEntry
sort_rows [] = []
sort_rows (e ∷ es) = insert_row e (sort_rows es)

-- The id that a database name stands for; `None` outside of the namespace and for the bare prefix.
unfoldable pub named_tenant : Text → Option Text
named_tenant name = elim (strip_prefix default_tenant_db_prefix name) [
  | none ↦ none
  | some i ↦ if is_empty i then none else some i
]

unfoldable pub record_of : Option Text → M (Option TenantRecord)
record_of none = pure none
record_of (some i) = get_tenant i

module _ (ports : Ports) (supported : List Text) where
  -- `_classify_database`
  unfoldable pub classify_database : Text → Text → Dict DistinctnessEvidence → M OrphanScanEntry
  classify_database name control_name evidence = do
    rec ← record_of (named_tenant name)
    inspection ← call (λ n. ports.inspect_database n name)
    pure (entry_for supported name control_name evidence rec inspection)

  -- The loop over the inventory.
  unfoldable pub classify_all :
      Text → Dict DistinctnessEvidence → List Text → M (List OrphanScanEntry)
  classify_all control_name evidence [] = pure []
  classify_all control_name evidence (name ∷ names) = do
    e ← classify_database name control_name evidence
    es ← classify_all control_name evidence names
    pure (e ∷ es)

  abbrev pub absent_entry : Text → Text → TenantRecord → OrphanScanEntry
  absent_entry tenant_id control_name rec =
      let target = tenant_database_name tenant_id in
      record {
        tenant_id = some tenant_id;
        database_name = target;
        registry_state = some rec.lifecycle_state;
        association_ref_status = ref_status (some rec);
        content_class = none;
        ledger_conflict = false;
        fingerprint_mismatch = false;
        control_db_target = text_eq target control_name;
        classification =
            if text_eq target control_name
            then Classification.control_db_target
            else Classification.registry_no_database;
        recommended_action = Recommended.manual_review;
        safe_to_deprovision = false;
        reason = ScanReason.database_absent;
      }

  unfoldable pub absent_rows : Text → Text → Option TenantRecord → List OrphanScanEntry
  absent_rows tenant_id control_name none = []
  absent_rows tenant_id control_name (some rec) = absent_entry tenant_id control_name rec ∷ []

  -- The registry sweep.
  unfoldable pub sweep : Text → List Text → List Text → M (List OrphanScanEntry)
  sweep control_name inventory [] = pure []
  sweep control_name inventory (i ∷ ids) =
      if any (text_eq (tenant_database_name i)) inventory
      then sweep control_name inventory ids
      else (do
        rec ← get_tenant i
        es ← sweep control_name inventory ids
        pure (absent_rows i control_name rec ++ es))

  unfoldable pub scan_for_orphans : M (List OrphanScanEntry)
  scan_for_orphans = do
    listed ← call ports.list_candidate_databases
    names ← or_raise listed Error.inventory_unavailable
    asked ← call ports.control_database_name
    control_name ← or_raise asked Error.control_unavailable
    let inventory : List Text = sorted_unique names
    all_evidence ← evidence_excluding []
    found ← classify_all control_name all_evidence inventory
    ids ← gets (λ s. map (λ e. e.0) s.tenants)
    absent ← sweep control_name inventory (sorted_unique ids)
    pure (sort_rows (found ++ absent))
