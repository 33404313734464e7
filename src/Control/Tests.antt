-- ===== src/Control/Tests.antt =====
-- Concrete runs of the control plane: a deployment with one tenant, and each theorem at it.
use snack_portal.Common.{
  ◌≡◌, ◌≢◌, ◌↔◌, ◌⊎◌, refl, sym, subst, ℕ, true, none, some, List, [], ◌∷◌, ◌++◌, All,
}
use snack_portal.Common.Text.{Text, text, text_eq}
use snack_portal.Common.Dict.{lookup, insert}
use snack_portal.Control.Records.{
  TenantLifecycleState, TenantRecord, Action, ControlAuditRecord, DistinctnessEvidence, Shared,
  state_eq,
}
use snack_portal.Control.World.{World, Effect, ok, raised, Error, ◌>>=◌, interfere, Context}
use snack_portal.Control.Ports.{Ports, rows, DatabaseInspection}
use snack_portal.Control.Store.{
  event, swap_if_current, get_tenant, put_tenant, compare_and_swap_tenant, append_audit, now_iso,
  record_audit,
}
use snack_portal.Control.Store.Race.{one_winner}
use snack_portal.Control.Registry.{
  in_states, is_reserved, is_identifier, is_id_char, register_tenant, mark_provisioning,
  quarantine_tenant, transition, commit_transition, return_or_create, create_tenant,
}
use snack_portal.Control.Registry.Admission.{IsAdmissible, Stores, register_tenant-IsAdmissible}
use snack_portal.Control.Distinctness.{DistinctnessResult, DistinctnessOutcome, verify_distinctness}
use snack_portal.Control.Distinctness.Isolation.{IsIsolated, verify_distinctness-IsIsolated}
use snack_portal.Control.Provisioning.{Gate, tenant_database_name, verify, reassociate}
use snack_portal.Control.Onboarding.{tenant_dsn_ref, tenant_id_from_dsn_ref, onboard, recover}
use snack_portal.Control.Onboarding.Naming.{tenant_id_from_dsn_ref-tenant_dsn_ref}
use snack_portal.Control.Census.{Content, classify_content}
use snack_portal.Control.Census.Rules.{IsBootstrapTable, classify_content-IsBootstrapTable}
use snack_portal.Control.Recovery.Deprovision.{deprovision_tenant_database}
use snack_portal.Control.Recovery.Drop.{IsProvenDrop, deprovision_tenant_database-IsProvenDrop}
use snack_portal.Control.Scan.{entry_for, scan_for_orphans}
use snack_portal.Control.Scan.Safety.{IsSafeRow, entry_for-IsSafeRow}
use snack_portal.Control.Scan.Reads.{scan_for_orphans_read_only}
use snack_portal.Control.World.Sees.{moment}
use snack_portal.Control.Trail.{state_of_record, replay, IsSound}
use snack_portal.Control.Trail.Sound.{Extends, Grows, IsLawful, GrowsTo-refl, event-IsSound}
use snack_portal.Control.Operations.{Operation, perform, session}
use snack_portal.Control.Operations.History.{session-IsSound, session-held, held_states}
use snack_portal.Control.Operations.Refusals.{onboard-fence, quarantined_refused}

-- Opens the registry's operations, for runs that are computed.
program : Unit {0}
unfolding session perform register_tenant mark_provisioning quarantine_tenant transition
    commit_transition return_or_create create_tenant get_tenant put_tenant swap_if_current
    compare_and_swap_tenant append_audit now_iso record_audit ◌>>=◌ interfere is_reserved
    is_identifier is_id_char in_states state_eq text_eq lookup insert state_of_record
program = tt

abbrev acme : Text
acme = text "acme"

abbrev evidence_of : Text → Text → Text → DistinctnessEvidence
evidence_of identity target secret = record {
  system_identifier = text "sys";
  database_identity = identity;
  observed_target = target;
  secret_ref_key = secret;
  sentinel_namespace = target;
  sentinel_token = some identity;
  sentinel_written = true;
}

abbrev candidate : DistinctnessEvidence
candidate = evidence_of (text "db1") (text "sp2_tenant_acme") (text "tenant/acme/dsn")

abbrev control_evidence : DistinctnessEvidence
control_evidence = evidence_of (text "db0") (text "sp2_control") (text "control/dsn")

abbrev gate : Gate
gate = record {
  control = control_evidence;
  supported = text "v1" ∷ [];
  sentinel_prefix = text "ns_";
}

abbrev inspection : DatabaseInspection
inspection = record {
  database_name = text "sp2_tenant_acme";
  system_identifier = text "sys";
  database_identity = text "db1";
  user_tables = (text "public.schema_version", rows 1) ∷ (text "public.agents", rows 1) ∷ [];
  agents_total = rows 1;
  agents_system_primary = rows 1;
  schema_versions = text "v1" ∷ [];
}

abbrev ports : Ports
ports = record {
  clock = λ n. n ∷ [];
  token = λ n. n ∷ [];
  probe = λ n ref. ok (record { reachable = true; observed_schema_version = some (text "v1") });
  gather = λ n ref token namespace. ok (some candidate);
  provision = λ n i target. ok tt;
  deprovision = λ n target. ok tt;
  apply_schema = λ n i target ref. ok tt;
  invalidate = λ n i c. ok tt;
  list_candidate_databases = λ n. ok (some (text "sp2_tenant_acme" ∷ []));
  database_exists = λ n target. ok (some true);
  inspect_database = λ n target. ok (some inspection);
  control_database_name = λ n. ok (some (text "sp2_control"));
}

abbrev ctx : Context
ctx = record { actor = text "ops"; correlation_id = text "c1" }

-- Another writer adds an event of its own to the audit trail.
abbrev foreign_event : ControlAuditRecord
foreign_event = record {
  actor = text "other";
  tenant_id = some acme;
  action = Action.routing_disabled;
  from_state = none;
  to_state = none;
  timestamp = text "t";
  correlation_id = text "c2";
}

abbrev foreign_commit : Shared → Shared
foreign_commit s = record s { audit = s.audit ++ foreign_event ∷ [] }

foreign_commit-IsLawful : IsLawful foreign_commit
foreign_commit-IsLawful s none sound = (
  event-IsSound s foreign_event refl sound,
  GrowsTo-refl s.tenants,
  λ i missing. missing,
  (foreign_event ∷ [], refl),
)
foreign_commit-IsLawful s (some rec) (absent, sound) = (
  (
    absent,
    event-IsSound (record s { tenants = insert rec.tenant_id rec s.tenants }) foreign_event refl
        sound,
  ),
  GrowsTo-refl s.tenants,
  λ i missing. missing,
  (foreign_event ∷ [], refl),
)

abbrev start : World
start = record {
  shared = record { tenants = []; audit = []; ledger = [] };
  pending = foreign_commit ∷ [];
  tick = 0;
  effects = [];
}

start-IsSound : IsSound start.shared
unfolding lookup replay state_of_record
start-IsSound = record { keyed = λ i rec h. cc; replayed = λ i. refl; owned = λ i j a b h k e. cc }

abbrev onboard_acme : Context × Operation
onboard_acme = (ctx, Operation.onboard acme (text "org") (text "fed") (text "v1"))

session-IsSound_example :
    IsSound (session ports gate (onboard_acme ∷ []) start).shared
    × Extends start.shared.audit (session ports gate (onboard_acme ∷ []) start).shared.audit
    × Grows start.shared (session ports gate (onboard_acme ∷ []) start).shared
session-IsSound_example =
    session-IsSound ports gate (onboard_acme ∷ []) start start-IsSound (foreign_commit-IsLawful, tt)

-- A tenant that has been registered, provisioned and quarantined.
abbrev quarantine_acme : List (Context × Operation)
quarantine_acme =
    (
      ctx,
      Operation.register acme (text "org") (text "v1")
          (record { store_ref = text "tenant/acme/dsn"; version = text "1" }) (text "fed"),
    )
    ∷ (ctx, Operation.mark_provisioning acme)
    ∷ (ctx, Operation.quarantine acme)
    ∷ []

abbrev quarantined_world : World
quarantined_world = session ports gate quarantine_acme start

quarantined_world-IsSound : IsSound quarantined_world.shared
quarantined_world-IsSound =
    (session-IsSound ports gate quarantine_acme start start-IsSound (foreign_commit-IsLawful, tt)).0

quarantined_state :
    (state_of_record (lookup acme quarantined_world.shared.tenants)
      ≡ some TenantLifecycleState.quarantined)
    × (quarantined_world.pending ≡ [])
unfolding program
quarantined_state = (refl, refl)

quarantined-IsLawful : All IsLawful quarantined_world.pending
quarantined-IsLawful = subst (All IsLawful) (sym quarantined_state.1) tt

session-held_example :
    (to : TenantLifecycleState) × (state_of_record
        (lookup acme (session ports gate (onboard_acme ∷ []) quarantined_world).shared.tenants)
      ≡ some to)
    × (in_states to held_states ≡ true)
unfolding in_states state_eq
session-held_example =
    session-held ports gate (onboard_acme ∷ []) quarantined_world acme
      TenantLifecycleState.quarantined quarantined_world-IsSound quarantined-IsLawful
      quarantined_state.0 refl

verify_distinctness-IsIsolated_example :
    ((verify_distinctness acme (some candidate) (text "sp2_tenant_acme") control_evidence []).result
      ≡ DistinctnessResult.verified)
    ↔ ((e : DistinctnessEvidence) × (some candidate ≡ some e)
        × IsIsolated acme e (text "sp2_tenant_acme") control_evidence [])
verify_distinctness-IsIsolated_example =
    verify_distinctness-IsIsolated acme (some candidate) (text "sp2_tenant_acme") control_evidence
      []

classify_content-IsBootstrapTable_example :
    ((classify_content (text "v1" ∷ []) inspection ≡ Content.empty) ↔ (inspection.user_tables ≡ []))
    × ((classify_content (text "v1" ∷ []) inspection ≡ Content.bootstrap_only) ↔ (
        (inspection.user_tables ≢ [])
        × All (λ e. IsBootstrapTable (text "v1" ∷ []) inspection e.0 e.1) inspection.user_tables))
classify_content-IsBootstrapTable_example =
    classify_content-IsBootstrapTable (text "v1" ∷ []) inspection

tenant_id_from_dsn_ref-tenant_dsn_ref_example :
    (tenant_id_from_dsn_ref (text "tenant/acme/dsn") ≡ some acme)
    ↔ (text "tenant/acme/dsn" ≡ tenant_dsn_ref acme)
unfolding is_identifier is_id_char
tenant_id_from_dsn_ref-tenant_dsn_ref_example =
    tenant_id_from_dsn_ref-tenant_dsn_ref (text "tenant/acme/dsn") acme refl

-- A record by its state and its version.
abbrev acme_record : TenantLifecycleState → ℕ → TenantRecord
acme_record state v = record {
  tenant_id = acme;
  organization_ref = text "org";
  lifecycle_state = state;
  expected_schema_version = text "v1";
  database_association_ref = record { store_ref = text "tenant/acme/dsn"; version = text "1" };
  federation_config_ref = text "fed";
  created_at = text "t0";
  updated_at = text "t1";
  version = v;
}

abbrev world_with : TenantRecord → World
world_with rec = record {
  shared = record { tenants = (acme, rec) ∷ []; audit = []; ledger = [] };
  pending = [];
  tick = 0;
  effects = [];
}

one_winner_example :
    let s = (world_with (acme_record TenantLifecycleState.verifying 3)).shared in
    let first = acme_record TenantLifecycleState.ready 3 in
    let second = acme_record TenantLifecycleState.failed 3 in
    let s' = (swap_if_current first 3 s).1 in
    ((swap_if_current first 3 s).0 ≡ ok (acme_record TenantLifecycleState.ready 4))
    × (lookup acme s'.tenants ≡ some (acme_record TenantLifecycleState.ready 4))
    × (swap_if_current second 3 s' ≡ (raised Error.stale_version, s'))
unfolding lookup text_eq
one_winner_example =
    one_winner (acme_record TenantLifecycleState.ready 3)
      (acme_record TenantLifecycleState.failed 3) 3
      (world_with (acme_record TenantLifecycleState.verifying 3)).shared
      (acme_record TenantLifecycleState.verifying 3) refl refl refl

onboard-fence_example :
    (r : DistinctnessOutcome) × (onboard ports gate ctx acme [] [] []
        (world_with (acme_record TenantLifecycleState.ready 3))
      ≡ (ok r, interfere (world_with (acme_record TenantLifecycleState.ready 3))))
    × ((r.result ≡ DistinctnessResult.verified)
        ↔ (TenantLifecycleState.ready ≡ TenantLifecycleState.ready))
unfolding lookup text_eq interfere
onboard-fence_example =
    onboard-fence ports gate ctx acme [] [] []
      (world_with (acme_record TenantLifecycleState.ready 3))
      (acme_record TenantLifecycleState.ready 3) refl (λ e. cc) (λ e. cc)

quarantined_refused_example :
    let w = world_with (acme_record TenantLifecycleState.quarantined 3) in
    let ref = (acme_record TenantLifecycleState.quarantined 3).database_association_ref in
    (verify ports gate ctx acme w ≡ (raised Error.illegal_transition, interfere w))
    × (reassociate ports gate ctx acme ref w ≡ (raised Error.illegal_transition, interfere w))
    × (recover ports gate ctx acme w ≡ (raised Error.illegal_transition, interfere w))
unfolding lookup text_eq interfere
quarantined_refused_example =
    quarantined_refused ports gate ctx acme
      (acme_record TenantLifecycleState.quarantined 3).database_association_ref
      (world_with (acme_record TenantLifecycleState.quarantined 3))
      (acme_record TenantLifecycleState.quarantined 3) refl refl

-- A tenant that another writer stores, provisions and readies while it is registered.
abbrev overtaken : World
overtaken = record {
  shared = record { tenants = []; audit = []; ledger = [] };
  pending =
      (λ s. s)
      ∷ (λ s. s)
      ∷ (λ s. record s { tenants = (acme, acme_record TenantLifecycleState.ready 3) ∷ [] })
      ∷ [];
  tick = 0;
  effects = [];
}

register_tenant-IsAdmissible_example :
    let ref = (acme_record TenantLifecycleState.ready 0).database_association_ref in
    let out = register_tenant ports ctx acme (text "org") (text "v1") ref (text "fed") overtaken in
    (¬ IsAdmissible acme → (e : Error) × (out ≡ (raised e, overtaken)))
    × (IsAdmissible acme → Stores acme (lookup acme (interfere overtaken).shared.tenants) out)
register_tenant-IsAdmissible_example =
    register_tenant-IsAdmissible ports ctx acme (text "org") (text "v1")
      (acme_record TenantLifecycleState.ready 0).database_association_ref (text "fed") overtaken

-- A tenant that failed, with its own evidence in the ledger.
abbrev failed_world : World
failed_world = record {
  shared = record {
    tenants = (acme, acme_record TenantLifecycleState.failed 3) ∷ [];
    audit = [];
    ledger = (acme, candidate) ∷ [];
  };
  pending = foreign_commit ∷ [];
  tick = 0;
  effects = [];
}

deprovision_tenant_database-IsProvenDrop_example :
    let base = (event ports ctx acme Action.tenant_deprovision_requested failed_world).1 in
    let w' = (deprovision_tenant_database ports (text "v1" ∷ []) ctx acme failed_world).1 in
    (w'.effects ≡ [])
    ⊎ ((w'.effects ≡ Effect.deprovisioned (tenant_database_name acme) ∷ [])
        × IsProvenDrop ports (text "v1" ∷ []) acme (tenant_database_name acme) base)
deprovision_tenant_database-IsProvenDrop_example =
    deprovision_tenant_database-IsProvenDrop ports (text "v1" ∷ []) ctx acme failed_world

entry_for-IsSafeRow_example :
    ((entry_for
        (text "v1" ∷ [])
        (text "sp2_tenant_acme")
        (text "sp2_control")
        ((acme, candidate) ∷ [])
        (some (acme_record TenantLifecycleState.failed 3))
        (some inspection)).safe_to_deprovision
      ≡ true)
    ↔ IsSafeRow
        (text "v1" ∷ [])
        (text "sp2_tenant_acme")
        (text "sp2_control")
        ((acme, candidate) ∷ [])
        (acme_record TenantLifecycleState.failed 3)
        inspection
entry_for-IsSafeRow_example =
    entry_for-IsSafeRow (text "v1" ∷ []) (text "sp2_tenant_acme") (text "sp2_control")
      ((acme, candidate) ∷ []) (acme_record TenantLifecycleState.failed 3) inspection

scan_for_orphans_read_only_example :
    (k : ℕ) × ((scan_for_orphans ports (text "v1" ∷ []) failed_world).1.shared
      ≡ (moment k failed_world).shared)
    × ((scan_for_orphans ports (text "v1" ∷ []) failed_world).1.effects ≡ failed_world.effects)
scan_for_orphans_read_only_example = scan_for_orphans_read_only ports (text "v1" ∷ []) failed_world
