-- ===== src/Control/Registry.antt =====
-- The tenant registry (backend/control_plane/registry.py).
pub mod Admission
use snack_portal.Common.{
  Option, ℕ, ◌+◌, Bool, ◌&&◌, ◌||◌, not, none, some, List, [], ◌∷◌, map, leb, ◌==◌, if◌then◌else◌,
  any, all,
}
use snack_portal.Common.Text.{Text, text, text_eq, is_empty}
use snack_portal.Control.Records.{TenantLifecycleState, SecretRef, TenantRecord, Action, state_eq}
use snack_portal.Control.World.{M, Error, ◌>>=◌, ◌>>◌, pure, turn, raise_if, or_raise, Context}
use snack_portal.Control.Ports.{Ports}
use snack_portal.Control.Store.{
  get_tenant, put_tenant, compare_and_swap_tenant, now_iso, record_audit,
}

-- `str.lower` on ASCII. No other code point has a lower case among the letters of "control", so
-- the test against the reserved identifiers is exact.
abbrev lower_char : ℕ → ℕ
lower_char c = if leb b'A' c && leb c b'Z' then c + 32 else c

abbrev reserved_tenant_ids : List Text
reserved_tenant_ids = text "control" ∷ []

-- `tenant_id.lower() in _RESERVED_TENANT_IDS`
unfoldable pub is_reserved : Text → Bool
is_reserved tenant_id = any (λ r. text_eq (map lower_char tenant_id) r) reserved_tenant_ids

-- `[a-z0-9_]`
unfoldable pub is_id_char : ℕ → Bool
is_id_char c = (leb b'a' c && leb c b'z') || (leb b'0' c && leb c b'9') || (c == b'_')

-- `_TENANT_ID_SHAPE.fullmatch(tenant_id)`
unfoldable pub is_identifier : Text → Bool
is_identifier tenant_id = not (is_empty tenant_id) && all is_id_char tenant_id

-- `s in states`
unfoldable pub in_states : TenantLifecycleState → List TenantLifecycleState → Bool
in_states s states = any (state_eq s) states

abbrev pub phase_4_states : List TenantLifecycleState
phase_4_states =
    TenantLifecycleState.verifying ∷ TenantLifecycleState.ready ∷ TenantLifecycleState.failed ∷ []

module _ (ports : Ports) where
  -- The part of `register_tenant` behind the read that found no record. The audit record and the
  -- write are steps of their own: other writers may commit before each of them.
  unfoldable pub create_tenant : Context → Text → Text → Text → SecretRef → Text → M TenantRecord
  create_tenant ctx tenant_id organization_ref expected_schema_version association_ref
        federation_config_ref =
      do
        ts ← now_iso ports
        let rec : TenantRecord = record {
          tenant_id = tenant_id;
          organization_ref = organization_ref;
          lifecycle_state = TenantLifecycleState.registered;
          expected_schema_version = expected_schema_version;
          database_association_ref = association_ref;
          federation_config_ref = federation_config_ref;
          created_at = ts;
          updated_at = ts;
          version = 0;
        }
        turn
        record_audit ports ctx tenant_id Action.register_tenant none
            (some TenantLifecycleState.registered)
        put_tenant rec
        pure rec

  unfoldable pub return_or_create :
      Context → Text → Text → Text → SecretRef → Text → Option TenantRecord → M TenantRecord
  return_or_create ctx tenant_id organization_ref expected_schema_version association_ref
        federation_config_ref (some rec) =
      pure rec
  return_or_create ctx tenant_id organization_ref expected_schema_version association_ref
        federation_config_ref none =
      create_tenant ctx tenant_id organization_ref expected_schema_version association_ref
        federation_config_ref

  unfoldable pub register_tenant : Context → Text → Text → Text → SecretRef → Text → M TenantRecord
  unfolding create_tenant return_or_create
  register_tenant ctx tenant_id organization_ref expected_schema_version association_ref
        federation_config_ref =
      do
        raise_if (is_reserved tenant_id) Error.reserved_identifier
        raise_if (not (is_identifier tenant_id)) Error.malformed_identifier
        existing ← get_tenant tenant_id
        return_or_create ctx tenant_id organization_ref expected_schema_version association_ref
            federation_config_ref existing

  -- The write of `_transition`: the versioned swap, and then its audit record.
  unfoldable pub commit_transition :
      Context → Text → TenantRecord → TenantLifecycleState → Action → M TenantRecord
  commit_transition ctx tenant_id rec to_state action = do
    ts ← now_iso ports
    persisted ←
        compare_and_swap_tenant (record rec { lifecycle_state = to_state; updated_at = ts })
          rec.version
    record_audit ports ctx tenant_id action (some rec.lifecycle_state) (some to_state)
    pure persisted

  -- `TenantRegistry._transition`
  unfoldable pub transition :
      Context → Text → TenantLifecycleState → List TenantLifecycleState → Action → M TenantRecord
  unfolding commit_transition
  transition ctx tenant_id to_state allowed_from action = do
    raise_if (in_states to_state phase_4_states) Error.phase_four_deferred
    found ← get_tenant tenant_id
    rec ← or_raise found Error.unknown_tenant
    if state_eq rec.lifecycle_state to_state then pure rec else (do
      raise_if (not (in_states rec.lifecycle_state allowed_from)) Error.illegal_transition
      commit_transition ctx tenant_id rec to_state action)

  unfoldable pub mark_provisioning : Context → Text → M TenantRecord
  mark_provisioning ctx tenant_id =
      transition ctx tenant_id TenantLifecycleState.provisioning
        (TenantLifecycleState.registered ∷ []) Action.mark_provisioning

  unfoldable pub suspend_tenant : Context → Text → M TenantRecord
  suspend_tenant ctx tenant_id =
      transition ctx tenant_id TenantLifecycleState.suspended (TenantLifecycleState.ready ∷ [])
        Action.suspend_tenant

  unfoldable pub decommission_tenant : Context → Text → M TenantRecord
  decommission_tenant ctx tenant_id =
      transition ctx tenant_id TenantLifecycleState.decommissioned
        (TenantLifecycleState.registered ∷ TenantLifecycleState.provisioning
          ∷ TenantLifecycleState.suspended ∷ TenantLifecycleState.failed
          ∷ TenantLifecycleState.quarantined ∷ [])
        Action.decommission_tenant

  unfoldable pub quarantine_tenant : Context → Text → M TenantRecord
  quarantine_tenant ctx tenant_id =
      transition ctx tenant_id TenantLifecycleState.quarantined
        (TenantLifecycleState.provisioning ∷ TenantLifecycleState.failed ∷ [])
        Action.quarantine_tenant
