-- ===== src/Control/Store.antt =====
-- The tenant table and the audit trail of `InMemoryControlStore`
-- (backend/control_plane/adapters/providers/in_memory_store.py), and `ControlPlaneAudit`
-- (backend/control_plane/audit.py). A versioned write and its audit record are one step: no other
-- writer comes between them. The write of a registration is a step of its own.
pub mod Race
use snack_portal.Common.{ℕ, ◌+◌, Option, none, some, List, [], ◌∷◌, ◌++◌, ◌==◌, if◌then◌else◌}
use snack_portal.Common.Text.{Text}
use snack_portal.Common.Dict.{lookup, insert}
use snack_portal.Control.Records.{
  TenantLifecycleState, TenantRecord, Action, ControlAuditRecord, Shared,
}
use snack_portal.Control.World.{M, Result, ok, raised, Error, ◌>>=◌, call, gets, update, Context}
use snack_portal.Control.Ports.{Ports}

unfoldable pub get_tenant : Text → M (Option TenantRecord)
get_tenant tenant_id = gets (λ s. lookup tenant_id s.tenants)

-- The write is not guarded: it replaces whatever is stored under the id by then.
unfoldable pub put_tenant : TenantRecord → M (Unit {0})
put_tenant rec = update (λ s. (ok tt, record s { tenants = insert rec.tenant_id rec s.tenants }))

-- The body of `compare_and_swap_tenant`, on the tables as they stand.
unfoldable pub swap_if_current : TenantRecord → ℕ → Shared → Result TenantRecord × Shared
swap_if_current updated expected_version s = elim (lookup updated.tenant_id s.tenants) [
  | none ↦ (raised Error.stale_version, s)
  | some current ↦
      let persisted = record updated { version = expected_version + 1 } in
      if current.version == expected_version
      then (ok persisted, record s { tenants = insert persisted.tenant_id persisted s.tenants })
      else (raised Error.stale_version, s)
]

unfoldable pub compare_and_swap_tenant : TenantRecord → ℕ → M TenantRecord
unfolding swap_if_current
compare_and_swap_tenant updated expected_version = update (swap_if_current updated expected_version)

unfoldable pub append_audit : ControlAuditRecord → M (Unit {0})
append_audit r w =
    (ok tt, record w { shared = record (w.shared) { audit = w.shared.audit ++ r ∷ [] } })

unfoldable pub list_audit : M (List ControlAuditRecord)
list_audit = gets (λ s. s.audit)

module _ (ports : Ports) where
  -- `now_iso()`
  unfoldable pub now_iso : M Text
  now_iso = call (λ n. ok (ports.clock n))

  -- `ControlPlaneAudit.record`
  unfoldable pub record_audit :
      Context
      → Text
      → Action
      → Option TenantLifecycleState
      → Option TenantLifecycleState
      → M (Unit {0})
  unfolding now_iso append_audit
  record_audit ctx tenant_id action from_state to_state = do
    timestamp ← now_iso
    append_audit (record {
      actor = ctx.actor;
      tenant_id = some tenant_id;
      action = action;
      from_state = from_state;
      to_state = to_state;
      timestamp = timestamp;
      correlation_id = ctx.correlation_id;
    })

  -- `_event` and `_emit`: an audit record that is no transition.
  unfoldable pub event : Context → Text → Action → M (Unit {0})
  event ctx tenant_id action = record_audit ctx tenant_id action none none
