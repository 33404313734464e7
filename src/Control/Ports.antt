-- ===== src/Control/Ports.antt =====
-- What the control plane calls and does not implement: the clock, the token factory, and the
-- adapters behind its ports (database probe, evidence provider, provisioning operator, schema
-- applicator, recovery inspection, router invalidation). Every one may raise, and answers by the
-- number of calls made before it, so that two calls with the same arguments may differ.
use snack_portal.Common.{ℕ, Bool, Option, List}
use snack_portal.Common.Text.{Text}
use snack_portal.Common.Dict.{Dict}
use snack_portal.Control.Records.{SecretRef, DistinctnessEvidence}
use snack_portal.Control.World.{Result, M, call, note, Effect, ◌>>◌}

-- `ProbeResult` of verification.py.
pub record ProbeResult : Type 0 where
  pub reachable : Bool
  pub observed_schema_version : Option Text

-- A row count as a Python int: the adapter reports -1 for a table that it cannot count.
pub data RowCount : Type 0 where
  unknown : RowCount
  rows : ℕ → RowCount

-- `DatabaseInspection` of recovery.py.
pub record DatabaseInspection : Type 0 where
  pub database_name : Text
  pub system_identifier : Text
  pub database_identity : Text
  pub user_tables : Dict RowCount
  pub agents_total : RowCount
  pub agents_system_primary : RowCount
  pub schema_versions : List Text

pub record Ports : Type 0 where
  pub clock : ℕ → Text
  pub token : ℕ → Text
  pub probe : ℕ → SecretRef → Result ProbeResult
  pub gather : ℕ → SecretRef → Text → Text → Result (Option DistinctnessEvidence)
  pub provision : ℕ → Text → Text → Result (Unit {0})
  pub deprovision : ℕ → Text → Result (Unit {0})
  pub apply_schema : ℕ → Text → Text → SecretRef → Result (Unit {0})
  pub invalidate : ℕ → Text → Text → Result (Unit {0})
  pub list_candidate_databases : ℕ → Result (Option (List Text))
  pub database_exists : ℕ → Text → Result (Option Bool)
  pub inspect_database : ℕ → Text → Result (Option DatabaseInspection)
  pub control_database_name : ℕ → Result (Option Text)

module _ (ports : Ports) where
  -- `ProvisioningOperator.deprovision`, the one call that drops a database.
  unfoldable pub call_deprovision : Text → M (Unit {0})
  call_deprovision target = do
    note (Effect.deprovisioned target)
    call (λ n. ports.deprovision n target)

  unfoldable pub call_provision : Text → Text → M (Unit {0})
  call_provision tenant_id target = do
    note (Effect.provisioned target)
    call (λ n. ports.provision n tenant_id target)

  unfoldable pub call_apply_schema : Text → Text → SecretRef → M (Unit {0})
  call_apply_schema tenant_id target association_ref = do
    note (Effect.schema_applied target)
    call (λ n. ports.apply_schema n tenant_id target association_ref)

  unfoldable pub call_invalidate : Text → Text → M (Unit {0})
  call_invalidate tenant_id correlation_id = do
    note (Effect.router_invalidated tenant_id)
    call (λ n. ports.invalidate n tenant_id correlation_id)
