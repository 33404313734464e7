-- ===== src/Control/Census.antt =====
-- The content census of backend/control_plane/recovery.py (`classify_content`).
pub mod Rules
use snack_portal.Common.{
  ℕ, Bool, true, false, ◌&&◌, ◌||◌, not, List, [], ◌∷◌, ◌==◌, if◌then◌else◌, any, all,
}
use snack_portal.Common.Text.{Text, text, text_eq}
use snack_portal.Common.Dict.{Dict}
use snack_portal.Control.Ports.{RowCount, unknown, rows, DatabaseInspection}
use snack_portal.Control.Distinctness.{fingerprint_of}

pub data Content : Type 0 where
  empty bootstrap_only non_empty : Content

unfoldable pub seed_table : Text
seed_table = text "public.agents"

unfoldable pub sentinel_table : Text
sentinel_table = text "dv_sentinel.marker"

unfoldable pub version_table : Text
version_table = text "public.schema_version"

-- `BOOTSTRAP_TABLE_SET`
unfoldable pub bootstrap_tables : List Text
unfolding seed_table sentinel_table version_table
bootstrap_tables =
    version_table
    ∷ sentinel_table
    ∷ text "public.lineage"
    ∷ text "public.lineage_segment"
    ∷ text "public.import_job"
    ∷ text "public.import_idempotency"
    ∷ text "public.import_checkpoint"
    ∷ seed_table
    ∷ text "public.ai_agents"
    ∷ text "public.startups"
    ∷ text "public.investors"
    ∷ text "public.deals"
    ∷ text "public.startup_ownership"
    ∷ text "public.investor_ownership"
    ∷ text "public.deal_ownership"
    ∷ text "public.startup_ai_ownership"
    ∷ text "public.investor_ai_ownership"
    ∷ text "public.deal_ai_ownership"
    ∷ text "public.startup_contacts"
    ∷ text "public.investor_contacts"
    ∷ text "public.startup_investors"
    ∷ []

-- `t in texts`
unfoldable pub mem_text : Text → List Text → Bool
mem_text t texts = any (text_eq t) texts

-- `count == k` and `count < 0`
unfoldable pub count_is : ℕ → RowCount → Bool
count_is k unknown = false
count_is k (rows n) = n == k

unfoldable pub count_negative : RowCount → Bool
count_negative unknown = true
count_negative (rows n) = false

module _ (supported : List Text) (inspection : DatabaseInspection) where
  -- One round of the loop: whether the table passes its rule.
  unfoldable pub table_passes : Text × RowCount → Bool
  table_passes (name, count) =
      if text_eq name sentinel_table
      then true
      else if text_eq name seed_table
      then count_is 1 count
        && count_is 1 inspection.agents_total
        && count_is 1 inspection.agents_system_primary
      else if text_eq name version_table
      then not (count_negative count)
        && not (elim inspection.schema_versions [ [] ↦ true | _ ∷ _ ↦ false ])
        && all (λ v. mem_text v supported) inspection.schema_versions
      else count_is 0 count

  unfoldable pub classify_tables : Dict RowCount → Content
  classify_tables [] = Content.empty
  classify_tables (t ∷ tables) =
      if all (λ e. mem_text e.0 bootstrap_tables) (t ∷ tables)
      then if all table_passes (t ∷ tables) then Content.bootstrap_only else Content.non_empty
      else Content.non_empty

unfoldable pub classify_content : List Text → DatabaseInspection → Content
unfolding classify_tables
classify_content supported inspection = classify_tables supported inspection inspection.user_tables

-- `DatabaseInspection.fingerprint`
unfoldable pub inspection_fingerprint : DatabaseInspection → Text
inspection_fingerprint i = fingerprint_of i.system_identifier i.database_identity
