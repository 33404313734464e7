-- ===== src/Lineage/Query.antt =====
-- The paged reads of backend/lineage_service/query.py and search.py, the provenance graph of graph.py
-- and the retention decision of retention.py, on a session that was opened. A limit below zero counts
-- as zero does.
pub mod Pages
use snack_portal.Common.{
  ℕ, Bool, true, false, ◌&&◌, not, Option, none, some, List, [], ◌∷◌, leb, ltb, ◌==◌, length, map,
  if◌then◌else◌,
}
use snack_portal.Common.Text.{Text, text, text_eq, is_empty}
use snack_portal.Lineage.Canonical.{LineageRow}
use snack_portal.Lineage.Session.{Run, done, raised, ◌>>=◌, answer, take, page_end, ReadSession}
use snack_portal.Lineage.Emit.{Keeper, OperationalAuditEvent, record_event}
use snack_portal.Lineage.Verify.{version_of}
use snack_portal.Lineage.Segments.{segment_or_first}

-- `LineageRecordView.from_row`; the view has the fields of the row.
unfoldable pub from_row : LineageRow → LineageRow
from_row r = record r { segment_id = segment_or_first r.segment_id; marker_version = version_of r }

pub record Page : Type 0 where
  pub items : List LineageRow
  pub next_cursor : Option ℕ

-- `max(1, min(limit, page_limit_max))`
unfoldable pub page_limit : ℕ → ℕ → ℕ
page_limit page_limit_max limit =
    let n = if leb limit page_limit_max then limit else page_limit_max in if leb n 1 then 1 else n

-- `items[-1].seq if len(items) == n and items else None`
unfoldable pub cursor_of : ℕ → List LineageRow → Option ℕ
cursor_of n [] = none
cursor_of n (r ∷ items) = if length (r ∷ items) == n then some (page_end r items) else none

unfoldable pub page_of : ℕ → List LineageRow → Page
page_of n items = record { items = items; next_cursor = cursor_of n items }

-- `LineageQuery._page`, and the end of `LineageSearch.search`.
unfoldable pub query_page : ℕ → ReadSession → (LineageRow → Bool) → Option ℕ → ℕ → Run Page
query_page page_limit_max session where_row after limit =
    let n = page_limit page_limit_max limit in
    answer (session.page where_row true after n) >>= λ (rows : List LineageRow).
    done (page_of n (map from_row rows))

unfoldable pub first_row : List LineageRow → Option LineageRow
first_row [] = none
first_row (r ∷ _) = some (from_row r)

-- `LineageQuery.get`
unfoldable pub get_record : ReadSession → Text → Run (Option LineageRow)
get_record session lineage_id =
    answer (session.page (λ r. text_eq r.lineage_id lineage_id) true none 1)
    >>= λ (rows : List LineageRow). done (first_row rows)

unfoldable pub for_record : ℕ → ReadSession → Text → Option ℕ → ℕ → Run Page
for_record page_limit_max session target_ref after limit =
    query_page page_limit_max session (λ r. text_eq r.target_ref target_ref) after limit

-- An equality with a column that may be null.
unfoldable pub equals : Option Text → Text → Bool
equals none t = false
equals (some c) t = text_eq c t

unfoldable pub for_import : ℕ → ReadSession → Text → Option ℕ → ℕ → Run Page
for_import page_limit_max session derivation_ref after limit =
    query_page page_limit_max session (λ r. equals r.derivation_ref derivation_ref) after limit

unfoldable pub has_event_type : Option Text → LineageRow → Bool
has_event_type none r = true
has_event_type (some t) r = if is_empty t then true else text_eq r.event_type t

unfoldable pub events : ℕ → ReadSession → Option Text → Option ℕ → ℕ → Run Page
events page_limit_max session event_type after limit =
    query_page page_limit_max session (has_event_type event_type) after limit

-- A filter of a search, which is left out where there is none.
unfoldable pub filtered : Option Text → Option Text → Bool
filtered none column = true
filtered (some t) column = equals column t

unfoldable pub matches : Option Text → Option Text → Option Text → Option Text → LineageRow → Bool
matches event_type operation derivation_ref actor_ref r =
    filtered event_type (some r.event_type)
    && (filtered operation (some r.operation)
        && (filtered derivation_ref r.derivation_ref && filtered actor_ref (some r.actor_ref)))

unfoldable pub search_page :
    ℕ
    → ReadSession
    → Option Text
    → Option Text
    → Option Text
    → Option Text
    → Option ℕ
    → ℕ
    → Run Page
search_page page_limit_max session event_type operation derivation_ref actor_ref after limit =
    query_page page_limit_max session (matches event_type operation derivation_ref actor_ref) after
      limit

pub record ProvenanceNode : Type 0 where
  pub lineage_id : Text
  pub seq : ℕ
  pub event_type : Text
  pub target_ref : Text
  pub operation : Text
  pub parent_lineage_ref : Option Text

pub record ProvenanceGraphResult : Type 0 where
  pub root_lineage_id : Text
  pub is_descendants : Bool
  pub nodes : List ProvenanceNode
  pub truncated : Bool

unfoldable pub node_of : LineageRow → ProvenanceNode
node_of r = record {
  lineage_id = r.lineage_id;
  seq = r.seq;
  event_type = r.event_type;
  target_ref = r.target_ref;
  operation = r.operation;
  parent_lineage_ref = r.parent_lineage_ref;
}

-- `_walk`; `traverse` is the session's, by start, depth and direction.
unfoldable pub walk :
    (Text → ℕ → Bool → Option (List LineageRow)) → ℕ → ℕ → Bool → Text → Run ProvenanceGraphResult
walk traverse max_depth max_nodes is_descendants lineage_id =
    answer (traverse lineage_id max_depth is_descendants) >>= λ (rows : List LineageRow).
    done (record {
      root_lineage_id = lineage_id;
      is_descendants = is_descendants;
      nodes = map node_of (take max_nodes rows);
      truncated = ltb max_nodes (length rows);
    })

pub record RetentionPolicy : Type 0 where
  pub regime_code : Option Text
  pub retention_floor_days : Option ℕ
  pub retention_ceiling_days : Option ℕ
  pub residency : Option Text
  pub archival_target_ref : Option Text

pub record RetentionDecision : Type 0 where
  pub tenant_id : Text
  pub action : Text
  pub policy_configured : Bool
  pub eligible_count : ℕ
  pub detail : Text

unfoldable pub is_present : Option ℕ → Bool
is_present none = false
is_present (some _) = true

unfoldable pub is_configured : Option RetentionPolicy → Bool
is_configured none = false
is_configured (some policy) = is_present policy.retention_floor_days

unfoldable pub retention_decision : Text → Option RetentionPolicy → RetentionDecision
retention_decision tenant_id policy = record {
  tenant_id = tenant_id;
  action = text "retain";
  policy_configured = is_configured policy;
  eligible_count = 0;
  detail =
      if is_configured policy
      then text "retain (expiry disabled in Build Phase 6)"
      else text "retain-all (D-08 retention values pending)";
}

unfoldable pub retention_event : Text → Text → RetentionDecision → OperationalAuditEvent
retention_event actor correlation_id decision = record {
  actor_ref = if is_empty actor then text "<system>" else actor;
  action = text "RetentionEvaluated";
  correlation_id = correlation_id;
  outcome = if decision.policy_configured then text "retain:configured" else text "retain:default";
  target_ref = some decision.tenant_id;
}

unfoldable pub evaluate_retention :
    Keeper
    → Text
    → Text
    → Text
    → Option RetentionPolicy
    → Run (RetentionDecision × List OperationalAuditEvent)
evaluate_retention keeper actor correlation_id tenant_id policy =
    let decision = retention_decision tenant_id policy in
    record_event keeper.sink (retention_event actor correlation_id decision)
    >>= λ (events : List OperationalAuditEvent). done (decision, events)
