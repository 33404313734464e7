-- ===== src/Lineage/Emit.antt =====
-- The append-only write path (`LineageEmit` of backend/lineage_service/emit.py) on the lineage table of
-- one tenant. The lock, the secret store, the minted identity and the sink are parameters; where a
-- step raises, the caller rolls the table back.
pub mod Head
pub mod Chained
use snack_portal.Common.{
  ℕ, suc, ◌+◌, Bool, true, false, Option, none, some, List, [], ◌∷◌, ◌++◌, if◌then◌else◌,
}
use snack_portal.Common.Text.{Text, text}
use snack_portal.Lineage.Canonical.{LineageRow, Digest, marker_for, value_or_empty}
use snack_portal.Lineage.Session.{Run, done, raised, ◌>>=◌, answer, WriteSession}

pub record LineageIntent : Type 0 where
  pub event_type : Text
  pub occurred_at : Text
  pub actor_ref : Text
  pub source_ref : Text
  pub target_ref : Text
  pub operation : Text
  pub schema_version : Text
  pub derivation_ref : Option Text
  pub parent_lineage_ref : Option Text
  pub correlation_id : Option Text

pub record OperationalAuditEvent : Type 0 where
  pub actor_ref : Text
  pub action : Text
  pub correlation_id : Text
  pub outcome : Text
  pub target_ref : Option Text

-- The secret store's current version of a name, and what a name and a version resolve to; `none` where
-- they raise. The sink is absent, or takes an event or raises.
pub record Keeper : Type 0 where
  pub digest : Digest
  pub key_prefix : Text
  pub current_version : Text → Option Text
  pub resolve : Text → Text → Option Text
  pub sink : Option (OperationalAuditEvent → Bool)

-- `_chain_key`
unfoldable pub chain_key : Keeper → Text → Run Text
chain_key keeper tenant_id =
    let store_ref = keeper.key_prefix ++ text "/" ++ tenant_id ++ text "/chainkey" in
    answer (keeper.current_version store_ref) >>= λ (version : Text).
    answer (keeper.resolve store_ref version)

-- `self._audit.initiate(event)`: the events that the sink took, or an exception.
unfoldable pub record_event :
    Option (OperationalAuditEvent → Bool) → OperationalAuditEvent → Run (List OperationalAuditEvent)
record_event none event = done []
record_event (some takes) event = if takes event then done (event ∷ []) else raised

unfoldable pub head_seq : Option LineageRow → ℕ
head_seq none = 1
head_seq (some prev) = prev.seq + 1

unfoldable pub head_marker : Option LineageRow → Text
head_marker none = []
head_marker (some prev) = prev.integrity_marker

unfoldable pub head_segment : Option LineageRow → ℕ
head_segment none = 1
head_segment (some prev) = prev.segment_id

-- The row before its marker is known.
unfoldable pub unmarked_row : Text → LineageIntent → Option LineageRow → LineageRow
unmarked_row lineage_id intent prev = record {
  lineage_id = lineage_id;
  seq = head_seq prev;
  segment_id = head_segment prev;
  event_type = intent.event_type;
  occurred_at = intent.occurred_at;
  actor_ref = intent.actor_ref;
  source_ref = intent.source_ref;
  target_ref = intent.target_ref;
  operation = intent.operation;
  schema_version = intent.schema_version;
  derivation_ref = intent.derivation_ref;
  parent_lineage_ref = intent.parent_lineage_ref;
  correlation_id = intent.correlation_id;
  marker_version = 1;
  prev_marker = head_marker prev;
  integrity_marker = [];
}

unfoldable pub written_event : LineageIntent → OperationalAuditEvent
written_event intent = record {
  actor_ref = intent.actor_ref;
  action = text "LineageWritten";
  correlation_id = value_or_empty intent.correlation_id;
  outcome = text "success";
  target_ref = some intent.target_ref;
}

-- The row with its marker, for a key.
unfoldable pub marked_row : Keeper → Text → LineageRow → Run LineageRow
marked_row keeper key row =
    answer (marker_for keeper.digest key row row.prev_marker row.marker_version)
    >>= λ (marker : Text). done (record row { integrity_marker = marker })

abbrev pub Emission : Type 0
Emission = Text × (List LineageRow × List OperationalAuditEvent)

-- `_audit_written`, and the identity that is returned.
unfoldable pub announce : Keeper → Text → LineageIntent → List LineageRow → Run Emission
announce keeper lineage_id intent table =
    record_event keeper.sink (written_event intent) >>= λ (events : List OperationalAuditEvent).
    done (lineage_id, (table, events))

-- The chain head is read, and the row made, appended and announced.
unfoldable pub emit_locked :
    Keeper → WriteSession → Text → LineageIntent → List LineageRow → Run Emission
emit_locked keeper session lineage_id intent table =
    chain_key keeper session.tenant_id >>= λ (key : Text).
    marked_row keeper key (unmarked_row lineage_id intent (session.latest table))
    >>= λ (row : LineageRow).
        answer (session.append table row) >>= announce keeper lineage_id intent

-- The identity, the table and the events of an emission. The lock is taken or raises.
unfoldable pub emit :
    Keeper → WriteSession → Bool → Text → LineageIntent → List LineageRow → Run Emission
emit keeper session locks lineage_id intent table =
    if locks then emit_locked keeper session lineage_id intent table else raised
