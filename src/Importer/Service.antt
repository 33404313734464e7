-- ===== src/Importer/Service.antt =====
-- The import coordinator (`ImportService` of backend/import_service/service.py) on a tenant's database.
-- Its job tables are explicit; the tables of the target and of the lineage are any data with the
-- session's `upsert` and the lineage port's `emit`, which answer or raise. The clock, the minted job
-- identity, the source adapters and whether a session opens and a checkpoint is taken are parameters.
-- A rolled-back transaction is the database as it stood; the calls on the job tables outside a batch
-- go through, and so does the audit sink.
pub mod Slices
pub mod Batches
pub mod Replay
use snack_portal.Common.{
  ℕ, suc, zero, ◌+◌, ◌-◌, Bool, true, false, Option, none, some, List, [], ◌∷◌, ◌++◌, ltb, length,
  if◌then◌else◌,
}
use Prim.Native.Nat.{◌*◌}
use snack_portal.Common.Text.{Text, text, text_eq}
use snack_portal.Common.Dict.{Dict, lookup, insert}
use snack_portal.Lineage.Session.{take}
use snack_portal.Lineage.Emit.{LineageIntent}
use snack_portal.Importer.Records.{
  Classifier, ImportRecord, ImportRequest, ImportStatus, RawRecord, SourceDescriptor, SourceKind,
  Validated, accepted, invalid, Value, str, validate,
}
use snack_portal.Importer.Jobs.{
  Idempotency, Checkpoint, Database, ImportAuditEvent, Ports, batches_of, latest_batch, resume_from,
  status_of, failed_status, audit_event, Ended, answered, port_raised, Applied, all_applied,
  batch_failed, Begun, replay, begun, Collected, collected, unsupported, source_raised,
  validate_all, with_status,
}

module _ {D : Type 0} (ports : Ports D) where
  unfoldable pub mark_status : ImportRequest → Text → Text → Database D → Database D
  mark_status req job_id status db = record db {
    idempotency =
        insert req.operation_key
          (with_status req.operation_key job_id status (lookup req.operation_key db.idempotency))
          db.idempotency;
  }

  unfoldable pub put_job : ImportRequest → Text → Text → Database D → Database D
  put_job req job_id state db = record db {
    jobs =
        insert job_id
          (record {
            job_id = job_id;
            operation_key = req.operation_key;
            tenant_id = req.tenant_id;
            state = state;
            correlation_id = req.correlation_id;
          })
          db.jobs;
  }

  -- `_collect`
  unfoldable pub collect : ImportRequest → Collected
  collect req = elim (ports.read req.source.kind) [
    | none ↦ unsupported
    | some adapter ↦ elim (adapter req.source) [
      | none ↦ source_raised
      | some raws ↦
          let (valid, rejected) = validate_all ports.classifier req.natural_key_field raws in
          collected valid rejected
    ]
  ]

  unfoldable pub intent_of : ImportRequest → Text → ImportRecord → Bool → LineageIntent
  intent_of req job_id rec changed = record {
    event_type = text "import";
    occurred_at = ports.now;
    actor_ref = req.actor_ref;
    source_ref = rec.source_ref;
    target_ref = req.tenant_id ++ text ":" ++ req.target_table ++ text ":" ++ rec.natural_key;
    operation = if changed then text "created" else text "noop";
    schema_version = ports.schema_version;
    derivation_ref = some job_id;
    parent_lineage_ref = none;
    correlation_id = some req.correlation_id;
  }

  -- The row of a record and its lineage: whether the row changed, and the data.
  unfoldable pub apply_record : ImportRequest → Text → ImportRecord → D → Option (Bool × D)
  apply_record req job_id rec target =
      elim (ports.upsert req.target_table req.natural_key_field rec.natural_key
        (insert req.natural_key_field (str rec.natural_key) rec.fields) target) [
          | none ↦ none
          | some (changed, written) ↦ elim (ports.emit (intent_of req job_id rec changed) written) [
            | none ↦ none
            | some traced ↦ some (changed, traced)
          ]
        ]

  unfoldable pub count_change : Bool → ℕ → ℕ
  count_change changed n = if changed then n + 1 else n

  unfoldable pub count_rest : Bool → Option (ℕ × D) → Option (ℕ × D)
  count_rest changed none = none
  count_rest changed (some (n, target)) = some (count_change changed n, target)

  unfoldable pub apply_records : ImportRequest → Text → List ImportRecord → D → Option (ℕ × D)
  apply_records req job_id [] target = some (0, target)
  apply_records req job_id (rec ∷ batch) target = elim (apply_record req job_id rec target) [
    | none ↦ none
    | some (changed, target') ↦ count_rest changed (apply_records req job_id batch target')
  ]

  unfoldable pub checkpoint_of : Text → ℕ → ℕ → Checkpoint
  checkpoint_of job_id seq applied = record {
    job_id = job_id;
    batch_seq = seq;
    last_offset = seq * ports.batch_size;
    applied_count = applied;
    status = text "applied";
    updated_at = ports.now;
  }

  -- The checkpoint of a batch, and the database with it.
  unfoldable pub checkpointed : Text → ℕ → Database D → Option (ℕ × D) → Option (ℕ × Database D)
  checkpointed job_id seq db none = none
  checkpointed job_id seq db (some (n, target')) =
      if ports.takes_checkpoint job_id seq
      then some (
        n,
        record db {
          target = target';
          checkpoints = db.checkpoints ++ checkpoint_of job_id seq n ∷ [];
        },
      )
      else none

  -- `_apply_one_batch`; `none` where it raises.
  unfoldable pub apply_one_batch :
      ImportRequest → Text → ℕ → List ImportRecord → Database D → Option (ℕ × Database D)
  apply_one_batch req job_id seq batch db =
      checkpointed job_id seq db (apply_records req job_id batch db.target)

  -- What follows a batch: it is rolled back and the import marked, or the loop goes on.
  unfoldable pub after_batch :
      ImportRequest
      → Text
      → ℕ
      → ℕ
      → ℕ
      → Database D
      → (ℕ → ℕ → Database D → Applied D)
      → Option (ℕ × Database D)
      → Applied D
  after_batch req job_id size applied noop db next none =
      batch_failed (failed_status req job_id applied noop 0)
        (mark_status req job_id (text "failed") db)
  after_batch req job_id size applied noop db next (some (n, db')) =
      next (applied + n) (noop + (size - n)) db'

  -- The loop of `_apply_batches`, from a batch on.
  unfoldable pub apply_from :
      ImportRequest → Text → ℕ → ℕ → List (List ImportRecord) → ℕ → ℕ → Database D → Applied D
  apply_from req job_id start seq [] applied noop db = all_applied applied noop db
  apply_from req job_id start seq (batch ∷ batches) applied noop db =
      let next = apply_from req job_id start (suc seq) batches in
      if ltb seq start
      then next applied noop db
      else after_batch req job_id (length batch) applied noop db next
          (apply_one_batch req job_id seq batch db)

  unfoldable pub apply_batches :
      ImportRequest → Text → List ImportRecord → ℕ → Database D → Applied D
  apply_batches req job_id valid start db =
      apply_from req job_id start 1 (batches_of ports.batch_size valid) 0 0 db

  -- `_finalize`, without its event.
  unfoldable pub finalize_tables : ImportRequest → Text → ℕ → ℕ → ℕ → Database D → Database D
  finalize_tables req job_id applied noop rejected db =
      let db' = put_job req job_id (text "applied") db in
      record db' {
        idempotency =
            insert req.operation_key
              (record {
                operation_key = req.operation_key;
                job_id = job_id;
                status = text "applied";
                applied = applied;
                noop = noop;
                rejected = rejected;
              })
              db'.idempotency;
      }

  unfoldable pub replay_status : ImportRequest → Idempotency → ImportStatus
  replay_status req idem =
      status_of req idem.job_id (text "applied") idem.applied idem.noop idem.rejected [] true

  -- `_begin_job`
  unfoldable pub begin_from : ImportRequest → Database D → Option Idempotency → Begun D
  begin_from req db none = begun ports.new_job_id false (
      mark_status req ports.new_job_id (text "in_progress")
        (put_job req ports.new_job_id (text "in_progress") db))
  begin_from req db (some idem) =
      if text_eq idem.status (text "applied")
      then replay (replay_status req idem)
      else begun idem.job_id true db

  unfoldable pub begin_job : ImportRequest → Database D → Begun D
  begin_job req db = begin_from req db (lookup req.operation_key db.idempotency)

  -- The events of a call, in their order, beside its end and the database.
  abbrev pub Run : Type 0
  Run = Ended × (Database D × List ImportAuditEvent)

  unfoldable pub finish : ImportRequest → Text → ℕ → Applied D → Run
  finish req job_id rejected (batch_failed status db) =
      (answered status, (db, audit_event req (text "ImportFailed") (text "error:batch") ∷ []))
  finish req job_id rejected (all_applied applied noop db) = (
    answered (status_of req job_id (text "applied") applied noop rejected [] false),
    (
      finalize_tables req job_id applied noop rejected db,
      audit_event req (text "ImportCompleted") (text "success") ∷ [],
    ),
  )

  unfoldable pub import_collected : ImportRequest → Text → Database D → Collected → Run
  import_collected req job_id db source_raised = (port_raised, (db, []))
  import_collected req job_id db unsupported = (
    answered (failed_status req (text "unknown") 0 0 0),
    (db, audit_event req (text "ImportFailed") (text "error:unsupported_source") ∷ []),
  )
  import_collected req job_id db (collected valid rejected) =
      finish req job_id rejected
        (apply_batches req job_id valid (resume_from (latest_batch job_id db.checkpoints)) db)

  unfoldable pub after_event : ImportAuditEvent → Run → Run
  after_event event (ended, (db, events)) = (ended, (db, event ∷ events))

  unfoldable pub import_begun : ImportRequest → Database D → Begun D → Run
  import_begun req db (replay status) =
      (answered status, (db, audit_event req (text "ImportCompleted") (text "replayed") ∷ []))
  import_begun req db (begun job_id resuming db') =
      after_event
        (audit_event req (if resuming then text "ImportResumed" else text "ImportStarted")
          (text "success"))
        (import_collected req job_id db' (collect req))

  unfoldable pub import_opened : Bool → ImportRequest → Database D → Run
  import_opened false req db = (port_raised, (db, []))
  import_opened true req db = import_begun req db (begin_job req db)

  unfoldable pub start_import : ImportRequest → Database D → Run
  start_import req db =
      after_event (audit_event req (text "ImportRequested") (text "success"))
        (import_opened ports.opens req db)

  unfoldable pub status_from : Text → Text → Option Idempotency → Option ImportStatus
  status_from tenant_id correlation_id none = none
  status_from tenant_id correlation_id (some idem) = some (record {
    import_id = idem.job_id;
    tenant_id = tenant_id;
    state = idem.status;
    applied_count = idem.applied;
    noop_count = idem.noop;
    rejected_count = idem.rejected;
    last_error_summary = [];
    correlation_id = correlation_id;
    replayed = false;
  })

  unfoldable pub get_status : Text → Text → Text → Database D → Option ImportStatus
  get_status tenant_id operation_key correlation_id db =
      status_from tenant_id correlation_id (lookup operation_key db.idempotency)
