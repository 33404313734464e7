-- ===== src/Importer/Jobs.antt =====
-- The job tables of backend/import_service/service.py with their helpers, the audit events, and the
-- slicing of the records.
use snack_portal.Common.{
  ℕ, suc, zero, ◌+◌, Bool, false, Option, none, some, List, [], ◌∷◌, ltb, length, if◌then◌else◌,
}
use snack_portal.Common.Text.{Text, text, text_eq}
use snack_portal.Common.Dict.{Dict}
use snack_portal.Lineage.Session.{take}
use snack_portal.Lineage.Emit.{LineageIntent}
use snack_portal.Importer.Records.{
  Classifier, ImportRecord, ImportRequest, ImportStatus, RawRecord, SourceDescriptor, SourceKind,
  Validated, accepted, invalid, Value, validate,
}

pub record ImportJob : Type 0 where
  pub job_id : Text
  pub operation_key : Text
  pub tenant_id : Text
  pub state : Text
  pub correlation_id : Text

-- The counts have the columns' default 0.
pub record Idempotency : Type 0 where
  pub operation_key : Text
  pub job_id : Text
  pub status : Text
  pub applied : ℕ
  pub noop : ℕ
  pub rejected : ℕ

pub record Checkpoint : Type 0 where
  pub job_id : Text
  pub batch_seq : ℕ
  pub last_offset : ℕ
  pub applied_count : ℕ
  pub status : Text
  pub updated_at : Text

pub record Database (D : Type 0) : Type 0 where
  pub target : D
  pub jobs : Dict ImportJob
  pub idempotency : Dict Idempotency
  pub checkpoints : List Checkpoint

pub record ImportAuditEvent : Type 0 where
  pub actor_ref : Text
  pub action : Text
  pub correlation_id : Text
  pub outcome : Text
  pub target_ref : Text
  pub source_ref : Text

pub record Ports (D : Type 0) : Type 0 where
  pub opens : Bool
  pub upsert : Text → Text → Text → Dict Value → D → Option (Bool × D)
  pub emit : LineageIntent → D → Option D
  pub takes_checkpoint : Text → ℕ → Bool
  pub read : SourceKind → Option (SourceDescriptor → Option (List RawRecord))
  pub classifier : Classifier
  pub new_job_id : Text
  pub now : Text
  pub schema_version : Text
  pub batch_size : ℕ

unfoldable pub drop_records : ℕ → List ImportRecord → List ImportRecord
drop_records zero l = l
drop_records (suc n) [] = []
drop_records (suc n) (_ ∷ l) = drop_records n l

-- `[valid[i : i + size] for i in range(0, len(valid), size)]`, a round to a slice.
unfoldable pub slices : ℕ → ℕ → List ImportRecord → List (List ImportRecord)
slices zero size valid = []
slices (suc rounds) size [] = []
slices (suc rounds) size (r ∷ valid) =
    take size (r ∷ valid) ∷ slices rounds size (drop_records size (r ∷ valid))

unfoldable pub batches_of : ℕ → List ImportRecord → List (List ImportRecord)
batches_of size valid = slices (length valid) size valid

unfoldable pub newer : ℕ → Option ℕ → Option ℕ
newer seq none = some seq
newer seq (some n) = if ltb n seq then some seq else some n

-- The largest `batch_seq` of a job's checkpoints.
unfoldable pub latest_batch : Text → List Checkpoint → Option ℕ
latest_batch job_id [] = none
latest_batch job_id (c ∷ checkpoints) =
    if text_eq c.job_id job_id
    then newer c.batch_seq (latest_batch job_id checkpoints)
    else latest_batch job_id checkpoints

-- `_resume_point`
unfoldable pub resume_from : Option ℕ → ℕ
resume_from none = 1
resume_from (some n) = n + 1

unfoldable pub status_of : ImportRequest → Text → Text → ℕ → ℕ → ℕ → Text → Bool → ImportStatus
status_of req job_id state applied noop rejected summary replayed = record {
  import_id = job_id;
  tenant_id = req.tenant_id;
  state = state;
  applied_count = applied;
  noop_count = noop;
  rejected_count = rejected;
  last_error_summary = summary;
  correlation_id = req.correlation_id;
  replayed = replayed;
}

unfoldable pub failed_status : ImportRequest → Text → ℕ → ℕ → ℕ → ImportStatus
failed_status req job_id applied noop rejected =
    status_of req job_id (text "failed") applied noop rejected (text "batch_failed") false

unfoldable pub audit_event : ImportRequest → Text → Text → ImportAuditEvent
audit_event req action outcome = record {
  actor_ref = req.actor_ref;
  action = action;
  correlation_id = req.correlation_id;
  outcome = outcome;
  target_ref = req.tenant_id;
  source_ref = req.source.ref;
}

-- How a call ends: with a status, or with an exception of a port.
pub data Ended : Type 0 where
  answered : ImportStatus → Ended
  port_raised : Ended

-- How the loop over the batches ends: with the counts, or with the status of a failure.
pub data Applied (D : Type 0) : Type 0 where
  all_applied : ℕ → ℕ → Database D → Applied D
  batch_failed : ImportStatus → Database D → Applied D

-- What beginning a job comes to: a replay, or a job that is resumed or fresh.
pub data Begun (D : Type 0) : Type 0 where
  replay : ImportStatus → Begun D
  begun : Text → Bool → Database D → Begun D

-- What collecting the source comes to.
pub data Collected : Type 0 where
  collected : List ImportRecord → ℕ → Collected
  unsupported : Collected
  source_raised : Collected

unfoldable pub keep_valid : Validated → List ImportRecord × ℕ → List ImportRecord × ℕ
keep_valid (accepted r) (valid, rejected) = (r ∷ valid, rejected)
keep_valid (invalid _) (valid, rejected) = (valid, rejected + 1)

unfoldable pub validate_all : Classifier → Text → List RawRecord → List ImportRecord × ℕ
validate_all classifier key [] = ([], 0)
validate_all classifier key (raw ∷ raws) =
    keep_valid (validate classifier raw key) (validate_all classifier key raws)

-- `upsert` of the columns of the key, the job and the status.
unfoldable pub with_status : Text → Text → Text → Option Idempotency → Idempotency
with_status operation_key job_id status none = record {
  operation_key = operation_key;
  job_id = job_id;
  status = status;
  applied = 0;
  noop = 0;
  rejected = 0;
}
with_status operation_key job_id status (some idem) = record idem {
  operation_key = operation_key;
  job_id = job_id;
  status = status;
}
