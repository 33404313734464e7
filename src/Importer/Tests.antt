-- ===== src/Importer/Tests.antt =====
-- Concrete imports, and each theorem at one. The target of the tests is the list of the keys that were
-- written.
use snack_portal.Common.{
  ◌≤◌, ◌<◌, ◌≡◌, ◌↔◌, refl, Bool, true, false, Option, none, some, List, [], ◌∷◌, ◌++◌, All, any,
  length, if◌then◌else◌,
}
use snack_portal.Common.Text.{Text, text, text_eq}
use snack_portal.Common.Dict.{lookup, insert}
use snack_portal.Lineage.Session.{take}
use snack_portal.Importer.Records.{
  Classifier, ImportMode, ImportRecord, ImportRequest, ImportStatus, RawRecord, SourceKind, Value,
  accepted, is_blank, str, validate, validate_keyed, accept_record, first_error, field_error,
  text_error, value_text, is_control, personal_fields, is_pii, pii_names, looks_personal,
}
use snack_portal.Importer.Records.Clean.{IsClean, record_of, validate-IsClean}
use snack_portal.Importer.Service.{
  apply_batches, start_import, apply_from, apply_one_batch, apply_record, apply_records,
  after_batch, checkpointed, checkpoint_of, count_change, count_rest, mark_status, intent_of,
  import_opened, import_begun, begin_job, begin_from, import_collected, collect, finish,
  finalize_tables, after_event, put_job,
}
use snack_portal.Importer.Jobs.{
  Database, Ports, answered, audit_event, batch_failed, batches_of, slices, drop_records,
  failed_status, latest_batch, resume_from, status_of, with_status, validate_all, keep_valid,
}
use snack_portal.Importer.Service.Batches.{
  Ends, apply_batches-Ends, apply_batches-resumes, next_batch, pending_of,
}
use snack_portal.Importer.Service.Slices.{batches_of-joined, joined}
use snack_portal.Importer.Service.Replay.{start_import-replays}

abbrev classifier : Classifier
classifier = record { lower = λ t. t; has_address_or_phone = λ t. false }

-- A key is written unless it is the word that the target refuses.
abbrev write : Text → List Text → Option (Bool × List Text)
unfolding text_eq
write key written =
    if text_eq key (text "bad")
    then none
    else if any (text_eq key) written
    then some (false, written)
    else some (true, key ∷ written)

abbrev raw : Text → RawRecord
raw key = record { content = (text "record_id", str key) ∷ []; source_ref = text "csv" }

abbrev ports_for : List RawRecord → Ports (List Text)
unfolding write
ports_for raws = record {
  opens = true;
  upsert = λ table field key fields target. write key target;
  emit = λ intent target. some target;
  takes_checkpoint = λ job seq. true;
  read = λ kind. some (λ source. some raws);
  classifier = classifier;
  new_job_id = text "j1";
  now = text "now";
  schema_version = text "1";
  batch_size = 2;
}

abbrev req : ImportRequest
req = record {
  tenant_id = text "acme";
  source = record { kind = SourceKind.csv; ref = text "f"; payload = none; directory_kind = none };
  mode = ImportMode.sync;
  operation_key = text "op";
  correlation_id = text "c1";
  actor_ref = text "ann";
  natural_key_field = text "record_id";
  target_table = text "tenant_copy";
}

abbrev empty : Database (List Text)
empty = record { target = []; jobs = []; idempotency = []; checkpoints = [] }

abbrev rec : Text → ImportRecord
rec key = record {
  natural_key = key;
  fields = (text "record_id", str key) ∷ [];
  pii_fields = [];
  source_ref = text "csv";
}

batches_of-joined_example :
    (joined (batches_of 2 (rec (text "a") ∷ rec (text "b") ∷ rec (text "c") ∷ []))
      ≡ rec (text "a") ∷ rec (text "b") ∷ rec (text "c") ∷ [])
    × All
        (λ b. (0 < length b) × (length b ≤ 2))
        (batches_of 2 (rec (text "a") ∷ rec (text "b") ∷ rec (text "c") ∷ []))
batches_of-joined_example =
    batches_of-joined 1 (rec (text "a") ∷ rec (text "b") ∷ rec (text "c") ∷ [])

apply_batches-Ends_example :
    Ends
      (ports_for [])
      req
      (text "j1")
      (next_batch (ports_for []) req (text "j1") empty)
      (pending_of (ports_for []) req (text "j1") (rec (text "a") ∷ rec (text "bad") ∷ []) empty)
      0
      0
      empty
      (apply_batches
        (ports_for [])
        req
        (text "j1")
        (rec (text "a") ∷ rec (text "bad") ∷ [])
        (next_batch (ports_for []) req (text "j1") empty)
        empty)
apply_batches-Ends_example =
    apply_batches-Ends (ports_for []) req (text "j1") (rec (text "a") ∷ rec (text "bad") ∷ []) empty

validate-IsClean_example :
    (validate classifier (raw (text "a")) (text "record_id") ≡ accepted (rec (text "a"))) ↔ (
      (v : Value) × (lookup (text "record_id") (raw (text "a")).content ≡ some v)
      × (is_blank v ≡ false)
      × All (λ f. IsClean f.1) (raw (text "a")).content
      × (rec (text "a") ≡ record_of classifier (raw (text "a")) v))
validate-IsClean_example =
    validate-IsClean classifier (raw (text "a")) (text "record_id") (rec (text "a"))

-- Two records are written, and the target refuses the third one, in the second batch.
abbrev records : List ImportRecord
records = rec (text "a") ∷ rec (text "b") ∷ rec (text "bad") ∷ []

abbrev after_first : Database (List Text)
unfolding checkpoint_of
after_first = record {
  target = text "b" ∷ text "a" ∷ [];
  jobs = [];
  idempotency = [];
  checkpoints = checkpoint_of (ports_for []) (text "j1") 1 2 ∷ [];
}

second_fails :
    apply_batches
      (ports_for [])
      req
      (text "j1")
      records
      (next_batch (ports_for []) req (text "j1") empty)
      empty
    ≡ batch_failed
        (failed_status req (text "j1") 2 0 0)
        (mark_status (ports_for []) req (text "j1") (text "failed") after_first)
unfolding ports_for after_first write apply_batches apply_from apply_one_batch apply_record
    apply_records after_batch batches_of slices drop_records take checkpointed checkpoint_of
    count_change count_rest failed_status latest_batch mark_status resume_from status_of text_eq
    insert with_status lookup intent_of
second_fails = refl

apply_batches-resumes_example :
    (committed : List (List ImportRecord)) × (bad : List ImportRecord) × (rest : List
      (List ImportRecord))
    × (pending_of (ports_for []) req (text "j1") records empty ≡ committed ++ bad ∷ rest)
    × (pending_of
          (ports_for [])
          req
          (text "j1")
          records
          (mark_status (ports_for []) req (text "j1") (text "failed") after_first)
        ≡ bad ∷ rest)
apply_batches-resumes_example =
    apply_batches-resumes (ports_for []) req (text "j1") records empty
      (mark_status (ports_for []) req (text "j1") (text "failed") after_first)
      (failed_status req (text "j1") 2 0 0) second_fails

abbrev ports : Ports (List Text)
unfolding ports_for
ports = ports_for (raw (text "a") ∷ [])

abbrev done_status : ImportStatus
unfolding status_of
done_status = status_of req (text "j1") (text "applied") 1 0 0 [] false

abbrev done_database : Database (List Text)
done_database = (start_import ports req empty).1.0

first_import : start_import ports req empty ≡ (
  answered done_status,
  (
    done_database,
    audit_event req (text "ImportRequested") (text "success")
        ∷ audit_event req (text "ImportStarted") (text "success")
        ∷ audit_event req (text "ImportCompleted") (text "success")
        ∷ [],
  ),
)
unfolding ports done_status ports_for write start_import import_opened import_begun begin_job
    begin_from import_collected collect finish finalize_tables after_event put_job apply_batches
    apply_from apply_one_batch apply_record apply_records after_batch batches_of slices drop_records
    take checkpointed checkpoint_of count_change count_rest latest_batch mark_status resume_from
    status_of text_eq insert with_status lookup intent_of validate_all keep_valid validate
    validate_keyed accept_record first_error field_error text_error is_blank value_text is_control
    personal_fields is_pii pii_names looks_personal
first_import = refl

applied_state : done_status.state ≡ text "applied"
unfolding done_status status_of
applied_state = refl

start_import-replays_example : start_import ports req done_database ≡ (
  answered (record done_status { replayed = true }),
  (
    done_database,
    audit_event req (text "ImportRequested") (text "success")
        ∷ audit_event req (text "ImportCompleted") (text "replayed")
        ∷ [],
  ),
)
start_import-replays_example =
    start_import-replays ports req empty done_database done_status
      (audit_event req (text "ImportRequested") (text "success")
        ∷ audit_event req (text "ImportStarted") (text "success")
        ∷ audit_event req (text "ImportCompleted") (text "success")
        ∷ [])
      first_import applied_state
