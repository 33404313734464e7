-- ===== src/Importer/Service/Replay.antt =====
-- Operation-level idempotency of backend/import_service/service.py: an import that is complete is not
-- done again.
use snack_portal.Common.{
  ℕ, suc, length, ltb, ◌≡◌, ◌≢◌, refl, sym, ap, ◌∙◌, subst, Bool, true, false, Option, none, some,
  List, [], ◌∷◌, inl, inr, Bool-cases, if◌then◌else◌,
}
use snack_portal.Common.Text.{Text, text, text_eq, text_eq_refl, text_eq_ne, text_eq_sound}
use snack_portal.Common.Dict.{lookup, lookup-insert_self}
use snack_portal.Importer.Records.{ImportRecord, ImportRequest, ImportStatus}
use snack_portal.Importer.Service.{
  apply_one_batch, after_batch, import_opened, Run, after_event, apply_batches, begin_from,
  begin_job, collect, finalize_tables, finish, import_begun, import_collected, replay_status,
  start_import, apply_from,
}
use snack_portal.Importer.Jobs.{
  batches_of, Applied, all_applied, batch_failed, Collected, collected, unsupported, source_raised,
  Database, answered, port_raised, Idempotency, ImportAuditEvent, Ports, audit_event, failed_status,
  latest_batch, resume_from, status_of,
}

module _ {D : Type 0} (ports : Ports D) where
  -- An operation that the idempotency table has as applied.
  abbrev pub IsApplied : ImportRequest → Database D → Idempotency → Type 0
  IsApplied req db idem =
      (lookup req.operation_key db.idempotency ≡ some idem) × (idem.status ≡ text "applied")

  pub applied_replays :
      (req : ImportRequest) (db : Database D) (idem : Idempotency)
      → ports.opens ≡ true
      → IsApplied req db idem
      → start_import ports req db ≡ (
        answered (replay_status ports req idem),
        (
          db,
          audit_event req (text "ImportRequested") (text "success")
              ∷ audit_event req (text "ImportCompleted") (text "replayed")
              ∷ [],
        ),
      )
  unfolding start_import import_opened import_begun begin_job begin_from after_event
  applied_replays req db idem opened (found, applied) =
      rw opened (rw found (rw applied (rw (text_eq_refl (text "applied")) refl)))

  -- A call that ends with an applied import leaves it recorded, with the counts of its status.
  abbrev Records : ImportRequest → Run ports → Type 0
  Records req run =
      (status : ImportStatus)
      → run.0 ≡ answered status
      → status.state ≡ text "applied"
      → (idem : Idempotency) × IsApplied req run.1.0 idem
        × (replay_status ports req idem ≡ record status { replayed = true })

  failed_ne_applied : text "failed" ≢ text "applied"
  unfolding text_eq
  failed_ne_applied = text_eq_ne (text "failed") (text "applied") refl

  answered_inj : (a b : ImportStatus) → answered a ≡ answered b → a ≡ b
  answered_inj a b h = cc

  -- A failed batch ends with a failed status.
  abbrev HasFailed : Applied D → Type 0
  HasFailed (all_applied applied noop db) = Unit {0}
  HasFailed (batch_failed status db) = status.state ≡ text "failed"

  after_batch-HasFailed :
      (req : ImportRequest) (job_id : Text) (size applied noop : ℕ) (db : Database D)
      (next : ℕ → ℕ → Database D → Applied D) (tried : Option (ℕ × Database D))
      → ((a n : ℕ) (d : Database D) → HasFailed (next a n d))
      → HasFailed (after_batch ports req job_id size applied noop db next tried)
  unfolding after_batch failed_status status_of
  after_batch-HasFailed req job_id size applied noop db next none h = refl
  after_batch-HasFailed req job_id size applied noop db next (some (n, db')) h = h _ _ db'

  branch-HasFailed :
      (b : Bool) (x y : Applied D) → HasFailed x → HasFailed y → HasFailed (if b then x else y)
  branch-HasFailed true x y hx hy = hx
  branch-HasFailed false x y hx hy = hy

  apply_from-HasFailed :
      (req : ImportRequest) (job_id : Text) (start seq : ℕ) (batches : List (List ImportRecord))
      (applied noop : ℕ) (db : Database D)
      → HasFailed (apply_from ports req job_id start seq batches applied noop db)
  unfolding apply_from
  apply_from-HasFailed req job_id start seq [] applied noop db = tt
  apply_from-HasFailed req job_id start seq (batch ∷ batches) applied noop db =
      let next = apply_from ports req job_id start (suc seq) batches in
      branch-HasFailed (ltb seq start) _ _
        (apply_from-HasFailed req job_id start (suc seq) batches applied noop db)
        (after_batch-HasFailed req job_id (length batch) applied noop db next
          (apply_one_batch ports req job_id seq batch db)
          (λ a n d. apply_from-HasFailed req job_id start (suc seq) batches a n d))

  apply_batches-HasFailed :
      (req : ImportRequest) (job_id : Text) (valid : List ImportRecord) (start : ℕ)
      (db : Database D)
      → HasFailed (apply_batches ports req job_id valid start db)
  unfolding apply_batches
  apply_batches-HasFailed req job_id valid start db =
      apply_from-HasFailed req job_id start 1 (batches_of ports.batch_size valid) 0 0 db

  finish-Records :
      (req : ImportRequest) (job_id : Text) (rejected : ℕ) (outcome : Applied D)
      → HasFailed outcome
      → Records req (finish ports req job_id rejected outcome)
  unfolding finish finalize_tables replay_status status_of
  finish-Records req job_id rejected (batch_failed failed db) f status e a = absurd (
      failed_ne_applied
        (sym f ∙ (ap (λ (s : ImportStatus). s.state) (answered_inj failed status e) ∙ a)))
  finish-Records req job_id rejected (all_applied applied noop db) f status e a = (
    record {
      operation_key = req.operation_key;
      job_id = job_id;
      status = text "applied";
      applied = applied;
      noop = noop;
      rejected = rejected;
    },
    (lookup-insert_self req.operation_key _ _, refl),
    ap (λ (s : ImportStatus). record s { replayed = true }) (answered_inj _ status e),
  )

  import_collected-Records :
      (req : ImportRequest) (job_id : Text) (db : Database D) (source : Collected)
      → Records req (import_collected ports req job_id db source)
  unfolding import_collected failed_status status_of
  import_collected-Records req job_id db source_raised status e a = absurd (cc)
  import_collected-Records req job_id db unsupported status e a =
      absurd (failed_ne_applied (ap (λ (s : ImportStatus). s.state) (answered_inj _ status e) ∙ a))
  import_collected-Records req job_id db (collected valid rejected) status e a =
      let start = resume_from (latest_batch job_id db.checkpoints) in
      finish-Records req job_id rejected (apply_batches ports req job_id valid start db)
        (apply_batches-HasFailed req job_id valid start db) status e a

  replayed_as :
      (req : ImportRequest) (idem : Idempotency) (status : ImportStatus)
      → answered (replay_status ports req idem) ≡ answered status
      → replay_status ports req idem ≡ record status { replayed = true }
  unfolding replay_status status_of
  replayed_as req idem status f =
      ap (λ (s : ImportStatus). record s { replayed = true }) (answered_inj _ status f)

  import_begun-Records :
      (req : ImportRequest) (db : Database D)
      → Records req (import_begun ports req db (begin_job ports req db))
  unfolding import_begun begin_job after_event
  import_begun-Records req db = cases (lookup req.operation_key db.idempotency) refl
    where
      cases :
          (found : Option Idempotency)
          → lookup req.operation_key db.idempotency ≡ found
          → Records req (import_begun ports req db (begin_from ports req db found))
      cases none e = unfold begin_from in import_collected-Records req _ _ (collect ports req)
      cases (some idem) e =
          unfold begin_from in
          elim (Bool-cases (text_eq idem.status (text "applied"))) [
            | inr n ↦ rw n (import_collected-Records req _ db (collect ports req))
            | inl y ↦ rw y (λ status f a. (
              idem,
              (e, text_eq_sound idem.status (text "applied") y),
              replayed_as req idem status f,
            ))
          ]

  not_raised : (status : ImportStatus) → port_raised ≢ answered status
  not_raised status h = cc

  import_opened-Records :
      (b : Bool) (req : ImportRequest) (db : Database D)
      → Records req (import_opened ports b req db)
        × ((status : ImportStatus) → (import_opened ports b req db).0 ≡ answered status → b ≡ true)
  unfolding import_opened
  import_opened-Records true req db = (import_begun-Records req db, λ status f. refl)
  import_opened-Records false req db =
      (λ status f a. absurd (not_raised status f), λ status f. absurd (not_raised status f))

  start_import-Records :
      (req : ImportRequest) (db : Database D)
      → Records req (start_import ports req db)
        × ((status : ImportStatus)
            → (start_import ports req db).0 ≡ answered status
            → ports.opens ≡ true)
  unfolding start_import after_event
  start_import-Records req db = import_opened-Records ports.opens req db

  -- Where an import ends as applied, the same request on the database that it leaves is a replay: it
  -- answers the same status, marked as a replay, changes nothing and writes the two events of one.
  pub start_import-replays :
      (req : ImportRequest) (db db' : Database D) (status : ImportStatus)
      (events : List ImportAuditEvent)
      → start_import ports req db ≡ (answered status, (db', events))
      → status.state ≡ text "applied"
      → start_import ports req db' ≡ (
        answered (record status { replayed = true }),
        (
          db',
          audit_event req (text "ImportRequested") (text "success")
              ∷ audit_event req (text "ImportCompleted") (text "replayed")
              ∷ [],
        ),
      )
  start_import-replays req db db' status events e a =
      let (records, opened) = start_import-Records req db in
      let ends = ap (λ (run : Run ports). run.0) e in
      let left = ap (λ (run : Run ports). run.1.0) e in
      let (idem, (found, applied), same) = records status ends a in
      let found' =
        subst (λ (d : Database D). lookup req.operation_key d.idempotency ≡ some idem) left found in
      applied_replays req db' idem (opened status ends) (found', applied)
      ∙ ap
          (λ (s : ImportStatus). (
            answered s,
            (
              db',
              audit_event req (text "ImportRequested") (text "success")
                  ∷ audit_event req (text "ImportCompleted") (text "replayed")
                  ∷ [],
            ),
          ))
          same
