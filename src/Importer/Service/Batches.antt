-- ===== src/Importer/Service/Batches.antt =====
-- The batches of backend/import_service/service.py: what an import commits, and where it resumes.
use snack_portal.Common.{
  ℕ, suc, zero, ◌+◌, ◌-◌, ◌≤◌, ◌<◌, ◌≡◌, ◌≢◌, refl, sym, ap, ◌∙◌, subst, Bool, true, false, Option,
  none, some, List, [], ◌∷◌, ◌++◌, inl, inr, Bool-cases, Option-cases, ltb, length, if◌then◌else◌,
  arith,
}
use snack_portal.Common.Text.{Text, text, text_eq, text_eq_refl}
use snack_portal.Lineage.Session.Lists.{drop}
use snack_portal.Importer.Records.{ImportRecord, ImportRequest, ImportStatus}
use snack_portal.Importer.Service.{
  after_batch, apply_batches, apply_from, apply_one_batch, apply_record, apply_records,
  checkpoint_of, checkpointed, count_change, count_rest, mark_status,
}
use snack_portal.Importer.Jobs.{
  Applied, all_applied, batch_failed, Checkpoint, Database, Ports, batches_of, failed_status,
  latest_batch, newer, resume_from, status_of,
}
use snack_portal.Importer.Service.Slices.{joined, length-joined}

module _ {D : Type 0} (ports : Ports D) (req : ImportRequest) (job_id : Text) where
  -- All of the batches, committed from a number on: the changes and the database.
  unfoldable pub commit_all : ℕ → List (List ImportRecord) → Database D → Option (ℕ × Database D)
  commit_all seq [] db = some (0, db)
  commit_all seq (batch ∷ batches) db = elim (apply_one_batch ports req job_id seq batch db) [
    | none ↦ none
    | some (n, db') ↦ elim (commit_all (suc seq) batches db') [
      | none ↦ none
      | some (m, db'') ↦ some (n + m, db'')
    ]
  ]

  -- The next batch of a job, by its checkpoints.
  abbrev pub next_batch : Database D → ℕ
  next_batch db = resume_from (latest_batch job_id db.checkpoints)

  -- What a loop over pending batches comes to: all are committed, and every record is counted once; or
  -- those before a batch that fails are committed, the import is marked as failed, and the failed
  -- batch is the next one.
  abbrev pub Ends : ℕ → List (List ImportRecord) → ℕ → ℕ → Database D → Applied D → Type 0
  Ends seq pending applied noop db (all_applied a n db') =
      (m : ℕ) × (commit_all seq pending db ≡ some (m, db'))
      × (a ≡ applied + m)
      × (a + n ≡ applied + noop + length (joined pending))
      × (next_batch db' ≡ seq + length pending)
  Ends seq pending applied noop db (batch_failed status db') =
      (committed : List (List ImportRecord)) × (bad : List ImportRecord) × (rest : List
        (List ImportRecord))
      × (pending ≡ committed ++ bad ∷ rest)
      × ((m : ℕ) × (db1 : Database D) × (commit_all seq committed db ≡ some (m, db1))
          × (apply_one_batch ports req job_id (seq + length committed) bad db1 ≡ none)
          × (db' ≡ mark_status ports req job_id (text "failed") db1)
          × (next_batch db' ≡ seq + length committed)
          × (status.applied_count ≡ applied + m))

  count_rest-le :
      (changed : Bool) (rest : Option (ℕ × D)) (target' : D) (n k : ℕ)
      → ((m : ℕ) (t : D) → rest ≡ some (m, t) → m ≤ k)
      → count_rest ports changed rest ≡ some (n, target')
      → n ≤ suc k
  unfolding count_rest count_change
  count_rest-le changed none target' n k h e = absurd (cc)
  count_rest-le true (some (m, t)) target' n k h e = let l = h m t refl in ground arith
  count_rest-le false (some (m, t)) target' n k h e = let l = h m t refl in ground arith

  apply_records-le :
      (batch : List ImportRecord) (target target' : D) (n : ℕ)
      → apply_records ports req job_id batch target ≡ some (n, target')
      → n ≤ length batch
  unfolding apply_records
  apply_records-le [] target target' n h = ground arith
  apply_records-le (rec ∷ batch) target target' n h =
      elim (Option-cases (apply_record ports req job_id rec target)) [
        | inl e ↦ absurd (none_ne_some (n, target') (rw (e, apply_records) at h))
        | inr ((changed, t), e) ↦
            count_rest-le changed (apply_records ports req job_id batch t) target' n (length batch)
              (λ m t' f. apply_records-le batch t t' m f) (rw (e, apply_records) at h)
      ]
    where
      none_ne_some : (x : ℕ × D) → none ≢ some x
      none_ne_some x h = cc

  -- A batch that is committed counts at most its records, and has the next checkpoint.
  apply_one_batch-next :
      (seq n : ℕ) (batch : List ImportRecord) (db db' : Database D)
      → apply_one_batch ports req job_id seq batch db ≡ some (n, db')
      → (n ≤ length batch)
        × (db'.checkpoints ≡ db.checkpoints ++ checkpoint_of ports job_id seq n ∷ [])
  unfolding apply_one_batch
  apply_one_batch-next seq n batch db db' h =
      go (apply_records ports req job_id batch db.target) refl h
    where
      go :
          (run : Option (ℕ × D))
          → apply_records ports req job_id batch db.target ≡ run
          → checkpointed ports job_id seq db run ≡ some (n, db')
          → (n ≤ length batch)
            × (db'.checkpoints ≡ db.checkpoints ++ checkpoint_of ports job_id seq n ∷ [])
      go none e h = unfold checkpointed in absurd (cc)
      go (some (m, t)) e h =
          let l = apply_records-le batch db.target t m e in
          unfold checkpointed in (ground arith, ground arith)

  newer-bound :
      (seq bound : ℕ) (found : Option ℕ)
      → resume_from (newer seq found) ≤ bound
      → (seq < bound) × (resume_from found ≤ bound)
  unfolding newer resume_from
  newer-bound seq bound none h = (ground arith, omega (arith, h))
  newer-bound seq bound (some m) h = (ground arith, ground arith)

  latest-bound :
      (checkpoints : List Checkpoint) (seq n : ℕ)
      → resume_from (latest_batch job_id checkpoints) ≤ seq
      → latest_batch job_id (checkpoints ++ checkpoint_of ports job_id seq n ∷ []) ≡ some seq
  unfolding latest_batch checkpoint_of
  latest-bound [] seq n h = rw (text_eq_refl job_id) (unfold newer in refl)
  latest-bound (c ∷ checkpoints) seq n h = elim (Bool-cases (text_eq c.job_id job_id)) [
    | inr e ↦ rw e (latest-bound checkpoints seq n (rw e at h))
    | inl e ↦
        let (below, rest) =
          newer-bound c.batch_seq seq (latest_batch job_id checkpoints) (rw e at h) in
        rw e (rw (latest-bound checkpoints seq n rest) (unfold newer in ground arith))
  ]

  latest-append :
      (checkpoints : List Checkpoint) (seq n : ℕ)
      → resume_from (latest_batch job_id checkpoints) ≡ seq
      → resume_from (latest_batch job_id (checkpoints ++ checkpoint_of ports job_id seq n ∷ []))
        ≡ suc seq
  latest-append checkpoints seq n h =
      ap resume_from (latest-bound checkpoints seq n (omega (arith, h)))
      ∙ (unfold resume_from in omega arith)

  -- The batches below the first pending one are passed over.
  apply_from-skip :
      (k start seq applied noop : ℕ) (batches : List (List ImportRecord)) (db : Database D)
      → start ≡ seq + k
      → apply_from ports req job_id start seq batches applied noop db
        ≡ apply_from ports req job_id start start (drop k batches) applied noop db
  unfolding apply_from
  apply_from-skip zero start seq applied noop batches db h =
      ap (λ n. apply_from ports req job_id start n batches applied noop db) (omega (arith, h))
  apply_from-skip (suc k) start seq applied noop [] db h = refl
  apply_from-skip (suc k) start seq applied noop (b ∷ batches) db h =
      let low : ltb seq start ≡ true = ground arith in
      ap
        (λ t.
          if t
          then apply_from ports req job_id start (suc seq) batches applied noop db
          else after_batch ports req job_id (length b) applied noop db
              (apply_from ports req job_id start (suc seq) batches)
              (apply_one_batch ports req job_id seq b db))
        low
      ∙ apply_from-skip k start (suc seq) applied noop batches db (omega (arith, h))

  -- A batch before those that an end is about.
  before :
      (seq applied noop n : ℕ) (batch : List ImportRecord) (pending : List (List ImportRecord))
      (db db' : Database D) (outcome : Applied D)
      → apply_one_batch ports req job_id seq batch db ≡ some (n, db')
      → Ends (suc seq) pending (applied + n) (noop + (length batch - n)) db' outcome
      → Ends seq (batch ∷ pending) applied noop db outcome
  unfolding commit_all
  before seq applied noop n batch pending db db' (all_applied a b end) h (m, c, e, t, r) =
      let l = (apply_one_batch-next seq n batch db db' h).0 in
      (
        n + m,
        rw (h, commit_all) (rw c refl),
        omega (arith, e),
        omega (arith, l, t, length-joined batch pending),
        omega (arith, r),
      )
  before seq applied noop n batch pending db db' (batch_failed status end) h
        (committed, bad, rest, split, (m, db1, c, failed, marked, resumed, counted)) =
      (
        batch ∷ committed,
        bad,
        rest,
        ap (λ t. batch ∷ t) split,
        (
          n + m,
          db1,
          rw (h, commit_all) (rw c refl),
          subst (λ k. apply_one_batch ports req job_id k bad db1 ≡ none) (omega arith) failed,
          marked,
          omega (arith, resumed),
          omega (arith, counted),
        ),
      )

  marked-next :
      (seq : ℕ) (status : Text) (db : Database D)
      → next_batch db ≡ seq
      → next_batch (mark_status ports req job_id status db) ≡ seq
  unfolding mark_status
  marked-next seq status db h = h

  apply_from-Ends :
      (seq start applied noop : ℕ) (pending : List (List ImportRecord)) (db : Database D)
      → start ≤ seq
      → next_batch db ≡ seq
      → Ends seq pending applied noop db
          (apply_from ports req job_id start seq pending applied noop db)
  unfolding apply_from commit_all
  apply_from-Ends seq start applied noop [] db h r =
      (0, refl, omega arith, omega arith, omega (arith, r))
  apply_from-Ends seq start applied noop (batch ∷ pending) db h r =
      let high : ltb seq start ≡ false = ground arith in
      rw high (
        go (apply_one_batch ports req job_id seq batch db) refl (λ n db' e.
          apply_from-Ends (suc seq) start (applied + n) (noop + (length batch - n)) pending db'
            (omega (arith, h))
            (ap (λ cs. resume_from (latest_batch job_id cs))
                (apply_one_batch-next seq n batch db db' e).1
              ∙ latest-append db.checkpoints seq n r)))
    where
      go :
          (tried : Option (ℕ × Database D))
          → apply_one_batch ports req job_id seq batch db ≡ tried
          → ((n : ℕ) (db' : Database D)
              → apply_one_batch ports req job_id seq batch db ≡ some (n, db')
              → Ends (suc seq) pending (applied + n) (noop + (length batch - n)) db' (
                  apply_from ports req job_id start
                    (suc seq)
                    pending
                    (applied + n)
                    (noop + (length batch - n))
                    db'))
          → Ends seq (batch ∷ pending) applied noop db (
              after_batch ports req job_id
                (length batch)
                applied
                noop
                db
                (apply_from ports req job_id start (suc seq) pending)
                tried)
      go none e again =
          unfold after_batch in
          unfold failed_status in
          unfold status_of in
          unfold commit_all in
          (
            [],
            batch,
            pending,
            refl,
            (
              0,
              db,
              refl,
              subst (λ k. apply_one_batch ports req job_id k batch db ≡ none) (omega arith) e,
              refl,
              marked-next seq (text "failed") db r ∙ omega arith,
              omega arith,
            ),
          )
      go (some (n, db')) e again =
          unfold after_batch in before seq applied noop n batch pending db db' _ e (again n db' e)

  next_batch_pos : (db : Database D) → 0 < next_batch db
  unfolding resume_from
  next_batch_pos db = positive (latest_batch job_id db.checkpoints)
    where
      positive : (found : Option ℕ) → 0 < resume_from found
      positive none = omega arith
      positive (some n) = omega arith

  -- The batches that a job has not committed, by its checkpoints.
  abbrev pub pending_of : List ImportRecord → Database D → List (List ImportRecord)
  pending_of valid db = drop (next_batch db - 1) (batches_of ports.batch_size valid)

  -- An import from its resume point applies the batches that are pending by its checkpoints, in their
  -- order and no other. Either all of them are committed, every record of theirs is counted once as
  -- applied or as unchanged, and none is pending; or those before one that fails are committed, the
  -- database is that of these commits with the import marked as failed, and the resume point is the
  -- batch that failed.
  pub apply_batches-Ends :
      (valid : List ImportRecord) (db : Database D)
      → Ends
          (next_batch db)
          (pending_of valid db)
          0
          0
          db
          (apply_batches ports req job_id valid (next_batch db) db)
  unfolding apply_batches
  apply_batches-Ends valid db =
      let start = next_batch db in
      let positive = next_batch_pos db in
      subst (Ends start (pending_of valid db) 0 0 db)
        (sym (
          apply_from-skip (start - 1) start 1 0 0 (batches_of ports.batch_size valid) db
            (omega (arith, positive))))
        (apply_from-Ends start start 0 0 (pending_of valid db) db (omega arith) refl)

drop-nil : {A : Type 0} (n : ℕ) → ◌≡◌ {A = List A} (drop n []) []
drop-nil zero = refl
drop-nil (suc n) = refl

drop-drop : {A : Type 0} (a b : ℕ) (l : List A) → drop b (drop a l) ≡ drop (a + b) l
drop-drop zero b l = let e : b ≡ 0 + b = omega arith in ap (λ n. drop n l) e
drop-drop (suc a) b [] = drop-nil b ∙ sym (drop-nil (suc a + b))
drop-drop (suc a) b (x ∷ l) =
    let e : suc (a + b) ≡ suc a + b = omega arith in drop-drop a b l ∙ ap (λ n. drop n (x ∷ l)) e

drop-append : (l m : List (List ImportRecord)) → drop (length l) (l ++ m) ≡ m
drop-append [] m = refl
drop-append (x ∷ l) m = drop-append l m

module _ {D : Type 0} (ports : Ports D) (req : ImportRequest) (job_id : Text) where
  -- Where an import from its resume point fails, a later run of the same records starts with the batch
  -- that failed and has the same batches to do after it: no batch is skipped and none is done again.
  pub apply_batches-resumes :
      (valid : List ImportRecord) (db db' : Database D) (status : ImportStatus)
      → apply_batches ports req job_id valid (next_batch ports req job_id db) db
        ≡ batch_failed status db'
      → (committed : List (List ImportRecord)) × (bad : List ImportRecord) × (rest : List
          (List ImportRecord))
        × (pending_of ports req job_id valid db ≡ committed ++ bad ∷ rest)
        × (pending_of ports req job_id valid db' ≡ bad ∷ rest)
  apply_batches-resumes valid db db' status h =
      let pos = next_batch_pos ports req job_id db in
      let batches = batches_of ports.batch_size valid in
      let (committed, bad, rest, split, (m, db1, c, failed, marked, resumed, counted)) =
        subst
          (Ends ports req job_id (next_batch ports req job_id db)
            (pending_of ports req job_id valid db) 0 0 db)
          h (apply_batches-Ends ports req job_id valid db) in
      (
        committed,
        bad,
        rest,
        split,
        ap (λ n. drop n batches) (omega (arith, resumed, pos))
            ∙ (sym (drop-drop (next_batch ports req job_id db - 1) (length committed) batches)
                ∙ (ap (drop (length committed)) split ∙ drop-append committed (bad ∷ rest))),
      )
