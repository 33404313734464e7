-- ===== src/Lineage/Emit/Chained.antt =====
-- The write path of backend/lineage_service/emit.py keeps the chain that the verification checks.
use snack_portal.Common.{
  ◌+◌, ◌≡◌, refl, sym, ap, ◌∙◌, subst, Bool, true, false, Option, none, some, List, [], ◌∷◌, ◌++◌,
  length, arith,
}
use snack_portal.Common.Text.{Text}
use snack_portal.Lineage.Canonical.{LineageRow, marker_for, canonical_content, v1_fields}
use snack_portal.Lineage.Session.{
  Run, done, raised, unfinished, ◌>>=◌, answer, WriteSession, IsAppendOnly,
}
use snack_portal.Lineage.Emit.{
  Emission, announce, Keeper, LineageIntent, OperationalAuditEvent, chain_key, emit, emit_locked,
  head_segment, head_marker, head_seq, marked_row, record_event, unmarked_row, written_event,
}
use snack_portal.Lineage.Verify.{version_of}
use snack_portal.Lineage.Verify.Chain.{IsChain}
use snack_portal.Lineage.Emit.Head.{
  last_row, latest-last_row, IsChain-Ascending, open_seq, open_seq-length, IsChain-extends, heads,
}

-- A row says what an intent says, field by field.
pub record IsRecordOf (intent : LineageIntent) (r : LineageRow) : Type 0 where
  event_type : r.event_type ≡ intent.event_type
  occurred_at : r.occurred_at ≡ intent.occurred_at
  actor_ref : r.actor_ref ≡ intent.actor_ref
  source_ref : r.source_ref ≡ intent.source_ref
  target_ref : r.target_ref ≡ intent.target_ref
  operation : r.operation ≡ intent.operation
  schema_version : r.schema_version ≡ intent.schema_version
  derivation_ref : r.derivation_ref ≡ intent.derivation_ref
  parent_lineage_ref : r.parent_lineage_ref ≡ intent.parent_lineage_ref
  correlation_id : r.correlation_id ≡ intent.correlation_id

-- The row that an emission makes, with its marker.
abbrev new_row : Keeper → Text → LineageRow → LineageRow
new_row keeper key row = record row {
  integrity_marker = elim (marker_for keeper.digest key row row.prev_marker 1) [
    | none ↦ []
    | some m ↦ m
  ];
}

marked :
    (keeper : Keeper) (key lineage_id : Text) (intent : LineageIntent) (prev : Option LineageRow)
    → marked_row keeper key (unmarked_row lineage_id intent prev)
      ≡ done (new_row keeper key (unmarked_row lineage_id intent prev))
unfolding marked_row unmarked_row marker_for canonical_content answer
marked keeper key lineage_id intent prev = refl

new_row-marker :
    (keeper : Keeper) (key lineage_id : Text) (intent : LineageIntent) (prev : Option LineageRow)
    → let x = new_row keeper key (unmarked_row lineage_id intent prev) in
      marker_for keeper.digest key x x.prev_marker (version_of x) ≡ some x.integrity_marker
unfolding unmarked_row marker_for canonical_content v1_fields version_of
new_row-marker keeper key lineage_id intent prev = refl

announced :
    (keeper : Keeper) (lineage_id id' : Text) (intent : LineageIntent) (t table' : List LineageRow)
    (events : List OperationalAuditEvent)
    → announce keeper lineage_id intent t ≡ done (id', (table', events))
    → (t ≡ table') × (id' ≡ lineage_id)
unfolding announce
announced keeper lineage_id id' intent t table' events h =
    recorded (record_event keeper.sink (written_event intent)) h
  where
    recorded :
        (run : Run (List OperationalAuditEvent))
        → ◌>>=◌ {B = Emission} run (λ events. done (lineage_id, (t, events)))
          ≡ done (id', (table', events))
        → (t ≡ table') × (id' ≡ lineage_id)
    recorded (done e) h = (cc, cc)
    recorded raised h = absurd (cc)
    recorded unfinished h = absurd (cc)

-- What an emission that returns has done to the table.
appended :
    (keeper : Keeper) (lineage_id id' : Text) (intent : LineageIntent)
    (out : Option (List LineageRow)) (table' : List LineageRow)
    (events : List OperationalAuditEvent)
    → (answer out >>= announce keeper lineage_id intent) ≡ done (id', (table', events))
    → (out ≡ some table') × (id' ≡ lineage_id)
unfolding answer
appended keeper lineage_id id' intent none table' events h = absurd (cc)
appended keeper lineage_id id' intent (some t) table' events h =
    let (e, i) = announced keeper lineage_id id' intent t table' events h in (ap some e, i)

locked :
    (keeper : Keeper) (session : WriteSession) (key lineage_id id' : Text) (intent : LineageIntent)
    (table table' : List LineageRow) (events : List OperationalAuditEvent)
    → chain_key keeper session.tenant_id ≡ done key
    → emit_locked keeper session lineage_id intent table ≡ done (id', (table', events))
    → (session.append table
          (new_row keeper key (unmarked_row lineage_id intent (session.latest table)))
        ≡ some table')
      × (id' ≡ lineage_id)
unfolding emit_locked
locked keeper session key lineage_id id' intent table table' events known h =
    let row = unmarked_row lineage_id intent (session.latest table) in
    let finish : LineageRow → Run Emission =
      λ x. answer (session.append table x) >>= announce keeper lineage_id intent in
    let unlocked =
      ap (λ (run : Run Text). run >>= λ (k : Text). marked_row keeper k row >>= finish) known in
    let unmarked =
      ap (λ (run : Run LineageRow). run >>= finish)
        (marked keeper key lineage_id intent (session.latest table)) in
    appended keeper lineage_id id' intent (session.append table (new_row keeper key row)) table'
      events (sym unmarked ∙ (sym unlocked ∙ h))

snoc_last : (l : List LineageRow) (r x : LineageRow) → l ++ r ∷ [] ≡ l ++ x ∷ [] → r ≡ x
snoc_last [] r x h = cc
snoc_last (y ∷ l) r x h = snoc_last l r x (cc)

module _ (keeper : Keeper) (session : WriteSession) (key : Text)
    (known : chain_key keeper session.tenant_id ≡ done key) (only : IsAppendOnly session) where
  emitted :
      (lineage_id : Text) (intent : LineageIntent) (table : List LineageRow)
      (events : List OperationalAuditEvent)
      → (let x = new_row keeper key (unmarked_row lineage_id intent (session.latest table)) in
          session.append table x ≡ some (table ++ x ∷ []))
      → record_event keeper.sink (written_event intent) ≡ done events
      → (let x = new_row keeper key (unmarked_row lineage_id intent (session.latest table)) in
          emit keeper session true lineage_id intent table
          ≡ done (lineage_id, (table ++ x ∷ [], events)))
  unfolding emit emit_locked answer announce
  emitted lineage_id intent table events a taken =
      let row = unmarked_row lineage_id intent (session.latest table) in
      let x = new_row keeper key row in
      let finish : LineageRow → Run Emission =
        λ q. answer (session.append table q) >>= announce keeper lineage_id intent in
      ap (λ (run : Run Text). run >>= λ (k : Text). marked_row keeper k row >>= finish) known
      ∙ (ap (λ (run : Run LineageRow). run >>= finish)
            (marked keeper key lineage_id intent (session.latest table))
          ∙ (ap (λ o. answer o >>= announce keeper lineage_id intent) a
              ∙ ap
                  (λ (run : Run (List OperationalAuditEvent)).
                    ◌>>=◌ {B = Emission} run (λ es. done (lineage_id, (table ++ x ∷ [], es))))
                  taken))

  -- With a key that the secret store resolves and a session that appends as documented, an emission
  -- that returns on a chain numbered from 1 has added one row to its end, with the identity that it
  -- returns, the next number, the segment of the row before (1 on an empty table) and every field of
  -- the intent, and the table is a chain numbered from 1 again.
  pub emit-IsChain :
      (locks : Bool) (lineage_id : Text) (intent : LineageIntent) (table table' : List LineageRow)
      (id' : Text) (events : List OperationalAuditEvent)
      → IsChain keeper.digest key [] (some 0) table
      → emit keeper session locks lineage_id intent table ≡ done (id', (table', events))
      → IsChain keeper.digest key [] (some 0) table'
        × ((r : LineageRow) × (table' ≡ table ++ r ∷ [])
            × (r.lineage_id ≡ id')
            × (r.seq ≡ length table + 1)
            × (r.segment_id ≡ head_segment (last_row table))
            × IsRecordOf intent r)
  unfolding emit
  emit-IsChain false lineage_id intent table table' id' events chain h = absurd (cc)
  emit-IsChain true lineage_id intent table table' id' events chain h =
      let (added, same) =
        locked keeper session key lineage_id id' intent table table' events known h in
      let prev = session.latest table in
      let x = new_row keeper key (unmarked_row lineage_id intent prev) in
      let whole : table' ≡ table ++ x ∷ [] = only.adds table table' x added in
      let head =
        latest-last_row session table only (IsChain-Ascending keeper.digest key [] 0 table chain) in
      let (m, n) = heads table in
      let seq : x.seq ≡ open_seq 0 table + 1 = seq_of head ∙ n in
      (
        subst (IsChain keeper.digest key [] (some 0)) (sym whole) (
            IsChain-extends keeper.digest key [] 0 table x chain
              (new_row-marker keeper key lineage_id intent prev) (marker_of head ∙ m) seq),
        (
          x,
          whole,
          id_of ∙ sym same,
          omega (arith, seq, open_seq-length keeper.digest key [] 0 table chain),
          segment_of head,
          record_of,
        ),
      )
    where
      seq_of :
          session.latest table ≡ last_row table
          → (new_row keeper key (unmarked_row lineage_id intent (session.latest table))).seq
            ≡ head_seq (last_row table)
      seq_of e = unfold unmarked_row in ap head_seq e

      marker_of :
          session.latest table ≡ last_row table
          → (new_row keeper key (unmarked_row lineage_id intent (session.latest table))).prev_marker
            ≡ head_marker (last_row table)
      marker_of e = unfold unmarked_row in ap head_marker e

      id_of :
          (new_row keeper key (unmarked_row lineage_id intent (session.latest table))).lineage_id
          ≡ lineage_id
      id_of = unfold unmarked_row in refl

      segment_of :
          session.latest table ≡ last_row table
          → (new_row keeper key (unmarked_row lineage_id intent (session.latest table))).segment_id
            ≡ head_segment (last_row table)
      segment_of e = unfold unmarked_row in ap head_segment e

      record_of :
          IsRecordOf intent
            (new_row keeper key (unmarked_row lineage_id intent (session.latest table)))
      record_of =
          unfold unmarked_row in
          record {
            event_type = refl;
            occurred_at = refl;
            actor_ref = refl;
            source_ref = refl;
            target_ref = refl;
            operation = refl;
            schema_version = refl;
            derivation_ref = refl;
            parent_lineage_ref = refl;
            correlation_id = refl;
          }

  -- With a key that the secret store resolves, a lock that is taken, a session that appends the row and
  -- a sink that takes the event, an emission on a chain numbered from 1 returns: one row is added to the
  -- end of the table, with the identity that is returned, the next number, the segment of the row
  -- before (1 on an empty table) and every field of the intent (type, time, actor, source, target,
  -- operation, schema version, derivation, parent and correlation), and the table is a chain numbered
  -- from 1 again.
  pub emit-appends :
      (lineage_id : Text) (intent : LineageIntent) (table : List LineageRow)
      (events : List OperationalAuditEvent)
      → IsChain keeper.digest key [] (some 0) table
      → ((x : LineageRow) → session.append table x ≡ some (table ++ x ∷ []))
      → record_event keeper.sink (written_event intent) ≡ done events
      → (r : LineageRow) × (emit keeper session true lineage_id intent table
          ≡ done (lineage_id, (table ++ r ∷ [], events)))
        × IsChain keeper.digest key [] (some 0) (table ++ r ∷ [])
        × (r.lineage_id ≡ lineage_id)
        × (r.seq ≡ length table + 1)
        × (r.segment_id ≡ head_segment (last_row table))
        × IsRecordOf intent r
  emit-appends lineage_id intent table events chain accepts taken =
      let row = unmarked_row lineage_id intent (session.latest table) in
      let x = new_row keeper key row in
      let returns = emitted lineage_id intent table events (accepts x) taken in
      let (kept, (r, e, i, n, t, o)) =
        emit-IsChain true lineage_id intent table (table ++ x ∷ []) lineage_id events chain
          returns in
      let same : r ≡ x = snoc_last table r x (sym e) in
      (
        x,
        returns,
        kept,
        subst (λ (q : LineageRow). q.lineage_id ≡ lineage_id) same i,
        subst (λ (q : LineageRow). q.seq ≡ length table + 1) same n,
        subst (λ (q : LineageRow). q.segment_id ≡ head_segment (last_row table)) same t,
        subst (IsRecordOf intent) same o,
      )

  -- The emissions of committed transactions, one after the other; one that raises is rolled back.
  unfoldable pub keep_table : List LineageRow → Run Emission → List LineageRow
  keep_table table (done (id', (table', events))) = table'
  keep_table table raised = table
  keep_table table unfinished = table

  unfoldable pub emit_all : List (Bool × (Text × LineageIntent)) → List LineageRow → List LineageRow
  emit_all [] table = table
  emit_all ((locks, (lineage_id, intent)) ∷ calls) table =
      emit_all calls (keep_table table (emit keeper session locks lineage_id intent table))

  keep_table-IsChain :
      (locks : Bool) (lineage_id : Text) (intent : LineageIntent) (table : List LineageRow)
      (run : Run Emission)
      → emit keeper session locks lineage_id intent table ≡ run
      → IsChain keeper.digest key [] (some 0) table
      → IsChain keeper.digest key [] (some 0) (keep_table table run)
  unfolding keep_table
  keep_table-IsChain locks lineage_id intent table (done (id', (table', events))) e h =
      (emit-IsChain locks lineage_id intent table table' id' events h e).0
  keep_table-IsChain locks lineage_id intent table raised e h = h
  keep_table-IsChain locks lineage_id intent table unfinished e h = h

  -- Any sequence of emissions, of which those that raise are rolled back, leaves a chain numbered from
  -- 1, if it starts on one.
  pub emit_all-IsChain :
      (calls : List (Bool × (Text × LineageIntent))) (table : List LineageRow)
      → IsChain keeper.digest key [] (some 0) table
      → IsChain keeper.digest key [] (some 0) (emit_all calls table)
  unfolding emit_all
  emit_all-IsChain [] table h = h
  emit_all-IsChain ((locks, (lineage_id, intent)) ∷ calls) table h =
      emit_all-IsChain calls _ (keep_table-IsChain locks lineage_id intent table _ refl h)
