-- ===== src/Lineage/Tests.antt =====
-- Concrete chains, and each theorem at one. The hash of the tests is the content itself.
use snack_portal.Common.{
  ℕ, suc, zero, ◌+◌, ◌≤◌, ◌<◌, ◌≡◌, ◌≢◌, ◌⊎◌, ◌↔◌, refl, ap, true, false, ◌&&◌, none, some, List,
  [], ◌∷◌, ◌++◌, length, map, arith,
}
use snack_portal.Common.Text.{Text, text, text_eq, text_eq_ne, has_char}
use snack_portal.Lineage.Canonical.{
  LineageRow, Digest, canonical_content, compute_marker, join, marker_for, v1_fields,
  value_or_empty,
}
use snack_portal.Lineage.Canonical.Injective.{canonical_content_injective}
use snack_portal.Lineage.Session.{
  done, ◌>>=◌, answer, ReadSession, WriteSession, IsPaged, IsAppendOnly, Ascending, take, select,
  reversed, above, below,
}
use snack_portal.Lineage.Emit.{
  Keeper, LineageIntent, OperationalAuditEvent, chain_key, emit, head_segment, record_event,
  written_event,
}
use snack_portal.Lineage.Emit.Chained.{IsRecordOf, emit-appends, emit_all, emit_all-IsChain}
use snack_portal.Lineage.Emit.Head.{last_row, last_row-append, IsChain-Ascending}
use snack_portal.Lineage.Canonical.Injective.{IsPlain}
use snack_portal.Lineage.Verify.{
  VerificationReport, capped, check_rows, has_none, result_event, scan_ascending, verify_chain,
  version_of,
}
use snack_portal.Lineage.Verify.Scan.{scan_ascending_complete}
use snack_portal.Lineage.Verify.Chain.{IsChain, verify_chain-IsChain}
use snack_portal.Lineage.Verify.Tamper.{IsCollision, overwritten-found, removed-found}
use snack_portal.Lineage.Segments.{SegmentInfo, in_segment, segment_summary, verify_continuity}
use snack_portal.Lineage.Segments.Summary.{segment_summary_lem, verify_continuity-IsChain}
use snack_portal.Lineage.Query.{Page, from_row, query_page}
use snack_portal.Lineage.Query.Pages.{query_page-rest}

abbrev digest : Digest
digest = record { hmac = λ key content. content; decimal = λ n. (n + 48) ∷ [] }

-- A row of a segment, after a marker.
abbrev base_row : ℕ → ℕ → Text → LineageRow
base_row seq segment_id prev = record {
  lineage_id = text "l";
  seq = seq;
  segment_id = segment_id;
  event_type = text "import";
  occurred_at = text "now";
  actor_ref = text "ann";
  source_ref = text "csv";
  target_ref = text "acme:t:1";
  operation = text "created";
  schema_version = text "1";
  derivation_ref = some (text "job");
  parent_lineage_ref = none;
  correlation_id = some (text "c1");
  marker_version = 1;
  prev_marker = prev;
  integrity_marker = [];
}

abbrev sealed : LineageRow → LineageRow
unfolding join v1_fields value_or_empty
sealed r = record r { integrity_marker = join (r.prev_marker ∷ v1_fields digest r) }

abbrev opening_row : LineageRow
unfolding sealed
opening_row = sealed (base_row 1 1 [])

abbrev second_row : LineageRow
unfolding sealed opening_row
second_row = sealed (base_row 2 2 opening_row.integrity_marker)

abbrev third_row : LineageRow
unfolding sealed second_row
third_row = sealed (base_row 3 2 second_row.integrity_marker)

abbrev table : List LineageRow
table = opening_row ∷ second_row ∷ third_row ∷ []

abbrev read_session : ReadSession
read_session = record {
  tenant_id = text "acme";
  page = λ where_row descending after limit. elim descending [
    | true ↦ some (take limit (select (λ r. where_row r && below after r) (reversed table)))
    | false ↦ some (take limit (select (λ r. where_row r && above after r) table))
  ];
}

read-IsPaged : IsPaged read_session table
read-IsPaged = record { pages_up = λ w a l. refl; pages_down = λ w a l. refl }

table-IsChain : IsChain digest (text "k") [] (some 0) table
unfolding opening_row second_row third_row sealed marker_for canonical_content compute_marker
    version_of v1_fields join value_or_empty
table-IsChain = (refl, refl, omega arith, (refl, refl, omega arith, (refl, refl, omega arith, tt)))

abbrev keeper : Keeper
keeper = record {
  digest = digest;
  key_prefix = text "lineage";
  current_version = λ name. some (text "1");
  resolve = λ name version. some (text "k");
  sink = some (λ e. true);
}

known_key : chain_key keeper (text "acme") ≡ done (text "k")
unfolding chain_key answer
known_key = refl

table-Ascending : Ascending table
table-Ascending = IsChain-Ascending digest (text "k") [] 0 table table-IsChain

verify_chain-IsChain_example :
    (report : VerificationReport) × (verify_chain keeper read_session 2 4 none
        (text "ann")
        (text "c1")
      ≡ (record_event keeper.sink (result_event digest (text "ann") (text "c1") report)
          >>= λ (events : List OperationalAuditEvent). done (report, events)))
    × ((report.ok ≡ true) ↔ IsChain digest (text "k") [] none (capped none table))
    × (report.scanned ≡ length (capped none table))
verify_chain-IsChain_example =
    verify_chain-IsChain keeper read_session (text "k") table 1 4 none (text "ann") (text "c1")
      known_key read-IsPaged table-Ascending (omega arith)

scan_ascending_complete_example :
    scan_ascending read_session 2 (some 2) 4 none [] ≡ done (capped (some 2) table)
scan_ascending_complete_example =
    scan_ascending_complete (some 2) read_session table read-IsPaged table-Ascending 1 4
      (omega arith)

nth : ℕ → List Text → Text
nth n [] = []
nth zero (t ∷ l) = t
nth (suc n) (t ∷ l) = nth n l

first-IsPlain : IsPlain ([] ∷ v1_fields digest opening_row)
unfolding opening_row sealed v1_fields value_or_empty has_char
first-IsPlain = (
  refl,
  (refl, (refl, (refl, (refl, (refl, (refl, (refl, (refl, (refl, (refl, (refl, tt))))))))))),
)

-- The first row, made to say that it updated the record.
abbrev forged_row : LineageRow
forged_row = record opening_row { operation = text "updated" }

forged-IsPlain : IsPlain ([] ∷ v1_fields digest forged_row)
unfolding opening_row sealed v1_fields value_or_empty has_char
forged-IsPlain = (
  refl,
  (refl, (refl, (refl, (refl, (refl, (refl, (refl, (refl, (refl, (refl, (refl, tt))))))))))),
)

changed :
    forged_row.prev_marker ∷ v1_fields digest forged_row
    ≢ opening_row.prev_marker ∷ v1_fields digest opening_row
unfolding opening_row second_row sealed v1_fields value_or_empty text_eq nth
changed h = text_eq_ne (text "updated") (text "created") refl (ap (λ (l : List Text). nth 8 l) h)

overwritten-found_example :
    (has_none (check_rows digest (text "k") [] (some 0) (forged_row ∷ second_row ∷ third_row ∷ []))
      ≡ false)
    ⊎ IsCollision digest
        (text "k")
        (join (forged_row.prev_marker ∷ v1_fields digest forged_row))
        (join (opening_row.prev_marker ∷ v1_fields digest opening_row))
unfolding opening_row second_row sealed v1_fields join value_or_empty has_char version_of
overwritten-found_example =
    overwritten-found digest (text "k") [] (some 0) [] (second_row ∷ third_row ∷ []) []
      (second_row ∷ third_row ∷ []) opening_row forged_row first-IsPlain forged-IsPlain refl refl
      refl changed table-IsChain

removed-found_example :
    has_none (check_rows digest (text "k") [] (some 0) (opening_row ∷ third_row ∷ [])) ≡ false
removed-found_example =
    removed-found digest (text "k") [] (some 0) opening_row [] second_row third_row [] table-IsChain

canonical_content_injective_example :
    (◌≡◌ {A = Text} [] []) × (v1_fields digest opening_row ≡ v1_fields digest opening_row)
canonical_content_injective_example =
    canonical_content_injective digest opening_row opening_row [] [] first-IsPlain first-IsPlain
      refl

abbrev write_session : WriteSession
unfolding last_row
write_session = record {
  tenant_id = text "acme";
  latest = last_row;
  append = λ rows r. some (rows ++ r ∷ []);
}

added :
    (rows rows' : List LineageRow) (r : LineageRow)
    → some (rows ++ r ∷ []) ≡ some rows'
    → rows' ≡ rows ++ r ∷ []
added rows rows' r h = cc

write-IsAppendOnly : IsAppendOnly write_session
unfolding write_session last_row
write-IsAppendOnly = record {
  of_none = refl;
  of_last = λ rows r h. last_row-append rows r;
  adds = added;
}

abbrev intent : LineageIntent
intent = record {
  event_type = text "import";
  occurred_at = text "now";
  actor_ref = text "ann";
  source_ref = text "csv";
  target_ref = text "acme:t:2";
  operation = text "created";
  schema_version = text "1";
  derivation_ref = some (text "job");
  parent_lineage_ref = none;
  correlation_id = some (text "c1");
}

known_write : chain_key keeper write_session.tenant_id ≡ done (text "k")
unfolding write_session last_row chain_key answer
known_write = refl

emit-appends_example :
    (r : LineageRow) × (emit keeper write_session true (text "l4") intent table
      ≡ done (text "l4", (table ++ r ∷ [], written_event intent ∷ [])))
    × IsChain digest (text "k") [] (some 0) (table ++ r ∷ [])
    × (r.lineage_id ≡ text "l4")
    × (r.seq ≡ 4)
    × (r.segment_id ≡ head_segment (last_row table))
    × IsRecordOf intent r
unfolding record_event write_session last_row
emit-appends_example =
    emit-appends keeper write_session (text "k") known_write write-IsAppendOnly (text "l4") intent
      table (written_event intent ∷ []) table-IsChain (λ x. refl) refl

emit_all-IsChain_example : IsChain digest (text "k") [] (some 0) (
    emit_all keeper write_session
      (text "k")
      known_write
      write-IsAppendOnly
      ((true, (text "l4", intent)) ∷ [])
      table)
emit_all-IsChain_example =
    emit_all-IsChain keeper write_session (text "k") known_write write-IsAppendOnly
      ((true, (text "l4", intent)) ∷ []) table table-IsChain

segment_summary_lem_example :
    segment_summary read_session 2 4 2
    ≡ done (
        some (record {
          segment_id = 2;
          first_seq = 2;
          last_seq = 3;
          opening_prev_marker = second_row.prev_marker;
          closing_marker = third_row.integrity_marker;
          count = 2;
        }))
unfolding select in_segment opening_row second_row third_row sealed
segment_summary_lem_example =
    segment_summary_lem read_session table read-IsPaged 2 1 4 second_row (third_row ∷ [])
      table-Ascending refl (omega arith)

first-IsChain : IsChain digest (text "k") [] (some 0) (opening_row ∷ [])
first-IsChain = (table-IsChain.0, table-IsChain.1, table-IsChain.2, tt)

verify_continuity-IsChain_example :
    (prior : SegmentInfo) × (next : SegmentInfo) × (segment_summary read_session 2 4 1
      ≡ done (some prior))
    × (segment_summary read_session 2 4 2 ≡ done (some next))
    × ((verify_continuity prior next ≡ true)
        ↔ IsChain digest (text "k") [] (some 0) (opening_row ∷ second_row ∷ third_row ∷ []))
unfolding select in_segment opening_row second_row third_row sealed
verify_continuity-IsChain_example =
    verify_continuity-IsChain digest (text "k") [] (some 0) read_session table opening_row []
      second_row (third_row ∷ []) 1 2 1 4 read-IsPaged table-Ascending refl refl (omega arith)
      (omega arith) first-IsChain table-IsChain.3

query_page-rest_example :
    (page : Page) × (rest : List LineageRow) × (query_page 200 read_session (λ r. true) (some 3) 1
      ≡ done page)
    × (page.items ++ map from_row rest
        ≡ map from_row (select (λ r. true && below (some 3) r) (reversed table)))
    × (page.next_cursor ≡ none → rest ≡ [])
    × ((c : ℕ)
        → page.next_cursor ≡ some c
        → select (λ r. true && below (some c) r) (reversed table) ≡ rest)
    × (0 < 200 → length page.items ≤ 200)
query_page-rest_example =
    query_page-rest 200 read_session table (λ r. true) (some 3) 1 read-IsPaged table-Ascending
