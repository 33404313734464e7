-- ===== src/Lineage/Verify.antt =====
-- The verification of a tenant's chain (`LineageVerifier` of
-- backend/lineage_service/verification.py). The endless loop of the scan runs on fuel.
pub mod Scan
pub mod Chain
pub mod Tamper
use snack_portal.Common.{
  ℕ, suc, zero, ◌+◌, Bool, true, false, ◌||◌, Option, none, some, List, [], ◌∷◌, ◌++◌, ltb, leb,
  ◌==◌, not, length, if◌then◌else◌,
}
use snack_portal.Common.Text.{Text, text, text_eq, is_empty}
use snack_portal.Lineage.Canonical.{LineageRow, Digest, marker_for}
use snack_portal.Lineage.Session.{
  Run, done, raised, unfinished, ◌>>=◌, answer, take, page_end, ReadSession,
}
use snack_portal.Lineage.Emit.{Keeper, OperationalAuditEvent, chain_key, record_event}

pub data FindingKind : Type 0 where
  marker_mismatch broken_link seq_gap : FindingKind

pub record VerificationFinding : Type 0 where
  pub kind : FindingKind
  pub seq : ℕ
  pub lineage_id : Text
  pub detail : Text

pub record VerificationReport : Type 0 where
  pub tenant_id : Text
  pub scanned : ℕ
  pub ok : Bool
  pub first_seq : Option ℕ
  pub last_seq : Option ℕ
  pub findings : List VerificationFinding

-- `max_records is not None and len(out) >= max_records`
unfoldable pub is_enough : Option ℕ → List LineageRow → Bool
is_enough none out = false
is_enough (some n) out = leb n (length out)

-- `out[:max_records]`
unfoldable pub capped : Option ℕ → List LineageRow → List LineageRow
capped none out = out
capped (some n) out = take n out

-- One round of the loop, with the round that may follow.
unfoldable pub after_page :
    ℕ
    → Option ℕ
    → List LineageRow
    → List LineageRow
    → (Option ℕ → List LineageRow → Run (List LineageRow))
    → Run (List LineageRow)
after_page scan_page max_records out [] next = done out
after_page scan_page max_records out (r ∷ rows) next =
    let out' = out ++ r ∷ rows in
    if is_enough max_records out'
    then done (capped max_records out')
    else if ltb (length (r ∷ rows)) scan_page
    then done out'
    else next (some (page_end r rows)) out'

unfoldable pub scan_ascending :
    ReadSession → ℕ → Option ℕ → ℕ → Option ℕ → List LineageRow → Run (List LineageRow)
scan_ascending session scan_page max_records zero after out = unfinished
scan_ascending session scan_page max_records (suc fuel) after out =
    answer (session.page (λ r. true) false after scan_page) >>= λ (rows : List LineageRow).
    after_page scan_page max_records out rows (scan_ascending session scan_page max_records fuel)

-- `int(r.get("marker_version", 1) or 1)`
unfoldable pub version_of : LineageRow → ℕ
version_of r = if r.marker_version == 0 then 1 else r.marker_version

unfoldable pub finding : FindingKind → LineageRow → Text → VerificationFinding
finding kind r detail = record {
  kind = kind;
  seq = r.seq;
  lineage_id = r.lineage_id;
  detail = detail;
}

unfoldable pub marker_findings : LineageRow → Option Text → List VerificationFinding
marker_findings r none = finding FindingKind.marker_mismatch r (text "unknown marker_version") ∷ []
marker_findings r (some expected) =
    if text_eq expected r.integrity_marker
    then []
    else finding FindingKind.marker_mismatch r (text "recomputed marker != stored (tamper-evident)")
      ∷ []

unfoldable pub link_findings : LineageRow → Text → List VerificationFinding
link_findings r prev_marker =
    if text_eq r.prev_marker prev_marker
    then []
    else finding FindingKind.broken_link r (text "prev_marker != prior record integrity_marker")
      ∷ []

unfoldable pub gap_findings : LineageRow → Option ℕ → List VerificationFinding
gap_findings r none = []
gap_findings r (some prev_seq) =
    if r.seq == prev_seq + 1
    then []
    else finding FindingKind.seq_gap r (text "non-contiguous seq") ∷ []

-- The loop over the rows.
unfoldable pub check_rows :
    Digest → Text → Text → Option ℕ → List LineageRow → List VerificationFinding
check_rows digest key prev_marker prev_seq [] = []
check_rows digest key prev_marker prev_seq (r ∷ rows) =
    marker_findings r (marker_for digest key r r.prev_marker (version_of r))
    ++ (link_findings r prev_marker
        ++ (gap_findings r prev_seq ++ check_rows digest key r.integrity_marker (some r.seq) rows))

unfoldable pub first_of : List LineageRow → Option ℕ
first_of [] = none
first_of (r ∷ rows) = some r.seq

unfoldable pub last_of : List LineageRow → Option ℕ
last_of [] = none
last_of (r ∷ rows) = some (page_end r rows)

-- `not findings`
unfoldable pub has_none : List VerificationFinding → Bool
has_none [] = true
has_none (_ ∷ _) = false

unfoldable pub report_of : Digest → Text → Text → List LineageRow → VerificationReport
report_of digest key tenant_id rows =
    let findings = check_rows digest key [] none rows in
    record {
      tenant_id = tenant_id;
      scanned = length rows;
      ok = has_none findings;
      first_seq = first_of rows;
      last_seq = last_of rows;
      findings = findings;
    }

-- The counts stand in the outcome by Python's decimal form.
unfoldable pub result_event : Digest → Text → Text → VerificationReport → OperationalAuditEvent
result_event digest actor correlation_id report = record {
  actor_ref = if is_empty actor then text "<unknown>" else actor;
  action = if report.ok then text "LineageVerified" else text "ChainBroken";
  correlation_id = correlation_id;
  outcome =
      if report.ok
      then text "verified:" ++ digest.decimal report.scanned
      else text "broken:" ++ digest.decimal (length report.findings);
  target_ref = some report.tenant_id;
}

-- `verify`, on the session that was opened, with the fuel of its scan.
unfoldable pub verify_chain :
    Keeper
    → ReadSession
    → ℕ
    → ℕ
    → Option ℕ
    → Text
    → Text
    → Run (VerificationReport × List OperationalAuditEvent)
verify_chain keeper session scan_page fuel max_records actor correlation_id =
    chain_key keeper session.tenant_id >>= λ (key : Text).
    scan_ascending session scan_page max_records fuel none [] >>= λ (rows : List LineageRow).
    let report = report_of keeper.digest key session.tenant_id rows in
    record_event keeper.sink (result_event keeper.digest actor correlation_id report)
    >>= λ (events : List OperationalAuditEvent). done (report, events)
