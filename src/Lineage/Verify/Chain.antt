-- ===== src/Lineage/Verify/Chain.antt =====
-- When backend/lineage_service/verification.py finds nothing.
use snack_portal.Common.{
  ℕ, suc, ◌+◌, ◌<◌, ◌≡◌, ◌↔◌, refl, true, Option, none, some, List, [], ◌∷◌, ◌++◌, length, arith,
}
use snack_portal.Common.Text.{Text, text_eq_iff}
use snack_portal.Lineage.Canonical.{LineageRow, Digest, marker_for}
use snack_portal.Lineage.Session.{done, ◌>>=◌, ReadSession, IsPaged, Ascending}
use snack_portal.Lineage.Emit.{Keeper, OperationalAuditEvent, chain_key, record_event}
use snack_portal.Lineage.Verify.{
  VerificationFinding, VerificationReport, capped, check_rows, gap_findings, has_none,
  link_findings, marker_findings, report_of, result_event, verify_chain, version_of,
}
use snack_portal.Lineage.Verify.Scan.{scan_ascending_complete}

-- The number after that of the row before, if there is one.
abbrev pub Follows : Option ℕ → ℕ → Type 0
Follows none seq = Unit {0}
Follows (some prev_seq) seq = seq ≡ prev_seq + 1

-- A chain from a marker and a number on: each row has the marker that the key makes of its content,
-- links to the marker of the row before, and has the next number.
abbrev pub IsChain : Digest → Text → Text → Option ℕ → List LineageRow → Type 0
IsChain digest key prev_marker prev_seq [] = Unit {0}
IsChain digest key prev_marker prev_seq (r ∷ rows) =
    (marker_for digest key r r.prev_marker (version_of r) ≡ some r.integrity_marker)
    × (r.prev_marker ≡ prev_marker)
    × Follows prev_seq r.seq
    × IsChain digest key r.integrity_marker (some r.seq) rows

has_none-append :
    (a b : List VerificationFinding)
    → (has_none (a ++ b) ≡ true) ↔ ((has_none a ≡ true) × (has_none b ≡ true))
unfolding has_none
has_none-append [] b = (λ h. (refl, h), λ h. h.1)
has_none-append (f ∷ a) b = (λ h. absurd (cc), λ h. absurd (cc))

marker_findings-none :
    (r : LineageRow) (expected : Option Text)
    → (has_none (marker_findings r expected) ≡ true) ↔ (expected ≡ some r.integrity_marker)
unfolding marker_findings has_none
marker_findings-none r none = (λ h. absurd (cc), λ h. absurd (cc))
marker_findings-none r (some m) = (
  λ h. ground (arith, text_eq_iff m r.integrity_marker),
  λ h. ground (arith, text_eq_iff m r.integrity_marker),
)

link_findings-none :
    (r : LineageRow) (prev : Text)
    → (has_none (link_findings r prev) ≡ true) ↔ (r.prev_marker ≡ prev)
unfolding link_findings has_none
link_findings-none r prev = (
  λ h. ground (arith, text_eq_iff r.prev_marker prev),
  λ h. ground (arith, text_eq_iff r.prev_marker prev),
)

gap_findings-none :
    (r : LineageRow) (prev : Option ℕ)
    → (has_none (gap_findings r prev) ≡ true) ↔ Follows prev r.seq
unfolding gap_findings has_none
gap_findings-none r none = (λ h. tt, λ h. refl)
gap_findings-none r (some n) = (λ h. ground arith, λ h. ground arith)

pub check_rows-IsChain :
    (digest : Digest) (key prev : Text) (prev_seq : Option ℕ) (rows : List LineageRow)
    → (has_none (check_rows digest key prev prev_seq rows) ≡ true)
      ↔ IsChain digest key prev prev_seq rows
unfolding check_rows
check_rows-IsChain digest key prev prev_seq [] = (λ h. tt, λ h. has_none_nil)
  where
    has_none_nil : has_none [] ≡ true
    has_none_nil = unfold has_none in refl
check_rows-IsChain digest key prev prev_seq (r ∷ rows) =
    let expected = marker_for digest key r r.prev_marker (version_of r) in
    let later = check_rows digest key r.integrity_marker (some r.seq) rows in
    let a =
      has_none-append (marker_findings r expected)
        (link_findings r prev ++ (gap_findings r prev_seq ++ later)) in
    let b = has_none-append (link_findings r prev) (gap_findings r prev_seq ++ later) in
    let c = has_none-append (gap_findings r prev_seq) later in
    let ih = check_rows-IsChain digest key r.integrity_marker (some r.seq) rows in
    (
      λ h.
          let (m, h1) = a.0 h in
          let (l, h2) = b.0 h1 in
          let (g, h3) = c.0 h2 in
          (
            (marker_findings-none r expected).0 m,
            (link_findings-none r prev).0 l,
            (gap_findings-none r prev_seq).0 g,
            ih.0 h3,
          ),
      λ (m, l, g, rest). a.1 (
        (marker_findings-none r expected).1 m,
        b.1 ((link_findings-none r prev).1 l, c.1 ((gap_findings-none r prev_seq).1 g, ih.1 rest)),
      ),
    )

module _ (keeper : Keeper) (session : ReadSession) (key : Text) (table : List LineageRow) where
  -- With a key that the secret store resolves, on a session that pages a table of increasing sequence
  -- numbers as documented, with pages of at least one row and a round more than the table has rows,
  -- the scan of a verification ends and its report on the capped rows finds nothing exactly when they
  -- are a chain from the empty marker on: every stored marker is the one that the key makes of the
  -- row's content, every row links to the one before, and the numbers are contiguous. What it then
  -- returns is decided by the sink alone.
  pub verify_chain-IsChain :
      (k fuel : ℕ) (max_records : Option ℕ) (actor correlation_id : Text)
      → chain_key keeper session.tenant_id ≡ done key
      → IsPaged session table
      → Ascending table
      → length table < fuel
      → (report : VerificationReport) × (verify_chain keeper session
            (suc k)
            fuel
            max_records
            actor
            correlation_id
          ≡ (record_event keeper.sink (result_event keeper.digest actor correlation_id report)
              >>= λ (events : List OperationalAuditEvent). done (report, events)))
        × ((report.ok ≡ true) ↔ IsChain keeper.digest key [] none (capped max_records table))
        × (report.scanned ≡ length (capped max_records table))
  unfolding verify_chain report_of
  verify_chain-IsChain k fuel max_records actor correlation_id known paged ascending enough =
      let rows = capped max_records table in
      let scanned =
        scan_ascending_complete max_records session table paged ascending k fuel enough in
      (
        report_of keeper.digest key session.tenant_id rows,
        rw known (rw scanned refl),
        check_rows-IsChain keeper.digest key [] none rows,
        refl,
      )
