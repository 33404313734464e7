-- ===== src/Lineage/Segments.antt =====
-- The segments of a chain (backend/lineage_service/segmentation.py), on a session that was opened. The
-- endless loop of the count runs on fuel.
pub mod Summary
use snack_portal.Common.{
  ℕ, suc, zero, ◌+◌, Bool, true, false, Option, none, some, List, [], ◌∷◌, ◌++◌, ltb, ◌==◌, length,
  if◌then◌else◌,
}
use snack_portal.Common.Text.{Text, text, text_eq, is_empty}
use snack_portal.Lineage.Canonical.{LineageRow, Digest}
use snack_portal.Lineage.Session.{
  Run, done, raised, unfinished, ◌>>=◌, answer, page_end, ReadSession,
}
use snack_portal.Lineage.Emit.{Keeper, OperationalAuditEvent, record_event}

pub record SegmentInfo : Type 0 where
  pub segment_id : ℕ
  pub first_seq : ℕ
  pub last_seq : ℕ
  pub opening_prev_marker : Text
  pub closing_marker : Text
  pub count : ℕ

-- `where = {"segment_id": segment_id}`
unfoldable pub in_segment : ℕ → LineageRow → Bool
in_segment segment_id r = r.segment_id == segment_id

-- `int(row.get("segment_id", 1) or 1)`
unfoldable pub segment_or_first : ℕ → ℕ
segment_or_first segment_id = if segment_id == 0 then 1 else segment_id

-- One round of the count, with the round that may follow.
unfoldable pub after_count : ℕ → ℕ → List LineageRow → (Option ℕ → ℕ → Run ℕ) → Run ℕ
after_count count_page total [] next = done total
after_count count_page total (r ∷ rows) next =
    let total' = total + length (r ∷ rows) in
    if ltb (length (r ∷ rows)) count_page then done total' else next (some (page_end r rows)) total'

unfoldable pub count_rows : ReadSession → ℕ → ℕ → ℕ → Option ℕ → ℕ → Run ℕ
count_rows session count_page segment_id zero after total = unfinished
count_rows session count_page segment_id (suc fuel) after total =
    answer (session.page (in_segment segment_id) false after count_page)
    >>= λ (rows : List LineageRow).
        after_count count_page total rows (count_rows session count_page segment_id fuel)

unfoldable pub summary_of :
    ReadSession → ℕ → ℕ → ℕ → LineageRow → List LineageRow → Run (Option SegmentInfo)
summary_of session count_page fuel segment_id first [] = raised
summary_of session count_page fuel segment_id first (last ∷ _) =
    count_rows session count_page segment_id fuel none 0 >>= λ (count : ℕ). done (
      some (record {
        segment_id = segment_id;
        first_seq = first.seq;
        last_seq = last.seq;
        opening_prev_marker = first.prev_marker;
        closing_marker = last.integrity_marker;
        count = count;
      }))

unfoldable pub summary_from : ReadSession → ℕ → ℕ → ℕ → List LineageRow → Run (Option SegmentInfo)
summary_from session count_page fuel segment_id [] = done none
summary_from session count_page fuel segment_id (first ∷ _) =
    answer (session.page (in_segment segment_id) true none 1)
    >>= summary_of session count_page fuel segment_id first

-- `_summary`, which `segment_summary` answers.
unfoldable pub segment_summary : ReadSession → ℕ → ℕ → ℕ → Run (Option SegmentInfo)
segment_summary session count_page fuel segment_id =
    answer (session.page (in_segment segment_id) false none 1)
    >>= summary_from session count_page fuel segment_id

unfoldable pub current_from : ReadSession → ℕ → ℕ → List LineageRow → Run (Option SegmentInfo)
current_from session count_page fuel [] = done none
current_from session count_page fuel (head ∷ _) =
    segment_summary session count_page fuel (segment_or_first head.segment_id)

unfoldable pub current_segment : ReadSession → ℕ → ℕ → Run (Option SegmentInfo)
current_segment session count_page fuel =
    answer (session.page (λ r. true) true none 1) >>= current_from session count_page fuel

unfoldable pub archive_event :
    Digest → Text → Text → Option Text → SegmentInfo → OperationalAuditEvent
archive_event digest actor correlation_id tenant_id info = record {
  actor_ref = if is_empty actor then text "<system>" else actor;
  action = text "ArchivePrepared";
  correlation_id = correlation_id;
  outcome =
      text "segment:"
      ++ (digest.decimal info.segment_id
          ++ (text ":"
              ++ (digest.decimal info.first_seq ++ (text "-" ++ digest.decimal info.last_seq))));
  target_ref = tenant_id;
}

unfoldable pub archive_from :
    Keeper
    → Text
    → Text
    → Option Text
    → Option SegmentInfo
    → Run (Option SegmentInfo × List OperationalAuditEvent)
archive_from keeper actor correlation_id tenant_id none = done (none, [])
archive_from keeper actor correlation_id tenant_id (some info) =
    record_event keeper.sink (archive_event keeper.digest actor correlation_id tenant_id info)
    >>= λ (events : List OperationalAuditEvent). done (some info, events)

unfoldable pub prepare_archive :
    Keeper
    → ReadSession
    → ℕ
    → ℕ
    → Text
    → Text
    → Option Text
    → ℕ
    → Run (Option SegmentInfo × List OperationalAuditEvent)
prepare_archive keeper session count_page fuel actor correlation_id tenant_id segment_id =
    segment_summary session count_page fuel segment_id
    >>= archive_from keeper actor correlation_id tenant_id

unfoldable pub verify_continuity : SegmentInfo → SegmentInfo → Bool
verify_continuity prior next = text_eq next.opening_prev_marker prior.closing_marker
