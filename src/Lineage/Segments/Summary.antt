-- ===== src/Lineage/Segments/Summary.antt =====
-- What a segment summary of backend/lineage_service/segmentation.py says of the chain.
use snack_portal.Common.{
  ℕ, suc, zero, ◌+◌, ◌<◌, ◌≡◌, ◌↔◌, refl, sym, ap, ◌∙◌, subst, inl, inr, Bool, true, false, ◌&&◌,
  Option, none, some, List, [], ◌∷◌, ◌++◌, length, ltb, Bool-cases, if◌then◌else◌, All, arith,
  append-nil,
}
use snack_portal.Common.Text.{Text, text_eq_iff}
use snack_portal.Lineage.Canonical.{LineageRow, Digest}
use snack_portal.Lineage.Session.{
  Run, done, raised, unfinished, answer, take, select, reversed, above, below, page_end,
  ReadSession, IsPaged, Ascending,
}
use snack_portal.Lineage.Verify.{scan_ascending, after_page, is_enough, capped}
use snack_portal.Lineage.Verify.Scan.{scan_ascending_complete, select-everything}
use snack_portal.Lineage.Session.Lists.{select-append}
use snack_portal.Lineage.Verify.Chain.{IsChain}
use snack_portal.Lineage.Segments.{
  SegmentInfo, in_segment, after_count, count_rows, summary_of, summary_from, segment_summary,
  verify_continuity,
}

-- A session on the rows of one table, as the port documents it.
abbrev ideal : List LineageRow → ReadSession
ideal rows = record {
  tenant_id = [];
  page = λ where_row descending after limit.
      if descending
      then some (take limit (select (λ r. where_row r && below after r) (reversed rows)))
      else some (take limit (select (λ r. where_row r && above after r) rows));
}

pub select-select :
    (p q : LineageRow → Bool) (l : List LineageRow)
    → select (λ r. p r && q r) l ≡ select q (select p l)
unfolding select
select-select p q [] = refl
select-select p q (r ∷ l) = elim (Bool-cases (p r)) [
  | inl e ↦ elim (Bool-cases (q r)) [
    | inl f ↦ rw e (rw f (ap (λ t. r ∷ t) (select-select p q l)))
    | inr f ↦ rw e (rw f (select-select p q l))
  ]
  | inr e ↦ rw e (select-select p q l)
]

pub All-select :
    (P : LineageRow → Type 0) (p : LineageRow → Bool) (l : List LineageRow)
    → All P l
    → All P (select p l)
unfolding select
All-select P p [] h = tt
All-select P p (r ∷ l) (a, h) = elim (Bool-cases (p r)) [
  | inl e ↦ rw e (a, All-select P p l h)
  | inr e ↦ rw e (All-select P p l h)
]

pub select-Ascending :
    (p : LineageRow → Bool) (l : List LineageRow) → Ascending l → Ascending (select p l)
unfolding select
select-Ascending p [] h = tt
select-Ascending p (r ∷ l) (a, h) = elim (Bool-cases (p r)) [
  | inl e ↦ rw e (All-select _ p l a, select-Ascending p l h)
  | inr e ↦ rw e (select-Ascending p l h)
]

length_append : (a b : List LineageRow) → length (a ++ b) ≡ length a + length b
length_append [] b = omega arith
length_append (x ∷ a) b = omega (arith, length_append a b)

length_in : Run (List LineageRow) → Run ℕ
length_in (done rows) = done (length rows)
length_in raised = raised
length_in unfinished = unfinished

-- The last row of a list that is not empty.
abbrev pub final : LineageRow → List LineageRow → LineageRow
final r [] = r
final r (q ∷ rows) = final q rows

take_one : (a b : List LineageRow) (x : LineageRow) → take 1 a ≡ x ∷ [] → take 1 (a ++ b) ≡ x ∷ []
unfolding take
take_one [] b x h = absurd (cc)
take_one (y ∷ a) b x h = h

take-reversed :
    (f : LineageRow) (rest : List LineageRow) → take 1 (reversed (f ∷ rest)) ≡ final f rest ∷ []
unfolding reversed
take-reversed f [] = unfold take in refl
take-reversed f (q ∷ rest) =
    take_one (reversed (q ∷ rest)) (f ∷ []) (final q rest) (take-reversed q rest)

select-reversed :
    (p : LineageRow → Bool) (l : List LineageRow) → select p (reversed l) ≡ reversed (select p l)
unfolding select reversed
select-reversed p [] = refl
select-reversed p (r ∷ l) = select-append p (reversed l) (r ∷ []) ∙ elim (Bool-cases (p r)) [
  | inl e ↦ rw e (ap (λ t. t ++ r ∷ []) (select-reversed p l))
  | inr e ↦ rw e (append-nil (select p (reversed l)) ∙ select-reversed p l)
]

select-below-none : (l : List LineageRow) → select (below none) l ≡ l
unfolding select below
select-below-none [] = refl
select-below-none (r ∷ l) = ap (λ t. r ∷ t) (select-below-none l)

module _ (session : ReadSession) (table : List LineageRow) (paged : IsPaged session table)
    (segment_id k : ℕ) where
  abbrev rows_of : List LineageRow
  rows_of = select (in_segment segment_id) table

  -- The count goes through the rounds of a scan of the segment's rows.
  count_rows-scan :
      (fuel : ℕ) (after : Option ℕ) (out all_of : List LineageRow)
      → scan_ascending (ideal rows_of) (suc k) none fuel after out ≡ done all_of
      → count_rows session (suc k) segment_id fuel after (length out) ≡ done (length all_of)
  unfolding scan_ascending count_rows answer after_count length_in after_page is_enough
  count_rows-scan zero after out all_of h = absurd (cc)
  count_rows-scan (suc fuel) after out all_of h =
      let page : session.page (in_segment segment_id) false after (suc k)
          ≡ some (take (suc k) (select (above after) rows_of)) =
        paged.pages_up (in_segment segment_id) after (suc k)
        ∙ ap (λ l. some (take (suc k) l))
            (select-select (in_segment segment_id) (above after) table) in
      rw page (
        round (λ a o g. count_rows-scan fuel a o all_of g)
          (take (suc k) (select (above after) rows_of)) h)
    where
      round :
          ((a : Option ℕ) (o : List LineageRow)
            → scan_ascending (ideal rows_of) (suc k) none fuel a o ≡ done all_of
            → count_rows session (suc k) segment_id fuel a (length o) ≡ done (length all_of))
          → (page : List LineageRow)
          → after_page (suc k) none out page (scan_ascending (ideal rows_of) (suc k) none fuel)
            ≡ done all_of
          → after_count (suc k) (length out) page (count_rows session (suc k) segment_id fuel)
            ≡ done (length all_of)
      round again [] h = ap (λ (run : Run (List LineageRow)). length_in run) h
      round again (r ∷ rows) h =
          let next_scan =
            scan_ascending (ideal rows_of) (suc k) none fuel (some (page_end r rows))
              (out ++ r ∷ rows) in
          elim (Bool-cases (ltb (length (r ∷ rows)) (suc k))) [
            | inl e ↦
                let ends : done (out ++ r ∷ rows) ≡ done all_of =
                  ap (λ b. if b then done (out ++ r ∷ rows) else next_scan) (sym e) ∙ h in
                rw e (
                  ap done (sym (length_append out (r ∷ rows)))
                  ∙ ap (λ (run : Run (List LineageRow)). length_in run) ends)
            | inr e ↦
                let goes_on : next_scan ≡ done all_of =
                  ap (λ b. if b then done (out ++ r ∷ rows) else next_scan) (sym e) ∙ h in
                rw e (
                  ap (count_rows session (suc k) segment_id fuel (some (page_end r rows)))
                    (sym (length_append out (r ∷ rows)))
                  ∙ again (some (page_end r rows)) (out ++ r ∷ rows) goes_on)
          ]

  pages_first :
      (f : LineageRow) (rest : List LineageRow)
      → rows_of ≡ f ∷ rest
      → session.page (in_segment segment_id) false none 1 ≡ some (f ∷ [])
  unfolding take
  pages_first f rest e =
      paged.pages_up (in_segment segment_id) none 1
      ∙ ap (λ l. some (take 1 l))
          (select-select (in_segment segment_id) (above none) table
            ∙ (select-everything rows_of ∙ e))

  pages_last :
      (f : LineageRow) (rest : List LineageRow)
      → rows_of ≡ f ∷ rest
      → session.page (in_segment segment_id) true none 1 ≡ some (final f rest ∷ [])
  pages_last f rest e =
      paged.pages_down (in_segment segment_id) none 1
      ∙ (ap (λ l. some (take 1 l))
            (select-select (in_segment segment_id) (below none) (reversed table)
              ∙ (select-below-none (select (in_segment segment_id) (reversed table))
                  ∙ (select-reversed (in_segment segment_id) table ∙ ap reversed e)))
          ∙ ap some (take-reversed f rest))

  -- On a session that pages a table of increasing sequence numbers as documented, with counted pages of
  -- at least one row and a round more than the segment has rows, the summary of a segment that has rows
  -- returns: it has the numbers of the first and the last of them, the link of the first, the marker of
  -- the last and how many there are.
  pub segment_summary_lem :
      (fuel : ℕ) (f : LineageRow) (rest : List LineageRow)
      → Ascending table
      → rows_of ≡ f ∷ rest
      → length rows_of < fuel
      → segment_summary session (suc k) fuel segment_id
        ≡ done (
            some (record {
              segment_id = segment_id;
              first_seq = f.seq;
              last_seq = (final f rest).seq;
              opening_prev_marker = f.prev_marker;
              closing_marker = (final f rest).integrity_marker;
              count = length (f ∷ rest);
            }))
  unfolding segment_summary summary_from summary_of answer
  segment_summary_lem fuel f rest ascending e enough =
      let scanned =
        scan_ascending_complete none (ideal rows_of) rows_of
          (record { pages_up = λ w a l. refl; pages_down = λ w a l. refl })
          (select-Ascending (in_segment segment_id) table ascending) k fuel enough in
      let counted = count_rows-scan fuel none [] rows_of (unfold capped in scanned) in
      rw (pages_first f rest e) (
        rw (pages_last f rest e) (
          rw counted (
            ap
              (λ (l : List LineageRow). done (
                some (record {
                  segment_id = segment_id;
                  first_seq = f.seq;
                  last_seq = (final f rest).seq;
                  opening_prev_marker = f.prev_marker;
                  closing_marker = (final f rest).integrity_marker;
                  count = length l;
                })))
              e)))

-- Where a segment of a chain ends and the next one begins, the link of the one is the marker of the
-- other.
linked :
    (digest : Digest) (key prev : Text) (n : Option ℕ) (f : LineageRow) (a : List LineageRow)
    (g : LineageRow) (rest : List LineageRow)
    → IsChain digest key prev n ((f ∷ a) ++ g ∷ rest)
    → g.prev_marker ≡ (final f a).integrity_marker
linked digest key prev n f [] g rest (_, _, _, (_, l, _, _)) = l
linked digest key prev n f (q ∷ a) g rest (_, _, _, h) =
    linked digest key f.integrity_marker (some f.seq) q a g rest h

-- Two chains, of which the second has numbers that go on from the first, are one chain exactly where
-- the link of the second is the marker of the first.
chains_joined :
    (digest : Digest) (key prev : Text) (n : Option ℕ) (f : LineageRow) (a : List LineageRow)
    (g : LineageRow) (b : List LineageRow)
    → IsChain digest key prev n (f ∷ a)
    → IsChain digest key g.prev_marker (some (final f a).seq) (g ∷ b)
    → g.prev_marker ≡ (final f a).integrity_marker
    → IsChain digest key prev n ((f ∷ a) ++ g ∷ b)
chains_joined digest key prev n f [] g b (m, l, s, _) (m', _, s', h') link =
    (m, l, s, (m', link, s', h'))
chains_joined digest key prev n f (q ∷ a) g b (m, l, s, h) h' link =
    (m, l, s, chains_joined digest key f.integrity_marker (some f.seq) q a g b h h' link)

-- On a session that pages a table of increasing sequence numbers as documented, where the rows of two
-- segments are a chain each, and the numbers of the second go on from those of the first: both
-- summaries return, and they are continuous exactly where the rows of the first with those of the
-- second behind them are one chain.
pub verify_continuity-IsChain :
    (digest : Digest) (key prev : Text) (start : Option ℕ) (session : ReadSession)
    (table : List LineageRow) (f : LineageRow) (a : List LineageRow) (g : LineageRow)
    (b : List LineageRow) (m n k fuel : ℕ)
    → IsPaged session table
    → Ascending table
    → select (in_segment m) table ≡ f ∷ a
    → select (in_segment n) table ≡ g ∷ b
    → length (f ∷ a) < fuel
    → length (g ∷ b) < fuel
    → IsChain digest key prev start (f ∷ a)
    → IsChain digest key g.prev_marker (some (final f a).seq) (g ∷ b)
    → (prior : SegmentInfo) × (next : SegmentInfo) × (segment_summary session (suc k) fuel m
        ≡ done (some prior))
      × (segment_summary session (suc k) fuel n ≡ done (some next))
      × ((verify_continuity prior next ≡ true) ↔ IsChain digest key prev start ((f ∷ a) ++ g ∷ b))
unfolding verify_continuity
verify_continuity-IsChain digest key prev start session table f a g b m n k fuel paged ascending em
      en la lb chain chain' =
    (
      _,
      _,
      segment_summary_lem session table paged m k fuel f a ascending em
          (subst (λ l. length l < fuel) (sym em) la),
      segment_summary_lem session table paged n k fuel g b ascending en
          (subst (λ l. length l < fuel) (sym en) lb),
      (
        λ h.
            chains_joined digest key prev start f a g b chain chain'
              ((text_eq_iff g.prev_marker (final f a).integrity_marker).0 h),
        λ h.
            (text_eq_iff g.prev_marker (final f a).integrity_marker).1
              (linked digest key prev start f a g b h),
      ),
    )
