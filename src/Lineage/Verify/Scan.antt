-- ===== src/Lineage/Verify/Scan.antt =====
-- The scan of backend/lineage_service/verification.py ends, and with which rows.
use snack_portal.Common.{
  ℕ, suc, zero, ◌≤◌, ◌<◌, ◌≡◌, refl, sym, ap, ◌∙◌, subst, true, false, Option, none, some, List, [],
  ◌∷◌, ◌++◌, All, ltb, length, append_assoc, append-nil, arith, Bool-cases, inl, inr,
}
use snack_portal.Lineage.Canonical.{LineageRow}
use snack_portal.Lineage.Session.{
  Run, done, answer, take, select, above, page_end, ReadSession, IsPaged, Ascending,
}
use snack_portal.Lineage.Verify.{is_enough, capped, after_page, scan_ascending}
use snack_portal.Lineage.Session.Lists.{
  drop, take-drop, take-all, drop-short, take-append, select-none, select-All, select-append,
}

-- The last row of a part, among the rows of the whole.
pub All-last :
    (P : ℕ → Type 0) (xs : List LineageRow) (r : LineageRow) (rows : List LineageRow)
    → All (λ q. P q.seq) (xs ++ r ∷ rows)
    → P (page_end r rows)
unfolding page_end
All-last P [] r [] h = h.0
All-last P [] r (q ∷ rows) h = All-last P [] q rows h.1
All-last P (x ∷ xs) r rows h = All-last P xs r rows h.1

Ascending-upto :
    (xs : List LineageRow) (r : LineageRow) (rows : List LineageRow)
    → Ascending (xs ++ r ∷ rows)
    → All (λ q. q.seq ≤ page_end r rows) (xs ++ r ∷ rows)
unfolding page_end
Ascending-upto [] r [] h = (omega arith, tt)
Ascending-upto [] r (q ∷ rows) (above, h) =
    let ih = Ascending-upto [] q rows h in let step = above.0 in (omega (arith, ih.0), ih)
Ascending-upto (x ∷ xs) r rows (above, h) =
    let l = All-last (λ n. x.seq < n) xs r rows above in
    (omega (arith, l), Ascending-upto xs r rows h)

Ascending-after :
    (xs : List LineageRow) (r : LineageRow) (rows rest : List LineageRow)
    → Ascending (xs ++ ((r ∷ rows) ++ rest))
    → All (λ q. page_end r rows < q.seq) rest
unfolding page_end
Ascending-after [] r [] rest h = h.0
Ascending-after [] r (q ∷ rows) rest h = Ascending-after [] q rows rest h.1
Ascending-after (x ∷ xs) r rows rest h = Ascending-after xs r rows rest h.1

All-front : {A : Type 0} (P : A → Type 0) (a b : List A) → All P (a ++ b) → All P a
All-front P [] b h = tt
All-front P (x ∷ a) b (p, h) = (p, All-front P a b h)

Ascending-front : (a b : List LineageRow) → Ascending (a ++ b) → Ascending a
Ascending-front [] b h = tt
Ascending-front (x ∷ a) b (above, h) = (All-front _ a b above, Ascending-front a b h)

pub All-map :
    {A : Type 0} (P Q : A → Type 0) (l : List A) → ((x : A) → P x → Q x) → All P l → All Q l
All-map P Q [] f h = tt
All-map P Q (x ∷ l) f (p, h) = (f x p, All-map P Q l f h)

-- The rows past the last row of the part that a table starts with.
pub select-above :
    (xs : List LineageRow) (r : LineageRow) (rows rest : List LineageRow)
    → Ascending (xs ++ ((r ∷ rows) ++ rest))
    → select (above (some (page_end r rows))) (xs ++ ((r ∷ rows) ++ rest)) ≡ rest
unfolding above
select-above xs r rows rest h =
    let p = above (some (page_end r rows)) in
    let front : Ascending (xs ++ r ∷ rows) =
      Ascending-front (xs ++ r ∷ rows) rest
        (subst Ascending (sym (append_assoc xs (r ∷ rows) rest)) h) in
    let gone : select p (xs ++ r ∷ rows) ≡ [] = select-none p (xs ++ r ∷ rows) (
      All-map (λ q. q.seq ≤ page_end r rows) (λ q. p q ≡ false) (xs ++ r ∷ rows)
        (λ q l. ground arith) (Ascending-upto xs r rows front)) in
    let kept : select p rest ≡ rest = select-All p rest (
      All-map (λ q. page_end r rows < q.seq) (λ q. p q ≡ true) rest (λ q l. ground arith)
        (Ascending-after xs r rows rest h)) in
    ap (select p) (sym (append_assoc xs (r ∷ rows) rest))
    ∙ (select-append p (xs ++ r ∷ rows) rest ∙ (ap (λ a. a ++ select p rest) gone ∙ kept))

length-more :
    (r : LineageRow) (rows rest : List LineageRow) → length rest < length ((r ∷ rows) ++ rest)
length-more r [] rest = omega arith
length-more r (q ∷ rows) rest = omega (arith, length-more q rows rest)

pub select-everything : (l : List LineageRow) → select (above none) l ≡ l
unfolding select above
select-everything [] = refl
select-everything (r ∷ l) = ap (λ t. r ∷ t) (select-everything l)

capped-nil : (max : Option ℕ) → capped max [] ≡ []
unfolding capped take
capped-nil none = refl
capped-nil (some zero) = refl
capped-nil (some (suc n)) = refl

-- A count that is reached early leaves out what follows.
capped-enough :
    (max : Option ℕ) (out more : List LineageRow)
    → is_enough max out ≡ true
    → capped max (out ++ more) ≡ capped max out
unfolding is_enough capped
capped-enough none out more h = absurd (cc)
capped-enough (some n) out more h = take-append n out more (ground arith)

capped-short :
    (max : Option ℕ) (out : List LineageRow) → is_enough max out ≡ false → capped max out ≡ out
unfolding is_enough capped
capped-short none out h = refl
capped-short (some n) out h = take-all n out (ground arith)

module _ (max : Option ℕ) where
  -- One round, where the next one does what is left.
  page_step :
      (k : ℕ) (out rest : List LineageRow)
      (next : Option ℕ → List LineageRow → Run (List LineageRow))
      → capped max out ≡ out
      → ((r : LineageRow) (rows rest' : List LineageRow)
          → rest ≡ (r ∷ rows) ++ rest'
          → capped max (out ++ r ∷ rows) ≡ out ++ r ∷ rows
          → next (some (page_end r rows)) (out ++ r ∷ rows) ≡ done (capped max (out ++ rest)))
      → after_page (suc k) max out (take (suc k) rest) next ≡ done (capped max (out ++ rest))
  unfolding after_page take
  page_step k out [] next c step = ap done (sym c ∙ ap (capped max) (sym (append-nil out)))
  page_step k out (r ∷ l) next c step =
      let rows = take k l in
      let whole : out ++ r ∷ l ≡ (out ++ r ∷ rows) ++ drop k l =
        ap (λ t. out ++ r ∷ t) (sym (take-drop k l))
        ∙ sym (append_assoc out (r ∷ rows) (drop k l)) in
      elim (Bool-cases (is_enough max (out ++ r ∷ rows))) [
        | inl e ↦ rw e (
            ap done (
              sym (capped-enough max (out ++ r ∷ rows) (drop k l) e) ∙ ap (capped max) (sym whole)))
        | inr e ↦ rw e (elim (Bool-cases (ltb (suc (length rows)) (suc k))) [
          | inl short ↦
              let left : drop k l ≡ [] = drop-short k l (ground arith) in
              let all_of : out ++ r ∷ l ≡ out ++ r ∷ rows =
                whole ∙ (ap (λ t. (out ++ r ∷ rows) ++ t) left ∙ append-nil (out ++ r ∷ rows)) in
              rw short (
                ap done (sym (capped-short max (out ++ r ∷ rows) e) ∙ ap (capped max) (sym all_of)))
          | inr full ↦ rw full (
              step r rows (drop k l) (ap (λ t. r ∷ t) (sym (take-drop k l)))
                (capped-short max (out ++ r ∷ rows) e))
        ])
      ]

  module _ (session : ReadSession) (table : List LineageRow) (paged : IsPaged session table)
      (ascending : Ascending table) (k : ℕ) where
    -- The scan from a state in which a part of the table is read.
    scan_from :
        (fuel : ℕ) (after : Option ℕ) (out rest : List LineageRow)
        → table ≡ out ++ rest
        → select (above after) table ≡ rest
        → capped max out ≡ out
        → length rest < fuel
        → scan_ascending session (suc k) max fuel after out ≡ done (capped max table)
    unfolding scan_ascending answer
    scan_from zero after out rest split left c h = absurd (omega arith)
    scan_from (suc fuel) after out rest split left c h =
        let page : session.page (λ r. true) false after (suc k) ≡ some (take (suc k) rest) =
          paged.pages_up (λ r. true) after (suc k) ∙ ap (λ l. some (take (suc k) l)) left in
        rw page (
          page_step k out rest (scan_ascending session (suc k) max fuel) c (λ r rows rest' e d.
            let split' : table ≡ out ++ ((r ∷ rows) ++ rest') = split ∙ ap (λ l. out ++ l) e in
            scan_from fuel (some (page_end r rows)) (out ++ r ∷ rows) rest'
              (split' ∙ sym (append_assoc out (r ∷ rows) rest'))
              (ap (select (above (some (page_end r rows)))) split'
                ∙ select-above out r rows rest' (subst Ascending split' ascending))
              d (omega (arith, ap (length {A = LineageRow}) e, length-more r rows rest'))
            ∙ ap (λ l. done (capped max l)) split)
          ∙ ap (λ l. done (capped max l)) (sym split))

    -- On a session that pages a table of increasing sequence numbers as documented, with pages of at
    -- least one row, the scan ends within one round more than the table has rows, and it returns the
    -- whole table, or as many of its first rows as the cap allows.
    pub scan_ascending_complete :
        (fuel : ℕ)
        → length table < fuel
        → scan_ascending session (suc k) max fuel none [] ≡ done (capped max table)
    unfolding capped above
    scan_ascending_complete fuel h =
        scan_from fuel none [] table refl (select-everything table) (capped-nil max) h
