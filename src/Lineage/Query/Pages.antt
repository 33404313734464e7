-- ===== src/Lineage/Query/Pages.antt =====
-- The pages of backend/lineage_service/query.py and search.py follow one another.
use snack_portal.Common.{
  ℕ, suc, zero, ◌≤◌, ◌<◌, ◌≡◌, ◌≢◌, refl, sym, ap, ◌∙◌, subst, inl, inr, Bool, true, false, ◌&&◌,
  Option, none, some, List, [], ◌∷◌, ◌++◌, length, map, Bool-cases, if◌then◌else◌, All, arith,
}
use snack_portal.Lineage.Canonical.{LineageRow}
use snack_portal.Lineage.Session.{
  done, answer, take, select, reversed, below, page_end, ReadSession, IsPaged, Ascending,
}
use snack_portal.Lineage.Verify.Scan.{All-last, All-map}
use snack_portal.Lineage.Session.Lists.{
  drop, take-drop, select-none, select-All, select-append, drop-short,
}
use snack_portal.Lineage.Segments.Summary.{All-select, select-select}
use snack_portal.Lineage.Query.{Page, cursor_of, from_row, page_limit, page_of, query_page}

-- Rows in strictly decreasing order of `seq`.
abbrev pub Descending : List LineageRow → Type 0
Descending [] = Unit {0}
Descending (r ∷ rows) = All (λ q. q.seq < r.seq) rows × Descending rows

All-snoc :
    (P : LineageRow → Type 0) (l : List LineageRow) (r : LineageRow)
    → All P l
    → P r
    → All P (l ++ r ∷ [])
All-snoc P [] r h p = (p, tt)
All-snoc P (x ∷ l) r (a, h) p = (a, All-snoc P l r h p)

All-reversed : (P : LineageRow → Type 0) (l : List LineageRow) → All P l → All P (reversed l)
unfolding reversed
All-reversed P [] h = tt
All-reversed P (x ∷ l) (a, h) = All-snoc P (reversed l) x (All-reversed P l h) a

Descending-snoc :
    (l : List LineageRow) (r : LineageRow)
    → Descending l
    → All (λ q. r.seq < q.seq) l
    → Descending (l ++ r ∷ [])
Descending-snoc [] r h p = (tt, tt)
Descending-snoc (x ∷ l) r (a, h) (p, ps) = (All-snoc _ l r a p, Descending-snoc l r h ps)

reversed-Descending : (l : List LineageRow) → Ascending l → Descending (reversed l)
unfolding reversed
reversed-Descending [] h = tt
reversed-Descending (x ∷ l) (a, h) =
    Descending-snoc (reversed l) x (reversed-Descending l h) (All-reversed _ l a)

select-Descending :
    (p : LineageRow → Bool) (l : List LineageRow) → Descending l → Descending (select p l)
unfolding select
select-Descending p [] h = tt
select-Descending p (r ∷ l) (a, h) = elim (Bool-cases (p r)) [
  | inl e ↦ rw e (All-select _ p l a, select-Descending p l h)
  | inr e ↦ rw e (select-Descending p l h)
]

Descending-downto :
    (r : LineageRow) (rows : List LineageRow)
    → Descending (r ∷ rows)
    → All (λ q. page_end r rows ≤ q.seq) (r ∷ rows)
unfolding page_end
Descending-downto r [] h = (omega arith, tt)
Descending-downto r (q ∷ rows) (a, h) =
    let ih = Descending-downto q rows h in let step = a.0 in (omega (arith, ih.0), ih)

Descending-after :
    (r : LineageRow) (rows rest : List LineageRow)
    → Descending ((r ∷ rows) ++ rest)
    → All (λ q. q.seq < page_end r rows) rest
unfolding page_end
Descending-after r [] rest h = h.0
Descending-after r (q ∷ rows) rest h = Descending-after q rows rest h.1

Descending-front : (a b : List LineageRow) → Descending (a ++ b) → Descending a
Descending-front [] b h = tt
Descending-front (x ∷ a) b (p, h) = (front a p, Descending-front a b h)
  where
    front : (a : List LineageRow) → All (λ q. q.seq < x.seq) (a ++ b) → All (λ q. q.seq < x.seq) a
    front [] p = tt
    front (y ∷ a) (p, ps) = (p, front a ps)

-- The rows below the last row of a part that a list starts with.
select-below :
    (r : LineageRow) (rows rest : List LineageRow)
    → Descending ((r ∷ rows) ++ rest)
    → select (below (some (page_end r rows))) ((r ∷ rows) ++ rest) ≡ rest
unfolding below
select-below r rows rest h =
    let p = below (some (page_end r rows)) in
    let gone : select p (r ∷ rows) ≡ [] = select-none p (r ∷ rows) (
      All-map (λ q. page_end r rows ≤ q.seq) (λ q. p q ≡ false) (r ∷ rows) (λ q l. ground arith)
        (Descending-downto r rows (Descending-front (r ∷ rows) rest h))) in
    let kept : select p rest ≡ rest = select-All p rest (
      All-map (λ q. q.seq < page_end r rows) (λ q. p q ≡ true) rest (λ q l. ground arith)
        (Descending-after r rows rest h)) in
    select-append p (r ∷ rows) rest ∙ (ap (λ a. a ++ select p rest) gone ∙ kept)

page_limit_pos : (max limit : ℕ) → 0 < page_limit max limit
unfolding page_limit
page_limit_pos max limit = ground arith

page_limit-le : (max limit : ℕ) → 0 < max → page_limit max limit ≤ max
unfolding page_limit
page_limit-le max limit h = ground arith

length-take-le : {A : Type 0} (n : ℕ) (l : List A) → length (take n l) ≤ n
unfolding take
length-take-le zero l = omega arith
length-take-le (suc n) [] = omega arith
length-take-le (suc n) (x ∷ l) = omega (arith, length-take-le n l)

length-map : (l : List LineageRow) → length (map from_row l) ≡ length l
length-map [] = refl
length-map (r ∷ l) = omega (arith, length-map l)

map-join : (a b : List LineageRow) → map from_row (a ++ b) ≡ map from_row a ++ map from_row b
map-join [] b = refl
map-join (r ∷ a) b = ap (λ t. from_row r ∷ t) (map-join a b)

page_end-map :
    (r : LineageRow) (rows : List LineageRow)
    → page_end (from_row r) (map from_row rows) ≡ page_end r rows
unfolding page_end from_row
page_end-map r [] = refl
page_end-map r (q ∷ rows) = page_end-map q rows

select_ext :
    (p q : LineageRow → Bool) (l : List LineageRow)
    → ((r : LineageRow) → p r ≡ q r)
    → select p l ≡ select q l
unfolding select
select_ext p q [] h = refl
select_ext p q (r ∷ l) h = rw (h r) (ap (λ t. if q r then r ∷ t else t) (select_ext p q l h))

selected : (p : LineageRow → Bool) (l : List LineageRow) → All (λ r. p r ≡ true) (select p l)
unfolding select
selected p [] = tt
selected p (r ∷ l) = elim (Bool-cases (p r)) [
  | inl e ↦ rw e (e, selected p l)
  | inr e ↦ rw e (selected p l)
]

-- A number below the cursor, if there is one.
abbrev Under : Option ℕ → ℕ → Type 0
Under none n = Unit {0}
Under (some a) n = n < a

under :
    (w : LineageRow → Bool) (after : Option ℕ) (r : LineageRow)
    → (w r && below after r) ≡ true
    → Under after r.seq
unfolding below
under w none r h = tt
under w (some a) r h = ground arith

narrows :
    (w : LineageRow → Bool) (after : Option ℕ) (c : ℕ) (r : LineageRow)
    → Under after c
    → ((w r && below after r) && below (some c) r) ≡ (w r && below (some c) r)
unfolding below
narrows w none c r h = ground arith
narrows w (some a) c r h = ground arith

-- What a cursor says of the rows of its page and of those that are left.
cursor-none :
    (n : ℕ) (all_of : List LineageRow)
    → 0 < n
    → cursor_of n (map from_row (take n all_of)) ≡ none
    → drop n all_of ≡ []
unfolding cursor_of take
cursor-none zero all_of h e = absurd (omega arith)
cursor-none (suc n) [] h e = refl
cursor-none (suc n) (r ∷ l) h e =
    let short : length (from_row r ∷ map from_row (take n l)) ≢ suc n =
      λ f. absurd (ground arith) in
    drop-short n l (omega (arith, short_of short, length-take-le n l))
  where
    short_of : (length (from_row r ∷ map from_row (take n l)) ≢ suc n) → length (take n l) ≢ n
    short_of s f = s (omega (arith, f, length-map (take n l)))

cursor-some :
    (n c : ℕ) (w : LineageRow → Bool) (after : Option ℕ) (table : List LineageRow)
    (all_of : List LineageRow)
    → all_of ≡ select (λ r. w r && below after r) (reversed table)
    → Descending all_of
    → cursor_of n (map from_row (take n all_of)) ≡ some c
    → select (λ r. w r && below (some c) r) (reversed table) ≡ drop n all_of
unfolding cursor_of take
cursor-some zero c w after table all_of e d h = absurd (cc)
cursor-some (suc n) c w after table [] e d h = absurd (cc)
cursor-some (suc n) c w after table (r ∷ l) e d h =
    let rows = take n l in
    let last : c ≡ page_end r rows = sym (ends h) ∙ page_end-map r rows in
    let whole : r ∷ l ≡ (r ∷ rows) ++ drop n l = ap (λ t. r ∷ t) (sym (take-drop n l)) in
    let in_range : All (λ q. Under after q.seq) ((r ∷ rows) ++ drop n l) =
      subst (All (λ q. Under after q.seq)) whole (
        subst (All (λ q. Under after q.seq)) (sym e) (
          All-map _ _ _ (under w after) (selected (λ r. w r && below after r) (reversed table)))) in
    let reached : Under after c =
      subst (Under after) (sym last)
        (All-last (Under after) [] r rows (front (r ∷ rows) in_range)) in
    sym (select_ext _ _ (reversed table) (λ q. narrows w after c q reached))
    ∙ (select-select (λ r. w r && below after r) (below (some c)) (reversed table)
        ∙ (ap (select (below (some c))) (sym e ∙ whole)
            ∙ (ap (λ m. select (below (some m)) ((r ∷ rows) ++ drop n l)) last
                ∙ select-below r rows (drop n l) (subst Descending whole d))))
  where
    ends :
        cursor_of (suc n) (map from_row (take (suc n) (r ∷ l))) ≡ some c
        → page_end (from_row r) (map from_row (take n l)) ≡ c
    ends h = ground arith

    front :
        (a : List LineageRow)
        → All (λ q. Under after q.seq) (a ++ drop n l)
        → All (λ q. Under after q.seq) a
    front [] h = tt
    front (x ∷ a) (p, h) = (p, front a h)

-- On a session that pages a table of increasing sequence numbers as documented, a page returns. Its
-- rows are the newest of those that match and stand below the cursor, and with the rest they are all
-- of these. Where it names no next cursor nothing is left, and where it names one, the rows that match
-- and stand below that are the rest. With a positive maximum, no page is longer than the maximum.
pub query_page-rest :
    (page_limit_max : ℕ) (session : ReadSession) (table : List LineageRow)
    (where_row : LineageRow → Bool) (after : Option ℕ) (limit : ℕ)
    → IsPaged session table
    → Ascending table
    → (page : Page) × (rest : List LineageRow) × (query_page page_limit_max session where_row after
          limit
        ≡ done page)
      × (page.items ++ map from_row rest
          ≡ map from_row (select (λ r. where_row r && below after r) (reversed table)))
      × (page.next_cursor ≡ none → rest ≡ [])
      × ((c : ℕ)
          → page.next_cursor ≡ some c
          → select (λ r. where_row r && below (some c) r) (reversed table) ≡ rest)
      × (0 < page_limit_max → length page.items ≤ page_limit_max)
unfolding query_page page_of answer
query_page-rest page_limit_max session table where_row after limit paged ascending =
    let n = page_limit page_limit_max limit in
    let all_of = select (λ r. where_row r && below after r) (reversed table) in
    (
      page_of n (map from_row (take n all_of)),
      drop n all_of,
      rw (paged.pages_down where_row after n) refl,
      sym (map-join (take n all_of) (drop n all_of)) ∙ ap (map from_row) (take-drop n all_of),
      cursor-none n all_of (page_limit_pos page_limit_max limit),
      λ c.
          cursor-some n c where_row after table all_of refl
            (select-Descending _ (reversed table) (reversed-Descending table ascending)),
      λ h. omega (
        arith,
        length-map (take n all_of),
        length-take-le n all_of,
        page_limit-le page_limit_max limit h,
      ),
    )
