-- ===== src/Lineage/Session.antt =====
-- The ports that the lineage service reads and writes a tenant database by
-- (backend/shared/session.py), with the behaviour that the port documents, and what a call on them
-- comes to. The table stands in the order of `seq`; a `where` is the test that its equalities make.
pub mod Lists
use snack_portal.Common.{
  ℕ, suc, zero, ◌<◌, ◌≡◌, Bool, true, false, ◌&&◌, Option, none, some, List, [], ◌∷◌, ◌++◌, All,
  ltb, if◌then◌else◌,
}
use snack_portal.Common.Text.{Text}
use snack_portal.Lineage.Canonical.{LineageRow}

-- A call returns, raises, or has not ended when the fuel of a loop is used up.
pub data Run (A : Type 0) : Type 0 where
  done : A → Run A
  raised : Run A
  unfinished : Run A

infixl 5 ◌>>=◌
abbrev pub ◌>>=◌ : {A B : Type 0} → Run A → (A → Run B) → Run B
done a >>= f = f a
raised >>= f = raised
unfinished >>= f = unfinished

-- What a port answers, as a call.
unfoldable pub answer : {A : Type 0} → Option A → Run A
answer none = raised
answer (some a) = done a

unfoldable pub take : {A : Type 0} → ℕ → List A → List A
take zero l = []
take (suc n) [] = []
take (suc n) (x ∷ l) = x ∷ take n l

unfoldable pub select : {A : Type 0} → (A → Bool) → List A → List A
select p [] = []
select p (x ∷ l) = if p x then x ∷ select p l else select p l

unfoldable pub reversed : {A : Type 0} → List A → List A
reversed [] = []
reversed (x ∷ l) = reversed l ++ x ∷ []

-- Strictly past a cursor, upwards and downwards.
unfoldable pub above : Option ℕ → LineageRow → Bool
above none r = true
above (some a) r = ltb a r.seq

unfoldable pub below : Option ℕ → LineageRow → Bool
below none r = true
below (some a) r = ltb r.seq a

-- `rows[-1]["seq"]`, for a page that is not empty.
unfoldable pub page_end : LineageRow → List LineageRow → ℕ
page_end r [] = r.seq
page_end r (q ∷ rows) = page_end q rows

-- `LineageReadSession`: `page(where, descending, after, limit)`, `none` where it raises.
pub record ReadSession : Type 0 where
  pub tenant_id : Text
  pub page : (LineageRow → Bool) → Bool → Option ℕ → ℕ → Option (List LineageRow)

-- The documented behaviour of `page` over a table.
pub record IsPaged (session : ReadSession) (table : List LineageRow) : Type 0 where
  pub pages_up :
      (where_row : LineageRow → Bool) (after : Option ℕ) (limit : ℕ)
      → session.page where_row false after limit
        ≡ some (take limit (select (λ r. where_row r && above after r) table))
  pub pages_down :
      (where_row : LineageRow → Bool) (after : Option ℕ) (limit : ℕ)
      → session.page where_row true after limit
        ≡ some (take limit (select (λ r. where_row r && below after r) (reversed table)))

-- The write session: `latest(lineage, order_by="seq")` and `append(lineage, row)`.
pub record WriteSession : Type 0 where
  pub tenant_id : Text
  pub latest : List LineageRow → Option LineageRow
  pub append : List LineageRow → LineageRow → Option (List LineageRow)

-- The documented behaviour of both: the row of the maximum `seq`, and an insert that adds the row or
-- raises.
pub record IsAppendOnly (session : WriteSession) : Type 0 where
  pub of_none : session.latest [] ≡ none
  pub of_last :
      (table : List LineageRow) (r : LineageRow)
      → All (λ q. q.seq < r.seq) table
      → session.latest (table ++ r ∷ []) ≡ some r
  pub adds :
      (table table' : List LineageRow) (r : LineageRow)
      → session.append table r ≡ some table'
      → table' ≡ table ++ r ∷ []

-- Rows in strictly increasing order of `seq`.
abbrev pub Ascending : List LineageRow → Type 0
Ascending [] = Unit {0}
Ascending (r ∷ rows) = All (λ q. r.seq < q.seq) rows × Ascending rows
