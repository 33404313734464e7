-- ===== src/Lineage/Emit/Head.antt =====
-- The head of a chain, which backend/lineage_service/emit.py takes up.
use snack_portal.Common.{
  ℕ, ◌+◌, ◌<◌, ◌≡◌, ◌⊎◌, refl, sym, ap, ◌∙◌, subst, inl, inr, Option, none, some, List, [], ◌∷◌,
  ◌++◌, length, All, arith,
}
use snack_portal.Common.Text.{Text}
use snack_portal.Lineage.Canonical.{LineageRow, Digest, marker_for}
use snack_portal.Lineage.Session.{WriteSession, IsAppendOnly, Ascending}
use snack_portal.Lineage.Emit.{head_marker, head_seq}
use snack_portal.Lineage.Verify.{version_of}
use snack_portal.Lineage.Verify.Chain.{IsChain}

unfoldable pub last_row : List LineageRow → Option LineageRow
last_row [] = none
last_row (r ∷ []) = some r
last_row (r ∷ q ∷ rows) = last_row (q ∷ rows)

pub last_row-append : (a : List LineageRow) (r : LineageRow) → last_row (a ++ r ∷ []) ≡ some r
unfolding last_row
last_row-append [] r = refl
last_row-append (q ∷ []) r = refl
last_row-append (q ∷ p ∷ a) r = last_row-append (p ∷ a) r

pub snoc-cases :
    (l : List LineageRow)
    → (l ≡ []) ⊎ ((a : List LineageRow) × (r : LineageRow) × (l ≡ a ++ r ∷ []))
snoc-cases [] = inl refl
snoc-cases (x ∷ l) = elim (snoc-cases l) [
  | inl e ↦ inr ([], x, ap (λ t. x ∷ t) e)
  | inr (a, r, e) ↦ inr (x ∷ a, r, ap (λ t. x ∷ t) e)
]

pub before-last :
    (a : List LineageRow) (r : LineageRow) → Ascending (a ++ r ∷ []) → All (λ q. q.seq < r.seq) a
before-last [] r h = tt
before-last (x ∷ a) r (above, h) = (of_snoc a above, before-last a r h)
  where
    of_snoc : (a : List LineageRow) → All (λ q. x.seq < q.seq) (a ++ r ∷ []) → x.seq < r.seq
    of_snoc [] p = p.0
    of_snoc (y ∷ a) p = of_snoc a p.1

pub latest-last_row :
    (session : WriteSession) (table : List LineageRow)
    → IsAppendOnly session
    → Ascending table
    → session.latest table ≡ last_row table
unfolding last_row
latest-last_row session table only ascending = elim (snoc-cases table) [
  | inl e ↦ ap session.latest e ∙ (only.of_none ∙ ap last_row (sym e))
  | inr (a, r, e) ↦
      ap session.latest e
      ∙ (only.of_last a r (before-last a r (subst Ascending e ascending))
          ∙ (sym (last_row-append a r) ∙ ap last_row (sym e)))
]

-- A chain from a number on rises.
pub chain_rises :
    (digest : Digest) (key prev : Text) (n : ℕ) (rows : List LineageRow)
    → IsChain digest key prev (some n) rows
    → All (λ q. n < q.seq) rows
chain_rises digest key prev n [] h = tt
chain_rises digest key prev n (r ∷ rows) (m, l, f, h) =
    (omega arith, more rows (chain_rises digest key r.integrity_marker r.seq rows h))
  where
    more : (rows : List LineageRow) → All (λ q. r.seq < q.seq) rows → All (λ q. n < q.seq) rows
    more [] h = tt
    more (q ∷ rows) (a, h) = (omega arith, more rows h)

pub IsChain-Ascending :
    (digest : Digest) (key prev : Text) (n : ℕ) (rows : List LineageRow)
    → IsChain digest key prev (some n) rows
    → Ascending rows
IsChain-Ascending digest key prev n [] h = tt
IsChain-Ascending digest key prev n (r ∷ rows) (m, l, f, h) = (
  chain_rises digest key r.integrity_marker r.seq rows h,
  IsChain-Ascending digest key r.integrity_marker r.seq rows h,
)

-- A chain that starts at 1 is one that starts anywhere.
pub IsChain-start :
    (digest : Digest) (key prev : Text) (n : ℕ) (rows : List LineageRow)
    → IsChain digest key prev (some n) rows
    → IsChain digest key prev none rows
IsChain-start digest key prev n [] h = tt
IsChain-start digest key prev n (r ∷ rows) (m, l, f, h) = (m, l, tt, h)

-- The marker and the number that the next row of a chain has to take up.
pub open_marker : Text → List LineageRow → Text
open_marker prev [] = prev
open_marker prev (r ∷ rows) = open_marker r.integrity_marker rows

pub open_seq : ℕ → List LineageRow → ℕ
open_seq n [] = n
open_seq n (r ∷ rows) = open_seq r.seq rows

pub open_seq-length :
    (digest : Digest) (key prev : Text) (n : ℕ) (rows : List LineageRow)
    → IsChain digest key prev (some n) rows
    → open_seq n rows ≡ n + length rows
unfolding open_seq
open_seq-length digest key prev n [] h = omega arith
open_seq-length digest key prev n (r ∷ rows) (m, l, f, h) =
    omega (arith, open_seq-length digest key r.integrity_marker r.seq rows h)

pub IsChain-extends :
    (digest : Digest) (key prev : Text) (n : ℕ) (rows : List LineageRow) (x : LineageRow)
    → IsChain digest key prev (some n) rows
    → marker_for digest key x x.prev_marker (version_of x) ≡ some x.integrity_marker
    → x.prev_marker ≡ open_marker prev rows
    → x.seq ≡ open_seq n rows + 1
    → IsChain digest key prev (some n) (rows ++ x ∷ [])
unfolding open_marker open_seq
IsChain-extends digest key prev n [] x h m l s = (m, l, s, tt)
IsChain-extends digest key prev n (r ∷ rows) x (a, b, c, h) m l s =
    (a, b, c, IsChain-extends digest key r.integrity_marker r.seq rows x h m l s)

pub open_marker-head :
    (rows : List LineageRow) (prev : Text) (r : LineageRow)
    → open_marker prev (r ∷ rows) ≡ head_marker (last_row (r ∷ rows))
unfolding open_marker last_row head_marker
open_marker-head [] prev r = refl
open_marker-head (q ∷ rows) prev r = open_marker-head rows r.integrity_marker q

pub open_seq-head :
    (rows : List LineageRow) (n : ℕ) (r : LineageRow)
    → open_seq n (r ∷ rows) + 1 ≡ head_seq (last_row (r ∷ rows))
unfolding open_seq last_row head_seq
open_seq-head [] n r = refl
open_seq-head (q ∷ rows) n r = open_seq-head rows r.seq q

pub heads :
    (rows : List LineageRow)
    → (head_marker (last_row rows) ≡ open_marker [] rows)
      × (head_seq (last_row rows) ≡ open_seq 0 rows + 1)
unfolding open_marker open_seq last_row head_marker head_seq
heads [] = (refl, refl)
heads (r ∷ rows) = (sym (open_marker-head rows [] r), sym (open_seq-head rows 0 r))
