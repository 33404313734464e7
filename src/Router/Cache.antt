-- ===== src/Router/Cache.antt =====
-- The routing-view cache (`RoutingViewCache` of backend/database_router/cache.py), on a clock that
-- counts in whole units. The view is whatever the resolver returned.
pub mod Freshness
pub mod History
use snack_portal.Common.{
  ℕ, ◌+◌, Bool, true, false, ◌&&◌, not, Option, none, some, List, [], ◌∷◌, ltb, leb, if◌then◌else◌,
  length,
}
use snack_portal.Common.Text.{Text}
use snack_portal.Common.Dict.{Dict, lookup, insert, erase}

-- `tenant_id in self._data`
unfoldable pub has_entry {ℓ} : {V : Type ℓ} → Text → Dict V → Bool
has_entry tenant_id entries = elim (lookup tenant_id entries) [ none ↦ false | some _ ↦ true ]

module _ {View : Type 0} where
  -- What `get` answers, and the entries it leaves: an expired entry is dropped.
  unfoldable pub unexpired :
      ℕ → Text → Dict (ℕ × View) → Option (ℕ × View) → Option View × Dict (ℕ × View)
  unexpired now tenant_id entries none = (none, entries)
  unexpired now tenant_id entries (some (expires_at, view)) =
      if ltb expires_at now then (none, erase tenant_id entries) else (some view, entries)

  unfoldable pub get : ℕ → Text → Dict (ℕ × View) → Option View × Dict (ℕ × View)
  get now tenant_id entries = unexpired now tenant_id entries (lookup tenant_id entries)

  -- The oldest entry is dropped; on no entry, `next` raises.
  unfoldable pub drop_oldest : Dict (ℕ × View) → Option (Dict (ℕ × View))
  drop_oldest [] = none
  drop_oldest (_ ∷ entries) = some entries

  unfoldable pub make_room : ℕ → Text → Dict (ℕ × View) → Option (Dict (ℕ × View))
  make_room max tenant_id entries =
      if leb max (length entries) && not (has_entry tenant_id entries)
      then drop_oldest entries
      else some entries

  -- `none` where it raises.
  unfoldable pub put : ℕ → ℕ → ℕ → Text → View → Dict (ℕ × View) → Option (Dict (ℕ × View))
  put max ttl now tenant_id view entries = elim (make_room max tenant_id entries) [
    | none ↦ none
    | some kept ↦ some (insert tenant_id (now + ttl, view) kept)
  ]

  unfoldable pub invalidate_entry : Text → Dict (ℕ × View) → Dict (ℕ × View)
  invalidate_entry tenant_id entries = erase tenant_id entries
