-- ===== src/Lineage/Canonical.antt =====
-- The canonical content and the integrity marker of a lineage record
-- (backend/lineage_service/canonical.py). A column that is not null is a text or a number; the keyed
-- hash and Python's decimal form of a number are parameters.
pub mod Injective
use snack_portal.Common.{
  ℕ, Bool, true, false, Option, none, some, List, [], ◌∷◌, ◌++◌, ◌==◌, if◌then◌else◌,
}
use snack_portal.Common.Text.{Text}

pub record LineageRow : Type 0 where
  pub lineage_id : Text
  pub seq : ℕ
  pub segment_id : ℕ
  pub event_type : Text
  pub occurred_at : Text
  pub actor_ref : Text
  pub source_ref : Text
  pub target_ref : Text
  pub operation : Text
  pub schema_version : Text
  pub derivation_ref : Option Text
  pub parent_lineage_ref : Option Text
  pub correlation_id : Option Text
  pub marker_version : ℕ
  pub prev_marker : Text
  pub integrity_marker : Text

-- `hmac.new(key, content, sha256).hexdigest()` and `str(n)`.
pub record Digest : Type 0 where
  pub hmac : Text → Text → Text
  pub decimal : ℕ → Text

-- `"" if value is None else str(value)`
unfoldable pub value_or_empty : Option Text → Text
value_or_empty none = []
value_or_empty (some t) = t

-- `_SEP.join(parts)`
unfoldable pub join : List Text → Text
join [] = []
join (p ∷ []) = p
join (p ∷ q ∷ ps) = p ++ 31 ∷ join (q ∷ ps)

-- The values of `_V1_FIELDS`, in their order.
unfoldable pub v1_fields : Digest → LineageRow → List Text
v1_fields digest r =
    r.lineage_id
    ∷ digest.decimal r.seq
    ∷ r.event_type
    ∷ r.occurred_at
    ∷ r.actor_ref
    ∷ r.source_ref
    ∷ r.target_ref
    ∷ r.operation
    ∷ r.schema_version
    ∷ value_or_empty r.derivation_ref
    ∷ value_or_empty r.parent_lineage_ref
    ∷ []

-- `none` where it raises `UnknownMarkerVersion`.
unfoldable pub canonical_content : Digest → LineageRow → Text → ℕ → Option Text
canonical_content digest r prev_marker marker_version =
    if marker_version == 1 then some (join (prev_marker ∷ v1_fields digest r)) else none

unfoldable pub compute_marker : Digest → Text → Text → Text
compute_marker digest key content = digest.hmac key content

unfoldable pub marker_for : Digest → Text → LineageRow → Text → ℕ → Option Text
marker_for digest key r prev_marker marker_version =
    elim (canonical_content digest r prev_marker marker_version) [
      | none ↦ none
      | some content ↦ some (compute_marker digest key content)
    ]
