-- ===== src/Router/Resolver.antt =====
-- The denials of backend/database_router/models.py, the disclosure standard of disclosure.py and the
-- resolver of resolver.py. What the read port answers is a parameter; a lifecycle state is the text
-- that the control plane sends.
pub mod Routable
use snack_portal.Common.{
  ℕ, Bool, true, false, ◌&&◌, ◌||◌, not, Option, none, some, List, any, if◌then◌else◌,
}
use snack_portal.Common.Text.{Text, text, text_eq}
use snack_portal.Common.Dict.{Dict}
use snack_portal.Control.Records.{SecretRef}
use snack_portal.Router.Cache.{get, put, invalidate_entry}

pub data DenialReason : Type 0 where
  unauthenticated forbidden_reason not_found_reason not_ready_reason : DenialReason
  administratively_disabled_reason unavailable_reason : DenialReason

pub record RoutingDenied : Type 0 where
  pub reason : DenialReason
  pub http_status : ℕ
  pub public_code : Text

unfoldable pub not_found : Text → RoutingDenied
not_found code = record {
  reason = DenialReason.not_found_reason;
  http_status = 404;
  public_code = code;
}

unfoldable pub forbidden : Text → RoutingDenied
forbidden code = record {
  reason = DenialReason.forbidden_reason;
  http_status = 403;
  public_code = code;
}

unfoldable pub not_ready : Text → RoutingDenied
not_ready code = record {
  reason = DenialReason.not_ready_reason;
  http_status = 503;
  public_code = code;
}

unfoldable pub administratively_disabled : Text → RoutingDenied
administratively_disabled code = record {
  reason = DenialReason.administratively_disabled_reason;
  http_status = 403;
  public_code = code;
}

unfoldable pub unavailable : Text → RoutingDenied
unavailable code = record {
  reason = DenialReason.unavailable_reason;
  http_status = 503;
  public_code = code;
}

pub record TenantRoutingView : Type 0 where
  pub tenant_id : Text
  pub lifecycle_state : Text
  pub ready : Bool
  pub database_association_ref : SecretRef
  pub expected_schema_version : Text

-- `lifecycle_state in _NOT_READY`
unfoldable pub is_not_ready : Text → Bool
is_not_ready state =
    text_eq state (text "Registered")
    || text_eq state (text "Provisioning")
    || text_eq state (text "Verifying")

unfoldable pub denial_for_state : Text → Bool → Option RoutingDenied
denial_for_state state ready =
    if text_eq state (text "Ready") && ready
    then none
    else if text_eq state (text "Suspended")
    then some (administratively_disabled (text "administratively_disabled"))
    else if text_eq state (text "Failed")
    then some (unavailable (text "unavailable"))
    else if text_eq state (text "Decommissioned")
    then some (not_found (text "not_found"))
    else if is_not_ready state || not ready
    then some (not_ready (text "not_ready"))
    else some (not_found (text "not_found"))

-- What the read port does: it raises, or answers a view or nothing.
pub data Read : Type 0 where
  read_raises : Read
  read_answers : Option TenantRoutingView → Read

-- A resolution answers a view, raises a denial, or lets an exception of the cache escape.
pub data Resolved : Type 0 where
  resolved : TenantRoutingView → Resolved
  refused : RoutingDenied → Resolved
  crashed : Resolved

abbrev pub Views : Type 0
Views = Dict (ℕ × TenantRoutingView)

-- The gates on a view, cached or fresh.
unfoldable pub gate_view : List Text → TenantRoutingView → Resolved
gate_view supported view = elim (denial_for_state view.lifecycle_state view.ready) [
  | some denial ↦ refused denial
  | none ↦
      if any (text_eq view.expected_schema_version) supported
      then resolved view
      else refused (not_ready (text "schema_out_of_range"))
]

module _ (max ttl : ℕ) (supported : List Text) (now : ℕ) where
  unfoldable pub store_view : Text → TenantRoutingView → Views → Resolved × Views
  store_view tenant_id view views = elim (put max ttl now tenant_id view views) [
    | none ↦ (crashed, views)
    | some stored ↦ (gate_view supported view, stored)
  ]

  unfoldable pub read_view : Read → Text → Views → Resolved × Views
  read_view read_raises tenant_id views =
      (refused (unavailable (text "control_plane_unavailable")), views)
  read_view (read_answers none) tenant_id views = (refused (not_found (text "not_found")), views)
  read_view (read_answers (some view)) tenant_id views = store_view tenant_id view views

  unfoldable pub cached_or_read :
      (Text → Read) → Text → Option TenantRoutingView × Views → Resolved × Views
  cached_or_read read tenant_id (some view, views) = (gate_view supported view, views)
  cached_or_read read tenant_id (none, views) = read_view (read tenant_id) tenant_id views

  unfoldable pub resolve : (Text → Read) → Text → Views → Resolved × Views
  resolve read tenant_id views = cached_or_read read tenant_id (get now tenant_id views)

-- `RoutingResolver.invalidate`, and `DatabaseRouter.invalidate_tenant`.
unfoldable pub invalidate_tenant : Text → Views → Views
invalidate_tenant tenant_id views = invalidate_entry tenant_id views
