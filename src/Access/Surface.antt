-- ===== src/Access/Surface.antt =====
-- The enumerated operation surface (backend/snackportal2/shared/operations.py), the enumerations of
-- backend/snackportal2/shared/types.py, and the two contexts of
-- backend/snackportal2/shared/security.py. A map keyed by an enumeration answers `none` where the
-- key is missing.
use snack_portal.Common.{Bool, true, false, Option, none, some}
use snack_portal.Common.Text.{Text, is_empty}

pub data BffOperation : Type 0 where
  list_memberships read_global_startup_directory read_global_investor_directory : BffOperation
  initiate_startup_import : BffOperation
  list_tenant_startups create_tenant_startup read_tenant_startup update_tenant_startup :
      BffOperation
  list_tenant_investors create_tenant_investor read_tenant_investor update_tenant_investor :
      BffOperation
  list_tenant_deals create_tenant_deal read_tenant_deal update_tenant_deal : BffOperation
  list_tenant_contacts create_tenant_contact read_tenant_contact read_tenant_lineage : BffOperation
  propose_deal_share read_deal_share : BffOperation

pub data OperationCategory : Type 0 where
  tenant_operation global_directory_read memberships_for_principal import_initiation :
      OperationCategory
  governed_sharing : OperationCategory

pub data DatabaseDomain : Type 0 where
  control tenant : DatabaseDomain

pub data PlatformRole : Type 0 where
  control master_agent tenant_admin tenant_agent startup_user investor_user : PlatformRole

pub data WorkspaceType : Type 0 where
  tenant_workspace control_workspace : WorkspaceType

-- `OPERATION_CATEGORY.get`
unfoldable pub operation_category : BffOperation → Option OperationCategory
operation_category BffOperation.list_memberships = some OperationCategory.memberships_for_principal
operation_category BffOperation.read_global_startup_directory =
    some OperationCategory.global_directory_read
operation_category BffOperation.read_global_investor_directory =
    some OperationCategory.global_directory_read
operation_category BffOperation.initiate_startup_import = some OperationCategory.import_initiation
operation_category BffOperation.list_tenant_startups = some OperationCategory.tenant_operation
operation_category BffOperation.create_tenant_startup = some OperationCategory.tenant_operation
operation_category BffOperation.read_tenant_startup = some OperationCategory.tenant_operation
operation_category BffOperation.update_tenant_startup = some OperationCategory.tenant_operation
operation_category BffOperation.list_tenant_investors = some OperationCategory.tenant_operation
operation_category BffOperation.create_tenant_investor = some OperationCategory.tenant_operation
operation_category BffOperation.read_tenant_investor = some OperationCategory.tenant_operation
operation_category BffOperation.update_tenant_investor = some OperationCategory.tenant_operation
operation_category BffOperation.list_tenant_deals = some OperationCategory.tenant_operation
operation_category BffOperation.create_tenant_deal = some OperationCategory.tenant_operation
operation_category BffOperation.read_tenant_deal = some OperationCategory.tenant_operation
operation_category BffOperation.update_tenant_deal = some OperationCategory.tenant_operation
operation_category BffOperation.list_tenant_contacts = some OperationCategory.tenant_operation
operation_category BffOperation.create_tenant_contact = some OperationCategory.tenant_operation
operation_category BffOperation.read_tenant_contact = some OperationCategory.tenant_operation
operation_category BffOperation.read_tenant_lineage = some OperationCategory.tenant_operation
operation_category BffOperation.propose_deal_share = some OperationCategory.governed_sharing
operation_category BffOperation.read_deal_share = some OperationCategory.governed_sharing

-- `CATEGORY_DOMAIN[category]`
unfoldable pub category_domain : OperationCategory → DatabaseDomain
category_domain OperationCategory.tenant_operation = DatabaseDomain.tenant
category_domain OperationCategory.global_directory_read = DatabaseDomain.control
category_domain OperationCategory.memberships_for_principal = DatabaseDomain.control
category_domain OperationCategory.import_initiation = DatabaseDomain.tenant
category_domain OperationCategory.governed_sharing = DatabaseDomain.control

-- `none` where `category_of` raises `UnknownOperation`.
unfoldable pub domain_of : BffOperation → Option DatabaseDomain
domain_of operation = elim (operation_category operation) [
  | none ↦ none
  | some category ↦ some (category_domain category)
]

-- `operation in SHARING_INERT_OPERATIONS`
unfoldable pub is_sharing_inert : BffOperation → Bool
is_sharing_inert operation = elim (operation_category operation) [
  | some OperationCategory.governed_sharing ↦ true
  | _ ↦ false
]

pub record AuthContext : Type 0 where
  pub principal_ref : Text
  pub role : PlatformRole
  pub active_tenant_ref : Option Text
  pub correlation_id : Text

pub record RequestContext : Type 0 where
  pub correlation_id : Text
  pub principal_ref : Text
  pub role : PlatformRole
  pub tenant_context : Option Text
  pub workspace_type : WorkspaceType

unfoldable pub workspace_of : Option Text → WorkspaceType
workspace_of none = WorkspaceType.control_workspace
workspace_of (some _) = WorkspaceType.tenant_workspace

unfoldable pub from_auth_context : AuthContext → RequestContext
from_auth_context auth = record {
  correlation_id = auth.correlation_id;
  principal_ref = auth.principal_ref;
  role = auth.role;
  tenant_context = auth.active_tenant_ref;
  workspace_type = workspace_of auth.active_tenant_ref;
}

-- `not reference`, for an optional text
unfoldable pub is_absent : Option Text → Bool
is_absent none = true
is_absent (some t) = is_empty t
