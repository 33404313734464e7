-- ===== src/Access/Policy.antt =====
-- The decision of backend/snackportal2/services/access_control/policy.py, the endpoint `evaluate` of
-- main.py and the local membership ports of membership.py. A lookup answers `none` where it raises.
use snack_portal.Common.{
  ◌||◌, ◌&&◌, Bool, true, false, Option, none, some, List, if◌then◌else◌, any,
}
use snack_portal.Common.Text.{Text, text_eq, is_empty}
use snack_portal.Common.Dict.{Dict}
use snack_portal.Access.Surface.{
  BffOperation, DatabaseDomain, PlatformRole, RequestContext, domain_of, is_sharing_inert,
  is_absent,
}

pub data Decision : Type 0 where
  allowed denied : Decision

pub data ErrorCode : Type 0 where
  access_denied isolation_violation : ErrorCode

pub data Permission : Type 0 where
  memberships_read directory_global_startup_read directory_global_investor_read : Permission
  import_initiate startup_read startup_create startup_update : Permission
  investor_read investor_create investor_update deal_read deal_create deal_update : Permission
  contact_read contact_create lineage_read share_propose share_read ai_invoke : Permission

-- `REQUIRED_PERMISSION.get`
unfoldable pub required_permission : BffOperation → Option Permission
required_permission BffOperation.list_memberships = some Permission.memberships_read
required_permission BffOperation.read_global_startup_directory =
    some Permission.directory_global_startup_read
required_permission BffOperation.read_global_investor_directory =
    some Permission.directory_global_investor_read
required_permission BffOperation.initiate_startup_import = some Permission.import_initiate
required_permission BffOperation.list_tenant_startups = some Permission.startup_read
required_permission BffOperation.read_tenant_startup = some Permission.startup_read
required_permission BffOperation.create_tenant_startup = some Permission.startup_create
required_permission BffOperation.update_tenant_startup = some Permission.startup_update
required_permission BffOperation.list_tenant_investors = some Permission.investor_read
required_permission BffOperation.read_tenant_investor = some Permission.investor_read
required_permission BffOperation.create_tenant_investor = some Permission.investor_create
required_permission BffOperation.update_tenant_investor = some Permission.investor_update
required_permission BffOperation.list_tenant_deals = some Permission.deal_read
required_permission BffOperation.read_tenant_deal = some Permission.deal_read
required_permission BffOperation.create_tenant_deal = some Permission.deal_create
required_permission BffOperation.update_tenant_deal = some Permission.deal_update
required_permission BffOperation.list_tenant_contacts = some Permission.contact_read
required_permission BffOperation.read_tenant_contact = some Permission.contact_read
required_permission BffOperation.create_tenant_contact = some Permission.contact_create
required_permission BffOperation.read_tenant_lineage = some Permission.lineage_read
required_permission BffOperation.propose_deal_share = some Permission.share_propose
required_permission BffOperation.read_deal_share = some Permission.share_read

-- The sets of permissions, each as its membership test.
unfoldable pub tenant_agent_permissions : Permission → Bool
tenant_agent_permissions Permission.share_propose = false
tenant_agent_permissions Permission.share_read = false
tenant_agent_permissions Permission.ai_invoke = false
tenant_agent_permissions _ = true

unfoldable pub control_permissions : Permission → Bool
control_permissions Permission.memberships_read = true
control_permissions Permission.directory_global_startup_read = true
control_permissions Permission.directory_global_investor_read = true
control_permissions _ = false

unfoldable pub startup_user_permissions : Permission → Bool
startup_user_permissions Permission.memberships_read = true
startup_user_permissions Permission.directory_global_startup_read = true
startup_user_permissions _ = false

unfoldable pub investor_user_permissions : Permission → Bool
investor_user_permissions Permission.memberships_read = true
investor_user_permissions Permission.directory_global_investor_read = true
investor_user_permissions _ = false

-- `required in ROLE_PERMISSIONS.get(role)`; every role has a set.
unfoldable pub role_permissions : PlatformRole → Permission → Bool
role_permissions PlatformRole.control = control_permissions
role_permissions PlatformRole.master_agent = tenant_agent_permissions
role_permissions PlatformRole.tenant_admin = tenant_agent_permissions
role_permissions PlatformRole.tenant_agent = tenant_agent_permissions
role_permissions PlatformRole.startup_user = startup_user_permissions
role_permissions PlatformRole.investor_user = investor_user_permissions

unfoldable pub is_ai_invoke : Permission → Bool
is_ai_invoke Permission.ai_invoke = true
is_ai_invoke _ = false

pub record AccessDecision : Type 0 where
  pub decision : Decision
  pub code : ErrorCode
  pub domain : Option DatabaseDomain

unfoldable pub is_allowed : Decision → Bool
is_allowed Decision.allowed = true
is_allowed Decision.denied = false

unfoldable pub denied_with : ErrorCode → AccessDecision
denied_with code = record { decision = Decision.denied; code = code; domain = none }

unfoldable pub resolve_single_domain : BffOperation → RequestContext → Option DatabaseDomain
resolve_single_domain operation context = elim (domain_of operation) [
  | none ↦ none
  | some DatabaseDomain.tenant ↦
      if is_absent context.tenant_context then none else some DatabaseDomain.tenant
  | some DatabaseDomain.control ↦ some DatabaseDomain.control
]

-- What the membership check answers: the code of a denial, or `none` where it passes.
unfoldable pub member_denial : Option Bool → Option ErrorCode
member_denial none = some ErrorCode.access_denied
member_denial (some false) = some ErrorCode.access_denied
member_denial (some true) = none

unfoldable pub tenant_denial : (Text → Text → Option Bool) → Text → Option Text → Option ErrorCode
tenant_denial is_member principal_ref none = some ErrorCode.isolation_violation
tenant_denial is_member principal_ref (some tenant_ref) =
    if is_empty tenant_ref
    then some ErrorCode.isolation_violation
    else member_denial (is_member principal_ref tenant_ref)

unfoldable pub membership_denial :
    (Text → Text → Option Bool) → RequestContext → DatabaseDomain → Option ErrorCode
membership_denial is_member context DatabaseDomain.control = none
membership_denial is_member context DatabaseDomain.tenant =
    tenant_denial is_member context.principal_ref context.tenant_context

unfoldable pub permission_decision : Permission → PlatformRole → DatabaseDomain → AccessDecision
permission_decision required role domain =
    if role_permissions role required
    then if is_ai_invoke required then denied_with ErrorCode.access_denied else record {
      decision = Decision.allowed;
      code = ErrorCode.access_denied;
      domain = some domain;
    }
    else denied_with ErrorCode.access_denied

unfoldable pub membership_decision :
    Permission → RequestContext → DatabaseDomain → Option ErrorCode → AccessDecision
membership_decision required context domain (some code) = denied_with code
membership_decision required context domain none = permission_decision required context.role domain

unfoldable pub domain_decision :
    (Text → Text → Option Bool)
    → Option Text
    → Permission
    → RequestContext
    → Option DatabaseDomain
    → AccessDecision
domain_decision is_member owner_ai_agent_ref required context none =
    denied_with ErrorCode.isolation_violation
domain_decision is_member owner_ai_agent_ref required context (some domain) =
    if is_absent owner_ai_agent_ref
    then membership_decision required context domain (membership_denial is_member context domain)
    else denied_with ErrorCode.access_denied

unfoldable pub decide_access :
    (Text → Text → Option Bool)
    → Option Text
    → Option Text
    → BffOperation
    → RequestContext
    → AccessDecision
decide_access is_member owner_agent_ref owner_ai_agent_ref operation context =
    if is_empty context.principal_ref || is_empty context.correlation_id
    then denied_with ErrorCode.access_denied
    else elim (required_permission operation) [
      | none ↦ denied_with ErrorCode.access_denied
      | some required ↦
          if is_sharing_inert operation
          then denied_with ErrorCode.access_denied
          else domain_decision is_member owner_ai_agent_ref required context
              (resolve_single_domain operation context)
    ]

pub record AccessDecisionRequest : Type 0 where
  pub context : RequestContext
  pub operation : BffOperation
  pub record_ref : Option Text
  pub owner_agent_ref : Option Text
  pub owner_ai_agent_ref : Option Text

pub record AccessDecisionResponse : Type 0 where
  pub decision : Decision
  pub denial_code : Option ErrorCode
  pub resolved_domain : Option DatabaseDomain

unfoldable pub response_of : AccessDecision → AccessDecisionResponse
response_of outcome =
    if is_allowed outcome.decision
    then record {
      decision = Decision.allowed;
      denial_code = none;
      resolved_domain = outcome.domain;
    }
    else record {
      decision = Decision.denied;
      denial_code = some outcome.code;
      resolved_domain = none;
    }

-- A request whose service credential was accepted; the endpoint does not look at the credential.
unfoldable pub evaluate :
    (Text → Text → Option Bool) → AccessDecisionRequest → AccessDecisionResponse
evaluate is_member request = response_of (
    decide_access is_member request.owner_agent_ref request.owner_ai_agent_ref request.operation
      request.context)

unfoldable pub deny_all_memberships : Text → Text → Option Bool
deny_all_memberships principal_ref tenant_ref = some false

-- `StaticMemberships`: the pairs are those of its map.
unfoldable pub static_memberships : Dict (List Text) → Text → Text → Option Bool
static_memberships memberships principal_ref tenant_ref = some (
    any
      (λ (entry : Text × List Text).
        text_eq entry.0 principal_ref && any (text_eq tenant_ref) entry.1)
      memberships)
