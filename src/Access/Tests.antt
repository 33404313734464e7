-- ===== src/Access/Tests.antt =====
-- Concrete decisions, and each theorem at one.
use snack_portal.Common.{◌≡◌, ◌↔◌, ◌⊎◌, Bool, refl, Option, none, some, [], ◌∷◌}
use snack_portal.Common.Text.{Text, text, text_eq}
use snack_portal.Access.Surface.{
  BffOperation, DatabaseDomain, PlatformRole, RequestContext, from_auth_context, domain_of,
  workspace_of, operation_category, category_domain, is_sharing_inert, is_absent,
}
use snack_portal.Access.Policy.{
  AccessDecisionRequest, Decision, ErrorCode, Permission, decide_access, evaluate,
  static_memberships, domain_decision, is_ai_invoke, member_denial, membership_decision,
  membership_denial, permission_decision, required_permission, resolve_single_domain,
  role_permissions, tenant_denial, tenant_agent_permissions,
}
use snack_portal.Access.Rules.{decide_access-IsLawful, evaluate-domain, decide_access-tenant_role}
use snack_portal.Access.Lawful.{IsLawful}

abbrev agent : RequestContext
unfolding from_auth_context workspace_of
agent = from_auth_context record {
  principal_ref = text "ann";
  role = PlatformRole.tenant_agent;
  active_tenant_ref = some (text "acme");
  correlation_id = text "c1";
}

abbrev members : Text → Text → Option Bool
members = static_memberships ((text "ann", text "acme" ∷ []) ∷ [])

decide_access-IsLawful_example :
    (decide_access members none none BffOperation.create_tenant_deal agent ≡ record {
      decision = Decision.allowed;
      code = ErrorCode.access_denied;
      domain = some DatabaseDomain.tenant;
    })
    ↔ ((required : Permission) × IsLawful members none BffOperation.create_tenant_deal agent
          DatabaseDomain.tenant required)
decide_access-IsLawful_example =
    decide_access-IsLawful members none none BffOperation.create_tenant_deal agent
      DatabaseDomain.tenant

abbrev create_deal : AccessDecisionRequest
create_deal = record {
  context = agent;
  operation = BffOperation.create_tenant_deal;
  record_ref = none;
  owner_agent_ref = some (text "bob");
  owner_ai_agent_ref = none;
}

evaluate-domain_example :
    ((domain : DatabaseDomain) × (domain_of BffOperation.create_tenant_deal ≡ some domain)
      × (evaluate members create_deal ≡ record {
        decision = Decision.allowed;
        denial_code = none;
        resolved_domain = some domain;
      }))
    ⊎ ((code : ErrorCode) × (evaluate members create_deal
          ≡ record { decision = Decision.denied; denial_code = some code; resolved_domain = none }))
evaluate-domain_example = evaluate-domain members create_deal

create_deal_domain :
    (decide_access members none none BffOperation.create_tenant_deal agent).domain
    ≡ some DatabaseDomain.tenant
unfolding decide_access required_permission is_sharing_inert operation_category
    resolve_single_domain domain_of category_domain is_absent domain_decision membership_decision
    membership_denial tenant_denial member_denial static_memberships text_eq permission_decision
    role_permissions tenant_agent_permissions is_ai_invoke agent
create_deal_domain = refl

decide_access-tenant_role_example :
    (agent.role ≡ PlatformRole.master_agent)
    ⊎ ((agent.role ≡ PlatformRole.tenant_admin) ⊎ (agent.role ≡ PlatformRole.tenant_agent))
decide_access-tenant_role_example =
    decide_access-tenant_role members none none BffOperation.create_tenant_deal agent
      create_deal_domain
