-- ===== src/Access/Rules.antt =====
-- What a decision of backend/snackportal2/services/access_control/policy.py guarantees.
use snack_portal.Common.{
  ◌||◌, ◌∙◌, sym, ap, ◌≡◌, ◌≢◌, ◌↔◌, ◌⊎◌, inl, inr, refl, Bool, true, Option, none, some, arith,
  Bool-cases, Option-cases,
}
use snack_portal.Common.Text.{Text, is_empty}
use snack_portal.Access.Surface.{
  BffOperation, DatabaseDomain, PlatformRole, RequestContext, category_domain, domain_of,
  is_sharing_inert, is_absent, operation_category,
}
use snack_portal.Access.Policy.{
  Decision, ErrorCode, Permission, AccessDecision, AccessDecisionRequest, decide_access,
  denied_with, domain_decision, evaluate, is_ai_invoke, is_allowed, membership_decision,
  membership_denial, permission_decision, required_permission, resolve_single_domain, response_of,
  role_permissions, control_permissions, startup_user_permissions, investor_user_permissions,
}
use snack_portal.Access.Lawful.{
  IsLawful, membership_denial-MayReach, resolved, allowed_in, domain_decision-allowed,
  decide_access-allowed, inert-not_shared, lawful-allowed,
}

-- A decision has one of two shapes.
abbrev DecisionShape : AccessDecision → Type 0
DecisionShape r =
    ((domain : DatabaseDomain) × (r ≡ allowed_in domain))
    ⊎ ((code : ErrorCode) × (r ≡ denied_with code))

permission_decision_shape :
    (required : Permission) (role : PlatformRole) (domain : DatabaseDomain)
    → DecisionShape (permission_decision required role domain)
unfolding permission_decision
permission_decision_shape required role domain =
    elim (Bool-cases (role_permissions role required)) [
      | inr e ↦ inr (ErrorCode.access_denied, rw e refl)
      | inl e ↦ elim (Bool-cases (is_ai_invoke required)) [
        | inl f ↦ inr (ErrorCode.access_denied, rw e (rw f refl))
        | inr f ↦ inl (domain, rw e (rw f refl))
      ]
    ]

membership_decision_shape :
    (required : Permission) (context : RequestContext) (domain : DatabaseDomain)
    (denial : Option ErrorCode)
    → DecisionShape (membership_decision required context domain denial)
unfolding membership_decision
membership_decision_shape required context domain (some code) = inr (code, refl)
membership_decision_shape required context domain none =
    permission_decision_shape required context.role domain

domain_decision_shape :
    (is_member : Text → Text → Option Bool) (ai : Option Text) (required : Permission)
    (context : RequestContext) (resolved : Option DatabaseDomain)
    → DecisionShape (domain_decision is_member ai required context resolved)
unfolding domain_decision
domain_decision_shape is_member ai required context none = inr (ErrorCode.isolation_violation, refl)
domain_decision_shape is_member ai required context (some domain) =
    elim (Bool-cases (is_absent ai)) [
      | inr e ↦ inr (ErrorCode.access_denied, rw e refl)
      | inl e ↦ rw e (
          membership_decision_shape required context domain
            (membership_denial is_member context domain))
    ]

decide_access_shape :
    (is_member : Text → Text → Option Bool) (owner ai : Option Text) (operation : BffOperation)
    (context : RequestContext)
    → DecisionShape (decide_access is_member owner ai operation context)
unfolding decide_access
decide_access_shape is_member owner ai operation context =
    elim (Bool-cases (is_empty context.principal_ref || is_empty context.correlation_id)) [
      | inl e ↦ inr (ErrorCode.access_denied, rw e refl)
      | inr e ↦ elim (Option-cases (required_permission operation)) [
        | inl f ↦ inr (ErrorCode.access_denied, rw e (rw f refl))
        | inr (required, f) ↦ elim (Bool-cases (is_sharing_inert operation)) [
          | inl g ↦ inr (ErrorCode.access_denied, rw e (rw f (rw g refl)))
          | inr g ↦ rw e (
              rw f (
                rw g (
                  domain_decision_shape is_member ai required context
                    (resolve_single_domain operation context))))
        ]
      ]
    ]

-- A decision allows an operation, with a domain, exactly when the request is lawful for some
-- permission and that domain: the context names a principal and a correlation, the operation is no
-- governed sharing, no owner is an AI agent, the domain is the operation's own, a tenant operation
-- has a signed tenant that the lookup affirms the principal's membership of, and the role holds the
-- permission that the operation requires.
pub decide_access-IsLawful :
    (is_member : Text → Text → Option Bool) (owner_agent_ref owner_ai_agent_ref : Option Text)
    (operation : BffOperation) (context : RequestContext) (domain : DatabaseDomain)
    → (decide_access is_member owner_agent_ref owner_ai_agent_ref operation context ≡ record {
      decision = Decision.allowed;
      code = ErrorCode.access_denied;
      domain = some domain;
    })
      ↔ ((required : Permission) × IsLawful is_member owner_ai_agent_ref operation context domain
            required)
decide_access-IsLawful is_member owner_agent_ref owner_ai_agent_ref operation context domain = (
  λ h.
      let (r, e, p, c, s, d) =
        decide_access-allowed is_member owner_agent_ref owner_ai_agent_ref operation context domain
          (required_permission operation) refl h in
      let (f, a, m, g) =
        domain_decision-allowed is_member owner_ai_agent_ref r context
          (resolve_single_domain operation context) domain d in
      (
        r,
        record {
          principal = p;
          correlation = c;
          not_shared = inert-not_shared operation s;
          no_ai_owner = a;
          its_domain = resolved operation context domain f;
          reachable = membership_denial-MayReach is_member context domain m;
          its_permission = e;
          granted = g;
        },
      ),
  λ h. lawful-allowed is_member owner_agent_ref owner_ai_agent_ref operation context domain h.0 h.1,
)

-- The permissions of the tenant operations are those of the tenant roles.
tenant_grant :
    (operation : BffOperation) (role : PlatformRole) (required : Permission)
    → domain_of operation ≡ some DatabaseDomain.tenant
    → required_permission operation ≡ some required
    → role_permissions role required ≡ true
    → (role ≡ PlatformRole.master_agent)
      ⊎ ((role ≡ PlatformRole.tenant_admin) ⊎ (role ≡ PlatformRole.tenant_agent))
unfolding domain_of operation_category category_domain required_permission role_permissions
    control_permissions startup_user_permissions investor_user_permissions
tenant_grant operation PlatformRole.master_agent required d e g = inl refl
tenant_grant operation PlatformRole.tenant_admin required d e g = inr (inl refl)
tenant_grant operation PlatformRole.tenant_agent required d e g = inr (inr refl)
tenant_grant operation _ required d e g = absurd (ground arith)

-- A response allows the operation with the operation's own domain and no code, or it denies it with
-- a code and no domain.
pub evaluate-domain :
    (is_member : Text → Text → Option Bool) (request : AccessDecisionRequest)
    → ((domain : DatabaseDomain) × (domain_of request.operation ≡ some domain)
        × (evaluate is_member request ≡ record {
          decision = Decision.allowed;
          denial_code = none;
          resolved_domain = some domain;
        }))
      ⊎ ((code : ErrorCode) × (evaluate is_member request ≡ record {
        decision = Decision.denied;
        denial_code = some code;
        resolved_domain = none;
      }))
unfolding evaluate response_of is_allowed denied_with
evaluate-domain is_member request =
    elim (decide_access_shape is_member request.owner_agent_ref request.owner_ai_agent_ref
      request.operation request.context) [
        | inl (domain, e) ↦
            let h =
              (decide_access-IsLawful is_member request.owner_agent_ref request.owner_ai_agent_ref
                  request.operation request.context domain).0
                e in
            inl (domain, h.1.its_domain, rw e refl)
        | inr (code, e) ↦ inr (code, rw e refl)
      ]

denied_domain : (code : ErrorCode) → (denied_with code).domain ≢ some DatabaseDomain.tenant
unfolding denied_with
denied_domain code h = cc

-- Only the three tenant roles are ever allowed an operation in the tenant domain.
pub decide_access-tenant_role :
    (is_member : Text → Text → Option Bool) (owner_agent_ref owner_ai_agent_ref : Option Text)
    (operation : BffOperation) (context : RequestContext)
    → (decide_access is_member owner_agent_ref owner_ai_agent_ref operation context).domain
      ≡ some DatabaseDomain.tenant
    → (context.role ≡ PlatformRole.master_agent)
      ⊎ ((context.role ≡ PlatformRole.tenant_admin) ⊎ (context.role ≡ PlatformRole.tenant_agent))
decide_access-tenant_role is_member owner_agent_ref owner_ai_agent_ref operation context h =
    elim (decide_access_shape is_member owner_agent_ref owner_ai_agent_ref operation context) [
      | inl (domain, e) ↦
          let l =
            (decide_access-IsLawful is_member owner_agent_ref owner_ai_agent_ref operation context
                domain).0
              e in
          tenant_grant operation context.role l.0
            (l.1.its_domain ∙ (sym (ap (λ (r : AccessDecision). r.domain) e) ∙ h))
            l.1.its_permission l.1.granted
      | inr (code, e) ↦
          absurd (denied_domain code (sym (ap (λ (r : AccessDecision). r.domain) e) ∙ h))
    ]
