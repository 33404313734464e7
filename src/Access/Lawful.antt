-- ===== src/Access/Lawful.antt =====
-- The lawful requests, and the steps of the decision of
-- backend/snackportal2/services/access_control/policy.py on them.
use snack_portal.Common.{◌≡◌, ◌≢◌, refl, Bool, true, false, Option, none, some, arith}
use snack_portal.Common.Text.{Text, is_empty}
use snack_portal.Access.Surface.{
  BffOperation, OperationCategory, DatabaseDomain, RequestContext, domain_of, is_sharing_inert,
  is_absent, operation_category,
}
use snack_portal.Access.Policy.{
  Decision, ErrorCode, Permission, AccessDecision, decide_access, denied_with, domain_decision,
  is_ai_invoke, member_denial, membership_decision, membership_denial, permission_decision,
  required_permission, resolve_single_domain, role_permissions, tenant_denial,
}

-- A tenant operation wants a signed tenant that the principal is a known member of.
abbrev pub MayReach : (Text → Text → Option Bool) → RequestContext → DatabaseDomain → Type 0
MayReach is_member context DatabaseDomain.control = Unit {0}
MayReach is_member context DatabaseDomain.tenant =
    (t : Text) × (context.tenant_context ≡ some t)
    × (is_empty t ≡ false)
    × (is_member context.principal_ref t ≡ some true)

-- The lawful requests, by the category, the domain and the permission of the operation.
pub record IsLawful (is_member : Text → Text → Option Bool) (owner_ai_agent_ref : Option Text)
    (operation : BffOperation) (context : RequestContext) (domain : DatabaseDomain)
    (required : Permission) : Type 0 where
  pub principal : is_empty context.principal_ref ≡ false
  pub correlation : is_empty context.correlation_id ≡ false
  pub not_shared : operation_category operation ≢ some OperationCategory.governed_sharing
  pub no_ai_owner : is_absent owner_ai_agent_ref ≡ true
  pub its_domain : domain_of operation ≡ some domain
  pub reachable : MayReach is_member context domain
  pub its_permission : required_permission operation ≡ some required
  pub granted : role_permissions context.role required ≡ true

-- No operation asks for it.
pub not_ai_invoke :
    (operation : BffOperation) (required : Permission)
    → required_permission operation ≡ some required
    → is_ai_invoke required ≡ false
unfolding required_permission is_ai_invoke
not_ai_invoke operation required h = ground arith

pub MayReach-membership_denial :
    (is_member : Text → Text → Option Bool) (context : RequestContext) (domain : DatabaseDomain)
    → MayReach is_member context domain
    → membership_denial is_member context domain ≡ none
unfolding membership_denial tenant_denial member_denial
MayReach-membership_denial is_member context DatabaseDomain.control h = refl
MayReach-membership_denial is_member context DatabaseDomain.tenant (t, e, f, g) = rw (e, f, g) refl

pub tenant_denial-MayReach :
    (is_member : Text → Text → Option Bool) (p : Text) (tenant : Option Text)
    → tenant_denial is_member p tenant ≡ none
    → (t : Text) × (tenant ≡ some t) × (is_empty t ≡ false) × (is_member p t ≡ some true)
unfolding tenant_denial member_denial
tenant_denial-MayReach is_member p none h = cc
tenant_denial-MayReach is_member p (some t) h = (t, refl, ground arith, ground arith)

pub membership_denial-MayReach :
    (is_member : Text → Text → Option Bool) (context : RequestContext) (domain : DatabaseDomain)
    → membership_denial is_member context domain ≡ none
    → MayReach is_member context domain
unfolding membership_denial
membership_denial-MayReach is_member context DatabaseDomain.control h = tt
membership_denial-MayReach is_member context DatabaseDomain.tenant h =
    tenant_denial-MayReach is_member context.principal_ref context.tenant_context h

pub resolved :
    (operation : BffOperation) (context : RequestContext) (domain : DatabaseDomain)
    → resolve_single_domain operation context ≡ some domain
    → domain_of operation ≡ some domain
unfolding resolve_single_domain
resolved operation context domain h = ground arith

pub resolves :
    (is_member : Text → Text → Option Bool) (operation : BffOperation) (context : RequestContext)
    (domain : DatabaseDomain)
    → domain_of operation ≡ some domain
    → MayReach is_member context domain
    → resolve_single_domain operation context ≡ some domain
unfolding resolve_single_domain is_absent
resolves is_member operation context DatabaseDomain.control e r = ground arith
resolves is_member operation context DatabaseDomain.tenant e (t, f, g, _) =
    rw (e, resolve_single_domain) (rw (f, is_absent) (rw g refl))

pub not_inert :
    (operation : BffOperation)
    → operation_category operation ≢ some OperationCategory.governed_sharing
    → is_sharing_inert operation ≡ false
unfolding is_sharing_inert
not_inert operation h = ground arith

abbrev pub allowed_in : DatabaseDomain → AccessDecision
allowed_in domain = record {
  decision = Decision.allowed;
  code = ErrorCode.access_denied;
  domain = some domain;
}

pub domain_decision-allowed :
    (is_member : Text → Text → Option Bool) (ai : Option Text) (required : Permission)
    (context : RequestContext) (resolved : Option DatabaseDomain) (domain : DatabaseDomain)
    → domain_decision is_member ai required context resolved ≡ allowed_in domain
    → (resolved ≡ some domain)
      × (is_absent ai ≡ true)
      × (membership_denial is_member context domain ≡ none)
      × (role_permissions context.role required ≡ true)
unfolding domain_decision membership_decision permission_decision denied_with
domain_decision-allowed is_member ai required context none domain h = cc
domain_decision-allowed is_member ai required context (some d) domain h = ground arith

pub decide_access-allowed :
    (is_member : Text → Text → Option Bool) (owner ai : Option Text) (operation : BffOperation)
    (context : RequestContext) (domain : DatabaseDomain) (asked : Option Permission)
    → required_permission operation ≡ asked
    → decide_access is_member owner ai operation context ≡ allowed_in domain
    → (required : Permission) × (asked ≡ some required)
      × (is_empty context.principal_ref ≡ false)
      × (is_empty context.correlation_id ≡ false)
      × (is_sharing_inert operation ≡ false)
      × (domain_decision is_member ai required context (resolve_single_domain operation context)
          ≡ allowed_in domain)
unfolding decide_access denied_with
decide_access-allowed is_member owner ai operation context domain none e h = ground arith
decide_access-allowed is_member owner ai operation context domain (some required) e h =
    (required, refl, ground arith, ground arith, ground arith, ground arith)

pub inert-not_shared :
    (operation : BffOperation)
    → is_sharing_inert operation ≡ false
    → operation_category operation ≢ some OperationCategory.governed_sharing
unfolding is_sharing_inert
inert-not_shared operation h e = ground arith

pub lawful-domain_decision :
    (is_member : Text → Text → Option Bool) (ai : Option Text) (operation : BffOperation)
    (context : RequestContext) (domain : DatabaseDomain) (required : Permission)
    → IsLawful is_member ai operation context domain required
    → domain_decision is_member ai required context (resolve_single_domain operation context)
      ≡ allowed_in domain
unfolding domain_decision membership_decision permission_decision
lawful-domain_decision is_member ai operation context domain required l =
    rw (resolves is_member operation context domain l.its_domain l.reachable) (
      rw l.no_ai_owner (
        rw (MayReach-membership_denial is_member context domain l.reachable)
          (rw l.granted (rw (not_ai_invoke operation required l.its_permission) refl))))

pub lawful-allowed :
    (is_member : Text → Text → Option Bool) (owner ai : Option Text) (operation : BffOperation)
    (context : RequestContext) (domain : DatabaseDomain) (required : Permission)
    → IsLawful is_member ai operation context domain required
    → decide_access is_member owner ai operation context ≡ allowed_in domain
unfolding decide_access
lawful-allowed is_member owner ai operation context domain required l =
    rw (l.principal, l.correlation)
      (rw l.its_permission (
        rw (not_inert operation l.not_shared)
          (lawful-domain_decision is_member ai operation context domain required l)))
