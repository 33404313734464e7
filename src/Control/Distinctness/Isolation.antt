-- ===== src/Control/Distinctness/Isolation.antt =====
-- What the verifier of backend/control_plane/distinctness.py decides.
use snack_portal.Common.{
  ◌≡◌, ◌≢◌, ◌↔◌, refl, sym, ap, subst, ◌⊎◌, inl, inr, Bool, true, false, ◌||◌, Option, none, some,
  [], ◌∷◌, Bool-cases, All, arith,
}
use snack_portal.Common.Text.{Text, text_eq, text_eq_iff, is_empty}
use snack_portal.Common.Dict.{Dict}
use snack_portal.Control.Records.{DistinctnessEvidence}
use snack_portal.Control.Distinctness.{
  DistinctnessResult, fingerprint, same_token, no_token, collides_with_control,
  collides_with_tenant, inventory_collides, verify_candidate, verify_distinctness,
}

-- Two databases that share no identity: neither the physical one, nor the target, nor the secret,
-- nor a sentinel token.
pub record IsApart (e other : DistinctnessEvidence) : Type 0 where
  pub database : fingerprint e ≢ fingerprint other
  pub target : e.observed_target ≢ other.observed_target
  pub secret : e.secret_ref_key ≢ other.secret_ref_key
  pub token : (t : Text) → other.sentinel_token ≡ some t → e.sentinel_token ≢ some t

-- The verification conditions, as the module's documentation lists them.
pub record IsIsolated (tenant_id : Text) (e : DistinctnessEvidence) (intended : Text)
    (control : DistinctnessEvidence) (inventory : Dict DistinctnessEvidence) : Type 0 where
  pub system_known : e.system_identifier ≢ []
  pub database_known : e.database_identity ≢ []
  pub sentinel_written : e.sentinel_written ≡ true
  pub sentinel_token : (t : Text) × (e.sentinel_token ≡ some t) × (t ≢ [])
  pub routed : e.observed_target ≡ intended
  pub from_control : IsApart e control
  pub from_control_namespace : e.sentinel_namespace ≢ control.sentinel_namespace
  pub from_tenants : All (λ o. (o.0 ≡ tenant_id) ⊎ IsApart e o.1) inventory

is_empty_iff : (t : Text) → (is_empty t ≡ false) ↔ (t ≢ [])
is_empty_iff [] = (λ h. cc, λ h. absurd (h refl))
is_empty_iff (c ∷ t) = (λ h e. cc, λ h. refl)

text_eq_ne_iff : (a b : Text) → (text_eq a b ≡ false) ↔ (a ≢ b)
text_eq_ne_iff a b = ground (arith, text_eq_iff a b)

same_token_iff :
    (t o : Option Text) → (same_token t o ≡ false) ↔ ((u : Text) → t ≡ some u → o ≢ some u)
unfolding same_token
same_token_iff none o = (λ h u e. cc, λ h. refl)
same_token_iff (some t) none = (λ h u e f. cc, λ h. refl)
same_token_iff (some t) (some o) = (
  λ h u e f. ground (arith, text_eq_iff o t),
  λ h. (text_eq_ne_iff o t).1 (λ e. h t refl (ap some e)),
)

no_token_iff : (t : Option Text) → (no_token t ≡ false) ↔ ((u : Text) × (t ≡ some u) × (u ≢ []))
unfolding no_token
no_token_iff none = (λ h. cc, λ h. cc (h.1))
no_token_iff (some t) = (
  λ h. (t, refl, (is_empty_iff t).0 h),
  λ (u, e, n). ground (arith, is_empty_iff t, is_empty_iff u),
)

or_false : (a b : Bool) → ((a || b) ≡ false) ↔ ((a ≡ false) × (b ≡ false))
or_false a b = ground arith

IsApart-tenant : (e o : DistinctnessEvidence) → (collides_with_tenant e o ≡ false) ↔ IsApart e o
unfolding collides_with_tenant
IsApart-tenant e o = (
  λ h. record {
    database = (text_eq_ne_iff _ _).0 (ground arith);
    target = (text_eq_ne_iff _ _).0 (ground arith);
    secret = (text_eq_ne_iff _ _).0 (ground arith);
    token = (same_token_iff o.sentinel_token e.sentinel_token).0 (ground arith);
  },
  λ a. ground (
    arith,
    (text_eq_ne_iff _ _).1 a.database,
    (text_eq_ne_iff _ _).1 a.target,
    (text_eq_ne_iff _ _).1 a.secret,
    (same_token_iff o.sentinel_token e.sentinel_token).1 a.token,
  ),
)

IsApart-control :
    (e o : DistinctnessEvidence)
    → (collides_with_control e o ≡ false)
      ↔ (IsApart e o × (e.sentinel_namespace ≢ o.sentinel_namespace))
unfolding collides_with_control
IsApart-control e o = (
  λ h. (
    record {
      database = (text_eq_ne_iff _ _).0 (ground arith);
      target = (text_eq_ne_iff _ _).0 (ground arith);
      secret = (text_eq_ne_iff _ _).0 (ground arith);
      token = (same_token_iff o.sentinel_token e.sentinel_token).0 (ground arith);
    },
    (text_eq_ne_iff _ _).0 (ground arith),
  ),
  λ (a, n). ground (
    arith,
    (text_eq_ne_iff _ _).1 a.database,
    (text_eq_ne_iff _ _).1 a.target,
    (text_eq_ne_iff _ _).1 a.secret,
    (text_eq_ne_iff _ _).1 n,
    (same_token_iff o.sentinel_token e.sentinel_token).1 a.token,
  ),
)

IsApart-inventory :
    (i : Text) (e : DistinctnessEvidence) (d : Dict DistinctnessEvidence)
    → (inventory_collides i e d ≡ false) ↔ All (λ o. (o.0 ≡ i) ⊎ IsApart e o.1) d
unfolding inventory_collides
IsApart-inventory i e [] = (λ h. tt, λ h. refl)
IsApart-inventory i e ((j, o) ∷ d) = elim (Bool-cases (text_eq j i)) [
  | inl own ↦ (
    λ h. (inl ((text_eq_iff j i).0 own), (IsApart-inventory i e d).0 (ground arith)),
    λ (a, b). ground (arith, (IsApart-inventory i e d).1 b),
  )
  | inr other ↦ (
    λ h. (inr ((IsApart-tenant e o).0 (ground arith)), (IsApart-inventory i e d).0 (ground arith)),
    λ (a, b). elim a [
      | inl same ↦ absurd ((text_eq_ne_iff j i).0 other same)
      | inr apart ↦ ground (arith, (IsApart-tenant e o).1 apart, (IsApart-inventory i e d).1 b)
    ],
  )
]

-- The verdict is VERIFIED exactly when every test passes.
verified_tests :
    (i : Text) (e : DistinctnessEvidence) (target : Text) (control : DistinctnessEvidence)
    (d : Dict DistinctnessEvidence)
    → ((verify_candidate i e target control d).result ≡ DistinctnessResult.verified) ↔ (
        (is_empty e.system_identifier ≡ false)
        × (is_empty e.database_identity ≡ false)
        × (e.sentinel_written ≡ true)
        × (no_token e.sentinel_token ≡ false)
        × (text_eq e.observed_target target ≡ true)
        × (collides_with_control e control ≡ false)
        × (inventory_collides i e d ≡ false))
unfolding verify_candidate
verified_tests i e target control d = ground arith

IsIsolated-tests :
    (i : Text) (e : DistinctnessEvidence) (target : Text) (control : DistinctnessEvidence)
    (d : Dict DistinctnessEvidence)
    → ((verify_candidate i e target control d).result ≡ DistinctnessResult.verified)
      ↔ IsIsolated i e target control d
IsIsolated-tests i e target control d = (
  λ h.
      let (a, b, c, t, r, k, v) = (verified_tests i e target control d).0 h in
      let (apart, namespace) = (IsApart-control e control).0 k in
      record {
        system_known = (is_empty_iff _).0 a;
        database_known = (is_empty_iff _).0 b;
        sentinel_written = c;
        sentinel_token = (no_token_iff _).0 t;
        routed = (text_eq_iff _ _).0 r;
        from_control = apart;
        from_control_namespace = namespace;
        from_tenants = (IsApart-inventory i e d).0 v;
      },
  λ s. (verified_tests i e target control d).1 (
    (is_empty_iff _).1 s.system_known,
    (is_empty_iff _).1 s.database_known,
    s.sentinel_written,
    (no_token_iff _).1 s.sentinel_token,
    (text_eq_iff _ _).1 s.routed,
    (IsApart-control e control).1 (s.from_control, s.from_control_namespace),
    (IsApart-inventory i e d).1 s.from_tenants,
  ),
)

-- The verifier says VERIFIED exactly when there is evidence and the candidate database is isolated:
-- its two physical identifiers are known, a sentinel was written and read back, it was reached under
-- the intended target, and it shares no fingerprint, target, secret or sentinel token with the
-- Control database (nor its sentinel namespace) or with the evidence of any other tenant.
pub verify_distinctness-IsIsolated :
    (tenant_id : Text) (candidate : Option DistinctnessEvidence) (intended : Text)
    (control : DistinctnessEvidence) (inventory : Dict DistinctnessEvidence)
    → ((verify_distinctness tenant_id candidate intended control inventory).result
        ≡ DistinctnessResult.verified)
      ↔ ((e : DistinctnessEvidence) × (candidate ≡ some e)
          × IsIsolated tenant_id e intended control inventory)
unfolding verify_distinctness
verify_distinctness-IsIsolated i none intended control inventory = (λ h. cc, λ (e, h, s). cc)
verify_distinctness-IsIsolated i (some c) intended control inventory = (
  λ h. (c, refl, (IsIsolated-tests i c intended control inventory).0 h),
  λ (e, same, s). (IsIsolated-tests i c intended control inventory).1 (
      subst (λ x. IsIsolated i x intended control inventory)
        (sym (ap (elim [ none ↦ c | some x ↦ x ]) same)) s),
)
