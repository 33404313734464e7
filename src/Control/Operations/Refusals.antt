-- ===== src/Control/Operations/Refusals.antt =====
-- What the operations refuse without touching anything: each reads the registry once, and the tables
-- stay as the other writers left them.
use snack_portal.Common.{◌≡◌, ◌≢◌, ◌↔◌, refl, ◌∙◌, Bool, true, Option, some}
use snack_portal.Common.Text.{Text}
use snack_portal.Common.Dict.{lookup}
use snack_portal.Control.Records.{TenantLifecycleState, SecretRef, TenantRecord, state_eq}
use snack_portal.Control.World.{
  World, ok, raised, Error, ◌>>=◌, pure, gets, interfere, M, raise_if, Context,
}
use snack_portal.Control.World.Laws.{bind_ok, bind_raised, raise_if-true, or_raise-some}
use snack_portal.Control.Ports.{Ports}
use snack_portal.Control.Store.{get_tenant}
use snack_portal.Control.Registry.{in_states}
use snack_portal.Control.Distinctness.{DistinctnessResult, Reason, DistinctnessOutcome, outcome}
use snack_portal.Control.Provisioning.{Gate, require, verify, reassociate}
use snack_portal.Control.Onboarding.{
  fence, onboard, fenced, onboard_existing, terminal_onboard_reason, recover,
}

module _ (ports : Ports) (gate : Gate) (ctx : Context) where
  fence_returns :
      (i org federation schema : Text) (w : World) (o : Option TenantRecord) (rec : TenantRecord)
      → o ≡ some rec
      → rec.lifecycle_state ≢ TenantLifecycleState.registered
      → rec.lifecycle_state ≢ TenantLifecycleState.provisioning
      → (r : DistinctnessOutcome) × (fence ports gate ctx i org federation schema o w ≡ (ok r, w))
        × ((r.result ≡ DistinctnessResult.verified)
            ↔ (rec.lifecycle_state ≡ TenantLifecycleState.ready))
  unfolding fence state_eq onboard_existing fenced pure
  fence_returns i org federation schema w o rec e a b = rw e (go rec.lifecycle_state refl)
    where
      go :
          (s : TenantLifecycleState)
          → rec.lifecycle_state ≡ s
          → (r : DistinctnessOutcome) × (fence ports gate ctx i org federation schema (some rec) w
              ≡ (ok r, w))
            × ((r.result ≡ DistinctnessResult.verified)
                ↔ (rec.lifecycle_state ≡ TenantLifecycleState.ready))
      go TenantLifecycleState.registered h = absurd (a h)
      go TenantLifecycleState.provisioning h = absurd (b h)
      go TenantLifecycleState.ready h =
          rw (h, fence, onboard_existing)
            (
              outcome DistinctnessResult.verified Reason.already_onboarded,
              refl,
              (λ v. refl, λ v. refl),
            )
      go TenantLifecycleState.verifying h =
          rw (h, fence, onboard_existing)
            (
              outcome DistinctnessResult.verification_incomplete
                  (terminal_onboard_reason TenantLifecycleState.verifying),
              refl,
              (λ v. cc, λ v. cc),
            )
      go TenantLifecycleState.suspended h =
          rw (h, fence, onboard_existing)
            (
              outcome DistinctnessResult.verification_incomplete
                  (terminal_onboard_reason TenantLifecycleState.suspended),
              refl,
              (λ v. cc, λ v. cc),
            )
      go TenantLifecycleState.failed h =
          rw (h, fence, onboard_existing)
            (
              outcome DistinctnessResult.verification_incomplete
                  (terminal_onboard_reason TenantLifecycleState.failed),
              refl,
              (λ v. cc, λ v. cc),
            )
      go TenantLifecycleState.quarantined h =
          rw (h, fence, onboard_existing)
            (
              outcome DistinctnessResult.verification_incomplete
                  (terminal_onboard_reason TenantLifecycleState.quarantined),
              refl,
              (λ v. cc, λ v. cc),
            )
      go TenantLifecycleState.decommissioned h =
          rw (h, fence, onboard_existing)
            (
              outcome DistinctnessResult.verification_incomplete
                  (terminal_onboard_reason TenantLifecycleState.decommissioned),
              refl,
              (λ v. cc, λ v. cc),
            )

  -- The fence: onboarding a tenant that exists, and is neither Registered nor Provisioning, returns
  -- without changing a table, calling a port or raising; the result is VERIFIED for a Ready tenant only.
  pub onboard-fence :
      (i org federation schema : Text) (w : World) (rec : TenantRecord)
      → lookup i (interfere w).shared.tenants ≡ some rec
      → rec.lifecycle_state ≢ TenantLifecycleState.registered
      → rec.lifecycle_state ≢ TenantLifecycleState.provisioning
      → (r : DistinctnessOutcome) × (onboard ports gate ctx i org federation schema w
          ≡ (ok r, interfere w))
        × ((r.result ≡ DistinctnessResult.verified)
            ↔ (rec.lifecycle_state ≡ TenantLifecycleState.ready))
  unfolding onboard get_tenant ◌>>=◌
  onboard-fence i org federation schema w rec found a b =
      fence_returns i org federation schema (interfere w) _ rec found a b

  read_found :
      (i : Text) (w : World) (rec : TenantRecord)
      → lookup i (interfere w).shared.tenants ≡ some rec
      → get_tenant i w ≡ (ok (some rec), interfere w)
  unfolding get_tenant gets
  read_found i w rec found = rw found refl

  require_found :
      (i : Text) (w : World) (rec : TenantRecord)
      → lookup i (interfere w).shared.tenants ≡ some rec
      → require i w ≡ (ok rec, interfere w)
  unfolding require
  require_found i w rec found =
      bind_ok _ _ w (interfere w) (some rec) (read_found i w rec found)
      ∙ or_raise-some (some rec) _ (interfere w) rec refl

  -- A guard that fires ends the chain.
  guarded :
      {A : Type 0} (b : Bool) (x : Error) (rest : Unit {0} → M A) (w : World)
      → b ≡ true
      → ◌>>=◌ (raise_if b x) rest w ≡ (raised x, w)
  guarded b x rest w e = bind_raised (raise_if b x) rest w w x (raise_if-true b x w e)

  -- A Quarantined tenant gets no further: verification, re-association and recovery raise the
  -- illegal-transition error, and change no table and call no port.
  pub quarantined_refused :
      (i : Text) (ref : SecretRef) (w : World) (rec : TenantRecord)
      → lookup i (interfere w).shared.tenants ≡ some rec
      → rec.lifecycle_state ≡ TenantLifecycleState.quarantined
      → (verify ports gate ctx i w ≡ (raised Error.illegal_transition, interfere w))
        × (reassociate ports gate ctx i ref w ≡ (raised Error.illegal_transition, interfere w))
        × (recover ports gate ctx i w ≡ (raised Error.illegal_transition, interfere w))
  unfolding verify reassociate recover in_states state_eq
  quarantined_refused i ref w rec found held =
      let w' = interfere w in
      (
        bind_ok _ _ w w' rec (require_found i w rec found) ∙ guarded _ _ _ w' (rw held refl),
        bind_ok _ _ w w' rec (require_found i w rec found) ∙ guarded _ _ _ w' (rw held refl),
        bind_ok _ _ w w' (some rec) (read_found i w rec found)
            ∙ (bind_ok _ _ w' w' rec (or_raise-some (some rec) _ w' rec refl)
                ∙ guarded _ _ _ w' (rw held refl)),
      )
