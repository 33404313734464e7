-- ===== src/Control/Trail/Registry.antt =====
-- Every operation of the registry follows the lifecycle graph.
use snack_portal.Common.{◌≡◌, refl, true, false, not, Option, none, some, List, All, ◌+◌, arith}
use snack_portal.Common.Text.{Text}
use snack_portal.Common.Dict.{lookup}
use snack_portal.Control.Records.{
  TenantLifecycleState, SecretRef, TenantRecord, Action, Shared, state_eq,
}
use snack_portal.Control.World.{World, ◌>>=◌, pure, interfere, Context}
use snack_portal.Control.Ports.{Ports}
use snack_portal.Control.Store.{get_tenant, put_tenant, record_audit, now_iso}
use snack_portal.Control.Registry.{
  in_states, create_tenant, return_or_create, register_tenant, commit_transition, transition,
  mark_provisioning, suspend_tenant, decommission_tenant, quarantine_tenant,
}
use snack_portal.Control.Trail.{edge}
use snack_portal.Control.Trail.Replay.{registration-IsSound}
use snack_portal.Control.Trail.Sound.{
  GrowsTo, GrowsTo-trans, GrowsTo-insert, Extends, Extends-more, Extends-trans, IsLawful, IsSafe,
  IsSoundWith, interfere-IsSafe, interfere_keeps,
}
use snack_portal.Control.Trail.Step.{
  Keeps, After, nothing, AnyResult, Keeps-bind, Keeps-raise_if, Keeps-or_raise, Keeps-weaken,
  Keeps-call, Keeps-get_tenant, Keeps-pure-nothing, Keeps-if,
}
use snack_portal.Control.Trail.Commit.{swap_and_record, Keeps-swap_and_record}

module _ (ports : Ports) (ctx : Context) where
  pub Keeps-commit_transition :
      (i : Text) (rec : TenantRecord) (to : TenantLifecycleState) (action : Action)
      → rec.tenant_id ≡ i
      → edge rec.lifecycle_state to ≡ true
      → Keeps
          (some rec)
          (commit_transition ports ctx i rec to action)
          some
          (λ p. (p.tenant_id ≡ i) × (p.lifecycle_state ≡ to))
  unfolding commit_transition now_iso swap_and_record
  Keeps-commit_transition i rec to action own allowed = Keeps-bind (Keeps-call _) λ ts _.
      Keeps-swap_and_record ports ctx i action rec
        (record rec { lifecycle_state = to; updated_at = ts }) own refl allowed

  -- One operation: every state that it starts from has an edge.
  Keeps-transition :
      (i : Text) (to : TenantLifecycleState) (allowed_from : List TenantLifecycleState)
      (action : Action)
      → ((from : TenantLifecycleState)
          → not (in_states from allowed_from) ≡ false
          → edge from to ≡ true)
      → Keeps none (transition ports ctx i to allowed_from action) nothing AnyResult
  unfolding transition
  Keeps-transition i to allowed_from action table = Keeps-bind (Keeps-raise_if _ _) λ _ _.
      Keeps-bind (Keeps-get_tenant i) λ found own. Keeps-bind (Keeps-or_raise found _) λ rec e.
        Keeps-if (state_eq rec.lifecycle_state to) (λ _. Keeps-pure-nothing (some rec) rec)
          λ _. Keeps-bind (Keeps-raise_if _ _) λ _ from.
            Keeps-weaken
              (Keeps-commit_transition i rec to action (own rec e) (table rec.lifecycle_state from))

  pub Keeps-mark_provisioning :
      (i : Text) → Keeps none (mark_provisioning ports ctx i) nothing AnyResult
  unfolding mark_provisioning in_states edge state_eq
  Keeps-mark_provisioning i = Keeps-transition i _ _ _ (λ from h. ground arith)

  pub Keeps-suspend_tenant : (i : Text) → Keeps none (suspend_tenant ports ctx i) nothing AnyResult
  unfolding suspend_tenant in_states edge state_eq
  Keeps-suspend_tenant i = Keeps-transition i _ _ _ (λ from h. ground arith)

  pub Keeps-decommission_tenant :
      (i : Text) → Keeps none (decommission_tenant ports ctx i) nothing AnyResult
  unfolding decommission_tenant in_states edge state_eq
  Keeps-decommission_tenant i = Keeps-transition i _ _ _ (λ from h. ground arith)

  pub Keeps-quarantine_tenant :
      (i : Text) → Keeps none (quarantine_tenant ports ctx i) nothing AnyResult
  unfolding quarantine_tenant in_states edge state_eq
  Keeps-quarantine_tenant i = Keeps-transition i _ _ _ (λ from h. ground arith)

  -- The last write of a registration, whose audit record is in the trail.
  put_tenant-IsSafe :
      (base : Shared) (rec : TenantRecord) (w : World)
      → GrowsTo base.tenants w.shared.tenants
      → Extends base.audit w.shared.audit
      → All IsLawful w.pending
      → IsSoundWith (some rec) w.shared
      → After base nothing AnyResult ((put_tenant rec >>= λ _. pure rec) w)
  unfolding put_tenant ◌>>=◌
  put_tenant-IsSafe base rec w grows extends lawful under_way =
      let w' = interfere w in
      let (kept, grown, _, more, left) = interfere_keeps w (some rec) lawful under_way in
      (
        record {
          sound = kept.1;
          grows =
              GrowsTo-trans base.tenants w'.shared.tenants _
                (GrowsTo-trans base.tenants w.shared.tenants w'.shared.tenants grows grown)
                (GrowsTo-insert w'.shared.tenants rec (λ c found. absurd (cc (found, kept.0))));
          extends = Extends-trans base.audit w.shared.audit _ extends more;
          lawful = left;
        },
        tt,
        tt,
      )

  -- The creation of a tenant that the last read did not find.
  create_tenant-IsSafe :
      (base : Shared) (i org schema : Text) (ref : SecretRef) (federation : Text) (w : World)
      → IsSafe base w
      → lookup i w.shared.tenants ≡ none
      → After base nothing AnyResult (create_tenant ports ctx i org schema ref federation w)
  unfolding create_tenant record_audit ◌>>=◌
  create_tenant-IsSafe base i org schema ref federation w safe absent =
      let v : World = record w { tick = w.tick + 1 } in
      let v' = interfere v in
      let (kept, grown, same, more, lawful) = interfere_keeps v none safe.lawful safe.sound in
      let missing = same i absent in
      put_tenant-IsSafe base _ _
        (GrowsTo-trans base.tenants w.shared.tenants v'.shared.tenants safe.grows grown)
        (Extends-more base.audit v'.shared.audit _
          (Extends-trans base.audit w.shared.audit v'.shared.audit safe.extends more))
        lawful (missing, registration-IsSound v'.shared kept _ _ refl refl refl refl missing)

  return_or_create-IsSafe :
      (base : Shared) (i org schema : Text) (ref : SecretRef) (federation : Text)
      (o : Option TenantRecord) (w : World)
      → IsSafe base w
      → lookup i w.shared.tenants ≡ o
      → After base nothing AnyResult (return_or_create ports ctx i org schema ref federation o w)
  unfolding return_or_create ◌>>=◌
  return_or_create-IsSafe base i org schema ref federation none w safe absent =
      create_tenant-IsSafe base i org schema ref federation w safe absent
  return_or_create-IsSafe base i org schema ref federation (some rec) w safe found = (safe, tt, tt)

  Keeps-return_or_create :
      (i org schema : Text) (ref : SecretRef) (federation : Text)
      → Keeps none
          (get_tenant i >>= return_or_create ports ctx i org schema ref federation)
          nothing
          AnyResult
  unfolding get_tenant ◌>>=◌
  Keeps-return_or_create i org schema ref federation = record {
    at = λ base w safe know.
        return_or_create-IsSafe base i org schema ref federation _ (interfere w)
          (interfere-IsSafe base w safe) refl;
  }

  pub Keeps-register_tenant :
      (i org schema : Text) (ref : SecretRef) (federation : Text)
      → Keeps none (register_tenant ports ctx i org schema ref federation) nothing AnyResult
  unfolding register_tenant
  Keeps-register_tenant i org schema ref federation = Keeps-bind (Keeps-raise_if _ _) λ _ _.
      Keeps-bind (Keeps-raise_if _ _) λ _ _. Keeps-return_or_create i org schema ref federation
