-- ===== src/Control/Operations/History.antt =====
-- Sessions of operations beside lawful writers: the audit trail of every tenant and its stored state.
use snack_portal.Common.{
  ◌≡◌, sym, ◌∙◌, ap, inl, inr, true, Option, none, some, List, [], ◌∷◌, ◌++◌, arith, All,
  Bool-cases, Option-cases,
}
use snack_portal.Common.Text.{Text}
use snack_portal.Common.Dict.{lookup}
use snack_portal.Control.Records.{TenantLifecycleState, ControlAuditRecord, Shared, state_eq}
use snack_portal.Control.World.{World, Context}
use snack_portal.Control.Ports.{Ports}
use snack_portal.Control.Registry.{in_states}
use snack_portal.Control.Provisioning.{Gate}
use snack_portal.Control.Operations.{Operation, perform, session}
use snack_portal.Control.Trail.{edge, moves_to, step_allowed, replay, state_of_record, IsSound}
use snack_portal.Control.Trail.Sound.{Grows, GrowsTo-refl, IsLawful, IsSafe, Extends, Extends-refl}
use snack_portal.Control.Trail.Step.{Keeps-weaken, After-nothing}
use snack_portal.Control.Trail.Registry
use snack_portal.Control.Trail.Verify
use snack_portal.Control.Trail.Onboarding
use snack_portal.Control.Trail.Recovery

module _ (ports : Ports) (gate : Gate) where
  perform-IsSafe :
      (ctx : Context) (op : Operation) (base : Shared) (w : World)
      → IsSafe base w
      → IsSafe base (perform ports gate ctx op w)
  unfolding perform
  perform-IsSafe ctx (Operation.register i org schema ref federation) base w safe =
      After-nothing base _
        ((Registry.Keeps-register_tenant ports ctx i org schema ref federation).at base w safe tt)
  perform-IsSafe ctx (Operation.mark_provisioning i) base w safe =
      After-nothing base _ ((Registry.Keeps-mark_provisioning ports ctx i).at base w safe tt)
  perform-IsSafe ctx (Operation.suspend i) base w safe =
      After-nothing base _ ((Registry.Keeps-suspend_tenant ports ctx i).at base w safe tt)
  perform-IsSafe ctx (Operation.decommission i) base w safe =
      After-nothing base _ ((Registry.Keeps-decommission_tenant ports ctx i).at base w safe tt)
  perform-IsSafe ctx (Operation.quarantine i) base w safe =
      After-nothing base _ ((Registry.Keeps-quarantine_tenant ports ctx i).at base w safe tt)
  perform-IsSafe ctx (Operation.verify i) base w safe =
      After-nothing base _ ((Verify.Keeps-verify ports ctx gate i).at base w safe tt)
  perform-IsSafe ctx (Operation.reassociate i ref) base w safe =
      After-nothing base _ ((Verify.Keeps-reassociate ports ctx gate i ref).at base w safe tt)
  perform-IsSafe ctx (Operation.disable_routing i) base w safe =
      After-nothing base _
        ((Keeps-weaken (Verify.Keeps-disable_routing ports ctx gate i)).at base w safe tt)
  perform-IsSafe ctx (Operation.onboard i org federation schema) base w safe =
      After-nothing base _
        ((Onboarding.Keeps-onboard ports gate ctx i org federation schema).at base w safe tt)
  perform-IsSafe ctx (Operation.recover i) base w safe =
      After-nothing base _ ((Onboarding.Keeps-recover ports gate ctx i).at base w safe tt)
  perform-IsSafe ctx (Operation.deprovision i) base w safe =
      Recovery.deprovision-IsSafe ports ctx gate.supported i base w safe

  session-IsSafe :
      (ops : List (Context × Operation)) (base : Shared) (w : World)
      → IsSafe base w
      → IsSafe base (session ports gate ops w)
  unfolding session
  session-IsSafe [] base w safe = safe
  session-IsSafe ((ctx, op) ∷ ops) base w safe =
      session-IsSafe ops base (perform ports gate ctx op w) (perform-IsSafe ctx op base w safe)

  -- From tables in agreement, a session of any operations leaves tables in agreement. Beside it,
  -- other writers may commit at every read, swap and step of a registration: commits that keep the
  -- agreement, also while a registration is under way, write with a higher version, add to the audit
  -- trail, and register no tenant. For every tenant the audit trail is a path of the lifecycle graph
  -- that opens with Registered and ends in the stored state, or has no transition where no record is
  -- stored; and no two tenants own ledger evidence with one physical fingerprint. The records of the
  -- trail before the session are still there, in order, in front of the new ones; and every record
  -- stored before the session is still stored, unchanged or with a higher version.
  pub session-IsSound :
      (ops : List (Context × Operation)) (w : World)
      → IsSound w.shared
      → All IsLawful w.pending
      → IsSound (session ports gate ops w).shared
        × Extends w.shared.audit (session ports gate ops w).shared.audit
        × Grows w.shared (session ports gate ops w).shared
  session-IsSound ops w sound lawful =
      let safe = session-IsSafe ops w.shared w (record {
        sound = sound;
        grows = GrowsTo-refl w.shared.tenants;
        extends = Extends-refl w.shared.audit;
        lawful = lawful;
      }) in
      (safe.sound, safe.extends, safe.grows)

-- What a quarantined tenant may become.
abbrev pub held_states : List TenantLifecycleState
held_states = TenantLifecycleState.quarantined ∷ TenantLifecycleState.decommissioned ∷ []

held_step :
    (now to : TenantLifecycleState) (from : Option TenantLifecycleState)
    → in_states now held_states ≡ true
    → step_allowed (some now) from to ≡ true
    → in_states to held_states ≡ true
unfolding in_states step_allowed edge state_eq
held_step now to none held h = cc
held_step now to (some f) held h = ground arith

-- A trail that goes on from a held state ends in one.
replay_held :
    (i : Text) (now : TenantLifecycleState) (rs : List ControlAuditRecord)
    (end : Option TenantLifecycleState)
    → in_states now held_states ≡ true
    → replay i (some now) rs ≡ some end
    → (to : TenantLifecycleState) × (end ≡ some to) × (in_states to held_states ≡ true)
unfolding replay
replay_held i now [] end held h = (now, ground arith, held)
replay_held i now (r ∷ rs) end held h = elim (Option-cases (moves_to i r)) [
  | inl skip ↦ replay_held i now rs end held (ground arith)
  | inr (to, moved) ↦ elim (Bool-cases (step_allowed (some now) r.from_state to)) [
    | inl good ↦ replay_held i to rs end (held_step now to r.from_state held good) (ground arith)
    | inr bad ↦ absurd (ground arith)
  ]
]

replay_split :
    (i : Text) (now : Option TenantLifecycleState) (xs ys : List ControlAuditRecord)
    (mid : Option TenantLifecycleState)
    → replay i now xs ≡ some mid
    → replay i now (xs ++ ys) ≡ replay i mid ys
unfolding replay
replay_split i now [] ys mid h = ground arith
replay_split i now (x ∷ xs) ys mid h = elim (Option-cases (moves_to i x)) [
  | inl skip ↦ ground (arith, replay_split i now xs ys mid)
  | inr (to, moved) ↦ elim (Bool-cases (step_allowed now x.from_state to)) [
    | inl good ↦ ground (arith, replay_split i (some to) xs ys mid)
    | inr bad ↦ ground arith
  ]
]

module _ (ports : Ports) (gate : Gate) where
  -- From tables in agreement, a tenant that is Quarantined or Decommissioned stays in one of these
  -- two states through any session of operations, and so never gets to Verifying or Ready again, where
  -- the other writers beside it make commits that keep the agreement, also while a registration is
  -- under way, write with a higher version, add to the audit trail, and register no tenant.
  pub session-held :
      (ops : List (Context × Operation)) (w : World) (i : Text) (now : TenantLifecycleState)
      → IsSound w.shared
      → All IsLawful w.pending
      → state_of_record (lookup i w.shared.tenants) ≡ some now
      → in_states now held_states ≡ true
      → (to : TenantLifecycleState) × (state_of_record
            (lookup i (session ports gate ops w).shared.tenants)
          ≡ some to)
        × (in_states to held_states ≡ true)
  session-held ops w i now sound lawful here held =
      let after = session-IsSound ports gate ops w sound lawful in
      let (more, grown) = after.1 in
      let w' = session ports gate ops w in
      replay_held i now more (state_of_record (lookup i w'.shared.tenants)) held (
        sym (replay_split i none w.shared.audit more (some now) (sound.replayed i ∙ ap some here))
        ∙ (ap (replay i none) (sym grown) ∙ after.0.replayed i))
