-- ===== src/Control/Recovery/Drop.antt =====
-- When the compensation service of backend/control_plane/recovery.py drops a database.
use snack_portal.Common.{
  ℕ, zero, ◌≡◌, ◌≢◌, refl, sym, subst, ◌⊎◌, inl, inr, Bool, true, false, ◌&&◌, Option, none, some,
  List, [], ◌∷◌, ◌++◌, Bool-cases, Option-cases, arith,
}
use snack_portal.Common.Text.{Text, text_eq_iff}
use snack_portal.Common.Dict.{lookup, erase}
use snack_portal.Control.Records.{
  TenantLifecycleState, TenantRecord, Action, DistinctnessEvidence, state_eq,
}
use snack_portal.Control.World.{
  World, M, Result, ok, raised, Error, Effect, interfere, attempt, call, Context,
}
use snack_portal.Control.World
use snack_portal.Control.World.Sees.{
  Sees, IsAt, Anything, Returned, moment, start-IsAt, interfere-IsAt, interfere_parts, Sees-bind,
  Sees-pure, Sees-raise_if, Sees-or_raise, Sees-read, Sees-update, Sees-call, Sees-gets, Sees-if,
  Sees-record_audit, Sees-event,
}
use snack_portal.Control.Ports.{Ports, DatabaseInspection, call_deprovision}
use snack_portal.Control.Store.{get_tenant, compare_and_swap_tenant, now_iso, record_audit, event}
use snack_portal.Control.Registry.{in_states, transition, commit_transition, quarantine_tenant}
use snack_portal.Control.Distinctness.{evidence_excluding}
use snack_portal.Control.Provisioning.{tenant_database_name}
use snack_portal.Control.Onboarding.{tenant_dsn_ref, tenant_id_from_dsn_ref}
use snack_portal.Control.Onboarding.Naming.{from_dsn_ref_sound}
use snack_portal.Control.Census.{Content, classify_content, inspection_fingerprint}
use snack_portal.Control.Recovery.{
  Refusal, is_anomaly_reason, quarantine_eligible_states, DeprovisionOutcome, own_mismatch,
  non_content_proof, quarantine_found, quarantine_where_applicable,
}
use snack_portal.Control.Recovery.Latch.{L, ◌>>=◌, pure, lift, set_latch}
use snack_portal.Control.Recovery.Deprovision.{
  refused_outcome, reference_proof, refuse, complete, after_drop, drop_proven, by_content,
  check_content, after_inspection, after_exists, after_proof, prove_reference, proven_deprovision,
  close_request, deprovision_tenant_database,
}
use snack_portal.Control.Recovery.Facts.{
  IsOwned, Proven, Passed, Sees-non_content_proof, Sees-first_proof,
}

-- The ownership proof of a drop. The world after `n` reads is a moment of the run: nothing but other
-- writers' commits comes between the reads.
pub record IsProvenDrop (ports : Ports) (supported : List Text) (tenant_id target : Text)
    (base : World) : Type 0 where
  -- the tenant's reference is its own canonical one
  pub referring : TenantRecord
  pub referring_registered : lookup tenant_id (moment 3 base).shared.tenants ≡ some referring
  pub canonical : referring.database_association_ref.store_ref ≡ tenant_dsn_ref tenant_id
  -- the database was inspected, and has at most the bootstrap's content
  pub inspection : DatabaseInspection
  pub inspected : (k : ℕ) × (ports.inspect_database k target ≡ ok (some inspection))
  pub content : classify_content supported inspection ≢ Content.non_empty
  -- state, namespace, Control database and ledger, read once more behind the inspection
  pub owned : IsOwned ports tenant_id target (inspection_fingerprint inspection) base 4

abbrev pub ReturnedL : {A : Type 0} → (A → World → Type 0) → Result A × Bool × World → Type 0
ReturnedL P (ok a, b, w) = P a w
ReturnedL P (raised e, b, w) = Unit

module _ (ports : Ports) (supported : List Text) (i target : Text) (base : World) where
  -- A part of the request, from a world on: it drops nothing, or the target with a proof.
  abbrev Drops : {A : Type 0} → World → Result A × Bool × World → Type 0
  Drops w (r, b, w') =
      (w'.effects ≡ w.effects)
      ⊎ ((w'.effects ≡ w.effects ++ Effect.deprovisioned target ∷ [])
          × IsProvenDrop ports supported i target base)

  Drops-after :
      {A B : Type 0} (f : A → L B) (P : A → World → Type 0) (w : World) (c : Bool)
      (r : Result A × Bool × World)
      → r.2.effects ≡ w.effects
      → ReturnedL P r
      → ((a : A) (b : Bool) (v : World) → P a v → Drops v (f a b v))
      → Drops w (◌>>=◌ (λ _ _. r) f c w)
  unfolding ◌>>=◌
  Drops-after f P w c (ok a, b, v) same h kf =
      subst
        (λ e.
          ((f a b v).2.effects ≡ e)
          ⊎ (((f a b v).2.effects ≡ e ++ Effect.deprovisioned target ∷ [])
              × IsProvenDrop ports supported i target base))
        same (kf a b v h)
  Drops-after f P w c (raised e, b, v) same h kf = inl same

  Drops-lift :
      {A B : Type 0} {m : M A} {P : A → World → Type 0} (f : A → L B) (c : Bool) (w : World)
      → Sees w m P
      → ((a : A) (b : Bool) (v : World) → P a v → Drops v (f a b v))
      → Drops w (◌>>=◌ (lift m) f c w)
  unfolding ◌>>=◌
  Drops-lift {A = A} {m = m} {P = P} f c w km kf = go (m w) km.quiet km.seen
    where
      go :
          (r : Result A × World)
          → r.1.effects ≡ w.effects
          → Returned P r
          → Drops w (◌>>=◌ (λ b v. (r.0, b, r.1)) f c w)
      go (ok a, v) same h = Drops-after f P w c (ok a, c, v) same h kf
      go (raised e, v) same h = Drops-after f P w c (raised e, c, v) same h kf

  -- The quarantine of a refusal calls no operator.
  Sees-commit_transition :
      (ctx : Context) (rec : TenantRecord) (to : TenantLifecycleState) (action : Action) (w : World)
      → Sees w (commit_transition ports ctx i rec to action) Anything
  unfolding commit_transition now_iso compare_and_swap_tenant
  Sees-commit_transition ctx rec to action w =
      Sees-bind (Sees-call _ w zero w (start-IsAt w)) λ ts v _.
        Sees-bind (Sees-update _ v)
          λ p u _. Sees-bind (Sees-record_audit ports ctx i action _ _ u) λ _ t _. Sees-pure p t tt

  Sees-quarantine_tenant :
      (ctx : Context) (w : World) → Sees w (quarantine_tenant ports ctx i) Anything
  unfolding quarantine_tenant transition get_tenant
  Sees-quarantine_tenant ctx w = Sees-bind (Sees-raise_if _ _ w) λ _ v _.
      Sees-bind (Sees-read _ v) λ found u _. Sees-bind (Sees-or_raise found _ u) λ rec t _.
        Sees-if (state_eq rec.lifecycle_state TenantLifecycleState.quarantined)
          (λ _. Sees-pure rec t tt)
          λ _. Sees-bind (Sees-raise_if _ _ t) λ _ s _. Sees-commit_transition ctx rec _ _ s

  Sees-quarantine_found :
      (ctx : Context) (found : Option TenantRecord) (w : World)
      → Sees w (quarantine_found ports ctx i found) Anything
  unfolding quarantine_found
  Sees-quarantine_found ctx none w = Sees-pure tt w tt
  Sees-quarantine_found ctx (some rec) w =
      Sees-if (in_states rec.lifecycle_state quarantine_eligible_states)
        (λ _.
          Sees-bind (Sees-quarantine_tenant ctx w)
            λ _ v _. Sees-event ports ctx i Action.tenant_quarantined v)
        (λ _. Sees-pure tt w tt)

  Sees-quarantine_where_applicable :
      (ctx : Context) (reason : Refusal) (b : Bool) (w : World)
      → Sees w (quarantine_where_applicable ports ctx i reason b) Anything
  unfolding quarantine_where_applicable get_tenant
  Sees-quarantine_where_applicable ctx reason b w =
      Sees-if (b && is_anomaly_reason reason)
        (λ _. Sees-bind (Sees-read _ w) λ found v _. Sees-quarantine_found ctx found v)
        (λ _. Sees-pure tt w tt)

  module _ (ctx : Context) where
    -- The tail of a refusal, behind its quarantine.
    refuse_tail : Refusal → L DeprovisionOutcome
    refuse_tail reason = set_latch >>= λ _.
        lift (event ports ctx i Action.tenant_deprovision_failed) >>= λ _.
        pure (refused_outcome i target reason)

    refuse_tail_quiet :
        (reason : Refusal) (b : Bool) (w : World) → (refuse_tail reason b w).2.effects ≡ w.effects
    unfolding refuse_tail ◌>>=◌ event record_audit World.◌>>=◌
    refuse_tail_quiet reason b w = refl

    refuse-Drops :
        (reason : Refusal) (quarantine b : Bool) (w : World)
        → Drops w (refuse ports supported ctx i target reason quarantine b w)
    unfolding refuse refuse_tail
    refuse-Drops reason quarantine b w =
        Drops-lift (λ _. refuse_tail reason) b w
          (Sees-quarantine_where_applicable ctx reason quarantine w)
          λ _ c v _. inl (refuse_tail_quiet reason c v)

    complete_quiet :
        (was_dropped : Bool) (reason : Refusal) (b : Bool) (w : World)
        → (complete ports supported ctx i target was_dropped reason b w).2.effects ≡ w.effects
    unfolding complete ◌>>=◌ event record_audit World.◌>>=◌
    complete_quiet was_dropped reason b w = refl

    refuse_quiet :
        (reason : Refusal) (b : Bool) (w : World)
        → (refuse ports supported ctx i target reason false b w).2.effects ≡ w.effects
    unfolding refuse ◌>>=◌ event record_audit quarantine_where_applicable World.pure World.◌>>=◌
    refuse_quiet reason b w = refl

    after_drop_quiet :
        (r : Result (Unit {0})) (b : Bool) (w : World)
        → (after_drop ports supported ctx i target r b w).2.effects ≡ w.effects
    unfolding after_drop
    after_drop_quiet (ok _) b w = complete_quiet true _ b w
    after_drop_quiet (raised e) b w = refuse_quiet _ b w

    drop_proven-Drops :
        (failure : Option Refusal) (b : Bool) (w : World)
        → (failure ≡ none → IsProvenDrop ports supported i target base)
        → Drops w (drop_proven ports supported ctx i target failure b w)
    unfolding drop_proven call_deprovision ◌>>=◌ World.◌>>=◌
    drop_proven-Drops (some reason) b w proof = refuse-Drops reason true b w
    drop_proven-Drops none b w proof = inr (after_drop_quiet _ b _, proof refl)

    -- The final proof, and the drop.
    proven :
        (inspection : DatabaseInspection) (content : Content) (b : Bool) (w : World)
        (referring : TenantRecord)
        → lookup i (moment 3 base).shared.tenants ≡ some referring
        → referring.database_association_ref.store_ref ≡ tenant_dsn_ref i
        → (k : ℕ) × (ports.inspect_database k target ≡ ok (some inspection))
        → classify_content supported inspection ≡ content
        → IsAt base 4 w
        → content ≢ Content.non_empty
        → Drops w (
            ◌>>=◌
              (lift (non_content_proof ports i target (some (inspection_fingerprint inspection))))
              (drop_proven ports supported ctx i target)
              b
              w)
    proven inspection content b w referring found canonical inspected same here droppable =
        Drops-lift (drop_proven ports supported ctx i target) b w
          (Sees-non_content_proof ports i target base 4 (inspection_fingerprint inspection) w here)
          λ failure c v proof. drop_proven-Drops failure c v λ e. record {
            referring = referring;
            referring_registered = found;
            canonical = canonical;
            inspection = inspection;
            inspected = inspected;
            content = subst (λ x. x ≢ Content.non_empty) (sym same) droppable;
            owned =
                (subst (λ f. Proven ports i target (inspection_fingerprint inspection) base 4 f v) e
                  proof).1;
          }

    -- What is known once the inspection is back.
    by_content-Drops :
        (inspection : DatabaseInspection) (content : Content) (b : Bool) (w : World)
        (referring : TenantRecord)
        → lookup i (moment 3 base).shared.tenants ≡ some referring
        → referring.database_association_ref.store_ref ≡ tenant_dsn_ref i
        → (k : ℕ) × (ports.inspect_database k target ≡ ok (some inspection))
        → classify_content supported inspection ≡ content
        → IsAt base 4 w
        → Drops w (by_content ports supported ctx i target inspection content b w)
    unfolding by_content
    by_content-Drops inspection Content.non_empty b w referring found canonical inspected same
          here =
        refuse-Drops Refusal.content_not_empty true b w
    by_content-Drops inspection Content.empty b w referring found canonical inspected same here =
        proven inspection Content.empty b w referring found canonical inspected same here (λ e. cc)
    by_content-Drops inspection Content.bootstrap_only b w referring found canonical inspected same
          here =
        proven inspection Content.bootstrap_only b w referring found canonical inspected same here
          (λ e. cc)

    check_content-Drops :
        (inspection : DatabaseInspection) (own : Option DistinctnessEvidence) (b : Bool) (w : World)
        (referring : TenantRecord)
        → lookup i (moment 3 base).shared.tenants ≡ some referring
        → referring.database_association_ref.store_ref ≡ tenant_dsn_ref i
        → (k : ℕ) × (ports.inspect_database k target ≡ ok (some inspection))
        → IsAt base 4 w
        → Drops w (check_content ports supported ctx i target inspection own b w)
    unfolding check_content
    check_content-Drops inspection own b w referring found canonical inspected here =
        elim (Bool-cases (own_mismatch target (inspection_fingerprint inspection) own)) [
          | inl bad ↦ rw bad (refuse-Drops Refusal.fingerprint_mismatch true b w)
          | inr good ↦
              rw good
                (by_content-Drops inspection _ b w referring found canonical inspected refl here)
        ]

    after_inspection-Drops :
        (inspection : Option DatabaseInspection) (b : Bool) (w : World) (referring : TenantRecord)
        → lookup i (moment 3 base).shared.tenants ≡ some referring
        → referring.database_association_ref.store_ref ≡ tenant_dsn_ref i
        → (k : ℕ) × (ports.inspect_database k target ≡ ok inspection)
        → IsAt base 3 w
        → Drops w (after_inspection ports supported ctx i target inspection b w)
    unfolding after_inspection evidence_excluding
    after_inspection-Drops none b w referring found canonical inspected here =
        refuse-Drops Refusal.inspection_unavailable true b w
    after_inspection-Drops (some inspection) b w referring found canonical inspected here =
        Drops-lift
          (λ everything.
            check_content ports supported ctx i target inspection (lookup i everything))
          b w (Sees-gets (λ s. erase [] s.ledger) base 3 w here)
          λ everything c v (there, e).
            check_content-Drops inspection _ c v referring found canonical inspected there

    after_exists-Drops :
        (exists : Option Bool) (b : Bool) (w : World) (referring : TenantRecord)
        → lookup i (moment 3 base).shared.tenants ≡ some referring
        → referring.database_association_ref.store_ref ≡ tenant_dsn_ref i
        → IsAt base 3 w
        → Drops w (after_exists ports supported ctx i target exists b w)
    unfolding after_exists
    after_exists-Drops none b w referring found canonical here =
        refuse-Drops Refusal.inspection_unavailable true b w
    after_exists-Drops (some false) b w referring found canonical here =
        inl (complete_quiet false Refusal.absent_noop b w)
    after_exists-Drops (some true) b w referring found canonical here =
        Drops-lift (after_inspection ports supported ctx i target) b w
          (Sees-call (λ n. ports.inspect_database n target) base 3 w here)
          λ inspection c v (there, k, known).
            after_inspection-Drops inspection c v referring found canonical (k, known) there

    after_proof-Drops :
        (failure : Option Refusal) (b : Bool) (w : World)
        → (failure ≡ none
            → (referring : TenantRecord) × (lookup i (moment 3 base).shared.tenants
                ≡ some referring)
              × (referring.database_association_ref.store_ref ≡ tenant_dsn_ref i)
              × IsAt base 3 w)
        → Drops w (after_proof ports supported ctx i target failure b w)
    unfolding after_proof
    after_proof-Drops (some reason) b w proof = refuse-Drops reason true b w
    after_proof-Drops none b w proof =
        let (referring, found, canonical, here) = proof refl in
        Drops-lift (after_exists ports supported ctx i target) b w
          (Sees-call (λ n. ports.database_exists n target) base 3 w here)
          λ exists c v (there, k, known).
            after_exists-Drops exists c v referring found canonical there

    reference_canonical :
        (o : Option TenantRecord)
        → reference_proof i o ≡ none
        → (referring : TenantRecord) × (o ≡ some referring)
          × (referring.database_association_ref.store_ref ≡ tenant_dsn_ref i)
    unfolding reference_proof
    reference_canonical none h = absurd (cc)
    reference_canonical (some rec) h =
        elim (Option-cases (tenant_id_from_dsn_ref rec.database_association_ref.store_ref)) [
          | inl gone ↦ absurd (ground arith)
          | inr (t, parsed) ↦ (rec, refl, from_dsn_ref_sound _ i (ground (arith, text_eq_iff t i)))
        ]

    Drops-from :
        {A : Type 0} (v w : World) (r : Result A × Bool × World)
        → v.effects ≡ w.effects
        → Drops v r
        → Drops w r
    Drops-from v w r same h =
        subst
          (λ e.
            (r.2.effects ≡ e)
            ⊎ ((r.2.effects ≡ e ++ Effect.deprovisioned target ∷ [])
                × IsProvenDrop ports supported i target base))
          same h

    reference-Drops :
        (first : Option Refusal) (b : Bool) (w : World)
        → Passed base 0 first w
        → Drops w (
            ◌>>=◌
              (prove_reference ports supported i first)
              (after_proof ports supported ctx i target)
              b
              w)
    unfolding prove_reference get_tenant ◌>>=◌ World.◌>>=◌
    reference-Drops (some reason) b w passed = after_proof-Drops (some reason) b w (λ e. cc)
    reference-Drops none b w passed =
        let there = interfere-IsAt base 2 w passed in
        let failure = reference_proof i (lookup i (interfere w).shared.tenants) in
        Drops-from (interfere w) w
          (after_proof ports supported ctx i target failure b (interfere w)) (interfere_parts w).2
          (after_proof-Drops failure b (interfere w) λ e.
            let (referring, found, canonical) = reference_canonical _ e in
            (
              referring,
              subst (λ s. lookup i s.tenants ≡ some referring) there.shared found,
              canonical,
              there,
            ))

    proven_deprovision-Drops :
        (b : Bool) → Drops base (proven_deprovision ports supported ctx i target b base)
    unfolding proven_deprovision
    proven_deprovision-Drops b =
        Drops-lift
          (λ first.
            prove_reference ports supported i first >>= after_proof ports supported ctx i target)
          b base (Sees-first_proof ports i target base 0 base (start-IsAt base))
          λ first c v passed. reference-Drops first c v passed

    close_request_effects :
        (r : Result DeprovisionOutcome × Bool × World)
        → (close_request ports supported ctx i r).1.effects ≡ r.2.effects
    unfolding close_request event record_audit World.◌>>=◌
    close_request_effects (ok o, latch, w) = refl
    close_request_effects (raised e, true, w) = refl
    close_request_effects (raised e, false, w) = refl

module _ (ports : Ports) (supported : List Text) where
  -- A deprovisioning request calls no operator but to drop, once, the tenant's own database, and that
  -- only with the ownership proof. Counting from the record of the request: at the third read, the
  -- tenant's secret reference is its canonical one; the database was then inspected and has at most the
  -- content of the bootstrap; and reads five to seven, with the observed fingerprint, find the tenant
  -- in an eligible state, the target in the tenant namespace and other than the Control database, no
  -- evidence of another tenant with its target or fingerprint, and no evidence of its own against it.
  -- Other writers may commit anything at every read.
  pub deprovision_tenant_database-IsProvenDrop :
      (ctx : Context) (i : Text) (w : World)
      → let base = (event ports ctx i Action.tenant_deprovision_requested w).1 in
        let w' = (deprovision_tenant_database ports supported ctx i w).1 in
        (w'.effects ≡ w.effects)
        ⊎ ((w'.effects ≡ w.effects ++ Effect.deprovisioned (tenant_database_name i) ∷ [])
            × IsProvenDrop ports supported i (tenant_database_name i) base)
  unfolding deprovision_tenant_database
  deprovision_tenant_database-IsProvenDrop ctx i w =
      let base = (event ports ctx i Action.tenant_deprovision_requested w).1 in
      let target = tenant_database_name i in
      let r = proven_deprovision ports supported ctx i target false base in
      subst
        (λ e.
          (e ≡ w.effects)
          ⊎ ((e ≡ w.effects ++ Effect.deprovisioned target ∷ [])
              × IsProvenDrop ports supported i target base))
        (sym (close_request_effects ports supported i target base ctx r))
        (Drops-from ports supported i target base ctx base w r
          (Sees-event ports ctx i Action.tenant_deprovision_requested w).quiet
          (proven_deprovision-Drops ports supported i target base ctx false))
