-- ===== src/Control/Trail/Gate.antt =====
-- Every operation of the verification gate follows the lifecycle graph.
use snack_portal.Common.{◌≡◌, refl, ◌∙◌, Bool, true, false, Option, none, some, [], ◌∷◌, arith}
use snack_portal.Common.Text.{Text}
use snack_portal.Control.Records.{
  TenantLifecycleState, TenantRecord, Action, DistinctnessEvidence, state_eq,
}
use snack_portal.Control.World.{M, Result, ok, raised, Error, ◌>>=◌, or_raise, attempt, Context}
use snack_portal.Control.Ports.{Ports}
use snack_portal.Control.Registry.{in_states}
use snack_portal.Control.Distinctness.{
  DistinctnessResult, Reason, DistinctnessOutcome, record_evidence, evidence_excluding,
  remove_evidence,
}
use snack_portal.Control.Provisioning.{
  Entry, entered, yielded, yield_states, refused_states, reraise, require, gate_transition,
  fail_transition, fail, retry_entry, after_entry, enter_verifying, commit_ready, after_recording,
}
use snack_portal.Control.Distinctness.Ledger.{record_if_free-OneOwner, erase-OneOwner}
use snack_portal.Control.Trail.{edge}
use snack_portal.Control.Trail.Step.{
  Keeps, nothing, AnyResult, if_ok, FactIfOk, Keeps-bind, Keeps-then, Keeps-if, Keeps-pure,
  Keeps-pure-nothing, Keeps-raise, Keeps-forget, Keeps-weaken, Keeps-attempt, Keeps-gets,
  Keeps-get_tenant, Keeps-event, Keeps-update_ledger, KeepsAll, Keeps_of_all,
}
use snack_portal.Control.Trail.Registry.{Keeps-commit_transition}

pub Keeps-record_evidence :
    {k : Option TenantRecord} (i : Text) (e : DistinctnessEvidence)
    → KeepsAll k (record_evidence i e)
unfolding record_evidence
Keeps-record_evidence i e =
    Keeps-update_ledger _ (λ s. ground arith) (λ s. ground arith) (record_if_free-OneOwner i e)

pub Keeps-remove_evidence :
    {k : Option TenantRecord} (i : Text) → Keeps k (remove_evidence i) (λ _. k) AnyResult
unfolding remove_evidence
Keeps-remove_evidence i =
    Keeps_of_all (Keeps-update_ledger _ (λ s. refl) (λ s. refl) (λ s. erase-OneOwner i s.ledger))

pub Keeps-evidence_excluding :
    {k : Option TenantRecord} (i : Text) → Keeps k (evidence_excluding i) (λ _. k) AnyResult
unfolding evidence_excluding
Keeps-evidence_excluding i = Keeps-gets _

pub Keeps-reraise :
    {A : Type 0} {K : A → Option TenantRecord} {F : A → Type 0} (r : Result A)
    → FactIfOk F r
    → Keeps (if_ok K r) (reraise r) K F
Keeps-reraise (ok a) fact = Keeps-pure a fact
Keeps-reraise (raised e) fact = Keeps-raise _

-- An attempt whose exception is raised again, with its knowledge kept.
pub Keeps-attempt_reraise :
    {A B : Type 0} {k : Option TenantRecord} {m : M A} {K : A → Option TenantRecord}
    {F : A → Type 0} {f : A → M B} {K' : B → Option TenantRecord} {F' : B → Type 0}
    → Keeps k m K F
    → ((a : A) → F a → Keeps (K a) (f a) K' F')
    → Keeps k (attempt m >>= λ r. reraise r >>= f) K' F'
Keeps-attempt_reraise km kf =
    Keeps-bind (Keeps-attempt km) λ r fact. Keeps-bind (Keeps-reraise r fact) kf

-- The record of a tenant in Verifying, as the entry write left it.
abbrev pub IsEntered : Text → TenantRecord → Type 0
IsEntered i rec = (rec.tenant_id ≡ i) × (rec.lifecycle_state ≡ TenantLifecycleState.verifying)

own_id :
    (found : Option TenantRecord) (rec : TenantRecord) (i : Text)
    → ((r : TenantRecord) → found ≡ some r → r.tenant_id ≡ i)
    → found ≡ some rec
    → rec.tenant_id ≡ i
own_id found rec i own e = own rec e

Keeps-or_raise_own :
    (i : Text) (found : Option TenantRecord) (e : Error)
    → ((r : TenantRecord) → found ≡ some r → r.tenant_id ≡ i)
    → Keeps found (or_raise found e) some (λ rec. rec.tenant_id ≡ i)
unfolding ◌>>=◌
Keeps-or_raise_own i none e own = record { at = λ base w safe know. safe }
Keeps-or_raise_own i (some rec) e own = record {
  at = λ base w safe know. (safe, know, own rec refl);
}

pub Keeps-require : (i : Text) → Keeps none (require i) some (λ rec. rec.tenant_id ≡ i)
unfolding require
Keeps-require i = Keeps-bind (Keeps-get_tenant i) λ found own. Keeps-or_raise_own i found _ own

abbrev pub know_entered : Entry → Option TenantRecord
know_entered (entered rec) = some rec
know_entered yielded = none

-- An entry that was made has a record in Verifying.
abbrev pub FactEntered : Text → Entry → Type 0
FactEntered i (entered rec) = IsEntered i rec
FactEntered i yielded = Unit

module _ (ports : Ports) (ctx : Context) where
  pub Keeps-gate_transition :
      (rec : TenantRecord) (to : TenantLifecycleState) (action : Action)
      → edge rec.lifecycle_state to ≡ true
      → Keeps
          (some rec)
          (gate_transition ports ctx rec to action)
          some
          (λ p. (p.tenant_id ≡ rec.tenant_id) × (p.lifecycle_state ≡ to))
  unfolding gate_transition
  Keeps-gate_transition rec to action allowed =
      Keeps-commit_transition ports ctx rec.tenant_id rec to action refl allowed

  Keeps-fail_transition :
      (rec : TenantRecord) (action : Action) (anomaly : Bool)
      → rec.lifecycle_state ≡ TenantLifecycleState.verifying
      → Keeps (some rec) (fail_transition ports ctx rec action anomaly) nothing AnyResult
  unfolding fail_transition edge in_states state_eq
  Keeps-fail_transition rec action true state =
      Keeps-bind (Keeps-weaken (Keeps-gate_transition rec _ action (ground arith)))
        λ _ _. Keeps-then (Keeps-event ports ctx _ _) λ _. Keeps-event ports ctx _ _
  Keeps-fail_transition rec action false state =
      Keeps-bind (Keeps-weaken (Keeps-gate_transition rec _ action (ground arith)))
        λ _ _. Keeps-pure-nothing none tt

  pub Keeps-fail :
      (rec : TenantRecord) (result : DistinctnessResult) (reason : Reason) (action : Action)
      (anomaly : Bool)
      → rec.lifecycle_state ≡ TenantLifecycleState.verifying
      → Keeps (some rec) (fail ports ctx rec result reason action anomaly) nothing AnyResult
  unfolding fail
  Keeps-fail rec result reason action anomaly state =
      Keeps-bind (Keeps-remove_evidence rec.tenant_id) λ _ _.
        Keeps-attempt_reraise (Keeps-fail_transition rec action anomaly state)
          λ _ _. Keeps-pure-nothing none _

  edge_to_verifying :
      (from : TenantLifecycleState)
      → in_states from (TenantLifecycleState.verifying ∷ TenantLifecycleState.provisioning ∷ [])
        ≡ true
      → edge from TenantLifecycleState.verifying ≡ true
  unfolding edge in_states state_eq
  edge_to_verifying from h = ground arith

  pub edge_from_accepted :
      (from : TenantLifecycleState)
      → in_states from refused_states ≡ false
      → edge from TenantLifecycleState.verifying ≡ true
  unfolding edge in_states state_eq
  edge_from_accepted from h = ground arith

  pub edge_from_associated :
      (from : TenantLifecycleState)
      → in_states from (TenantLifecycleState.quarantined ∷ TenantLifecycleState.decommissioned ∷ [])
        ≡ false
      → edge from TenantLifecycleState.verifying ≡ true
  unfolding edge in_states state_eq
  edge_from_associated from h = ground arith

  pub Keeps-retry_entry :
      (i : Text) → Keeps none (retry_entry ports ctx i) know_entered (FactEntered i)
  unfolding retry_entry
  Keeps-retry_entry i = Keeps-bind (Keeps-require i) λ fresh own.
      Keeps-if (in_states fresh.lifecycle_state yield_states)
        (λ _. Keeps-forget (Keeps-pure yielded tt))
        λ _.
          Keeps-if
            (in_states fresh.lifecycle_state
              (TenantLifecycleState.verifying ∷ TenantLifecycleState.provisioning ∷ []))
            (λ mid.
              Keeps-attempt_reraise
                (Keeps-gate_transition fresh _ _ (edge_to_verifying fresh.lifecycle_state mid))
                λ rec fact. Keeps-pure (entered rec) (fact.0 ∙ own, fact.1))
            (λ _. Keeps-raise _)

  Keeps-after_entry :
      (i : Text) (rec : TenantRecord) (r : Result TenantRecord)
      → rec.tenant_id ≡ i
      → FactIfOk
          (λ p.
            (p.tenant_id ≡ rec.tenant_id) × (p.lifecycle_state ≡ TenantLifecycleState.verifying))
          r
      → Keeps (if_ok some r) (after_entry ports ctx i r) know_entered (FactEntered i)
  unfolding after_entry
  Keeps-after_entry i rec (ok p) own fact = Keeps-pure (entered p) (fact.0 ∙ own, fact.1)
  Keeps-after_entry i rec (raised Error.stale_version) own fact = Keeps-retry_entry i
  Keeps-after_entry i rec (raised _) own fact = Keeps-raise _

  pub Keeps-enter_verifying :
      (i : Text) (rec : TenantRecord)
      → rec.tenant_id ≡ i
      → edge rec.lifecycle_state TenantLifecycleState.verifying ≡ true
      → Keeps (some rec) (enter_verifying ports ctx i rec) know_entered (FactEntered i)
  unfolding enter_verifying
  Keeps-enter_verifying i rec own allowed =
      Keeps-bind (Keeps-attempt (Keeps-gate_transition rec _ _ allowed))
        λ r fact. Keeps-after_entry i rec r own fact

  Keeps-commit_ready :
      (i : Text) (rec : TenantRecord) (o : DistinctnessOutcome)
      → rec.lifecycle_state ≡ TenantLifecycleState.verifying
      → Keeps (some rec) (commit_ready ports ctx i rec o) nothing AnyResult
  unfolding commit_ready edge state_eq
  Keeps-commit_ready i rec o state =
      Keeps-attempt_reraise (Keeps-weaken (Keeps-gate_transition rec _ _ (ground arith)))
        λ _ _. Keeps-then (Keeps-event ports ctx _ _) λ _. Keeps-pure-nothing none o

  pub Keeps-after_recording :
      (i : Text) (rec : TenantRecord) (o : DistinctnessOutcome) (r : Result (Unit {0}))
      → rec.lifecycle_state ≡ TenantLifecycleState.verifying
      → Keeps (some rec) (after_recording ports ctx i rec o r) nothing AnyResult
  unfolding after_recording
  Keeps-after_recording i rec o (ok _) state = Keeps-commit_ready i rec o state
  Keeps-after_recording i rec o (raised Error.fingerprint_collision) state =
      Keeps-fail rec _ _ _ _ state
  Keeps-after_recording i rec o (raised _) state = Keeps-raise _
