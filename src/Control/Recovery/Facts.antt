-- ===== src/Control/Recovery/Facts.antt =====
-- What the elements of the ownership proof establish when they pass.
use snack_portal.Common.{
  ℕ, suc, ◌≡◌, ◌≢◌, refl, sym, ap, ◌∙◌, subst, inl, inr, Bool, true, false, not, Option, none, some,
  [], ◌∷◌, if◌then◌else◌, Bool-cases, arith,
}
use snack_portal.Common.Text.{Text, text_eq, text_eq_iff, text_eq_ne, starts_with}
use snack_portal.Common.Dict.{Dict, lookup, erase, lookup-erase}
use snack_portal.Control.Records.{TenantRecord, DistinctnessEvidence}
use snack_portal.Control.World.{World, ok}
use snack_portal.Control.World.Sees.{
  Sees, IsAt, moment, Sees-bind, Sees-pure, Sees-call, Sees-gets, Sees-if,
}
use snack_portal.Control.Ports.{Ports}
use snack_portal.Control.Store.{get_tenant}
use snack_portal.Control.Registry.{in_states}
use snack_portal.Control.Distinctness.{fingerprint, evidence_excluding}
use snack_portal.Control.Provisioning.{default_tenant_db_prefix}
use snack_portal.Control.Recovery.{
  Refusal, deprovision_eligible_states, evidence_identifies, own_mismatch, ledger_proof,
  control_proof, record_proof, non_content_proof,
}

-- No evidence in a ledger names the target or, where the database was observed, its fingerprint.
pub record IsForeignTo (target : Text) (print : Text) (e : DistinctnessEvidence) : Type 0 where
  pub target_differs : e.observed_target ≢ target
  pub database_differs : fingerprint e ≢ print

evidence_identifies_complete :
    (target print : Text) (d : Dict DistinctnessEvidence) (j : Text) (e : DistinctnessEvidence)
    → evidence_identifies target (some print) d ≡ false
    → lookup j d ≡ some e
    → IsForeignTo target print e
unfolding evidence_identifies lookup
evidence_identifies_complete target print [] j e h found = absurd (cc)
evidence_identifies_complete target print ((k, x) ∷ d) j e h found =
    elim (Bool-cases (text_eq k j)) [
      | inl here ↦
          let same : x ≡ e = ground arith in
          subst (IsForeignTo target print) same (record {
            target_differs = text_eq_ne _ _ (ground arith);
            database_differs = text_eq_ne _ _ (ground arith);
          })
      | inr other ↦ evidence_identifies_complete target print d j e (ground arith) (ground arith)
    ]

own_agreement :
    (target print : Text) (o : Option DistinctnessEvidence)
    → own_mismatch target print o ≡ false
    → (e : DistinctnessEvidence) → o ≡ some e
    → (fingerprint e ≡ print) × (e.observed_target ≡ target)
unfolding own_mismatch
own_agreement target print none h e same = absurd (cc)
own_agreement target print (some x) h e same =
    subst (λ y. (fingerprint y ≡ print) × (y.observed_target ≡ target))
      (ap (elim [ none ↦ x | some y ↦ y ]) same)
      ((text_eq_iff _ _).0 (ground arith), (text_eq_iff _ _).0 (ground arith))

-- Elements 1, 2 and 5, each as it was read: the tenant's record at moment `n + 1`, the ledger of the
-- others at moment `n + 2`, and the tenant's own evidence at moment `n + 3`.
pub record IsOwned (ports : Ports) (tenant_id target print : Text) (base : World) (n : ℕ)
    : Type 0 where
  pub rec : TenantRecord
  pub registered : lookup tenant_id (moment (suc n) base).shared.tenants ≡ some rec
  pub eligible : in_states rec.lifecycle_state deprovision_eligible_states ≡ true
  pub in_namespace : starts_with default_tenant_db_prefix target ≡ true
  pub control_name : Text
  pub control_known : (k : ℕ) × (ports.control_database_name k ≡ ok (some control_name))
  pub not_control : target ≢ control_name
  pub unclaimed :
      (j : Text) (e : DistinctnessEvidence)
      → j ≢ tenant_id
      → lookup j (moment (suc (suc n)) base).shared.ledger ≡ some e
      → IsForeignTo target print e
  pub own_agrees :
      (e : DistinctnessEvidence)
      → lookup tenant_id (erase [] (moment (suc (suc (suc n))) base).shared.ledger) ≡ some e
      → (fingerprint e ≡ print) × (e.observed_target ≡ target)

unclaimed_without :
    (i target print : Text) (d : Dict DistinctnessEvidence)
    → evidence_identifies target (some print) (erase i d) ≡ false
    → (j : Text) (e : DistinctnessEvidence) → j ≢ i
    → lookup j d ≡ some e
    → IsForeignTo target print e
unclaimed_without i target print d h j e other found =
    evidence_identifies_complete target print (erase i d) j e h
      (ground (arith, lookup-erase i j d, text_eq_iff i j))

-- A proof that has passed: with a fingerprint, the ownership; and where the next read finds the tables.
abbrev pub Proven : Ports → Text → Text → Text → World → ℕ → Option Refusal → World → Type 0
Proven ports i target print base n (some r) v = Unit
Proven ports i target print base n none v =
    IsAt base (suc (suc (suc n))) v × IsOwned ports i target print base n

-- Without a fingerprint, only the reads are counted.
abbrev pub Passed : World → ℕ → Option Refusal → World → Type 0
Passed base n (some r) v = Unit
Passed base n none v = IsAt base (suc (suc n)) v

module _ (ports : Ports) (i target : Text) (base : World) (n : ℕ) where
  module _ (print : Text) where
    own_Proven :
        (rec : TenantRecord) (name : Text) (v : World) (o : Option DistinctnessEvidence) (b : Bool)
        → lookup i (moment (suc n) base).shared.tenants ≡ some rec
        → in_states rec.lifecycle_state deprovision_eligible_states ≡ true
        → starts_with default_tenant_db_prefix target ≡ true
        → (k : ℕ) × (ports.control_database_name k ≡ ok (some name))
        → target ≢ name
        → evidence_identifies target
            (some print)
            (erase i (moment (suc (suc n)) base).shared.ledger)
          ≡ false
        → o ≡ lookup i (erase [] (moment (suc (suc (suc n))) base).shared.ledger)
        → own_mismatch target print o ≡ b
        → IsAt base (suc (suc (suc n))) v
        → Proven ports i target print base n
            (if b then some Refusal.fingerprint_mismatch else none)
            v
    own_Proven rec name v o true found eligible space known other clear same own here = tt
    own_Proven rec name v o false found eligible space known other clear same own here = (
      here,
      record {
        rec = rec;
        registered = found;
        eligible = eligible;
        in_namespace = space;
        control_name = name;
        control_known = known;
        not_control = other;
        unclaimed =
            unclaimed_without i target print (moment (suc (suc n)) base).shared.ledger clear;
        own_agrees = λ e found_own. own_agreement target print o own e (same ∙ found_own);
      },
    )

    Sees-ledger_proof :
        (rec : TenantRecord) (name : Text) (w : World)
        → lookup i (moment (suc n) base).shared.tenants ≡ some rec
        → in_states rec.lifecycle_state deprovision_eligible_states ≡ true
        → starts_with default_tenant_db_prefix target ≡ true
        → (k : ℕ) × (ports.control_database_name k ≡ ok (some name))
        → target ≢ name
        → IsAt base (suc n) w
        → Sees w (ledger_proof ports i target (some print)) (Proven ports i target print base n)
    unfolding ledger_proof evidence_excluding
    Sees-ledger_proof rec name w found eligible space known other here =
        Sees-bind (Sees-gets (λ s. erase i s.ledger) base (suc n) w here) λ others v (there, e).
          Sees-if (evidence_identifies target (some print) others)
            (λ _. Sees-pure (some Refusal.ledger_collision) v tt)
            (λ clear.
              Sees-bind (Sees-gets (λ s. erase [] s.ledger) base (suc (suc n)) v there)
                λ everything u (last, f). Sees-pure _ u (
                  own_Proven rec name u (lookup i everything) _ found eligible space known other
                    (subst (λ d. evidence_identifies target (some print) d ≡ false) e clear)
                    (ap (lookup i) f) refl last))

    Sees-control_proof :
        (rec : TenantRecord) (control_name : Option Text) (w : World)
        → lookup i (moment (suc n) base).shared.tenants ≡ some rec
        → in_states rec.lifecycle_state deprovision_eligible_states ≡ true
        → starts_with default_tenant_db_prefix target ≡ true
        → (k : ℕ) × (ports.control_database_name k ≡ ok control_name)
        → IsAt base (suc n) w
        → Sees w
            (control_proof ports i target (some print) control_name)
            (Proven ports i target print base n)
    unfolding control_proof
    Sees-control_proof rec none w found eligible space known here =
        Sees-pure (some Refusal.control_unavailable) w tt
    Sees-control_proof rec (some name) w found eligible space known here =
        Sees-if (text_eq target name) (λ _. Sees-pure (some Refusal.control_target) w tt)
          (λ other.
            Sees-ledger_proof rec name w found eligible space known (text_eq_ne _ _ other) here)

    Sees-record_proof :
        (found : Option TenantRecord) (w : World)
        → found ≡ lookup i (moment (suc n) base).shared.tenants
        → IsAt base (suc n) w
        → Sees w
            (record_proof ports i target (some print) found)
            (Proven ports i target print base n)
    unfolding record_proof
    Sees-record_proof none w e here = Sees-pure (some Refusal.unknown_tenant) w tt
    Sees-record_proof (some rec) w e here =
        Sees-if (not (in_states rec.lifecycle_state deprovision_eligible_states))
          (λ _. Sees-pure (some Refusal.ineligible_state) w tt)
          (λ eligible.
            Sees-if (not (starts_with default_tenant_db_prefix target))
              (λ _. Sees-pure (some Refusal.outside_namespace) w tt)
              (λ space.
                Sees-bind (Sees-call ports.control_database_name base (suc n) w here)
                  λ name v (there, k, known).
                    Sees-control_proof rec name v (sym e) (not_false eligible) (not_false space)
                      (k, known) there))
      where
        not_false : {b : Bool} → not b ≡ false → b ≡ true
        not_false {b = true} h = refl
        not_false {b = false} h = sym h

    -- The proof with the fingerprint, which stands immediately in front of the drop.
    pub Sees-non_content_proof :
        (w : World)
        → IsAt base n w
        → Sees w
            (non_content_proof ports i target (some print))
            (Proven ports i target print base n)
    unfolding non_content_proof get_tenant
    Sees-non_content_proof w here =
        Sees-bind (Sees-gets (λ s. lookup i s.tenants) base n w here)
          λ found v (there, e). Sees-record_proof found v e there

  -- The proof without a fingerprint, which only has to leave a count of its reads here.
  first_ledger :
      (w : World) → IsAt base (suc n) w → Sees w (ledger_proof ports i target none) (Passed base n)
  unfolding ledger_proof evidence_excluding
  first_ledger w here =
      Sees-bind (Sees-gets (λ s. erase i s.ledger) base (suc n) w here) λ others v (there, e).
        Sees-if (evidence_identifies target none others)
          (λ _. Sees-pure (some Refusal.ledger_collision) v tt) (λ clear. Sees-pure none v there)

  first_control :
      (control_name : Option Text) (w : World)
      → IsAt base (suc n) w
      → Sees w (control_proof ports i target none control_name) (Passed base n)
  unfolding control_proof
  first_control none w here = Sees-pure (some Refusal.control_unavailable) w tt
  first_control (some name) w here =
      Sees-if (text_eq target name) (λ _. Sees-pure (some Refusal.control_target) w tt)
        (λ other. first_ledger w here)

  first_record :
      (found : Option TenantRecord) (w : World)
      → IsAt base (suc n) w
      → Sees w (record_proof ports i target none found) (Passed base n)
  unfolding record_proof
  first_record none w here = Sees-pure (some Refusal.unknown_tenant) w tt
  first_record (some rec) w here =
      Sees-if (not (in_states rec.lifecycle_state deprovision_eligible_states))
        (λ _. Sees-pure (some Refusal.ineligible_state) w tt)
        (λ eligible.
          Sees-if (not (starts_with default_tenant_db_prefix target))
            (λ _. Sees-pure (some Refusal.outside_namespace) w tt)
            (λ space.
              Sees-bind (Sees-call ports.control_database_name base (suc n) w here)
                λ name v (there, k, known). first_control name v there))

  pub Sees-first_proof :
      (w : World) → IsAt base n w → Sees w (non_content_proof ports i target none) (Passed base n)
  unfolding non_content_proof get_tenant
  Sees-first_proof w here =
      Sees-bind (Sees-gets (λ s. lookup i s.tenants) base n w here)
        λ found v (there, e). first_record found v there
