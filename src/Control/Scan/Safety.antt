-- ===== src/Control/Scan/Safety.antt =====
-- Which rows of the orphan scan are marked safe (`_classify_database` of backend/control_plane/recovery.py).
use snack_portal.Common.{
  ◌≡◌, ◌≢◌, ◌↔◌, refl, ◌⊎◌, inl, inr, Bool, true, false, not, ◌&&◌, Option, none, some, List, [],
  ◌∷◌, All, Option-cases, arith,
}
use snack_portal.Common.Text.{Text, text_eq, text_eq_iff}
use snack_portal.Common.Dict.{Dict}
use snack_portal.Control.Records.{TenantRecord, DistinctnessEvidence}
use snack_portal.Control.Ports.{DatabaseInspection}
use snack_portal.Control.Registry.{in_states}
use snack_portal.Control.Distinctness.{fingerprint}
use snack_portal.Control.Onboarding.{tenant_id_from_dsn_ref}
use snack_portal.Control.Census.{Content, classify_content, inspection_fingerprint}
use snack_portal.Control.Recovery.{deprovision_eligible_states}
use snack_portal.Control.Scan.{
  RefStatus, ref_status, identifies, disagrees, is_own, has_conflict, has_mismatch,
  eligible_verdict, content_verdict, record_verdict, entry_for,
}

-- The preconditions of a deprovisioning, as the scan can see them.
pub record IsSafeRow (supported : List Text) (name control_name : Text)
    (evidence : Dict DistinctnessEvidence) (rec : TenantRecord) (inspection : DatabaseInspection)
    : Type 0 where
  pub not_control : name ≢ control_name
  pub eligible : in_states rec.lifecycle_state deprovision_eligible_states ≡ true
  pub canonical : tenant_id_from_dsn_ref rec.database_association_ref.store_ref ≡ some rec.tenant_id
  pub content : classify_content supported inspection ≢ Content.non_empty
  -- evidence under the tenant's id agrees with the database, and evidence of no one else identifies it
  pub evidence_fits :
      All
        (λ o.
          ((o.0 ≡ rec.tenant_id)
            × (o.1.observed_target ≡ name)
            × (fingerprint o.1 ≡ inspection_fingerprint inspection))
          ⊎ ((o.0 ≢ rec.tenant_id)
              × (o.1.observed_target ≢ name)
              × (fingerprint o.1 ≢ inspection_fingerprint inspection)))
        evidence

module _ (name print : Text) (rec : TenantRecord) where
  abbrev Fits : Text × DistinctnessEvidence → Type 0
  Fits o =
      ((o.0 ≡ rec.tenant_id) × (o.1.observed_target ≡ name) × (fingerprint o.1 ≡ print))
      ⊎ ((o.0 ≢ rec.tenant_id) × (o.1.observed_target ≢ name) × (fingerprint o.1 ≢ print))

  Fits-row :
      (j : Text) (e : DistinctnessEvidence)
      → (((not (is_own (some rec) j) && identifies name print e) ≡ false)
          × ((is_own (some rec) j && disagrees name print e) ≡ false))
        ↔ Fits (j, e)
  unfolding is_own identifies disagrees
  Fits-row j e = ground (
    arith,
    text_eq_iff j rec.tenant_id,
    text_eq_iff e.observed_target name,
    text_eq_iff (fingerprint e) print,
  )

  Fits-All :
      (d : Dict DistinctnessEvidence)
      → ((has_conflict (some rec) name print d ≡ false)
          × (has_mismatch (some rec) name print d ≡ false))
        ↔ All Fits d
  unfolding has_conflict has_mismatch
  Fits-All [] = (λ h. tt, λ h. (refl, refl))
  Fits-All ((j, e) ∷ d) = (
    λ (a, b). (
      (Fits-row j e).0 (ground arith, ground arith),
      (Fits-All d).0 (ground arith, ground arith),
    ),
    λ (f, g).
        let (a, b) = (Fits-row j e).1 f in
        let (c, k) = (Fits-All d).1 g in (ground arith, ground arith),
  )

canonical_iff :
    (rec : TenantRecord)
    → (ref_status (some rec) ≡ RefStatus.canonical)
      ↔ (tenant_id_from_dsn_ref rec.database_association_ref.store_ref ≡ some rec.tenant_id)
unfolding ref_status
canonical_iff rec =
    elim (Option-cases (tenant_id_from_dsn_ref rec.database_association_ref.store_ref)) [
      | inl gone ↦ ground arith
      | inr (t, parsed) ↦ ground (arith, text_eq_iff t rec.tenant_id)
    ]

content_safe :
    (s : RefStatus) (c : Content)
    → ((content_verdict s c).safe ≡ true) ↔ ((s ≡ RefStatus.canonical) × (c ≢ Content.non_empty))
unfolding content_verdict eligible_verdict
content_safe s c = ground arith

verdict_safe :
    (rec : TenantRecord) (conflict mismatch : Bool) (c : Content)
    → ((record_verdict (some rec) conflict mismatch c).safe ≡ true) ↔ (
        (conflict ≡ false)
        × (mismatch ≡ false)
        × (in_states rec.lifecycle_state deprovision_eligible_states ≡ true)
        × (ref_status (some rec) ≡ RefStatus.canonical)
        × (c ≢ Content.non_empty))
unfolding record_verdict
verdict_safe rec conflict mismatch c = ground (arith, content_safe (ref_status (some rec)) c)

entry_safe :
    (supported : List Text) (name control_name : Text) (d : Dict DistinctnessEvidence)
    (rec : TenantRecord) (inspection : DatabaseInspection)
    → ((entry_for supported name control_name d (some rec) (some inspection)).safe_to_deprovision
        ≡ true)
      ↔ ((text_eq name control_name ≡ false)
          × ((record_verdict
                (some rec)
                (has_conflict (some rec) name (inspection_fingerprint inspection) d)
                (has_mismatch (some rec) name (inspection_fingerprint inspection) d)
                (classify_content supported inspection)).safe
              ≡ true))
unfolding entry_for
entry_safe supported name control_name d rec inspection = ground arith

-- A database with a registry record and an inspection is marked safe to deprovision exactly when it is
-- not the Control database, the record is in an eligible state with the tenant's canonical reference,
-- the content is at most the bootstrap's, and every piece of ledger evidence fits: the tenant's own
-- names this target and fingerprint, and anyone else's names neither.
pub entry_for-IsSafeRow :
    (supported : List Text) (name control_name : Text) (evidence : Dict DistinctnessEvidence)
    (rec : TenantRecord) (inspection : DatabaseInspection)
    → ((entry_for supported name control_name evidence
          (some rec)
          (some inspection)).safe_to_deprovision
        ≡ true)
      ↔ IsSafeRow supported name control_name evidence rec inspection
entry_for-IsSafeRow supported name control_name d rec inspection =
    let print = inspection_fingerprint inspection in
    (
      λ h.
          let (other, v) = (entry_safe supported name control_name d rec inspection).0 h in
          let (a, b, eligible, s, c) = (verdict_safe rec _ _ _).0 v in
          record {
            not_control = λ e. cc (other, (text_eq_iff name control_name).1 e);
            eligible = eligible;
            canonical = (canonical_iff rec).0 s;
            content = c;
            evidence_fits = (Fits-All name print rec d).0 (a, b);
          },
      λ s.
          let (a, b) = (Fits-All name print rec d).1 s.evidence_fits in
          (entry_safe supported name control_name d rec inspection).1 (
            ground (arith, text_eq_iff name control_name, s.not_control),
            (verdict_safe rec _ _ _).1
                (a, b, s.eligible, (canonical_iff rec).1 s.canonical, s.content),
          ),
    )

-- Without an inspection or without a registry record, nothing is marked safe.
pub unsafe_without :
    (supported : List Text) (name control_name : Text) (evidence : Dict DistinctnessEvidence)
    (rec : Option TenantRecord) (inspection : Option DatabaseInspection)
    → (entry_for supported name control_name evidence rec inspection).safe_to_deprovision ≡ true
    → (r : TenantRecord) × (x : DatabaseInspection) × (rec ≡ some r) × (inspection ≡ some x)
unfolding entry_for record_verdict
unsafe_without supported name control_name d rec none h = absurd (cc)
unsafe_without supported name control_name d (some r) (some x) h = (r, x, refl, refl)
unsafe_without supported name control_name d none (some x) h = absurd (ground arith)
