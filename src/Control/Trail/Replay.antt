-- ===== src/Control/Trail/Replay.antt =====
-- Replay over an audit trail that has grown by one record.
use snack_portal.Common.{
  ◌≡◌, inl, inr, true, Option, none, some, List, [], ◌∷◌, ◌++◌, arith, Bool-cases, Option-cases,
}
use snack_portal.Common.Text.{Text, text_eq, text_eq_iff}
use snack_portal.Common.Dict.{lookup, insert, lookup-insert}
use snack_portal.Control.Records.{
  TenantLifecycleState, TenantRecord, ControlAuditRecord, Shared, state_eq, state_eq_iff,
}
use snack_portal.Control.Trail.{edge, moves_to, step_allowed, replay, state_of_record, IsSound}

-- One record more: the trail goes on from where it stood.
pub replay-append :
    (i : Text) (now s : Option TenantLifecycleState) (rs : List ControlAuditRecord)
    (r : ControlAuditRecord)
    → replay i now rs ≡ some s
    → replay i now (rs ++ r ∷ []) ≡ replay i s (r ∷ [])
unfolding replay
replay-append i now s [] r h = ground arith
replay-append i now s (x ∷ rs) r h = elim (Option-cases (moves_to i x)) [
  | inl skip ↦ ground (arith, replay-append i now s rs r)
  | inr (to, moved) ↦ elim (Bool-cases (step_allowed now x.from_state to)) [
    | inl good ↦ ground (arith, replay-append i (some to) s rs r)
    | inr bad ↦ ground arith
  ]
]

-- A record that moves no tenant.
pub replay_event :
    (i : Text) (s : Option TenantLifecycleState) (rs : List ControlAuditRecord)
    (r : ControlAuditRecord)
    → r.to_state ≡ none
    → replay i none rs ≡ some s
    → replay i none (rs ++ r ∷ []) ≡ some s
unfolding replay moves_to
replay_event i s rs r e h = ground (arith, replay-append i none s rs r h)

module _ (s : Shared) (sound : IsSound s) (rec updated : TenantRecord) (r : ControlAuditRecord)
    (about : r.tenant_id ≡ some rec.tenant_id) (from : r.from_state ≡ some rec.lifecycle_state)
    (to : r.to_state ≡ some updated.lifecycle_state) (same_id : updated.tenant_id ≡ rec.tenant_id)
    (found : lookup rec.tenant_id s.tenants ≡ some rec)
    (allowed : edge rec.lifecycle_state updated.lifecycle_state ≡ true) where
  replay_moved :
      (i : Text)
      → replay i none (s.audit ++ r ∷ [])
        ≡ some (state_of_record (lookup i (insert updated.tenant_id updated s.tenants)))
  unfolding replay moves_to step_allowed state_of_record
  replay_moved i = elim (Bool-cases (text_eq rec.tenant_id i)) [
    | inl here ↦
        let e : rec.tenant_id ≡ i = (text_eq_iff rec.tenant_id i).0 here in
        ground (
          arith,
          e,
          replay-append i none (some rec.lifecycle_state) s.audit r,
          sound.replayed i,
          lookup-insert updated.tenant_id i updated s.tenants,
          state_eq_iff rec.lifecycle_state rec.lifecycle_state,
        )
    | inr other ↦ ground (
      arith,
      replay-append i none (state_of_record (lookup i s.tenants)) s.audit r (sound.replayed i),
      lookup-insert updated.tenant_id i updated s.tenants,
    )
  ]

  -- A transition along an edge, with its audit record, keeps the tables in agreement.
  pub transition-IsSound :
      IsSound (record s {
        tenants = insert updated.tenant_id updated s.tenants;
        audit = s.audit ++ r ∷ [];
      })
  transition-IsSound = record {
    keyed = λ i x h. ground (
      arith,
      lookup-insert updated.tenant_id i updated s.tenants,
      text_eq_iff updated.tenant_id i,
      sound.keyed i x,
    );
    replayed = replay_moved;
    owned = sound.owned;
  }

-- A registration, with its audit record, keeps the tables in agreement.
module _ (s : Shared) (sound : IsSound s) (rec : TenantRecord) (r : ControlAuditRecord)
    (about : r.tenant_id ≡ some rec.tenant_id) (from : r.from_state ≡ none)
    (to : r.to_state ≡ some rec.lifecycle_state)
    (fresh : rec.lifecycle_state ≡ TenantLifecycleState.registered)
    (absent : lookup rec.tenant_id s.tenants ≡ none) where
  replay_registered :
      (i : Text)
      → replay i none (s.audit ++ r ∷ [])
        ≡ some (state_of_record (lookup i (insert rec.tenant_id rec s.tenants)))
  unfolding replay moves_to step_allowed state_of_record state_eq
  replay_registered i = elim (Bool-cases (text_eq rec.tenant_id i)) [
    | inl here ↦
        let e : rec.tenant_id ≡ i = (text_eq_iff rec.tenant_id i).0 here in
        ground (
          arith,
          e,
          replay-append i none none s.audit r,
          sound.replayed i,
          lookup-insert rec.tenant_id i rec s.tenants,
        )
    | inr other ↦ ground (
      arith,
      replay-append i none (state_of_record (lookup i s.tenants)) s.audit r (sound.replayed i),
      lookup-insert rec.tenant_id i rec s.tenants,
    )
  ]

  pub registration-IsSound :
      IsSound (record s { tenants = insert rec.tenant_id rec s.tenants; audit = s.audit ++ r ∷ [] })
  registration-IsSound = record {
    keyed = λ i x h. ground (
      arith,
      lookup-insert rec.tenant_id i rec s.tenants,
      text_eq_iff rec.tenant_id i,
      sound.keyed i x,
    );
    replayed = replay_registered;
    owned = sound.owned;
  }
