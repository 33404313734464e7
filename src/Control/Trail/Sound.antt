-- ===== src/Control/Trail/Sound.antt =====
-- What the services rely on of the other writers, and what a service knows of a record it has read.
use snack_portal.Common.{
  Bool-cases, ap, append_assoc, append-nil, ◌≡◌, refl, subst, sym, ◌∙◌, ◌⊎◌, inl, inr, ◌<◌, Option,
  none, some, List, [], ◌∷◌, ◌++◌, All, arith,
}
use snack_portal.Common.Text.{Text, text_eq, text_eq_iff}
use snack_portal.Common.Dict.{Dict, lookup, insert, lookup-insert}
use snack_portal.Control.Records.{TenantRecord, ControlAuditRecord, Shared}
use snack_portal.Control.World.{World, interfere}
use snack_portal.Control.Distinctness.Ledger.{OneOwner}
use snack_portal.Control.Trail.{IsSound}
use snack_portal.Control.Trail.Replay.{replay_event}

-- A tenant record never goes away, and it changes only with a higher version.
abbrev pub GrowsTo : Dict TenantRecord → Dict TenantRecord → Type 0
GrowsTo t t' =
    (i : Text) (c : TenantRecord)
    → lookup i t ≡ some c
    → (d : TenantRecord) × (lookup i t' ≡ some d) × ((d ≡ c) ⊎ (c.version < d.version))

abbrev pub Grows : Shared → Shared → Type 0
Grows s s' = GrowsTo s.tenants s'.tenants

pub GrowsTo-refl : (t : Dict TenantRecord) → GrowsTo t t
GrowsTo-refl t i c found = (c, found, inl refl)

pub GrowsTo-trans : (s t u : Dict TenantRecord) → GrowsTo s t → GrowsTo t u → GrowsTo s u
GrowsTo-trans s t u g h i c found =
    let (d, found', later) = g i c found in
    let (e, found'', later') = h i d found' in (e, found'', ground arith)

-- One record written under its own id: over nothing, or over an earlier version.
pub GrowsTo-insert :
    (t : Dict TenantRecord) (rec : TenantRecord)
    → ((c : TenantRecord) → lookup rec.tenant_id t ≡ some c → c.version < rec.version)
    → GrowsTo t (insert rec.tenant_id rec t)
GrowsTo-insert t rec later i c found = elim (Bool-cases (text_eq rec.tenant_id i)) [
  | inl here ↦
      let same : rec.tenant_id ≡ i = (text_eq_iff rec.tenant_id i).0 here in
      (rec, rw (lookup-insert rec.tenant_id i rec t) (rw here refl), inr (later c (rw same found)))
  | inr other ↦ (c, rw (lookup-insert rec.tenant_id i rec t) (rw other found), inl refl)
]

-- No tenant is registered.
abbrev pub NoNewcomer : Shared → Shared → Type 0
NoNewcomer s s' = (i : Text) → lookup i s.tenants ≡ none → lookup i s'.tenants ≡ none

-- The audit trail has only grown.
abbrev pub Extends : List ControlAuditRecord → List ControlAuditRecord → Type 0
Extends base audit = (more : List ControlAuditRecord) × (audit ≡ base ++ more)

pub Extends-refl : (xs : List ControlAuditRecord) → Extends xs xs
Extends-refl xs = ([], sym (append-nil xs))

pub Extends-trans :
    (xs ys zs : List ControlAuditRecord) → Extends xs ys → Extends ys zs → Extends xs zs
Extends-trans xs ys zs (more, e) (most, f) =
    (more ++ most, f ∙ (ap (λ v. v ++ most) e ∙ append_assoc xs more most))

pub Extends-more :
    (xs ys : List ControlAuditRecord) (r : ControlAuditRecord)
    → Extends xs ys
    → Extends xs (ys ++ r ∷ [])
Extends-more xs ys r e = Extends-trans xs ys (ys ++ r ∷ []) e (r ∷ [], refl)

-- The tables agree, or will once a registration under way, which has its audit record, has written
-- its tenant record.
abbrev pub IsSoundWith : Option TenantRecord → Shared → Type 0
IsSoundWith none s = IsSound s
IsSoundWith (some rec) s =
    (lookup rec.tenant_id s.tenants ≡ none)
    × IsSound (record s { tenants = insert rec.tenant_id rec s.tenants })

-- A commit of another writer keeps the tables in agreement, also while a registration is under way;
-- it writes with a higher version, adds to the audit trail, and registers no tenant.
abbrev pub IsLawful : (Shared → Shared) → Type 0
IsLawful f =
    (s : Shared) (under_way : Option TenantRecord)
    → IsSoundWith under_way s
    → IsSoundWith under_way (f s) × Grows s (f s) × NoNewcomer s (f s) × Extends s.audit (f s).audit

-- `base` has the tables as they were at the start.
pub record IsSafe (base : Shared) (w : World) : Type 0 where
  pub sound : IsSound w.shared
  pub grows : Grows base w.shared
  pub extends : Extends base.audit w.shared.audit
  pub lawful : All IsLawful w.pending

-- The record as read is the current one, or a later version of it is.
abbrev pub Knows : Option TenantRecord → Shared → Type 0
Knows none s = Unit
Knows (some rec) s =
    (c : TenantRecord) × (lookup rec.tenant_id s.tenants ≡ some c)
    × ((c ≡ rec) ⊎ (rec.version < c.version))

pub Knows-Grows : (k : Option TenantRecord) (s s' : Shared) → Grows s s' → Knows k s → Knows k s'
Knows-Grows none s s' g h = tt
Knows-Grows (some rec) s s' g (c, found, current) =
    let (d, found', later) = g rec.tenant_id c found in (d, found', ground arith)

-- Knowledge of tenants outlives any change of the other tables.
pub Knows-same :
    (k : Option TenantRecord) (s s' : Shared) → s'.tenants ≡ s.tenants → Knows k s → Knows k s'
Knows-same k s s' e = Knows-Grows k s s' (λ i c found. (c, rw e found, inl refl))

-- A write of the ledger that leaves one owner to a database.
pub ledger-IsSound :
    (s s' : Shared)
    → s'.tenants ≡ s.tenants
    → s'.audit ≡ s.audit
    → OneOwner s'.ledger
    → IsSound s
    → IsSound s'
ledger-IsSound s s' e f owned h = record {
  keyed = λ i rec found. h.keyed i rec (rw (← e) found);
  replayed = λ i. rw (e, f) (h.replayed i);
  owned = owned;
}

pub Knows-found :
    (i : Text) (o : Option TenantRecord) (s : Shared)
    → IsSound s
    → lookup i s.tenants ≡ o
    → Knows o s
Knows-found i none s sound h = tt
Knows-found i (some rec) s sound h =
    (rec, subst (λ j. lookup j s.tenants ≡ some rec) (sym (sound.keyed i rec h)) h, inl refl)

-- What the next commit of another writer, if there is one, leaves as it was.
pub interfere_keeps :
    (w : World) (o : Option TenantRecord)
    → All IsLawful w.pending
    → IsSoundWith o w.shared
    → (let w' = interfere w in
        IsSoundWith o w'.shared
        × Grows w.shared w'.shared
        × NoNewcomer w.shared w'.shared
        × Extends w.shared.audit w'.shared.audit
        × All IsLawful w'.pending)
unfolding interfere
interfere_keeps w o lawful sound = go w.pending refl
  where
    Kept : World → Type 0
    Kept v =
        IsSoundWith o v.shared
        × Grows w.shared v.shared
        × NoNewcomer w.shared v.shared
        × Extends w.shared.audit v.shared.audit
        × All IsLawful v.pending

    go : (p : List (Shared → Shared)) → w.pending ≡ p → Kept (interfere w)
    go [] e =
        rw (e, interfere)
          (
            sound,
            GrowsTo-refl w.shared.tenants,
            λ i missing. missing,
            Extends-refl w.shared.audit,
            lawful,
          )
    go (f ∷ rest) e =
        let l : All IsLawful (f ∷ rest) = subst (All IsLawful) e lawful in
        let (kept, grown, same, more) = l.0 w.shared o sound in
        rw (e, interfere) (kept, grown, same, more, l.1)

pub interfere-IsSafe : (base : Shared) (w : World) → IsSafe base w → IsSafe base (interfere w)
interfere-IsSafe base w h =
    let (kept, grown, _, more, lawful) = interfere_keeps w none h.lawful h.sound in
    record {
      sound = kept;
      grows = GrowsTo-trans base.tenants w.shared.tenants _ h.grows grown;
      extends = Extends-trans base.audit w.shared.audit _ h.extends more;
      lawful = lawful;
    }

pub interfere-Grows :
    (base : Shared) (w : World) → IsSafe base w → Grows w.shared (interfere w).shared
interfere-Grows base w h = (interfere_keeps w none h.lawful h.sound).1

-- An audit record that is no transition keeps the tables in agreement.
pub event-IsSound :
    (s : Shared) (r : ControlAuditRecord)
    → r.to_state ≡ none
    → IsSound s
    → IsSound (record s { audit = s.audit ++ r ∷ [] })
event-IsSound s r e h = record {
  keyed = h.keyed;
  replayed = λ i. replay_event i _ s.audit r e (h.replayed i);
  owned = h.owned;
}
