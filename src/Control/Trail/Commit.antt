-- ===== src/Control/Trail/Commit.antt =====
-- The versioned write of a tenant with its audit record, and the first write of a tenant.
use snack_portal.Common.{
  ◌≡◌, refl, sym, ap, ◌<◌, ◌∙◌, ◌⊎◌, inl, inr, ◌+◌, ◌==◌, true, false, none, some, [], ◌∷◌, ◌++◌,
  arith,
}
use snack_portal.Common.Text.{Text}
use snack_portal.Common.Dict.{lookup, insert, lookup-insert_self}
use snack_portal.Control.Records.{TenantRecord, Action, ControlAuditRecord, Shared}
use snack_portal.Control.World.{
  World, M, Result, ok, raised, ◌>>=◌, ◌>>◌, pure, attempt, interfere, Context,
}
use snack_portal.Control.Ports.{Ports}
use snack_portal.Control.Store.{swap_if_current, compare_and_swap_tenant, record_audit}
use snack_portal.Control.Provisioning.{reraise}
use snack_portal.Control.Trail.{edge, IsSound}
use snack_portal.Control.Trail.Replay.{transition-IsSound}
use snack_portal.Control.Trail.Sound.{
  Grows, GrowsTo-trans, GrowsTo-insert, Extends-more, IsSafe, Knows-Grows, interfere-IsSafe,
  interfere-Grows,
}
use snack_portal.Control.Trail.Step.{Keeps, After, nothing, AnyResult}

-- The swap and its audit record, from the tables as the other writers left them.
unfoldable pub swap_and_record :
    Ports → Context → Text → Action → TenantRecord → TenantRecord → M TenantRecord
swap_and_record ports ctx i action rec updated = do
  persisted ← compare_and_swap_tenant updated rec.version
  record_audit ports ctx i action (some rec.lifecycle_state) (some updated.lifecycle_state)
  pure persisted

-- What a swap has done to the tables, before its audit record is appended.
abbrev Swapped : Text → TenantRecord → TenantRecord → Shared → Result TenantRecord × Shared → Type 0
Swapped i rec updated s (ok p, s') =
    (p.tenant_id ≡ i)
    × (p.lifecycle_state ≡ updated.lifecycle_state)
    × (lookup p.tenant_id s'.tenants ≡ some p)
    × Grows s s'
    × (s'.audit ≡ s.audit)
    × ((r : ControlAuditRecord)
        → r.tenant_id ≡ some i
        → r.from_state ≡ some rec.lifecycle_state
        → r.to_state ≡ some updated.lifecycle_state
        → IsSound (record s' { audit = s'.audit ++ r ∷ [] }))
Swapped i rec updated s (raised e, s') = s' ≡ s

module _ (ports : Ports) (ctx : Context) (i : Text) (action : Action) (rec updated : TenantRecord)
    (own : rec.tenant_id ≡ i) (same_id : updated.tenant_id ≡ rec.tenant_id)
    (allowed : edge rec.lifecycle_state updated.lifecycle_state ≡ true) where
  Swapped-current :
      (s : Shared) (c : TenantRecord)
      → IsSound s
      → lookup rec.tenant_id s.tenants ≡ some c
      → c ≡ rec
      → Swapped i rec updated s (
        ok (record updated { version = rec.version + 1 }),
        record s {
          tenants =
              insert updated.tenant_id (record updated { version = rec.version + 1 }) s.tenants;
        },
      )
  Swapped-current s c sound found now =
      let p : TenantRecord = record updated { version = rec.version + 1 } in
      (
        same_id ∙ own,
        refl,
        lookup-insert_self updated.tenant_id p s.tenants,
        GrowsTo-insert s.tenants p (λ d other. ground arith),
        refl,
        λ r about from to.
            transition-IsSound s sound rec p r (about ∙ ap some (sym own)) from to same_id
              (found ∙ ap some now) allowed,
      )

  swap-Swapped :
      (s : Shared) (c : TenantRecord)
      → IsSound s
      → lookup rec.tenant_id s.tenants ≡ some c
      → (c ≡ rec) ⊎ (rec.version < c.version)
      → Swapped i rec updated s (swap_if_current updated rec.version s)
  unfolding swap_if_current
  swap-Swapped s c sound found (inr later) =
      let stale : (c.version == rec.version) ≡ false = ground arith in
      let e : lookup updated.tenant_id s.tenants ≡ some c = rw same_id found in
      rw (e, swap_if_current) (rw stale refl)
  swap-Swapped s c sound found (inl now) =
      let same : (c.version == rec.version) ≡ true = ground arith in
      let e : lookup updated.tenant_id s.tenants ≡ some c = rw same_id found in
      rw (e, swap_if_current) (rw same (Swapped-current s c sound found now))

  -- The audit record behind the swap.
  After-swap :
      (base : Shared) (w : World) (res : Result TenantRecord × Shared)
      → IsSafe base w
      → Swapped i rec updated w.shared res
      → After base some
          (λ p. (p.tenant_id ≡ i) × (p.lifecycle_state ≡ updated.lifecycle_state))
          (◌>>=◌
            (λ v. (res.0, record w { shared = res.1 }))
            (λ p. do
              record_audit ports ctx i action
                  (some rec.lifecycle_state)
                  (some updated.lifecycle_state)
              pure p)
            w)
  unfolding record_audit ◌>>=◌
  After-swap base w (ok p, s') safe (id, state, found, grown, same_audit, audited) = (
    record {
      sound = audited _ refl refl refl;
      grows = GrowsTo-trans base.tenants w.shared.tenants s'.tenants safe.grows grown;
      extends = Extends-more base.audit s'.audit _ (rw same_audit safe.extends);
      lawful = safe.lawful;
    },
    (p, found, inl refl),
    (id, state),
  )
  After-swap base w (raised e, s') safe same = record {
    sound = rw same safe.sound;
    grows = rw same safe.grows;
    extends = rw same safe.extends;
    lawful = safe.lawful;
  }

  pub Keeps-swap_and_record :
      Keeps
        (some rec)
        (swap_and_record ports ctx i action rec updated)
        some
        (λ p. (p.tenant_id ≡ i) × (p.lifecycle_state ≡ updated.lifecycle_state))
  unfolding swap_and_record compare_and_swap_tenant ◌>>=◌
  Keeps-swap_and_record = record {
    at = λ base w safe know.
        let w' = interfere w in
        let safe' = interfere-IsSafe base w safe in
        let (c, found, current) =
          Knows-Grows (some rec) w.shared w'.shared (interfere-Grows base w safe) know in
        After-swap base w' (swap_if_current updated rec.version w'.shared) safe'
          (swap-Swapped w'.shared c safe'.sound found current);
  }

  -- The same, where an exception of the swap is raised again under another name, and more follows.
  After-attempted :
      (base : Shared) {B : Type 0} (rest : M B) (w : World) (res : Result TenantRecord × Shared)
      → Keeps none rest nothing AnyResult
      → IsSafe base w
      → Swapped i rec updated w.shared res
      → After base nothing AnyResult (
          ◌>>=◌
            (attempt (λ v. (res.0, record w { shared = res.1 })))
            (λ r. do
              reraise r
              record_audit ports ctx i action
                  (some rec.lifecycle_state)
                  (some updated.lifecycle_state)
              rest)
            w)
  unfolding record_audit ◌>>=◌
  After-attempted base rest w (ok p, s') kr safe (id, state, found, grown, same_audit, audited) =
      kr.at base _
        (record {
          sound = audited _ refl refl refl;
          grows = GrowsTo-trans base.tenants w.shared.tenants s'.tenants safe.grows grown;
          extends = Extends-more base.audit s'.audit _ (rw same_audit safe.extends);
          lawful = safe.lawful;
        })
        tt
  After-attempted base rest w (raised e, s') kr safe same = record {
    sound = rw same safe.sound;
    grows = rw same safe.grows;
    extends = rw same safe.extends;
    lawful = safe.lawful;
  }

  pub Keeps-swap_attempted :
      {B : Type 0} (rest : M B)
      → Keeps none rest nothing AnyResult
      → Keeps
          (some rec)
          (attempt (compare_and_swap_tenant updated rec.version) >>= λ r. do
            reraise r
            record_audit ports ctx i action
                (some rec.lifecycle_state)
                (some updated.lifecycle_state)
            rest)
          nothing
          AnyResult
  unfolding compare_and_swap_tenant ◌>>=◌
  Keeps-swap_attempted rest kr = record {
    at = λ base w safe know.
        let w' = interfere w in
        let safe' = interfere-IsSafe base w safe in
        let (c, found, current) =
          Knows-Grows (some rec) w.shared w'.shared (interfere-Grows base w safe) know in
        After-attempted base rest w' (swap_if_current updated rec.version w'.shared) kr safe'
          (swap-Swapped w'.shared c safe'.sound found current);
  }
