-- ===== src/Control/Store/Race.antt =====
-- The versioned write against a second writer
-- (backend/control_plane/adapters/providers/in_memory_store.py).
use snack_portal.Common.{ℕ, ◌+◌, ◌==◌, ◌≡◌, ◌≢◌, refl, true, false, some, arith}
use snack_portal.Common.Dict.{lookup, insert, lookup-insert_self}
use snack_portal.Control.Records.{TenantRecord, Shared}
use snack_portal.Control.World.{ok, raised, Error}
use snack_portal.Control.Store.{swap_if_current}

-- The swap is taken.
pub swap_taken :
    (u : TenantRecord) (v : ℕ) (s : Shared) (c : TenantRecord)
    → lookup u.tenant_id s.tenants ≡ some c
    → c.version ≡ v
    → swap_if_current u v s ≡ (
      ok (record u { version = v + 1 }),
      record s { tenants = insert u.tenant_id (record u { version = v + 1 }) s.tenants },
    )
unfolding swap_if_current
swap_taken u v s c found now =
    let same : (c.version == v) ≡ true = ground arith in rw (found, swap_if_current) (rw same refl)

-- The swap is refused.
pub swap_refused :
    (u : TenantRecord) (v : ℕ) (s : Shared) (c : TenantRecord)
    → lookup u.tenant_id s.tenants ≡ some c
    → c.version ≢ v
    → swap_if_current u v s ≡ (raised Error.stale_version, s)
unfolding swap_if_current
swap_refused u v s c found now =
    let stale : (c.version == v) ≡ false = ground arith in
    rw (found, swap_if_current) (rw stale refl)

-- Of two writers that have read one version of a tenant, whichever swaps first wins: its record is
-- stored under the next version, and the other one's swap raises the concurrency error and changes
-- nothing.
pub one_winner :
    (first second : TenantRecord) (v : ℕ) (s : Shared) (c : TenantRecord)
    → lookup first.tenant_id s.tenants ≡ some c
    → c.version ≡ v
    → second.tenant_id ≡ first.tenant_id
    → let s' = (swap_if_current first v s).1 in
      ((swap_if_current first v s).0 ≡ ok (record first { version = v + 1 }))
      × (lookup first.tenant_id s'.tenants ≡ some (record first { version = v + 1 }))
      × (swap_if_current second v s' ≡ (raised Error.stale_version, s'))
one_winner first second v s c found now same =
    let p : TenantRecord = record first { version = v + 1 } in
    let e = swap_taken first v s c found now in
    let here = lookup-insert_self first.tenant_id p s.tenants in
    rw e (
      refl,
      here,
      swap_refused second v (record s { tenants = insert first.tenant_id p s.tenants }) p
          (rw same here) (omega arith),
    )
