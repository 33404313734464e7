-- ===== src/Router/Pool/Binding.antt =====
-- No connection of backend/database_router/pool.py ever changes hands between tenants.
use snack_portal.Common.{
  ℕ, suc, ◌+◌, ◌≤◌, ◌≡◌, refl, inl, inr, true, List, [], ◌∷◌, ltb, ◌-◌, length, All, Bool-cases,
  arith,
}
use snack_portal.Common.Text.{Text, text_eq_iff}
use snack_portal.Router.Pool.{
  Connection, Idle, Pool, Manager, same_object, holds, add, without, has_key, is_unused, fresh_idle,
  evict_pools, evict_idle, pool_of, set_pool, drop_pool, forget_unused,
}

-- A connection for a tenant's database at one version of its association.
abbrev pub BoundTo : Text → Text → Connection → Type 0
BoundTo tenant_id version c = (c.tenant_id ≡ tenant_id) × (c.association_version ≡ version)

-- Every connection of a pool is bound to the pool's key, and there are at most `max_size` of them.
pub record IsBound (p : Pool) : Type 0 where
  pub idle_bound : All (λ i. BoundTo p.tenant_id p.association_version i.conn) p.idle
  pub used_bound : All (BoundTo p.tenant_id p.association_version) p.in_use
  pub bounded : length p.idle + length p.in_use ≤ p.max_size

abbrev pub IsIsolated : Manager → Type 0
IsIsolated m = All IsBound m.pools

pub fresh_idle-All :
    (P : Idle → Type 0) (timeout now : ℕ) (is' : List Idle)
    → All P is'
    → All P (fresh_idle timeout now is')
unfolding fresh_idle
fresh_idle-All P timeout now [] h = tt
fresh_idle-All P timeout now (i ∷ is') (a, h) =
    elim (Bool-cases (ltb timeout (now - i.last_used))) [
      | inl old ↦ rw old (fresh_idle-All P timeout now is' h)
      | inr new ↦ rw new (a, fresh_idle-All P timeout now is' h)
    ]

pub length-fresh_idle :
    (timeout now : ℕ) (is' : List Idle) → length (fresh_idle timeout now is') ≤ length is'
unfolding fresh_idle
length-fresh_idle timeout now [] = omega arith
length-fresh_idle timeout now (i ∷ is') = ground (arith, length-fresh_idle timeout now is')

evict_pools-IsBound :
    (timeout now : ℕ) (ps : List Pool) → All IsBound ps → All IsBound (evict_pools timeout now ps)
unfolding evict_pools
evict_pools-IsBound timeout now [] h = tt
evict_pools-IsBound timeout now (p ∷ ps) (b, h) =
    let rest = evict_pools-IsBound timeout now ps h in
    let kept : IsBound (record p { idle = fresh_idle timeout now p.idle }) = record {
      idle_bound = fresh_idle-All _ timeout now p.idle b.idle_bound;
      used_bound = b.used_bound;
      bounded = omega (arith, length-fresh_idle timeout now p.idle, b.bounded);
    } in
    elim (Bool-cases (is_unused (record p { idle = fresh_idle timeout now p.idle }))) [
      | inl gone ↦ rw gone rest
      | inr stays ↦ rw stays (kept, rest)
    ]

pub evict_idle-IsIsolated :
    (timeout now : ℕ) (m : Manager) → IsIsolated m → IsIsolated (evict_idle timeout now m)
unfolding evict_idle
evict_idle-IsIsolated timeout now m h = evict_pools-IsBound timeout now m.pools h

pub pool_of-IsBound :
    (max : ℕ) (t v : Text) (ps : List Pool)
    → All IsBound ps
    → IsBound (pool_of max t v ps)
      × ((pool_of max t v ps).tenant_id ≡ t)
      × ((pool_of max t v ps).association_version ≡ v)
unfolding pool_of has_key
pool_of-IsBound max t v [] h =
    (record { idle_bound = tt; used_bound = tt; bounded = omega arith }, refl, refl)
pool_of-IsBound max t v (p ∷ ps) (b, h) = elim (Bool-cases (has_key t v p)) [
  | inl here ↦
      let keys : (p.tenant_id ≡ t) × (p.association_version ≡ v) =
        ground (arith, text_eq_iff p.tenant_id t, text_eq_iff p.association_version v) in
      rw here (b, keys.0, keys.1)
  | inr other ↦ rw other (pool_of-IsBound max t v ps h)
]

pub set_pool-IsBound :
    (q : Pool) (ps : List Pool) → IsBound q → All IsBound ps → All IsBound (set_pool q ps)
unfolding set_pool
set_pool-IsBound q [] b h = (b, tt)
set_pool-IsBound q (p ∷ ps) b (c, h) =
    elim (Bool-cases (has_key q.tenant_id q.association_version p)) [
      | inl here ↦ rw here (b, h)
      | inr other ↦ rw other (c, set_pool-IsBound q ps b h)
    ]

pub drop_pool-IsBound :
    (t v : Text) (ps : List Pool) → All IsBound ps → All IsBound (drop_pool t v ps)
unfolding drop_pool
drop_pool-IsBound t v [] h = tt
drop_pool-IsBound t v (p ∷ ps) (c, h) = elim (Bool-cases (has_key t v p)) [
  | inl here ↦ rw here (drop_pool-IsBound t v ps h)
  | inr other ↦ rw other (c, drop_pool-IsBound t v ps h)
]

pub forget_unused-IsBound :
    (p : Pool) (ps : List Pool) → IsBound p → All IsBound ps → All IsBound (forget_unused p ps)
unfolding forget_unused
forget_unused-IsBound p ps b h = elim (Bool-cases (is_unused p)) [
  | inl gone ↦ rw gone (drop_pool-IsBound _ _ ps h)
  | inr stays ↦ rw stays (set_pool-IsBound p ps b h)
]

pub add-All :
    (P : Connection → Type 0) (c : Connection) (cs : List Connection)
    → P c
    → All P cs
    → All P (add c cs)
unfolding add
add-All P c cs a h = elim (Bool-cases (holds c cs)) [
  | inl in_there ↦ rw in_there h
  | inr new ↦ rw new (a, h)
]

pub length-add : (c : Connection) (cs : List Connection) → length (add c cs) ≤ suc (length cs)
unfolding add
length-add c cs = ground arith

pub without-All :
    (P : Connection → Type 0) (c : Connection) (cs : List Connection)
    → All P cs
    → All P (without c cs)
unfolding without
without-All P c [] h = tt
without-All P c (d ∷ ds) (a, h) = elim (Bool-cases (same_object c d)) [
  | inl here ↦ rw here (without-All P c ds h)
  | inr other ↦ rw other (a, without-All P c ds h)
]

pub length-without : (c : Connection) (cs : List Connection) → length (without c cs) ≤ length cs
unfolding without
length-without c [] = omega arith
length-without c (d ∷ ds) = ground (arith, length-without c ds)

pub length-without_held :
    (c : Connection) (cs : List Connection)
    → holds c cs ≡ true
    → suc (length (without c cs)) ≤ length cs
unfolding without holds
length-without_held c [] h = absurd (cc)
length-without_held c (d ∷ ds) h = ground (arith, length-without c ds, length-without_held c ds)
