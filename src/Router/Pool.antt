-- ===== src/Router/Pool.antt =====
-- The per-tenant connection manager (`ConnectionPoolManager` of backend/database_router/pool.py). The
-- lock makes every operation one step. A connection is an object with an identity; the calls on it are
-- parameters that answer by the clock.
pub mod Binding
pub mod Isolation
use snack_portal.Common.{
  ℕ, ◌+◌, ◌-◌, Bool, true, false, ◌&&◌, ◌||◌, not, List, [], ◌∷◌, ◌++◌, ltb, leb, ◌==◌,
  if◌then◌else◌, any, length,
}
use snack_portal.Common.Text.{Text, text_eq}

-- `TenantConnection`
pub record Connection : Type 0 where
  pub object : ℕ
  pub tenant_id : Text
  pub association_version : Text

-- `_Idle`
pub record Idle : Type 0 where
  pub conn : Connection
  pub last_used : ℕ

-- `_Pool`, with the key that it stands under in `_pools`.
pub record Pool : Type 0 where
  pub tenant_id : Text
  pub association_version : Text
  pub max_size : ℕ
  pub idle : List Idle
  pub in_use : List Connection

-- `ConnectionPoolManager`, and the connections that it has closed, the last one first.
pub record Manager : Type 0 where
  pub pools : List Pool
  pub closed : List Connection

pub data Failure : Type 0 where
  pool_exhausted wrong_binding open_failed : Failure

pub data Acquired : Type 0 where
  got : Connection → Acquired
  failed : Failure → Acquired

-- What `open_fn` does: it raises, or mints a connection.
pub data Opened : Type 0 where
  raises : Opened
  mints : Connection → Opened

-- The clock, a connection's health, and whether its rollback and its reset go through.
pub record Env : Type 0 where
  pub now : ℕ
  pub is_alive : Connection → Bool
  pub resets : Connection → Bool

unfoldable pub same_object : Connection → Connection → Bool
same_object a b = a.object == b.object

-- `conn in connections`
unfoldable pub holds : Connection → List Connection → Bool
holds c cs = any (same_object c) cs

-- `connections.add(conn)`
unfoldable pub add : Connection → List Connection → List Connection
add c cs = if holds c cs then cs else c ∷ cs

-- `connections.discard(conn)`
unfoldable pub without : Connection → List Connection → List Connection
without c [] = []
without c (d ∷ ds) = if same_object c d then without c ds else d ∷ without c ds

unfoldable pub has_key : Text → Text → Pool → Bool
has_key tenant_id version p = text_eq p.tenant_id tenant_id && text_eq p.association_version version

-- `not pool.idle and not pool.in_use`
unfoldable pub is_unused : Pool → Bool
is_unused p = elim p.idle [ [] ↦ elim p.in_use [ [] ↦ true | _ ∷ _ ↦ false ] | _ ∷ _ ↦ false ]

-- The rounds of `_evict_idle_locked`: what an idle list keeps, and what is closed.
unfoldable pub fresh_idle : ℕ → ℕ → List Idle → List Idle
fresh_idle timeout now [] = []
fresh_idle timeout now (i ∷ is') =
    if ltb timeout (now - i.last_used)
    then fresh_idle timeout now is'
    else i ∷ fresh_idle timeout now is'

unfoldable pub stale_idle : ℕ → ℕ → List Idle → List Connection
stale_idle timeout now [] = []
stale_idle timeout now (i ∷ is') =
    if ltb timeout (now - i.last_used)
    then i.conn ∷ stale_idle timeout now is'
    else stale_idle timeout now is'

unfoldable pub evict_pools : ℕ → ℕ → List Pool → List Pool
evict_pools timeout now [] = []
evict_pools timeout now (p ∷ ps) =
    let p' = record p { idle = fresh_idle timeout now p.idle } in
    if is_unused p' then evict_pools timeout now ps else p' ∷ evict_pools timeout now ps

unfoldable pub evicted : ℕ → ℕ → List Pool → List Connection
evicted timeout now [] = []
evicted timeout now (p ∷ ps) = stale_idle timeout now p.idle ++ evicted timeout now ps

-- `_evict_idle_locked`
unfoldable pub evict_idle : ℕ → ℕ → Manager → Manager
evict_idle timeout now m = record {
  pools = evict_pools timeout now m.pools;
  closed = evicted timeout now m.pools ++ m.closed;
}

-- `self._pools.setdefault(key, _Pool(self._max))`: the pool of the key.
unfoldable pub pool_of : ℕ → Text → Text → List Pool → Pool
pool_of max tenant_id version [] = record {
  tenant_id = tenant_id;
  association_version = version;
  max_size = max;
  idle = [];
  in_use = [];
}
pool_of max tenant_id version (p ∷ ps) =
    if has_key tenant_id version p then p else pool_of max tenant_id version ps

-- The pools with the one of its key replaced, or added.
unfoldable pub set_pool : Pool → List Pool → List Pool
set_pool q [] = q ∷ []
set_pool q (p ∷ ps) =
    if has_key q.tenant_id q.association_version p then q ∷ ps else p ∷ set_pool q ps

-- `self._pools.pop(key)`
unfoldable pub drop_pool : Text → Text → List Pool → List Pool
drop_pool tenant_id version [] = []
drop_pool tenant_id version (p ∷ ps) =
    if has_key tenant_id version p
    then drop_pool tenant_id version ps
    else p ∷ drop_pool tenant_id version ps

-- How the loop over the idle connections ends: with one reused, or with none left; broken ones are
-- closed. The list stands in the order of `pop`, the last one released first.
pub data Reuse : Type 0 where
  reused : Connection → List Idle → List Connection → Reuse
  exhausted : List Connection → Reuse

unfoldable pub close_more : Connection → Reuse → Reuse
close_more c (reused d rest cs) = reused d rest (cs ++ c ∷ [])
close_more c (exhausted cs) = exhausted (cs ++ c ∷ [])

unfoldable pub reuse : (Connection → Bool) → List Idle → Reuse
reuse alive [] = exhausted []
reuse alive (i ∷ is') =
    let rest = reuse alive is' in
    if alive i.conn then reused i.conn is' [] else close_more i.conn rest

-- A failed acquisition leaves no empty pool behind.
unfoldable pub forget_unused : Pool → List Pool → List Pool
forget_unused p ps =
    if is_unused p then drop_pool p.tenant_id p.association_version ps else set_pool p ps

-- `conn = open_fn()` with its binding check, and the handler around both.
unfoldable pub open_new : Text → Text → Opened → Pool → Manager → Acquired × Manager
open_new tenant_id version raises p m =
    (failed Failure.open_failed, record m { pools = forget_unused p m.pools })
open_new tenant_id version (mints c) p m =
    if text_eq c.tenant_id tenant_id && text_eq c.association_version version
    then (got c, record m { pools = set_pool (record p { in_use = add c p.in_use }) m.pools })
    else (
      failed Failure.wrong_binding,
      record { pools = forget_unused p m.pools; closed = c ∷ m.closed },
    )

unfoldable pub after_reuse : Text → Text → Opened → Pool → Manager → Reuse → Acquired × Manager
after_reuse tenant_id version opened p m (reused c rest cs) = (
  got c,
  record {
    pools = set_pool (record p { idle = rest; in_use = add c p.in_use }) m.pools;
    closed = cs ++ m.closed;
  },
)
after_reuse tenant_id version opened p m (exhausted cs) =
    let p' : Pool = record p { idle = [] } in
    let m' : Manager = record { pools = set_pool p' m.pools; closed = cs ++ m.closed } in
    if leb p.max_size (length p.in_use)
    then (failed Failure.pool_exhausted, m')
    else open_new tenant_id version opened p' m'

unfoldable pub acquire_from :
    Text → Text → (Connection → Bool) → Opened → Pool → Manager → Acquired × Manager
acquire_from tenant_id version alive opened p m =
    after_reuse tenant_id version opened p m (reuse alive p.idle)

module _ (max timeout : ℕ) where
  unfoldable pub acquire : Env → Text → Text → Opened → Manager → Acquired × Manager
  acquire env tenant_id version opened m =
      let m' = evict_idle timeout env.now m in
      acquire_from tenant_id version env.is_alive opened (pool_of max tenant_id version m'.pools) m'

  -- `release`, once the connection is found in use.
  unfoldable pub give_back : Env → Connection → Pool → Manager → Manager
  give_back env c p m =
      let q = record p { in_use = without c p.in_use } in
      if env.resets c && env.is_alive c
      then evict_idle timeout env.now (record m {
        pools =
            set_pool (record q { idle = record { conn = c; last_used = env.now } ∷ p.idle })
              m.pools;
      })
      else record { pools = set_pool q m.pools; closed = c ∷ m.closed }

  unfoldable pub release : Env → Connection → Manager → Manager
  release env c m =
      let p = pool_of max c.tenant_id c.association_version m.pools in
      if holds c p.in_use then give_back env c p m else record m { closed = c ∷ m.closed }

unfoldable pub discard_from : Connection → List Pool → List Pool
discard_from c [] = []
discard_from c (p ∷ ps) =
    if has_key c.tenant_id c.association_version p
    then record p { in_use = without c p.in_use } ∷ ps
    else p ∷ discard_from c ps

unfoldable pub discard : Connection → Manager → Manager
discard c m = record { pools = discard_from c m.pools; closed = c ∷ m.closed }

-- `key[0] == tenant_id and key[1] != keep_version`
unfoldable pub is_outdated : Text → Text → Pool → Bool
is_outdated tenant_id keep_version p =
    text_eq p.tenant_id tenant_id && not (text_eq p.association_version keep_version)

unfoldable pub current_pools : Text → Text → List Pool → List Pool
current_pools tenant_id keep_version [] = []
current_pools tenant_id keep_version (p ∷ ps) =
    if is_outdated tenant_id keep_version p
    then current_pools tenant_id keep_version ps
    else p ∷ current_pools tenant_id keep_version ps

unfoldable pub idle_connections : List Idle → List Connection
idle_connections [] = []
idle_connections (i ∷ is') = i.conn ∷ idle_connections is'

unfoldable pub drained : Text → Text → List Pool → List Connection
drained tenant_id keep_version [] = []
drained tenant_id keep_version (p ∷ ps) =
    if is_outdated tenant_id keep_version p
    then idle_connections p.idle ++ drained tenant_id keep_version ps
    else drained tenant_id keep_version ps

unfoldable pub invalidate_version : Text → Text → Manager → Manager
invalidate_version tenant_id keep_version m = record {
  pools = current_pools tenant_id keep_version m.pools;
  closed = drained tenant_id keep_version m.pools ++ m.closed;
}
