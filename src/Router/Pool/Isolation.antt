-- ===== src/Router/Pool/Isolation.antt =====
-- The operations of backend/database_router/pool.py keep every connection with its tenant.
use snack_portal.Common.{
  ℕ, suc, ◌≤◌, ◌≡◌, refl, sym, ap, subst, inl, inr, Bool, true, ◌&&◌, List, [], ◌∷◌, leb, length,
  All, Bool-cases, arith,
}
use snack_portal.Common.Text.{Text, text_eq, text_eq_iff}
use snack_portal.Router.Pool.{
  Connection, Idle, Pool, Manager, Acquired, got, failed, Opened, raises, mints, Env, Reuse, reused,
  exhausted, holds, add, without, has_key, evict_idle, pool_of, close_more, reuse, open_new,
  after_reuse, acquire_from, acquire, give_back, release, discard_from, discard, is_outdated,
  current_pools, invalidate_version,
}
use snack_portal.Router.Pool.Binding.{
  BoundTo, IsBound, IsIsolated, evict_idle-IsIsolated, pool_of-IsBound, set_pool-IsBound,
  forget_unused-IsBound, add-All, length-add, without-All, length-without, length-without_held,
}

-- What the loop over the idle connections hands on.
abbrev Reusable : (Idle → Type 0) → ℕ → Reuse → Type 0
Reusable P n (reused c rest cs) =
    ((u : ℕ) × P (record { conn = c; last_used = u })) × All P rest × (suc (length rest) ≤ n)
Reusable P n (exhausted cs) = Unit

close_more-Reusable :
    (P : Idle → Type 0) (n : ℕ) (c : Connection) (r : Reuse)
    → Reusable P n r
    → Reusable P (suc n) (close_more c r)
unfolding close_more
close_more-Reusable P n c (reused d rest cs) (a, h, l) = (a, h, omega (arith, l))
close_more-Reusable P n c (exhausted cs) h = tt

reuse-Reusable :
    (P : Idle → Type 0) (alive : Connection → Bool) (is' : List Idle)
    → All P is'
    → Reusable P (length is') (reuse alive is')
unfolding reuse
reuse-Reusable P alive [] h = tt
reuse-Reusable P alive (i ∷ is') (a, h) = elim (Bool-cases (alive i.conn)) [
  | inl up ↦ rw up ((i.last_used, a), h, omega arith)
  | inr down ↦
      rw down
        (close_more-Reusable P (length is') i.conn (reuse alive is') (reuse-Reusable P alive is' h))
]

-- The connection that an acquisition returns, if it returns one, is bound as asked for.
abbrev pub Grants : Text → Text → Acquired × Manager → Type 0
Grants t v (got c, m) = BoundTo t v c × IsIsolated m
Grants t v (failed why, m) = IsIsolated m

module _ (t v : Text) where
  open_new-Grants :
      (opened : Opened) (p : Pool) (m : Manager)
      → p.tenant_id ≡ t
      → p.association_version ≡ v
      → p.idle ≡ []
      → suc (length p.in_use) ≤ p.max_size
      → IsBound p
      → IsIsolated m
      → Grants t v (open_new t v opened p m)
  unfolding open_new
  open_new-Grants raises p m et ev empty room b h = forget_unused-IsBound p m.pools b h
  open_new-Grants (mints c) p m et ev empty room b h =
      elim (Bool-cases (text_eq c.tenant_id t && text_eq c.association_version v)) [
        | inl good ↦
            let keys : BoundTo t v c =
              ground (arith, text_eq_iff c.tenant_id t, text_eq_iff c.association_version v) in
            let grown : IsBound (record p { in_use = add c p.in_use }) = record {
              idle_bound = b.idle_bound;
              used_bound = add-All _ c p.in_use (rw (et, ev) keys) b.used_bound;
              bounded = omega (arith, length-add c p.in_use, room, ap length empty);
            } in
            rw good (keys, set_pool-IsBound _ m.pools grown h)
        | inr bad ↦ rw bad (forget_unused-IsBound p m.pools b h)
      ]

  after_reuse-Grants :
      (opened : Opened) (p : Pool) (m : Manager) (r : Reuse)
      → p.tenant_id ≡ t
      → p.association_version ≡ v
      → IsBound p
      → IsIsolated m
      → Reusable (λ i. BoundTo p.tenant_id p.association_version i.conn) (length p.idle) r
      → Grants t v (after_reuse t v opened p m r)
  unfolding after_reuse
  after_reuse-Grants opened p m (reused c rest cs) et ev b h ((u, bound), kept, l) =
      let moved : IsBound (record p { idle = rest; in_use = add c p.in_use }) = record {
        idle_bound = kept;
        used_bound = add-All _ c p.in_use bound b.used_bound;
        bounded = omega (arith, length-add c p.in_use, l, b.bounded);
      } in
      (
        subst (λ w. BoundTo w v c) et (subst (λ w. BoundTo p.tenant_id w c) ev bound),
        set_pool-IsBound _ m.pools moved h,
      )
  after_reuse-Grants opened p m (exhausted cs) et ev b h kept =
      let emptied : IsBound (record p { idle = [] }) = record {
        idle_bound = tt;
        used_bound = b.used_bound;
        bounded = omega (arith, b.bounded);
      } in
      elim (Bool-cases (leb p.max_size (length p.in_use))) [
        | inl full ↦ rw full (set_pool-IsBound _ m.pools emptied h)
        | inr room ↦ rw room (
            open_new-Grants opened (record p { idle = [] }) _ et ev refl (ground arith) emptied
              (set_pool-IsBound _ m.pools emptied h))
      ]

module _ (max timeout : ℕ) where
  -- An acquisition on isolated pools leaves them isolated, also when it fails: every connection that a
  -- pool holds is bound to the pool's tenant and version, with at most the bound of them; and the
  -- connection that it returns is bound to the tenant and the version that were asked for, whatever
  -- the opening function mints.
  pub acquire-Grants :
      (env : Env) (t v : Text) (opened : Opened) (m : Manager)
      → IsIsolated m
      → Grants t v (acquire max timeout env t v opened m)
  unfolding acquire acquire_from
  acquire-Grants env t v opened m h =
      let m' = evict_idle timeout env.now m in
      let h' = evict_idle-IsIsolated timeout env.now m h in
      let p = pool_of max t v m'.pools in
      let (b, et, ev) = pool_of-IsBound max t v m'.pools h' in
      after_reuse-Grants t v opened p m' (reuse env.is_alive p.idle) et ev b h'
        (reuse-Reusable _ env.is_alive p.idle b.idle_bound)

  give_back-IsIsolated :
      (env : Env) (c : Connection) (p : Pool) (m : Manager)
      → BoundTo p.tenant_id p.association_version c
      → holds c p.in_use ≡ true
      → IsBound p
      → IsIsolated m
      → IsIsolated (give_back max timeout env c p m)
  unfolding give_back
  give_back-IsIsolated env c p m own held b h =
      let left : IsBound (record p { in_use = without c p.in_use }) = record {
        idle_bound = b.idle_bound;
        used_bound = without-All _ c p.in_use b.used_bound;
        bounded = omega (arith, length-without c p.in_use, b.bounded);
      } in
      let back : IsBound (record p {
        idle = record { conn = c; last_used = env.now } ∷ p.idle;
        in_use = without c p.in_use;
      }) =
        record {
          idle_bound = (own, b.idle_bound);
          used_bound = left.used_bound;
          bounded = omega (arith, length-without_held c p.in_use held, b.bounded);
        } in
      elim (Bool-cases (env.resets c && env.is_alive c)) [
        | inl well ↦
            rw well (evict_idle-IsIsolated timeout env.now _ (set_pool-IsBound _ m.pools back h))
        | inr broken ↦ rw broken (set_pool-IsBound _ m.pools left h)
      ]

  release-IsIsolated :
      (env : Env) (c : Connection) (m : Manager)
      → IsIsolated m
      → IsIsolated (release max timeout env c m)
  unfolding release
  release-IsIsolated env c m h =
      let p = pool_of max c.tenant_id c.association_version m.pools in
      let (b, et, ev) = pool_of-IsBound max c.tenant_id c.association_version m.pools h in
      elim (Bool-cases (holds c p.in_use)) [
        | inl held ↦ rw held (give_back-IsIsolated env c p m (sym et, sym ev) held b h)
        | inr other ↦ rw other h
      ]

discard_from-IsBound :
    (c : Connection) (ps : List Pool) → All IsBound ps → All IsBound (discard_from c ps)
unfolding discard_from
discard_from-IsBound c [] h = tt
discard_from-IsBound c (p ∷ ps) (b, h) =
    elim (Bool-cases (has_key c.tenant_id c.association_version p)) [
      | inl here ↦ rw here (
        record {
          idle_bound = b.idle_bound;
          used_bound = without-All _ c p.in_use b.used_bound;
          bounded = omega (arith, length-without c p.in_use, b.bounded);
        },
        h,
      )
      | inr other ↦ rw other (b, discard_from-IsBound c ps h)
    ]

current_pools-IsBound :
    (t v : Text) (ps : List Pool)
    → All IsBound ps
    → All (λ p. IsBound p × (p.tenant_id ≡ t → p.association_version ≡ v)) (current_pools t v ps)
unfolding current_pools is_outdated
current_pools-IsBound t v [] h = tt
current_pools-IsBound t v (p ∷ ps) (b, h) = elim (Bool-cases (is_outdated t v p)) [
  | inl old ↦ rw old (current_pools-IsBound t v ps h)
  | inr now ↦ rw now (
    (b, λ e. ground (arith, text_eq_iff p.tenant_id t, text_eq_iff p.association_version v)),
    current_pools-IsBound t v ps h,
  )
]

current-IsIsolated :
    (t v : Text) (ps : List Pool)
    → All (λ p. IsBound p × (p.tenant_id ≡ t → p.association_version ≡ v)) ps
    → All IsBound ps × All (λ p. p.tenant_id ≡ t → p.association_version ≡ v) ps
current-IsIsolated t v [] h = (tt, tt)
current-IsIsolated t v (p ∷ ps) ((b, k), h) =
    let (bs, ks) = current-IsIsolated t v ps h in ((b, bs), (k, ks))

-- The other operations keep isolated pools isolated: giving a connection back, well or broken, in use
-- or unknown; discarding it; and invalidating a tenant's versions, after which no pool of that tenant
-- stands under another version than the one kept.
pub returned-IsIsolated :
    (max timeout : ℕ) (env : Env) (c : Connection) (t keep : Text) (m : Manager)
    → IsIsolated m
    → IsIsolated (release max timeout env c m)
      × IsIsolated (discard c m)
      × IsIsolated (invalidate_version t keep m)
      × All
          (λ p. p.tenant_id ≡ t → p.association_version ≡ keep)
          (invalidate_version t keep m).pools
unfolding discard invalidate_version
returned-IsIsolated max timeout env c t keep m h =
    let (bs, ks) = current-IsIsolated t keep _ (current_pools-IsBound t keep m.pools h) in
    (release-IsIsolated max timeout env c m h, discard_from-IsBound c m.pools h, bs, ks)
