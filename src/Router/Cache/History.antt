-- ===== src/Router/Cache/History.antt =====
-- A view of backend/database_router/cache.py through the calls that follow its `put`.
use snack_portal.Common.{
  ℕ, suc, ◌+◌, ◌≤◌, ◌<◌, ◌≡◌, refl, ap, ◌∙◌, inl, inr, true, false, ◌&&◌, not, Option, none, some,
  List, [], ◌∷◌, ltb, leb, if◌then◌else◌, length, All, Bool-cases, arith,
}
use snack_portal.Common.Text.{Text, text_eq, text_eq_iff, text_eq_refl}
use snack_portal.Common.Dict.{
  Dict, lookup, insert, erase, lookup-insert, lookup-erase, lookup-insert_self,
}
use snack_portal.Router.Cache.{
  has_entry, unexpired, get, drop_oldest, make_room, put, invalidate_entry,
}
use snack_portal.Router.Cache.Freshness.{length-insert, length-insert_held, put_kept, room_made}

-- A call of the cache, with the clock's answer.
pub data CacheCall (View : Type 0) : Type 0 where
  got_at : ℕ → Text → CacheCall View
  put_at : ℕ → Text → View → CacheCall View
  invalidated : Text → CacheCall View

module _ {View : Type 0} where
  abbrev pub tenant_of : CacheCall View → Text
  tenant_of (CacheCall.got_at now j) = j
  tenant_of (CacheCall.put_at now j view) = j
  tenant_of (CacheCall.invalidated j) = j

  abbrev pub puts_in : List (CacheCall View) → ℕ
  puts_in [] = 0
  puts_in (CacheCall.put_at now j view ∷ calls) = suc (puts_in calls)
  puts_in (CacheCall.got_at now j ∷ calls) = puts_in calls
  puts_in (CacheCall.invalidated j ∷ calls) = puts_in calls

  -- The entries a call leaves; `none` where it raises.
  unfoldable pub cache_after : ℕ → ℕ → CacheCall View → Dict (ℕ × View) → Option (Dict (ℕ × View))
  cache_after max ttl (CacheCall.got_at now j) d = some (get now j d).1
  cache_after max ttl (CacheCall.put_at now j view) d = put max ttl now j view d
  cache_after max ttl (CacheCall.invalidated j) d = some (invalidate_entry j d)

  unfoldable pub run_cache :
      ℕ → ℕ → List (CacheCall View) → Dict (ℕ × View) → Option (Dict (ℕ × View))
  run_cache max ttl [] d = some d
  run_cache max ttl (call ∷ calls) d = elim (cache_after max ttl call d) [
    | none ↦ none
    | some d' ↦ run_cache max ttl calls d'
  ]

  -- How many entries are younger than the tenant's.
  unfoldable pub younger : Text → Dict (ℕ × View) → ℕ
  younger k [] = 0
  younger k ((j, _) ∷ d) = if text_eq j k then length d else younger k d

  length-erase : (j : Text) (d : Dict (ℕ × View)) → length (erase j d) ≤ length d
  unfolding erase
  length-erase j [] = omega arith
  length-erase j ((i, v) ∷ d) = ground (arith, length-erase j d)

  younger-erase :
      (k j : Text) (d : Dict (ℕ × View)) → text_eq j k ≡ false → younger k (erase j d) ≤ younger k d
  unfolding younger erase
  younger-erase k j [] h = omega arith
  younger-erase k j ((i, v) ∷ d) h = ground (
    arith,
    younger-erase k j d h,
    length-erase j d,
    text_eq_iff i k,
    text_eq_iff i j,
    text_eq_iff j k,
  )

  younger-insert :
      (k j : Text) (v : ℕ × View) (d : Dict (ℕ × View))
      → text_eq j k ≡ false
      → younger k (insert j v d) ≤ suc (younger k d)
  unfolding younger insert
  younger-insert k j v [] h = ground arith
  younger-insert k j v ((i, w) ∷ d) h = ground (
    arith,
    younger-insert k j v d h,
    length-insert j v d,
    text_eq_iff i k,
    text_eq_iff i j,
    text_eq_iff j k,
  )

  younger-insert_self :
      (k : Text) (v : ℕ × View) (d : Dict (ℕ × View)) → younger k (insert k v d) ≡ younger k d
  unfolding younger insert
  younger-insert_self k v [] = ground (arith, text_eq_refl k)
  younger-insert_self k v ((i, w) ∷ d) = ground (arith, younger-insert_self k v d, text_eq_iff i k)

  -- The tenant's entry stands, and `n` more puts do not reach it.
  abbrev Stands : ℕ → Text → ℕ × View → ℕ → Dict (ℕ × View) → Type 0
  Stands max k x n d = (lookup k d ≡ some x) × (younger k d + n < max) × (length d ≤ max)

  Stands-erase :
      (max : ℕ) (k j : Text) (x : ℕ × View) (n : ℕ) (d : Dict (ℕ × View))
      → text_eq j k ≡ false
      → Stands max k x n d
      → Stands max k x n (erase j d)
  Stands-erase max k j x n d other (found, room, bound) = (
    rw (lookup-erase j k d) (rw other found),
    omega (arith, room, younger-erase k j d other),
    omega (arith, bound, length-erase j d),
  )

  Stands-get :
      (max now : ℕ) (k j : Text) (x : ℕ × View) (n : ℕ) (d : Dict (ℕ × View))
      (o : Option (ℕ × View))
      → text_eq j k ≡ false
      → Stands max k x n d
      → Stands max k x n (unexpired now j d o).1
  unfolding unexpired
  Stands-get max now k j x n d none other h = h
  Stands-get max now k j x n d (some (expires, view)) other h =
      elim (Bool-cases (ltb expires now)) [
        | inl late ↦ rw late (Stands-erase max k j x n d other h)
        | inr early ↦ rw early h
      ]

  -- The room for another tenant is not made at the cost of this entry.
  Stands-make_room :
      (max : ℕ) (k j : Text) (x v : ℕ × View) (n : ℕ) (d : Dict (ℕ × View))
      → text_eq j k ≡ false
      → Stands max k x (suc n) d
      → (kept : Dict (ℕ × View)) × (make_room max j d ≡ some kept)
        × (lookup k kept ≡ some x)
        × (younger k kept + suc n < max)
        × (length (insert j v kept) ≤ max)
  unfolding lookup younger
  Stands-make_room max k j x v n [] other (found, room, bound) = absurd (cc)
  Stands-make_room max k j x v n ((i, w) ∷ d) other (found, room, bound) =
      elim (Bool-cases (leb max (length ((i, w) ∷ d)) && not (has_entry j ((i, w) ∷ d)))) [
        | inl full ↦ (
          d,
          (room_made max j (i, w) d).0 full,
          ground arith,
          ground arith,
          omega (arith, bound, length-insert j v d),
        )
        | inr free ↦ (
          (i, w) ∷ d,
          (room_made max j (i, w) d).1 free,
          found,
          room,
          ground
              (arith, bound, length-insert j v ((i, w) ∷ d), length-insert_held j v ((i, w) ∷ d)),
        )
      ]

  Stands-insert :
      (max : ℕ) (k j : Text) (x v : ℕ × View) (n : ℕ) (d : Dict (ℕ × View))
      → text_eq j k ≡ false
      → lookup k d ≡ some x
      → younger k d + suc n < max
      → length (insert j v d) ≤ max
      → Stands max k x n (insert j v d)
  Stands-insert max k j x v n d other found room bound = (
    rw (lookup-insert j k v d) (rw other found),
    omega (arith, room, younger-insert k j v d other),
    bound,
  )

  -- Calls for other tenants, with few enough puts, leave the entry.
  Stands-run :
      (max ttl : ℕ) (k : Text) (x : ℕ × View) (calls : List (CacheCall View)) (d : Dict (ℕ × View))
      → All (λ call. text_eq (tenant_of call) k ≡ false) calls
      → Stands max k x (puts_in calls) d
      → (d' : Dict (ℕ × View)) × (run_cache max ttl calls d ≡ some d') × Stands max k x 0 d'
  unfolding run_cache cache_after get invalidate_entry
  Stands-run max ttl k x [] d others h = (d, refl, h)
  Stands-run max ttl k x (CacheCall.got_at now j ∷ calls) d (other, others) h =
      Stands-run max ttl k x calls _ others
        (Stands-get max now k j x (puts_in calls) d (lookup j d) other h)
  Stands-run max ttl k x (CacheCall.invalidated j ∷ calls) d (other, others) h =
      Stands-run max ttl k x calls _ others (Stands-erase max k j x (puts_in calls) d other h)
  Stands-run max ttl k x (CacheCall.put_at now j view ∷ calls) d (other, others) h =
      let v : ℕ × View = (now + ttl, view) in
      let (kept, made, found, room, bound) =
        Stands-make_room max k j x v (puts_in calls) d other h in
      let (d', ran, stands) =
        Stands-run max ttl k x calls (insert j v kept) others
          (Stands-insert max k j x v (puts_in calls) kept other found room bound) in
      (
        d',
        ap (elim [ none ↦ none | some e ↦ run_cache max ttl calls e ])
              (put_kept max ttl now j view d kept made)
            ∙ ran,
        stands,
      )

  -- No entry of the tenant.
  abbrev Missing : ℕ → Text → Dict (ℕ × View) → Type 0
  Missing max k d = (lookup k d ≡ none) × (length d ≤ max)

  Missing-erase :
      (max : ℕ) (k j : Text) (d : Dict (ℕ × View)) → Missing max k d → Missing max k (erase j d)
  Missing-erase max k j d (none_found, bound) =
      (ground (arith, lookup-erase j k d), omega (arith, bound, length-erase j d))

  Missing-get :
      (max now : ℕ) (k j : Text) (d : Dict (ℕ × View)) (o : Option (ℕ × View))
      → Missing max k d
      → Missing max k (unexpired now j d o).1
  unfolding unexpired
  Missing-get max now k j d none h = h
  Missing-get max now k j d (some (expires, view)) h = elim (Bool-cases (ltb expires now)) [
    | inl late ↦ rw late (Missing-erase max k j d h)
    | inr early ↦ rw early h
  ]

  make_room_empty : (max : ℕ) (j : Text) → 0 < max → make_room {View = View} max j [] ≡ some []
  unfolding make_room drop_oldest
  make_room_empty max j positive = ground (arith, positive)

  Missing-make_room :
      (max : ℕ) (k j : Text) (v : ℕ × View) (d : Dict (ℕ × View))
      → text_eq j k ≡ false
      → 0 < max
      → Missing max k d
      → (kept : Dict (ℕ × View)) × (make_room max j d ≡ some kept) × Missing max k (insert j v kept)
  unfolding lookup
  Missing-make_room max k j v [] other positive (none_found, bound) = (
    [],
    make_room_empty max j positive,
    (ground (arith, lookup-insert j k v []), omega (arith, length-insert j v [])),
  )
  Missing-make_room max k j v ((i, w) ∷ d) other positive (none_found, bound) =
      elim (Bool-cases (leb max (length ((i, w) ∷ d)) && not (has_entry j ((i, w) ∷ d)))) [
        | inl full ↦ (
          d,
          (room_made max j (i, w) d).0 full,
          (ground (arith, lookup-insert j k v d), omega (arith, bound, length-insert j v d)),
        )
        | inr free ↦ (
          (i, w) ∷ d,
          (room_made max j (i, w) d).1 free,
          (
            rw (lookup-insert j k v ((i, w) ∷ d)) (rw other none_found),
            ground
                (arith, bound, length-insert j v ((i, w) ∷ d), length-insert_held j v ((i, w) ∷ d)),
          ),
        )
      ]

  -- Calls for other tenants store nothing for this one.
  Missing-run :
      (max ttl : ℕ) (k : Text) (calls : List (CacheCall View)) (d : Dict (ℕ × View))
      → All (λ call. text_eq (tenant_of call) k ≡ false) calls
      → 0 < max
      → Missing max k d
      → (d' : Dict (ℕ × View)) × (run_cache max ttl calls d ≡ some d') × Missing max k d'
  unfolding run_cache cache_after get invalidate_entry
  Missing-run max ttl k [] d others positive h = (d, refl, h)
  Missing-run max ttl k (CacheCall.got_at now j ∷ calls) d (other, others) positive h =
      Missing-run max ttl k calls _ others positive (Missing-get max now k j d (lookup j d) h)
  Missing-run max ttl k (CacheCall.invalidated j ∷ calls) d (other, others) positive h =
      Missing-run max ttl k calls _ others positive (Missing-erase max k j d h)
  Missing-run max ttl k (CacheCall.put_at now j view ∷ calls) d (other, others) positive h =
      let (kept, made, missing) = Missing-make_room max k j (now + ttl, view) d other positive h in
      let (d', ran, left) =
        Missing-run max ttl k calls (insert j (now + ttl, view) kept) others positive missing in
      (
        d',
        ap (elim [ none ↦ none | some e ↦ run_cache max ttl calls e ])
              (put_kept max ttl now j view d kept made)
            ∙ ran,
        left,
      )

  -- The entry that a `put` writes has at most as many younger ones as the tenant's entry had.
  put-Stands :
      (max ttl now n : ℕ) (k : Text) (view : View) (d : Dict (ℕ × View))
      → length d ≤ max
      → younger k d + n < max
      → (d' : Dict (ℕ × View)) × (put max ttl now k view d ≡ some d')
        × Stands max k (now + ttl, view) n d'
  unfolding younger
  put-Stands max ttl now n k view [] bound room = (
    insert k (now + ttl, view) [],
    put_kept max ttl now k view [] [] (make_room_empty max k (omega arith)),
    (
      lookup-insert_self k (now + ttl, view) [],
      omega (arith, younger-insert_self k (now + ttl, view) [], room),
      omega (arith, room, length-insert k (now + ttl, view) []),
    ),
  )
  put-Stands max ttl now n k view ((i, w) ∷ d) bound room =
      let v : ℕ × View = (now + ttl, view) in
      elim (Bool-cases (leb max (length ((i, w) ∷ d)) && not (has_entry k ((i, w) ∷ d)))) [
        | inl full ↦ (
          insert k v d,
          put_kept max ttl now k view ((i, w) ∷ d) d ((room_made max k (i, w) d).0 full),
          (
            lookup-insert_self k v d,
            ground (arith, younger-insert_self k v d, room, first_other full),
            omega (arith, bound, length-insert k v d),
          ),
        )
        | inr free ↦ (
          insert k v ((i, w) ∷ d),
          put_kept max ttl now k view ((i, w) ∷ d) ((i, w) ∷ d) ((room_made max k (i, w) d).1 free),
          (
            lookup-insert_self k v ((i, w) ∷ d),
            omega (arith, younger-insert_self k v ((i, w) ∷ d), room),
            ground
                (arith, bound, length-insert k v ((i, w) ∷ d), length-insert_held k v ((i, w) ∷ d)),
          ),
        )
      ]
    where
      first_other :
          (leb max (length ((i, w) ∷ d)) && not (has_entry k ((i, w) ∷ d))) ≡ true
          → text_eq i k ≡ false
      first_other full = unfold has_entry lookup in ground arith

  -- On a cache that keeps its bound, a view is stored for a tenant, and any calls for other tenants
  -- follow, at any times. Where these store fewer than the bound allows, counting with them the
  -- entries younger than the tenant's entry before, if it had one (a refreshed entry keeps its
  -- place): no call raises, the bound is kept, and the view is still served until its time to live
  -- has passed, and nothing is after that. And where the tenant is invalidated before those calls,
  -- none of them raises, and nothing is served for it at any time.
  pub get-run_cache-put :
      (max ttl now : ℕ) (k : Text) (view : View) (d : Dict (ℕ × View))
      (calls : List (CacheCall View))
      → length d ≤ max
      → younger k d + puts_in calls < max
      → All (λ call. text_eq (tenant_of call) k ≡ false) calls
      → (d1 : Dict (ℕ × View)) × (d2 : Dict (ℕ × View)) × (d3 : Dict (ℕ × View)) × (put max ttl now
            k view d
          ≡ some d1)
        × (run_cache max ttl calls d1 ≡ some d2)
        × (length d2 ≤ max)
        × ((later : ℕ) → (get later k d2).0 ≡ (if ltb (now + ttl) later then none else some view))
        × (run_cache max ttl calls (invalidate_entry k d1) ≡ some d3)
        × (length d3 ≤ max)
        × ((later : ℕ) → (get later k d3).0 ≡ none)
  unfolding invalidate_entry get unexpired
  get-run_cache-put max ttl now k view d calls bound room others =
      let (d1, stored, stands) = put-Stands max ttl now (puts_in calls) k view d bound room in
      let (d2, ran, (found, _, held)) =
        Stands-run max ttl k (now + ttl, view) calls d1 others stands in
      let (d3, ran', (missing, held')) =
        Missing-run max ttl k calls (erase k d1) others (omega arith) (
          ground (arith, lookup-erase k k d1, text_eq_refl k),
          omega (arith, stands.2, length-erase k d1),
        ) in
      (
        d1,
        d2,
        d3,
        stored,
        ran,
        held,
        λ later. rw found (ground arith),
        ran',
        held',
        λ later. rw missing refl,
      )
