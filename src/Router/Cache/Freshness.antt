-- ===== src/Router/Cache/Freshness.antt =====
-- How much backend/database_router/cache.py holds, and the room that a `put` makes.
use snack_portal.Common.{
  ℕ, suc, ◌+◌, ◌≤◌, ◌<◌, ◌≡◌, refl, ap, inl, inr, true, false, ◌&&◌, not, none, some, [], ◌∷◌, leb,
  length, Bool-cases, arith,
}
use snack_portal.Common.Text.{Text}
use snack_portal.Common.Dict.{Dict, lookup, insert}
use snack_portal.Router.Cache.{has_entry, drop_oldest, make_room, put}

module _ {View : Type 0} where
  pub length-insert :
      (k : Text) (v : ℕ × View) (d : Dict (ℕ × View)) → length (insert k v d) ≤ suc (length d)
  unfolding insert
  length-insert k v [] = omega arith
  length-insert k v ((j, w) ∷ d) = ground (arith, length-insert k v d)

  pub length-insert_held :
      (k : Text) (v : ℕ × View) (d : Dict (ℕ × View))
      → has_entry k d ≡ true
      → length (insert k v d) ≡ length d
  unfolding insert has_entry lookup
  length-insert_held k v [] h = absurd (cc)
  length-insert_held k v ((j, w) ∷ d) h = ground (arith, length-insert_held k v d)

  pub put_kept :
      (max ttl now : ℕ) (k : Text) (view : View) (d kept : Dict (ℕ × View))
      → make_room max k d ≡ some kept
      → put max ttl now k view d ≡ some (insert k (now + ttl, view) kept)
  unfolding put
  put_kept max ttl now k view d kept h =
      ap (elim [ none ↦ none | some r ↦ some (insert k (now + ttl, view) r) ]) h

  pub room_made :
      (max : ℕ) (k : Text) (e : Text × (ℕ × View)) (d : Dict (ℕ × View))
      → ((leb max (length (e ∷ d)) && not (has_entry k (e ∷ d))) ≡ true
          → make_room max k (e ∷ d) ≡ some d)
        × ((leb max (length (e ∷ d)) && not (has_entry k (e ∷ d))) ≡ false
            → make_room max k (e ∷ d) ≡ some (e ∷ d))
  unfolding make_room drop_oldest
  room_made max k e d = (λ h. rw h refl, λ h. rw h refl)

  pub put_room :
      (max ttl now : ℕ) (k : Text) (view : View) (d : Dict (ℕ × View))
      → 0 < max
      → length d ≤ max
      → (kept : Dict (ℕ × View)) × (put max ttl now k view d
          ≡ some (insert k (now + ttl, view) kept))
        × (length (insert k (now + ttl, view) kept) ≤ max)
  unfolding put make_room drop_oldest
  put_room max ttl now k view [] positive bound =
      ([], ground arith, omega (arith, positive, length-insert k (now + ttl, view) []))
  put_room max ttl now k view (e ∷ d) positive bound =
      elim (Bool-cases (leb max (length (e ∷ d)) && not (has_entry k (e ∷ d)))) [
        | inl full ↦ (
          d,
          put_kept max ttl now k view (e ∷ d) d ((room_made max k e d).0 full),
          omega (arith, bound, length-insert k (now + ttl, view) d),
        )
        | inr room ↦ (
          e ∷ d,
          put_kept max ttl now k view (e ∷ d) (e ∷ d) ((room_made max k e d).1 room),
          ground (
            arith,
            bound,
            length-insert k (now + ttl, view) (e ∷ d),
            length-insert_held k (now + ttl, view) (e ∷ d),
          ),
        )
      ]
