-- ===== src/Lineage/Verify/Tamper.antt =====
-- What the verification of backend/lineage_service/verification.py finds.
use snack_portal.Common.{
  ℕ, ◌≡◌, ◌≢◌, ◌⊎◌, refl, sym, ◌∙◌, inl, inr, false, Option, some, List, [], ◌∷◌, ◌++◌, length,
  Bool-cases, arith,
}
use snack_portal.Common.Text.{Text}
use snack_portal.Lineage.Canonical.{
  LineageRow, Digest, canonical_content, compute_marker, join, marker_for, v1_fields,
}
use snack_portal.Lineage.Canonical.Injective.{IsPlain, join_injective}
use snack_portal.Lineage.Verify.{check_rows, has_none, version_of}
use snack_portal.Lineage.Verify.Chain.{IsChain, check_rows-IsChain}

-- The row of a chain at the end of a part of it.
chain_at :
    (digest : Digest) (key prev : Text) (n : Option ℕ) (a : List LineageRow) (r : LineageRow)
    (b : List LineageRow)
    → IsChain digest key prev n (a ++ r ∷ b)
    → marker_for digest key r r.prev_marker (version_of r) ≡ some r.integrity_marker
chain_at digest key prev n [] r b h = h.0
chain_at digest key prev n (x ∷ a) r b (_, _, _, h) =
    chain_at digest key x.integrity_marker (some x.seq) a r b h

marker_v1 :
    (digest : Digest) (key : Text) (r : LineageRow) (m : Text)
    → version_of r ≡ 1
    → marker_for digest key r r.prev_marker (version_of r) ≡ some m
    → digest.hmac key (join (r.prev_marker ∷ v1_fields digest r)) ≡ m
unfolding marker_for canonical_content compute_marker
marker_v1 digest key r m v h = ground arith

fields_length :
    (digest : Digest) (r q : LineageRow)
    → length (r.prev_marker ∷ v1_fields digest r) ≡ length (q.prev_marker ∷ v1_fields digest q)
unfolding v1_fields
fields_length digest r q = refl

-- A collision of the keyed hash: two texts that it does not tell apart.
abbrev pub IsCollision : Digest → Text → Text → Text → Type 0
IsCollision digest key s t = (s ≢ t) × (digest.hmac key s ≡ digest.hmac key t)

-- A row of a chain is overwritten, in its serialised fields or its link, and its stored marker
-- stands; all serialised fields are free of the separator. Wherever it stands then, and whatever
-- stands around it, the verification finds it, or the old and the new content are a collision of the
-- keyed hash under the chain's key.
pub overwritten-found :
    (digest : Digest) (key prev : Text) (n : Option ℕ) (a b a' b' : List LineageRow)
    (r r' : LineageRow)
    → IsPlain (r.prev_marker ∷ v1_fields digest r)
    → IsPlain (r'.prev_marker ∷ v1_fields digest r')
    → version_of r ≡ 1
    → version_of r' ≡ 1
    → r'.integrity_marker ≡ r.integrity_marker
    → r'.prev_marker ∷ v1_fields digest r' ≢ r.prev_marker ∷ v1_fields digest r
    → IsChain digest key prev n (a ++ r ∷ b)
    → (has_none (check_rows digest key prev n (a' ++ r' ∷ b')) ≡ false)
      ⊎ IsCollision digest key
          (join (r'.prev_marker ∷ v1_fields digest r'))
          (join (r.prev_marker ∷ v1_fields digest r))
overwritten-found digest key prev n a b a' b' r r' plain plain' v v' stood changed chain =
    elim (Bool-cases (has_none (check_rows digest key prev n (a' ++ r' ∷ b')))) [
      | inr found ↦ inl found
      | inl none_found ↦
          let h = marker_v1 digest key r _ v (chain_at digest key prev n a r b chain) in
          let h' = marker_v1 digest key r' _ v' (
            chain_at digest key prev n a' r' b'
              ((check_rows-IsChain digest key prev n (a' ++ r' ∷ b')).0 none_found)) in
          inr (
            λ same. changed (
                join_injective (r'.prev_marker ∷ v1_fields digest r')
                  (r.prev_marker ∷ v1_fields digest r) plain' plain (fields_length digest r' r)
                  same),
            h' ∙ (stood ∙ sym h),
          )
    ]

-- Without its row, the chain has a gap in its numbers.
gap :
    (digest : Digest) (key prev prev' : Text) (n : ℕ) (a : List LineageRow) (r q : LineageRow)
    (b : List LineageRow)
    → IsChain digest key prev (some n) (a ++ r ∷ q ∷ b)
    → ¬ IsChain digest key prev' (some n) (a ++ q ∷ b)
gap digest key prev prev' n [] r q b (_, _, s, (_, _, t, _)) (_, _, u, _) = omega arith
gap digest key prev prev' n (x ∷ a) r q b (_, _, _, h) (_, _, _, g) =
    gap digest key x.integrity_marker x.integrity_marker x.seq a r q b h g

-- A row that is taken out between two others of a chain is found, whatever the hash.
pub removed-found :
    (digest : Digest) (key prev : Text) (n : Option ℕ) (x : LineageRow) (a : List LineageRow)
    (r q : LineageRow) (b : List LineageRow)
    → IsChain digest key prev n (x ∷ a ++ r ∷ q ∷ b)
    → has_none (check_rows digest key prev n (x ∷ a ++ q ∷ b)) ≡ false
removed-found digest key prev n x a r q b chain =
    elim (Bool-cases (has_none (check_rows digest key prev n (x ∷ a ++ q ∷ b)))) [
      | inr found ↦ found
      | inl none_found ↦
          let chain' = (check_rows-IsChain digest key prev n (x ∷ a ++ q ∷ b)).0 none_found in
          absurd
            (gap digest key x.integrity_marker x.integrity_marker x.seq a r q b chain.3 chain'.3)
    ]
