-- ===== src/Lineage/Canonical/Injective.antt =====
-- The canonical content of backend/lineage_service/canonical.py determines the fields that it is made
-- of, where none has the separator in it.
use snack_portal.Common.{◌≢◌, ◌≡◌, refl, ap, false, some, List, [], ◌∷◌, ◌++◌, length, All, arith}
use snack_portal.Common.Text.{Text, has_char}
use snack_portal.Lineage.Canonical.{LineageRow, Digest, canonical_content, join, v1_fields}

-- No part has the unit separator in it.
abbrev pub IsPlain : List Text → Type 0
IsPlain parts = All (λ p. has_char 31 p ≡ false) parts

split_unique :
    (p q x y : Text)
    → has_char 31 p ≡ false
    → has_char 31 q ≡ false
    → p ++ 31 ∷ x ≡ q ++ 31 ∷ y
    → (p ≡ q) × (x ≡ y)
unfolding has_char
split_unique [] [] x y hp hq e = (refl, cc)
split_unique [] (b ∷ q) x y hp hq e = absurd (ground arith)
split_unique (a ∷ p) [] x y hp hq e = absurd (ground arith)
split_unique (a ∷ p) (b ∷ q) x y hp hq e =
    let (s, t) = split_unique p q x y (ground arith) (ground arith) (cc) in (ground arith, t)

ending : (p q x : Text) → has_char 31 p ≡ false → p ≢ q ++ 31 ∷ x
unfolding has_char
ending [] [] x h e = cc
ending [] (b ∷ q) x h e = cc
ending (a ∷ p) [] x h e = absurd (ground arith)
ending (a ∷ p) (b ∷ q) x h e = ending p q x (ground arith) (cc)

pub join_injective :
    (ps qs : List Text)
    → IsPlain ps
    → IsPlain qs
    → length ps ≡ length qs
    → join ps ≡ join qs
    → ps ≡ qs
unfolding join
join_injective [] [] hp hq l e = refl
join_injective [] (q ∷ qs) hp hq l e = absurd (omega arith)
join_injective (p ∷ ps) [] hp hq l e = absurd (omega arith)
join_injective (p ∷ []) (q ∷ []) hp hq l e = ap (λ t. t ∷ []) e
join_injective (p ∷ []) (q ∷ q' ∷ qs) hp hq l e = absurd (omega arith)
join_injective (p ∷ p' ∷ ps) (q ∷ []) hp hq l e = absurd (omega arith)
join_injective (p ∷ p' ∷ ps) (q ∷ q' ∷ qs) (hp, hps) (hq, hqs) l e =
    let (s, t) = split_unique p q (join (p' ∷ ps)) (join (q' ∷ qs)) hp hq e in
    let rest = join_injective (p' ∷ ps) (q' ∷ qs) hps hqs (omega arith) t in cc

-- Where the markers before and all serialised fields are free of the separator, two records of version
-- 1 with one canonical content have the same marker before and the same serialised fields.
pub canonical_content_injective :
    (digest : Digest) (r q : LineageRow) (prev prev' : Text)
    → IsPlain (prev ∷ v1_fields digest r)
    → IsPlain (prev' ∷ v1_fields digest q)
    → canonical_content digest r prev 1 ≡ canonical_content digest q prev' 1
    → (prev ≡ prev') × (v1_fields digest r ≡ v1_fields digest q)
unfolding canonical_content v1_fields
canonical_content_injective digest r q prev prev' hr hq e =
    let same : prev ∷ v1_fields digest r ≡ prev' ∷ v1_fields digest q =
      join_injective (prev ∷ v1_fields digest r) (prev' ∷ v1_fields digest q) hr hq refl
        (some_inj _ _ e) in
    (head_of same, tail_of same)
  where
    some_inj : (a b : Text) → some a ≡ some b → a ≡ b
    some_inj a b h = cc

    head_of : {a b : Text} {l m : List Text} → a ∷ l ≡ b ∷ m → a ≡ b
    head_of h = cc

    tail_of : {a b : Text} {l m : List Text} → a ∷ l ≡ b ∷ m → l ≡ m
    tail_of h = cc
