-- ===== src/Importer/Service/Slices.antt =====
-- The slices of the records of an import of backend/import_service/service.py.
use snack_portal.Common.{
  ℕ, suc, zero, ◌+◌, ◌≤◌, ◌<◌, ◌≡◌, refl, ap, ◌∙◌, List, [], ◌∷◌, ◌++◌, length, All, arith,
}
use snack_portal.Lineage.Session.{take}
use snack_portal.Importer.Records.{ImportRecord}
use snack_portal.Importer.Jobs.{batches_of, drop_records, slices}

-- The records of batches, one batch after the other.
abbrev pub joined : List (List ImportRecord) → List ImportRecord
joined [] = []
joined (b ∷ bs) = b ++ joined bs

pub take-drop_records : (n : ℕ) (l : List ImportRecord) → take n l ++ drop_records n l ≡ l
unfolding take drop_records
take-drop_records zero l = refl
take-drop_records (suc n) [] = refl
take-drop_records (suc n) (r ∷ l) = ap (λ t. r ∷ t) (take-drop_records n l)

pub length-drop_records : (n : ℕ) (l : List ImportRecord) → length (drop_records n l) ≤ length l
unfolding drop_records
length-drop_records zero l = omega arith
length-drop_records (suc n) [] = omega arith
length-drop_records (suc n) (r ∷ l) = omega (arith, length-drop_records n l)

pub length-take_records : (n : ℕ) (l : List ImportRecord) → length (take n l) ≤ n
unfolding take
length-take_records zero l = omega arith
length-take_records (suc n) [] = omega arith
length-take_records (suc n) (r ∷ l) = omega (arith, length-take_records n l)

pub slices-joined :
    (rounds k : ℕ) (valid : List ImportRecord)
    → length valid ≤ rounds
    → (joined (slices rounds (suc k) valid) ≡ valid)
      × All (λ b. (0 < length b) × (length b ≤ suc k)) (slices rounds (suc k) valid)
unfolding slices take drop_records
slices-joined zero k [] h = (refl, tt)
slices-joined zero k (r ∷ valid) h = absurd (omega arith)
slices-joined (suc rounds) k [] h = (refl, tt)
slices-joined (suc rounds) k (r ∷ valid) h =
    let (whole, sized) =
      slices-joined rounds k (drop_records k valid) (omega (arith, length-drop_records k valid)) in
    (
      ap (λ t. (r ∷ take k valid) ++ t) whole ∙ ap (λ t. r ∷ t) (take-drop_records k valid),
      ((omega arith, omega (arith, length-take_records k valid)), sized),
    )

-- With batches of at least one record, the batches are the records in their order, none is empty and
-- none is longer than the batch size.
pub batches_of-joined :
    (k : ℕ) (valid : List ImportRecord)
    → (joined (batches_of (suc k) valid) ≡ valid)
      × All (λ b. (0 < length b) × (length b ≤ suc k)) (batches_of (suc k) valid)
unfolding batches_of
batches_of-joined k valid = slices-joined (length valid) k valid (omega arith)

pub length-joined :
    (batch : List ImportRecord) (pending : List (List ImportRecord))
    → length (batch ++ joined pending) ≡ length batch + length (joined pending)
length-joined [] pending = omega arith
length-joined (r ∷ batch) pending = omega (arith, length-joined batch pending)
