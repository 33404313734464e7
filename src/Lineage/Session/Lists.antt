-- ===== src/Lineage/Session/Lists.antt =====
-- Laws of the lists that the pages of backend/shared/session.py are cut from.
use snack_portal.Common.{
  ℕ, suc, zero, ◌≤◌, ◌<◌, ◌≡◌, refl, ap, Bool, true, false, List, [], ◌∷◌, ◌++◌, All, length, arith,
  Bool-cases, inl, inr,
}
use snack_portal.Lineage.Session.{take, select}

abbrev pub drop : {A : Type 0} → ℕ → List A → List A
drop zero l = l
drop (suc n) [] = []
drop (suc n) (x ∷ l) = drop n l

pub take-drop : {A : Type 0} (n : ℕ) (l : List A) → take n l ++ drop n l ≡ l
unfolding take
take-drop zero l = refl
take-drop (suc n) [] = refl
take-drop (suc n) (x ∷ l) = ap (λ t. x ∷ t) (take-drop n l)

pub length-take : {A : Type 0} (n : ℕ) (l : List A) → length l ≤ n → length (take n l) ≡ length l
unfolding take
length-take zero [] h = refl
length-take zero (x ∷ l) h = absurd (omega arith)
length-take (suc n) [] h = refl
length-take (suc n) (x ∷ l) h = omega (arith, length-take n l (omega arith))

pub take-all : {A : Type 0} (n : ℕ) (l : List A) → length l ≤ n → take n l ≡ l
unfolding take
take-all zero [] h = refl
take-all (suc n) [] h = refl
take-all zero (x ∷ l) h = absurd (omega arith)
take-all (suc n) (x ∷ l) h = ap (λ t. x ∷ t) (take-all n l (omega arith))

-- Where a page is shorter than its limit, nothing is left.
pub drop-short : {A : Type 0} (n : ℕ) (l : List A) → length (take n l) < n → drop n l ≡ []
unfolding take
drop-short zero l h = absurd (omega arith)
drop-short (suc n) [] h = refl
drop-short (suc n) (x ∷ l) h = drop-short n l (omega arith)

pub take-append : {A : Type 0} (n : ℕ) (l m : List A) → n ≤ length l → take n (l ++ m) ≡ take n l
unfolding take
take-append zero l m h = refl
take-append (suc n) [] m h = absurd (omega arith)
take-append (suc n) (x ∷ l) m h = ap (λ t. x ∷ t) (take-append n l m (omega arith))

-- A list with nothing after a split.
pub select-none :
    {A : Type 0} (p : A → Bool) (l : List A) → All (λ x. p x ≡ false) l → select p l ≡ []
unfolding select
select-none p [] h = refl
select-none p (x ∷ l) (e, h) = rw e (select-none p l h)

pub select-All : {A : Type 0} (p : A → Bool) (l : List A) → All (λ x. p x ≡ true) l → select p l ≡ l
unfolding select
select-All p [] h = refl
select-All p (x ∷ l) (e, h) = rw e (ap (λ t. x ∷ t) (select-All p l h))

pub select-append :
    {A : Type 0} (p : A → Bool) (l m : List A) → select p (l ++ m) ≡ select p l ++ select p m
unfolding select
select-append p [] m = refl
select-append p (x ∷ l) m = elim (Bool-cases (p x)) [
  | inl e ↦ rw e (ap (λ t. x ∷ t) (select-append p l m))
  | inr e ↦ rw e (select-append p l m)
]
