-- ===== src/Common/Text.antt =====
-- Python's `str` as the list of its code points, with the operations that the program uses.
use Prim.Native.Char.{code}
use Prim.Native.String.{String}
use Prim.Native.Nat.{ℕ, suc, ◌+◌}
use mathlib.Core.Path.{◌≡◌, refl, ap, sym}
use mathlib.Core.Logic.{◌↔◌, ◌≢◌, inl, inr}
use mathlib.Core.Bool.{Bool, true, false, ◌&&◌}
use mathlib.Core.Option.{Option, none, some}
use mathlib.Core.List.{List, [], ◌∷◌, ◌++◌}
use native.Mathlib.Omega.{arith}
use snack_portal.Common.Tests.{◌==◌, if◌then◌else◌, Bool-cases, Option-cases}

abbrev pub Text : Type 0
Text = List ℕ

-- The code points of a literal.
abbrev pub text : String → Text
text String.[] = []
text (String.◌∷◌ c s) = code c ∷ text s

-- `a == b`
unfoldable pub text_eq : Text → Text → Bool
text_eq [] [] = true
text_eq (a ∷ as') (b ∷ bs) = (a == b) && text_eq as' bs
text_eq _ _ = false

pub text_eq_refl : (a : Text) → text_eq a a ≡ true
unfolding text_eq
text_eq_refl [] = refl
text_eq_refl (x ∷ a) = ground (arith, text_eq_refl a)

pub text_eq_sound : (a b : Text) → text_eq a b ≡ true → a ≡ b
unfolding text_eq
text_eq_sound [] [] h = refl
text_eq_sound (x ∷ a) (y ∷ b) h = ground (arith, text_eq_sound a b)
text_eq_sound _ _ h = cc

pub text_eq_iff : (a b : Text) → (text_eq a b ≡ true) ↔ (a ≡ b)
text_eq_iff a b = (text_eq_sound a b, λ e. subst_refl e)
  where
    subst_refl : a ≡ b → text_eq a b ≡ true
    subst_refl e = rw (← e) (text_eq_refl a)

pub text_eq_ne : (a b : Text) → text_eq a b ≡ false → a ≢ b
text_eq_ne a b h e = cc (h, (text_eq_iff a b).1 e)

pub ne_text_eq : (a b : Text) → a ≢ b → text_eq a b ≡ false
ne_text_eq a b h = elim (Bool-cases (text_eq a b)) [
  | inl e ↦ absurd (h (text_eq_sound a b e))
  | inr e ↦ e
]

-- `not a`
abbrev pub is_empty : Text → Bool
is_empty [] = true
is_empty (_ ∷ _) = false

-- `c in s`, for one character
unfoldable pub has_char : ℕ → Text → Bool
has_char c [] = false
has_char c (x ∷ s) = if c == x then true else has_char c s

-- `s[len(prefix):]` where `s.startswith(prefix)`, and `none` elsewhere
unfoldable pub strip_prefix : Text → Text → Option Text
strip_prefix [] s = some s
strip_prefix (p ∷ ps) [] = none
strip_prefix (p ∷ ps) (c ∷ s) = if p == c then strip_prefix ps s else none

-- `s.startswith(prefix)`
abbrev pub starts_with : Text → Text → Bool
starts_with prefix s = elim (strip_prefix prefix s) [ none ↦ false | some _ ↦ true ]

pub strip_prefix-append : (p s : Text) → strip_prefix p (p ++ s) ≡ some s
unfolding strip_prefix
strip_prefix-append [] s = refl
strip_prefix-append (c ∷ p) s = ground (arith, strip_prefix-append p s)

pub strip_prefix_sound : (p s r : Text) → strip_prefix p s ≡ some r → s ≡ p ++ r
unfolding strip_prefix
strip_prefix_sound [] s r h = ground arith
strip_prefix_sound (c ∷ p) [] r h = cc
strip_prefix_sound (c ∷ p) (x ∷ s) r h = ground (arith, strip_prefix_sound p s r)

-- `s[:-len(suffix)]` where `s.endswith(suffix)`, and `none` elsewhere, for a suffix that is not empty
unfoldable pub strip_suffix : Text → Text → Option Text
strip_suffix suffix [] = if is_empty suffix then some [] else none
strip_suffix suffix (c ∷ s) =
    if text_eq suffix (c ∷ s)
    then some []
    else elim (strip_suffix suffix s) [ none ↦ none | some r ↦ some (c ∷ r) ]

pub cons_append_ne : (c : ℕ) (s t : Text) → (c ∷ s) ++ t ≢ t
cons_append_ne c s t e = length_clash (ap len e)
  where
    len : Text → ℕ
    len = elim [ [] ↦ 0 | x ∷ (xs → n) ↦ suc n ]

    len_append : (a b : Text) → len (a ++ b) ≡ len a + len b
    len_append [] b = omega arith
    len_append (x ∷ a) b = omega (arith, len_append a b)

    length_clash : len ((c ∷ s) ++ t) ≡ len t → ⊥
    length_clash h = omega (arith, len_append s t)

pub strip_suffix-append : (s suffix : Text) → strip_suffix suffix (s ++ suffix) ≡ some s
unfolding strip_suffix
strip_suffix-append [] [] = refl
strip_suffix-append [] (x ∷ suffix) = ground (arith, text_eq_refl (x ∷ suffix))
strip_suffix-append (c ∷ s) suffix = ground (
  arith,
  ne_text_eq suffix ((c ∷ s) ++ suffix) (λ e. cons_append_ne c s suffix (sym e)),
  strip_suffix-append s suffix,
)

pub strip_suffix_sound : (suffix s r : Text) → strip_suffix suffix s ≡ some r → s ≡ r ++ suffix
unfolding strip_suffix
strip_suffix_sound [] [] r h = ground arith
strip_suffix_sound (x ∷ suffix) [] r h = cc
strip_suffix_sound suffix (c ∷ s) r h = elim (Bool-cases (text_eq suffix (c ∷ s))) [
  | inl e ↦ ground (arith, text_eq_sound suffix (c ∷ s) e)
  | inr e ↦ elim (Option-cases (strip_suffix suffix s)) [
    | inl gone ↦ ground arith
    | inr (q, found) ↦ ground (arith, strip_suffix_sound suffix s q found)
  ]
]
