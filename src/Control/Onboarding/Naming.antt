-- ===== src/Control/Onboarding/Naming.antt =====
-- The secret reference that a tenant id gives rise to (backend/control_plane/onboarding.py).
use snack_portal.Common.{
  ℕ, ◌≡◌, ◌↔◌, refl, sym, ap, inl, inr, ◌∙◌, subst, true, false, ◌==◌, some, [], ◌∷◌, ◌++◌,
  Option-cases, all, arith,
}
use snack_portal.Common.Text.{
  Text, text, has_char, strip_prefix, strip_suffix, strip_prefix-append, strip_prefix_sound,
  strip_suffix-append, strip_suffix_sound,
}
use snack_portal.Control.Registry.{is_id_char, is_identifier}
use snack_portal.Control.Onboarding.{tenant_dsn_ref, plain_id, tenant_id_from_dsn_ref}

id_char_no_slash : (c : ℕ) → is_id_char c ≡ true → (b'/' == c) ≡ false
unfolding is_id_char
id_char_no_slash c h = ground arith

id_no_slash : (i : Text) → all is_id_char i ≡ true → has_char b'/' i ≡ false
unfolding has_char
id_no_slash [] h = refl
id_no_slash (c ∷ i) h = ground (arith, id_char_no_slash c, id_no_slash i)

plain_identifier : (i : Text) → is_identifier i ≡ true → plain_id i ≡ some i
unfolding plain_id is_identifier
plain_identifier i h = ground (arith, id_no_slash i)

plain_id_sound : (s i : Text) → plain_id s ≡ some i → s ≡ i
unfolding plain_id
plain_id_sound s i h = ground arith

pub from_dsn_ref_sound : (r i : Text) → tenant_id_from_dsn_ref r ≡ some i → r ≡ tenant_dsn_ref i
unfolding tenant_id_from_dsn_ref tenant_dsn_ref
from_dsn_ref_sound r i h = elim (Option-cases (strip_prefix (text "tenant/") r)) [
  | inl gone ↦ absurd (cc)
  | inr (rest, a) ↦ elim (Option-cases (strip_suffix (text "/dsn") rest)) [
    | inl gone ↦ absurd (cc)
    | inr (inner, b) ↦
        let e : inner ≡ i = plain_id_sound inner i (cc) in
        strip_prefix_sound (text "tenant/") r rest a
        ∙ ap (λ t. text "tenant/" ++ t)
            (strip_suffix_sound (text "/dsn") rest inner b ∙ ap (λ t. t ++ text "/dsn") e)
  ]
]

from_stages :
    (r rest inner i : Text)
    → strip_prefix (text "tenant/") r ≡ some rest
    → strip_suffix (text "/dsn") rest ≡ some inner
    → plain_id inner ≡ some i
    → tenant_id_from_dsn_ref r ≡ some i
unfolding tenant_id_from_dsn_ref
from_stages r rest inner i a b c = ground (arith, a, b, c)

from_dsn_ref_complete :
    (i : Text) → is_identifier i ≡ true → tenant_id_from_dsn_ref (tenant_dsn_ref i) ≡ some i
unfolding tenant_dsn_ref
from_dsn_ref_complete i h =
    from_stages (tenant_dsn_ref i) (i ++ text "/dsn") i i
      (strip_prefix-append (text "tenant/") (i ++ text "/dsn"))
      (strip_suffix-append i (text "/dsn")) (plain_identifier i h)

-- For an id that the registry admits, the parser of secret references gives that id back for exactly
-- one reference: the canonical one. So no other reference passes for a tenant's own.
pub tenant_id_from_dsn_ref-tenant_dsn_ref :
    (r i : Text)
    → is_identifier i ≡ true
    → (tenant_id_from_dsn_ref r ≡ some i) ↔ (r ≡ tenant_dsn_ref i)
tenant_id_from_dsn_ref-tenant_dsn_ref r i h = (
  from_dsn_ref_sound r i,
  λ e. subst (λ q. tenant_id_from_dsn_ref q ≡ some i) (sym e) (from_dsn_ref_complete i h),
)
