-- ===== src/Control/Registry/Admission.antt =====
-- Which registrations `register_tenant` of backend/control_plane/registry.py admits, and what it stores.
use snack_portal.Common.{
  ◌≡◌, ◌≢◌, ◌≤◌, ◌⊎◌, refl, ap, inl, inr, ℕ, true, false, Option, none, some, [], ◌∷◌, map, all,
  All, Bool-cases, arith,
}
use snack_portal.Common.Text.{Text, text, text_eq, ne_text_eq}
use snack_portal.Common.Dict.{lookup, lookup-insert_self}
use snack_portal.Control.Records.{TenantLifecycleState, SecretRef, TenantRecord}
use snack_portal.Control.World.{World, Result, ok, raised, Error, ◌>>=◌, interfere, Context}
use snack_portal.Control.Ports.{Ports}
use snack_portal.Control.Store.{get_tenant, put_tenant, record_audit}
use snack_portal.Control.Registry.{
  lower_char, is_reserved, is_id_char, is_identifier, create_tenant, return_or_create,
  register_tenant,
}

-- A lower-case letter, a digit or an underscore, by the number of the code point.
abbrev pub IsIdLetter : ℕ → Type 0
IsIdLetter c = ((97 ≤ c) × (c ≤ 122)) ⊎ ((48 ≤ c) × (c ≤ 57)) ⊎ (c ≡ 95)

-- The ids of tenants: not empty, of these letters, and not "control".
pub record IsAdmissible (i : Text) : Type 0 where
  not_empty : i ≢ []
  letters : All IsIdLetter i
  own_name : i ≢ text "control"

letter_of : (c : ℕ) → is_id_char c ≡ true → IsIdLetter c
unfolding is_id_char
letter_of c h = ground arith

letter_passes : (c : ℕ) → IsIdLetter c → is_id_char c ≡ true
unfolding is_id_char
letter_passes c h = ground arith

lower_letter : (c : ℕ) → IsIdLetter c → lower_char c ≡ c
lower_letter c h = ground arith

letters_of : (i : Text) → all is_id_char i ≡ true → All IsIdLetter i
letters_of [] h = tt
letters_of (c ∷ i) h = (letter_of c (ground arith), letters_of i (ground arith))

letters_pass : (i : Text) → All IsIdLetter i → all is_id_char i ≡ true
letters_pass [] h = refl
letters_pass (c ∷ i) (a, h) = ground (arith, letter_passes c a, letters_pass i h)

lower_letters : (i : Text) → All IsIdLetter i → map lower_char i ≡ i
lower_letters [] h = refl
lower_letters (c ∷ i) (a, h) = cc (lower_letter c a, lower_letters i h)

free_name : (i : Text) → All IsIdLetter i → i ≢ text "control" → is_reserved i ≡ false
unfolding is_reserved
free_name i h other =
    let e : text_eq (map lower_char i) (text "control") ≡ false =
      rw (lower_letters i h) (ne_text_eq i (text "control") other) in
    rw e refl

reserved_name : is_reserved (text "control") ≡ true
unfolding is_reserved text_eq
reserved_name = refl

admitted : (i : Text) → IsAdmissible i → (is_reserved i ≡ false) × (is_identifier i ≡ true)
unfolding is_identifier
admitted [] h = absurd (h.not_empty refl)
admitted (c ∷ i) h = (free_name (c ∷ i) h.letters h.own_name, letters_pass (c ∷ i) h.letters)

admissible : (i : Text) → is_reserved i ≡ false → is_identifier i ≡ true → IsAdmissible i
unfolding is_identifier
admissible [] a b = absurd (cc)
admissible (c ∷ i) a b = record {
  not_empty = λ e. cc;
  letters = letters_of (c ∷ i) b;
  own_name = λ e. cc (a, reserved_name, ap is_reserved e);
}

-- A call answers with the record that it leaves stored under the id: one that a read had found as
-- `o`, or where that read had found none, a Registered one at version 0.
abbrev pub Stores : Text → Option TenantRecord → Result TenantRecord × World → Type 0
Stores i o (r, w) =
    (rec : TenantRecord) × (r ≡ ok rec)
    × (lookup i w.shared.tenants ≡ some rec)
    × ((o ≡ some rec)
        ⊎ ((o ≡ none)
            × (rec.lifecycle_state ≡ TenantLifecycleState.registered)
            × (rec.version ≡ 0)))

module _ (ports : Ports) (ctx : Context) (i org schema : Text) (ref : SecretRef)
    (federation : Text) where
  stores :
      (o : Option TenantRecord) (w : World)
      → lookup i w.shared.tenants ≡ o
      → Stores i o (return_or_create ports ctx i org schema ref federation o w)
  unfolding return_or_create create_tenant record_audit put_tenant ◌>>=◌
  stores (some rec) w found = (rec, refl, found, inl refl)
  stores none w found = (_, refl, lookup-insert_self i _ _, inr (refl, refl, refl))

  -- A registration of an id that is not admissible (empty, with another character than a lower-case
  -- letter, a digit or an underscore, or "control") raises, and nothing changes: the registry is not
  -- even read. Any other registration is answered with a record, and that record is what is stored
  -- for the tenant behind it. It is the one that the read at the start found; or that read found
  -- none, and it is a Registered one at version 0, also where other writers have stored and advanced
  -- a record of that tenant in the meantime, which it replaces.
  pub register_tenant-IsAdmissible :
      (w : World)
      → (let out = register_tenant ports ctx i org schema ref federation w in
          (¬ IsAdmissible i → (e : Error) × (out ≡ (raised e, w)))
          × (IsAdmissible i → Stores i (lookup i (interfere w).shared.tenants) out))
  unfolding register_tenant get_tenant ◌>>=◌
  register_tenant-IsAdmissible w = (
    λ out_of. elim (Bool-cases (is_reserved i)) [
      | inl a ↦ (Error.reserved_identifier, rw a refl)
      | inr a ↦ elim (Bool-cases (is_identifier i)) [
        | inl b ↦ absurd (out_of (admissible i a b))
        | inr b ↦ (Error.malformed_identifier, rw (a, b) refl)
      ]
    ],
    λ h.
        let (a, b) = admitted i h in
        rw (a, b) (stores (lookup i (interfere w).shared.tenants) (interfere w) refl),
  )
