-- ===== src/Importer/Records/Clean.antt =====
-- Which records the validation of backend/import_service/validation.py lets through.
use snack_portal.Common.{
  ◌≤◌, ◌≡◌, ◌↔◌, refl, sym, ap, false, Option, none, some, [], ◌∷◌, All, any, length, arith,
}
use snack_portal.Common.Text.{Text}
use snack_portal.Common.Dict.{Dict, lookup}
use snack_portal.Importer.Records.{
  Value, null, str, primitive, other, RawRecord, ImportRecord, accepted, Classifier, accept_record,
  field_error, first_error, is_blank, is_control, personal_fields, text_error, validate,
  validate_keyed, value_text,
}

-- A supported value: a text has at most 10000 characters and no control character but tab and the line
-- ends.
abbrev pub IsClean : Value → Type 0
IsClean null = Unit {0}
IsClean (str t) = (length t ≤ 10000) × (any is_control t ≡ false)
IsClean (primitive t) = Unit {0}
IsClean (other t) = ⊥

field_error-IsClean : (key : Text) (v : Value) → (field_error key v ≡ none) ↔ IsClean v
unfolding field_error text_error
field_error-IsClean key null = (λ h. tt, λ h. refl)
field_error-IsClean key (str t) = (λ h. (ground arith, ground arith), λ h. ground arith)
field_error-IsClean key (primitive t) = (λ h. tt, λ h. refl)
field_error-IsClean key (other t) = (λ h. cc, λ h. absurd h)

first_error-IsClean :
    (fields : Dict Value) → (first_error fields ≡ none) ↔ All (λ f. IsClean f.1) fields
unfolding first_error
first_error-IsClean [] = (λ h. tt, λ h. refl)
first_error-IsClean ((k, v) ∷ fields) = (
  λ h. ((field_error-IsClean k v).0 (ground arith), (first_error-IsClean fields).0 (ground arith)),
  λ h. rw ((field_error-IsClean k v).1 h.0, first_error) ((first_error-IsClean fields).1 h.1),
)

-- The record that is made of a raw one with a natural key.
abbrev pub record_of : Classifier → RawRecord → Value → ImportRecord
record_of classifier raw v = record {
  natural_key = value_text v;
  fields = raw.content;
  pii_fields = personal_fields classifier raw.content;
  source_ref = raw.source_ref;
}

keyed :
    (classifier : Classifier) (raw : RawRecord) (key : Text) (found : Option Value)
    (r : ImportRecord)
    → validate_keyed classifier raw key found ≡ accepted r
    → (v : Value) × (found ≡ some v)
      × (is_blank v ≡ false)
      × (first_error raw.content ≡ none)
      × (r ≡ record_of classifier raw v)
unfolding validate_keyed accept_record
keyed classifier raw key none r h = absurd (cc)
keyed classifier raw key (some v) r h = (v, refl, ground arith, ground arith, ground arith)

-- A raw record is accepted exactly when its natural key is there and neither none nor empty and all its
-- fields are supported values without control characters and of at most 10000 characters; what is
-- accepted has the text of the key, all the fields as they came, and the reference to the source.
pub validate-IsClean :
    (classifier : Classifier) (raw : RawRecord) (key : Text) (r : ImportRecord)
    → (validate classifier raw key ≡ accepted r) ↔ (
        (v : Value) × (lookup key raw.content ≡ some v)
        × (is_blank v ≡ false)
        × All (λ f. IsClean f.1) raw.content
        × (r ≡ record_of classifier raw v))
unfolding validate
validate-IsClean classifier raw key r = (
  λ h.
      let (v, found, full, clean, same) = keyed classifier raw key (lookup key raw.content) r h in
      (v, found, full, (first_error-IsClean raw.content).0 clean, same),
  λ (v, found, full, clean, same).
      unfold validate_keyed in
      rw found (
        rw full (
          unfold accept_record in
          rw ((first_error-IsClean raw.content).1 clean) (ap accepted (sym same)))),
)
