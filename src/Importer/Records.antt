-- ===== src/Importer/Records.antt =====
-- The shapes of backend/import_service/models.py and the ingress validation of validation.py. The
-- search for an address or a phone number, and `str.lower`, are parameters.
pub mod Clean
use snack_portal.Common.{
  ℕ, Bool, true, false, ◌&&◌, ◌||◌, not, Option, none, some, List, [], ◌∷◌, ltb, ◌==◌, any, length,
  if◌then◌else◌,
}
use snack_portal.Common.Text.{Text, text, text_eq, is_empty}
use snack_portal.Common.Dict.{Dict, lookup}

-- A value of a raw record: none, a text, a number or a Boolean by its `str`, or anything else.
pub data Value : Type 0 where
  null : Value
  str : Text → Value
  primitive : Text → Value
  other : Text → Value

pub data SourceKind : Type 0 where
  directory csv json : SourceKind

pub data ImportMode : Type 0 where
  async sync : ImportMode

pub record SourceDescriptor : Type 0 where
  pub kind : SourceKind
  pub ref : Text
  pub payload : Option Text
  pub directory_kind : Option Text

pub record ImportRequest : Type 0 where
  pub tenant_id : Text
  pub source : SourceDescriptor
  pub mode : ImportMode
  pub operation_key : Text
  pub correlation_id : Text
  pub actor_ref : Text
  pub natural_key_field : Text
  pub target_table : Text

pub record RawRecord : Type 0 where
  pub content : Dict Value
  pub source_ref : Text

pub record ImportRecord : Type 0 where
  pub natural_key : Text
  pub fields : Dict Value
  pub pii_fields : List Text
  pub source_ref : Text

pub record ImportStatus : Type 0 where
  pub import_id : Text
  pub tenant_id : Text
  pub state : Text
  pub applied_count : ℕ
  pub noop_count : ℕ
  pub rejected_count : ℕ
  pub last_error_summary : Text
  pub correlation_id : Text
  pub replayed : Bool

pub data ValidationError : Type 0 where
  missing_natural_key : Text → ValidationError
  unsupported_type exceeds_max_length control_characters : Text → ValidationError

pub data Validated : Type 0 where
  accepted : ImportRecord → Validated
  invalid : ValidationError → Validated

-- What the field names and the values are searched by.
pub record Classifier : Type 0 where
  pub lower : Text → Text
  pub has_address_or_phone : Text → Bool

-- `value in (None, "")`
unfoldable pub is_blank : Value → Bool
is_blank null = true
is_blank (str t) = is_empty t
is_blank (primitive t) = false
is_blank (other t) = false

-- `str(value)`
unfoldable pub value_text : Value → Text
value_text null = text "None"
value_text (str t) = t
value_text (primitive t) = t
value_text (other t) = t

-- `ord(c) < 32 and c not in "\t\n\r"`
unfoldable pub is_control : ℕ → Bool
is_control c = ltb c 32 && not (c == 9 || (c == 10 || c == 13))

unfoldable pub text_error : Text → Text → Option ValidationError
text_error key t =
    if ltb 10000 (length t)
    then some (exceeds_max_length key)
    else if any is_control t
    then some (control_characters key)
    else none

unfoldable pub field_error : Text → Value → Option ValidationError
field_error key null = none
field_error key (str t) = text_error key t
field_error key (primitive t) = none
field_error key (other t) = some (unsupported_type key)

unfoldable pub pii_names : List Text
pii_names =
    text "email"
    ∷ text "phone"
    ∷ text "ssn"
    ∷ text "dob"
    ∷ text "address"
    ∷ text "name"
    ∷ text "full_name"
    ∷ []

unfoldable pub looks_personal : Classifier → Value → Bool
looks_personal classifier (str t) = classifier.has_address_or_phone t
looks_personal classifier _ = false

unfoldable pub is_pii : Classifier → Text → Value → Bool
is_pii classifier key value =
    any (text_eq (classifier.lower key)) pii_names || looks_personal classifier value

-- The loop over the fields: the first error, or the names of the personal ones.
unfoldable pub first_error : Dict Value → Option ValidationError
first_error [] = none
first_error ((key, value) ∷ fields) = elim (field_error key value) [
  | some error ↦ some error
  | none ↦ first_error fields
]

unfoldable pub personal_fields : Classifier → Dict Value → List Text
personal_fields classifier [] = []
personal_fields classifier ((key, value) ∷ fields) =
    if is_pii classifier key value
    then key ∷ personal_fields classifier fields
    else personal_fields classifier fields

unfoldable pub accept_record : Classifier → RawRecord → Value → Option ValidationError → Validated
accept_record classifier raw key_value (some error) = invalid error
accept_record classifier raw key_value none = accepted record {
  natural_key = value_text key_value;
  fields = raw.content;
  pii_fields = personal_fields classifier raw.content;
  source_ref = raw.source_ref;
}

unfoldable pub validate_keyed : Classifier → RawRecord → Text → Option Value → Validated
validate_keyed classifier raw natural_key_field none =
    invalid (missing_natural_key natural_key_field)
validate_keyed classifier raw natural_key_field (some value) =
    if is_blank value
    then invalid (missing_natural_key natural_key_field)
    else accept_record classifier raw value (first_error raw.content)

unfoldable pub validate : Classifier → RawRecord → Text → Validated
validate classifier raw natural_key_field =
    validate_keyed classifier raw natural_key_field (lookup natural_key_field raw.content)
