-- ===== src/Settings/Catalog.antt =====
-- internal/settings/catalog.go: the knobs, and the check of a value before it is stored. `F` is the
-- type float64.
use open_praxis.Prelude.{
  Bool, List, Option, String, [], contains, false, first, if◌then◌else◌, none, some, true, ℤ, ◌++◌,
  ◌==◌, ◌∷◌,
}

-- What encoding/json leaves in an `interface{}`, as far as the package looks into it: an item of an
-- array is its text, and `none` where it is not a string.
pub data Json (F : Type 0) : Type 0 where
  null_json : Json F
  bool_json : Bool → Json F
  number_json : F → Json F
  text_json : String → Json F
  array_json : List (Option String) → Json F
  object_json : Json F

-- What the package uses of encoding/json and of float64: Unmarshal into an interface{}, a float64, a
-- string and a slice, `none` where it returns an error.
pub record JsonLib (F : Type 0) : Type 0 where
  pub parse : String → Option (Json F)
  pub parse_number : String → Option F
  pub parse_text : String → Option String
  pub parse_array : String → Option (List (Option String))
  pub truncate : F → ℤ
  pub is_whole : F → Bool
  pub float_lt : F → F → Bool

pub data KnobType : Type 0 where
  int_knob float_knob string_knob enum_knob multiselect_knob : KnobType
  other_knob : String → KnobType

-- A typed value, as decodeValue returns it and as the catalog has it for a default.
pub data Value (F : Type 0) : Type 0 where
  int_value : ℤ → Value F
  float_value : F → Value F
  text_value : String → Value F
  texts_value : List String → Value F

-- KnobDef without the fields that only the dashboard reads.
pub record Knob (F : Type 0) : Type 0 where
  pub key : String
  pub knob_type : KnobType
  pub slider_min : Option F
  pub slider_max : Option F
  pub enum_values : List String
  pub default : Value F

-- The hard errors of ValidateValue.
pub data ValueError : Type 0 where
  no_such_key type_mismatch enum_out_of_range : ValueError

-- The warnings of sliderWarnings, without their texts.
pub data Warning : Type 0 where
  above_max below_min : Warning

pub data Checked : Type 0 where
  accepted : List Warning → Checked
  refused : ValueError → Checked

abbrev pub all_texts : List (Option String) → Bool
all_texts [] = true
all_texts (none ∷ items) = false
all_texts (some s ∷ items) = all_texts items

module _ {F : Type 0} where
  unfoldable pub is_knob : String → Knob F → Bool
  is_knob key k = k.key == key

  unfoldable pub knob_by_key : List (Knob F) → String → Option (Knob F)
  knob_by_key catalog key = first (is_knob key) catalog

  abbrev pub validate_string : Json F → Checked
  validate_string (text_json s) = accepted []
  validate_string j = refused type_mismatch

  abbrev pub validate_enum : Knob F → Json F → Checked
  validate_enum knob (text_json s) =
      if contains knob.enum_values s then accepted [] else refused enum_out_of_range
  validate_enum knob j = refused type_mismatch

  abbrev pub validate_multiselect : Json F → Checked
  validate_multiselect (array_json js) = if all_texts js then accepted [] else refused type_mismatch
  validate_multiselect j = refused type_mismatch

module _ {F : Type 0} (lib : JsonLib F) where
  abbrev pub too_large : Option F → F → List Warning
  too_large none n = []
  too_large (some bound) n = if lib.float_lt bound n then above_max ∷ [] else []

  abbrev pub too_small : Option F → F → List Warning
  too_small none n = []
  too_small (some bound) n = if lib.float_lt n bound then below_min ∷ [] else []

  abbrev pub slider_warnings : Knob F → F → List Warning
  slider_warnings knob n = too_large knob.slider_max n ++ too_small knob.slider_min n

  abbrev pub validate_int : Knob F → Json F → Checked
  validate_int knob (number_json n) =
      if lib.is_whole n then accepted (slider_warnings knob n) else refused type_mismatch
  validate_int knob j = refused type_mismatch

  abbrev pub validate_float : Knob F → Json F → Checked
  validate_float knob (number_json n) = accepted (slider_warnings knob n)
  validate_float knob j = refused type_mismatch

  -- The switch on the type of the knob.
  abbrev pub validate_typed : KnobType → Knob F → Json F → Checked
  validate_typed int_knob knob j = validate_int knob j
  validate_typed float_knob knob j = validate_float knob j
  validate_typed string_knob knob j = validate_string j
  validate_typed enum_knob knob j = validate_enum knob j
  validate_typed multiselect_knob knob j = validate_multiselect j
  validate_typed (other_knob name) knob j = refused type_mismatch

  unfoldable pub validate_value : List (Knob F) → String → String → Checked
  validate_value catalog key json = elim (knob_by_key catalog key) [
    | none ↦ refused no_such_key
    | some knob ↦ elim (lib.parse json) [
      | none ↦ refused type_mismatch
      | some j ↦ validate_typed knob.knob_type knob j
    ]
  ]
