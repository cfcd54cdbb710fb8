-- ===== src/Settings/Stored.antt =====
-- internal/settings: a value from ValidateValue through Set to Resolve.
use mathlib.Core.Bool.{false≢true}
use open_praxis.Prelude.{
  Bool-cases, List, Option, Option-cases, String, [], ap, eq_iff, false, inl, inr, is_empty,
  mem_of_first, none, refl, some, true, ℤ, ◌∙◌, ◌∷◌, ◌≡◌,
}
use open_praxis.Settings.Agree.{tier_hit}
use open_praxis.Settings.Catalog.{
  Json, JsonLib, Knob, KnobType, Value, Warning, accepted, all_texts, array_json, bool_json,
  enum_knob, float_knob, float_value, int_knob, int_value, is_knob, knob_by_key, multiselect_knob,
  null_json, number_json, object_json, other_knob, string_knob, text_json, text_value, texts_value,
  validate_enum, validate_float, validate_int, validate_multiselect, validate_string,
  validate_typed, validate_value,
}
use open_praxis.Settings.Inherit.{resolve_known}
use open_praxis.Settings.Keys.{get-set_self}
use open_praxis.Settings.Resolver.{
  Lookup, Resolved, Scope, decode_typed, decode_value, found, resolve, resolve_knob, texts_of,
}
use open_praxis.Settings.Store.{Entry, Table, get, new_entry, ok, set, validate_scope}

-- What encoding/json documents: a text that is a number, a string or an array as an interface{} is
-- that too as a float64, a string or a slice.
pub record JsonLaws {F : Type 0} (lib : JsonLib F) : Type 0 where
  pub number :
      (json : String) (n : F)
      → lib.parse json ≡ some (number_json n)
      → lib.parse_number json ≡ some n
  pub text : (json s : String) → lib.parse json ≡ some (text_json s) → lib.parse_text json ≡ some s
  pub array :
      (json : String) (items : List (Option String))
      → lib.parse json ≡ some (array_json items)
      → lib.parse_array json ≡ some items

all_texts_lem :
    (items : List (Option String))
    → all_texts items ≡ true
    → (ss : List String) × (texts_of items ≡ some ss)
all_texts_lem [] h = ([], refl)
all_texts_lem (none ∷ items) h = absurd (false≢true h)
all_texts_lem (some s ∷ items) h = let (ss, e) = all_texts_lem items h in (s ∷ ss, rw e refl)

module _ {F : Type 0} where
  knob_by_key_key :
      (catalog : List (Knob F)) (key : String) (knob : Knob F)
      → knob_by_key catalog key ≡ some knob
      → knob.key ≡ key
  unfolding knob_by_key is_knob
  knob_by_key_key catalog key knob known =
      (eq_iff knob.key key).0 (mem_of_first (is_knob key) catalog known).1

  text_of_string :
      (j : Json F) (warnings : List Warning)
      → validate_string j ≡ accepted warnings
      → (s : String) × (j ≡ text_json s)
  text_of_string (text_json s) warnings h = (s, refl)
  text_of_string null_json warnings h = cc
  text_of_string (bool_json b) warnings h = cc
  text_of_string (number_json n) warnings h = cc
  text_of_string (array_json items) warnings h = cc
  text_of_string object_json warnings h = cc

  text_of_enum :
      (knob : Knob F) (j : Json F) (warnings : List Warning)
      → validate_enum knob j ≡ accepted warnings
      → (s : String) × (j ≡ text_json s)
  text_of_enum knob (text_json s) warnings h = (s, refl)
  text_of_enum knob null_json warnings h = cc
  text_of_enum knob (bool_json b) warnings h = cc
  text_of_enum knob (number_json n) warnings h = cc
  text_of_enum knob (array_json items) warnings h = cc
  text_of_enum knob object_json warnings h = cc

  items_of_multiselect :
      (j : Json F) (warnings : List Warning)
      → validate_multiselect j ≡ accepted warnings
      → (items : List (Option String)) × (j ≡ array_json items) × (all_texts items ≡ true)
  items_of_multiselect (array_json items) warnings h = elim (Bool-cases (all_texts items)) [
    | inl good ↦ (items, refl, good)
    | inr bad ↦ cc (rw bad at h)
  ]
  items_of_multiselect null_json warnings h = cc
  items_of_multiselect (bool_json b) warnings h = cc
  items_of_multiselect (number_json n) warnings h = cc
  items_of_multiselect (text_json s) warnings h = cc
  items_of_multiselect object_json warnings h = cc

module _ {F : Type 0} (lib : JsonLib F) where
  number_of_int :
      (knob : Knob F) (j : Json F) (warnings : List Warning)
      → validate_int lib knob j ≡ accepted warnings
      → (n : F) × (j ≡ number_json n)
  number_of_int knob (number_json n) warnings h = (n, refl)
  number_of_int knob null_json warnings h = cc
  number_of_int knob (bool_json b) warnings h = cc
  number_of_int knob (text_json s) warnings h = cc
  number_of_int knob (array_json items) warnings h = cc
  number_of_int knob object_json warnings h = cc

  number_of_float :
      (knob : Knob F) (j : Json F) (warnings : List Warning)
      → validate_float lib knob j ≡ accepted warnings
      → (n : F) × (j ≡ number_json n)
  number_of_float knob (number_json n) warnings h = (n, refl)
  number_of_float knob null_json warnings h = cc
  number_of_float knob (bool_json b) warnings h = cc
  number_of_float knob (text_json s) warnings h = cc
  number_of_float knob (array_json items) warnings h = cc
  number_of_float knob object_json warnings h = cc

  found_decoded :
      (knob : Knob F) (e : Entry) (v : Value F)
      → decode_value lib knob e.value ≡ ok v
      → found lib e.scope_type e.scope_id knob e
        ≡ ok (record { key = knob.key; value = v; source = e.scope_type; source_id = e.scope_id })
  found_decoded knob e v decoded = rw (found, decoded) refl

  module _ (laws : JsonLaws lib) where
    decode_typed_lem :
        (type : KnobType) (knob : Knob F) (json : String) (j : Json F) (warnings : List Warning)
        → lib.parse json ≡ some j
        → validate_typed lib type knob j ≡ accepted warnings
        → (v : Value F) × (decode_typed lib type json ≡ some v)
    decode_typed_lem int_knob knob json j warnings parsed good =
        let (n, e) = number_of_int knob j warnings good in
        (
          int_value (lib.truncate n),
          rw (decode_typed, laws.number json n (parsed ∙ ap some e)) refl,
        )
    decode_typed_lem float_knob knob json j warnings parsed good =
        let (n, e) = number_of_float knob j warnings good in
        (float_value n, rw (decode_typed, laws.number json n (parsed ∙ ap some e)) refl)
    decode_typed_lem string_knob knob json j warnings parsed good =
        let (s, e) = text_of_string j warnings good in
        (text_value s, rw (decode_typed, laws.text json s (parsed ∙ ap some e)) refl)
    decode_typed_lem enum_knob knob json j warnings parsed good =
        let (s, e) = text_of_enum knob j warnings good in
        (text_value s, rw (decode_typed, laws.text json s (parsed ∙ ap some e)) refl)
    decode_typed_lem multiselect_knob knob json j warnings parsed good =
        let (items, e, texts) = items_of_multiselect j warnings good in
        let (ss, read) = all_texts_lem items texts in
        (texts_value ss, rw (decode_typed, laws.array json items (parsed ∙ ap some e), read) refl)
    decode_typed_lem (other_knob name) knob json j warnings parsed good = cc

    -- For a JSON reader that keeps the laws of encoding/json: a value that ValidateValue accepts
    -- for a key is of a knob of the catalog, and decodeValue decodes it for that knob.
    pub decode_value-validate_value :
        (catalog : List (Knob F)) (key json : String) (warnings : List Warning)
        → validate_value lib catalog key json ≡ accepted warnings
        → (knob : Knob F) × (knob_by_key catalog key ≡ some knob)
          × ((v : Value F) × (decode_value lib knob json ≡ ok v))
    unfolding validate_value decode_value
    decode_value-validate_value catalog key json warnings h =
        elim (Option-cases (knob_by_key catalog key)) [
          | inl missing ↦ cc (rw (missing, validate_value) at h)
          | inr (knob, known) ↦ elim (Option-cases (lib.parse json)) [
            | inl broken ↦ cc (rw (known, validate_value, broken) at h)
            | inr (j, parsed) ↦
                let (v, decoded) =
                  decode_typed_lem knob.knob_type knob json j warnings parsed
                    (rw (known, validate_value, parsed) at h) in
                (knob, known, (v, rw (decoded, decode_value) refl))
          ]
        ]

    -- For a JSON reader that keeps the laws of encoding/json: once Set has stored for a task a
    -- value that ValidateValue accepts, Resolve for that task returns what decodeValue makes of it
    -- for the knob of that key, and says that it comes from the task.
    pub resolve-set :
        (catalog : List (Knob F)) (tasks manifests : Lookup) (now : ℤ)
        (task_id key json updated_by : String) (warnings : List Warning) (t : Table)
        → validate_value lib catalog key json ≡ accepted warnings
        → is_empty task_id ≡ false
        → (r : Resolved F) × (resolve lib catalog tasks manifests
              (record { product_id = ""; manifest_id = ""; task_id = task_id })
              key
              (set now "task" task_id key json updated_by t).0
            ≡ ok r)
          × (r.source ≡ "task")
          × (r.source_id ≡ task_id)
          × ((knob : Knob F) × (knob_by_key catalog key ≡ some knob)
              × (decode_value lib knob json ≡ ok r.value))
    unfolding resolve_knob validate_scope
    resolve-set catalog tasks manifests now task_id key json updated_by warnings t good named =
        let (knob, known, (v, decoded)) =
          decode_value-validate_value catalog key json warnings good in
        let scope : Scope = record { product_id = ""; manifest_id = ""; task_id = task_id } in
        let after = (set now "task" task_id key json updated_by t).0 in
        (
          record { key = knob.key; value = v; source = "task"; source_id = task_id },
          resolve_known lib catalog tasks manifests scope after key knob known
              ∙ tier_hit lib "task" task_id knob after _
                  (new_entry now "task" task_id key json updated_by) named
                  (ap (λ k. get "task" task_id k after) (knob_by_key_key catalog key knob known)
                    ∙ get-set_self now "task" task_id key json updated_by t refl)
              ∙ found_decoded knob (new_entry now "task" task_id key json updated_by) v decoded,
          refl,
          refl,
          (knob, known, decoded),
        )
