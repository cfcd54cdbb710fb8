-- ===== src/Settings/Tests.antt =====
-- Runs of the settings' store and resolver, and the theorems at concrete inputs.
use mathlib.Core.Path.{subst}
use open_praxis.Prelude.{
  Bool-cases, List, Memᴰ, Option, String, [], arith, count, eq_iff, false, first, if◌then◌else◌,
  inl, inr, ltb, none, pos, refl, select, some, sort_by, true, ℕ, ◌==◌, ◌∷◌, ◌≡◌, ◌≤◌,
}
use open_praxis.Settings.Catalog.{
  JsonLib, Knob, below_min, enum_knob, int_knob, int_value, is_knob, knob_by_key, number_json,
  text_json, text_value, validate_value,
}
use open_praxis.Settings.Inherit.{resolve_all-eq-resolve}
use open_praxis.Settings.Keys.{HasUniqueKeys, get-set, writes-keep_keys}
use open_praxis.Settings.Resolver.{Lookup, Resolved, Scope, decode_value, resolve, resolve_all}
use open_praxis.Settings.Store.{Table, get, in_scope, is_at, new_entry, ok, set, validate_scope}
use open_praxis.Settings.Stored.{JsonLaws, resolve-set}

-- A reader of JSON that knows one number, and takes every other text for a string.
abbrev tiny_json : JsonLib ℕ
tiny_json = record {
  parse = λ s. if s == "7" then some (number_json 7) else some (text_json s);
  parse_number = λ s. if s == "7" then some 7 else none;
  parse_text = λ s. if s == "7" then none else some s;
  parse_array = λ s. none;
  truncate = λ n. pos n;
  is_whole = λ n. true;
  float_lt = ltb;
}

tiny_laws : JsonLaws tiny_json
tiny_laws = record {
  number = λ s n h. elim (Bool-cases (s == "7")) [
    | inl seven ↦ rw seven (cc (rw seven at h))
    | inr other ↦ cc (rw other at h)
  ];
  text = λ s u h. elim (Bool-cases (s == "7")) [
    | inl seven ↦ cc (rw seven at h)
    | inr other ↦ rw other (cc (rw other at h))
  ];
  array = λ s items h. elim (Bool-cases (s == "7")) [
    | inl seven ↦ cc (rw seven at h)
    | inr other ↦ cc (rw other at h)
  ];
}

abbrev max_turns : Knob ℕ
max_turns = record {
  key = "max_turns";
  knob_type = int_knob;
  slider_min = some 10;
  slider_max = some 10000;
  enum_values = [];
  default = int_value (pos 50);
}

abbrev approval_mode : Knob ℕ
approval_mode = record {
  key = "approval_mode";
  knob_type = enum_knob;
  slider_min = none;
  slider_max = none;
  enum_values = "auto" ∷ "manual" ∷ "on-failure" ∷ [];
  default = text_value "auto";
}

abbrev two_knobs : List (Knob ℕ)
two_knobs = max_turns ∷ approval_mode ∷ []

two_knobs_distinct : (key : String) → count (is_knob key) two_knobs ≤ 1
unfolding count is_knob
two_knobs_distinct key = elim (Bool-cases ("max_turns" == key)) [
  | inl same ↦
      subst (λ k. count (is_knob k) two_knobs ≤ 1) ((eq_iff "max_turns" key).0 same) (omega arith)
  | inr other ↦ ground (arith, other)
]

-- The task t1 belongs to the manifest m1, and that to the product p1.
abbrev task_lookup : Lookup
task_lookup = some (λ id. if id == "t1" then some "m1" else none)

abbrev manifest_lookup : Lookup
manifest_lookup = some (λ id. if id == "m1" then some "p1" else none)

abbrev of_task : Scope
of_task = record { product_id = ""; manifest_id = ""; task_id = "t1" }

abbrev empty_table : Table
empty_table = []

-- The manifest overrides the turns.
abbrev overridden : Table
overridden = (set (pos 0) "manifest" "m1" "max_turns" "7" "alice" empty_table).0

empty-HasUniqueKeys : HasUniqueKeys empty_table
unfolding count
empty-HasUniqueKeys a b c = omega arith

overridden-HasUniqueKeys : HasUniqueKeys overridden
overridden-HasUniqueKeys =
    (writes-keep_keys (pos 0) "manifest" "m1" "max_turns" "7" "alice" empty_table
      empty-HasUniqueKeys).0

get-set_example :
    (get "task" "t1" "max_turns" (set (pos 1) "task" "t1" "max_turns" "7" "bob" overridden).0
      ≡ ok (some (new_entry (pos 1) "task" "t1" "max_turns" "7" "bob")))
    × (is_at "manifest" "m1" "max_turns" (new_entry (pos 1) "task" "t1" "max_turns" "7" "bob")
          ≡ false
        → get "manifest" "m1" "max_turns"
            (set (pos 1) "task" "t1" "max_turns" "7" "bob" overridden).0
          ≡ get "manifest" "m1" "max_turns" overridden)
unfolding set
get-set_example =
    get-set (pos 1) "task" "t1" "max_turns" "7" "bob" overridden "manifest" "m1" "max_turns" refl

abbrev all_of_task : String → Option (Resolved ℕ)
all_of_task key =
    if "approval_mode" == key
    then some (record {
      key = "approval_mode";
      value = text_value "auto";
      source = "system";
      source_id = "";
    })
    else if "max_turns" == key
    then some (record {
      key = "max_turns";
      value = int_value (pos 7);
      source = "manifest";
      source_id = "m1";
    })
    else none

resolve_all-eq-resolve_example :
    (r : Resolved ℕ) × (resolve tiny_json two_knobs task_lookup manifest_lookup of_task "max_turns"
        overridden
      ≡ ok r)
    × (all_of_task "max_turns" ≡ some r)
unfolding resolve_all validate_scope sort_by select set in_scope knob_by_key first is_knob
resolve_all-eq-resolve_example =
    resolve_all-eq-resolve tiny_json two_knobs task_lookup manifest_lookup of_task overridden
      all_of_task max_turns overridden-HasUniqueKeys refl (Memᴰ.head refl) two_knobs_distinct

resolve-set_example :
    (r : Resolved ℕ) × (resolve tiny_json two_knobs task_lookup manifest_lookup of_task "max_turns"
        (set (pos 1) "task" "t1" "max_turns" "7" "bob" overridden).0
      ≡ ok r)
    × (r.source ≡ "task")
    × (r.source_id ≡ "t1")
    × ((knob : Knob ℕ) × (knob_by_key two_knobs "max_turns" ≡ some knob)
        × (decode_value tiny_json knob "7" ≡ ok r.value))
unfolding validate_value knob_by_key first is_knob
resolve-set_example =
    resolve-set tiny_json tiny_laws two_knobs task_lookup manifest_lookup (pos 1) "t1" "max_turns"
      "7" "bob" (below_min ∷ []) overridden refl refl
