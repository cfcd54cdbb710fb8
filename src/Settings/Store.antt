-- ===== src/Settings/Store.antt =====
-- internal/settings/store.go and model.go: the table of explicit entries.
use open_praxis.Prelude.{
  Bool, List, Option, String, [], first, if◌then◌else◌, none, not, select, some, sort_by, text_le,
  text_lt, ℤ, ◌&&◌, ◌++◌, ◌==◌, ◌||◌, ◌∷◌,
}

pub data Error : Type 0 where
  invalid_scope_type unknown_key lookup_failed decode_failed : Error

pub data Result {ℓ} (A : Type ℓ) : Type ℓ where
  ok : A → Result A
  err : Error → Result A

-- The scope type is a text in Go too.
pub record Entry : Type 0 where
  pub scope_type : String
  pub scope_id : String
  pub key : String
  pub value : String
  pub updated_at : ℤ
  pub updated_by : String

abbrev pub Table : Type 0
Table = List Entry

unfoldable pub validate_scope : String → Option Error
validate_scope scope_type =
    if scope_type == "system"
      || (scope_type == "product" || (scope_type == "manifest" || scope_type == "task"))
    then none
    else some invalid_scope_type

-- `scope_type = ? AND scope_id = ?`
unfoldable pub in_scope : String → String → Entry → Bool
in_scope scope_type scope_id e = e.scope_type == scope_type && e.scope_id == scope_id

unfoldable pub has_name : String → Entry → Bool
has_name key e = e.key == key

-- `scope_type = ? AND scope_id = ? AND key = ?`, the primary key.
unfoldable pub is_at : String → String → String → Entry → Bool
is_at scope_type scope_id key e = has_name key e && in_scope scope_type scope_id e

-- sql.ErrNoRows is `none`.
unfoldable pub get : String → String → String → Table → Result (Option Entry)
unfolding validate_scope
get scope_type scope_id key t = elim (validate_scope scope_type) [
  | some x ↦ err x
  | none ↦ ok (first (is_at scope_type scope_id key) t)
]

abbrev pub new_entry : ℤ → String → String → String → String → String → Entry
new_entry now scope_type scope_id key value updated_by = record {
  scope_type = scope_type;
  scope_id = scope_id;
  key = key;
  value = value;
  updated_at = now;
  updated_by = updated_by;
}

-- INSERT OR REPLACE takes out the row with the primary key of the new one. `now` is the time that
-- time.Now reads.
unfoldable pub set : ℤ → String → String → String → String → String → Table → Table × Option Error
unfolding validate_scope
set now scope_type scope_id key value updated_by t = elim (validate_scope scope_type) [
  | some x ↦ (t, some x)
  | none ↦ (
    select (λ e. not (is_at scope_type scope_id key e)) t
        ++ new_entry now scope_type scope_id key value updated_by ∷ [],
    none,
  )
]

-- `ORDER BY key`
unfoldable pub list_scope : String → String → Table → Result (List Entry)
list_scope scope_type scope_id t = elim (validate_scope scope_type) [
  | some x ↦ err x
  | none ↦ ok (sort_by (λ a b. text_le a.key b.key) (select (in_scope scope_type scope_id) t))
]

unfoldable pub delete : String → String → String → Table → Table × Option Error
delete scope_type scope_id key t = elim (validate_scope scope_type) [
  | some x ↦ (t, some x)
  | none ↦ (select (λ e. not (is_at scope_type scope_id key e)) t, none)
]

-- `ORDER BY scope_type, scope_id`
unfoldable pub list_by_key : String → Table → List Entry
list_by_key key t =
    sort_by
      (λ a b.
        text_lt a.scope_type b.scope_type
        || (a.scope_type == b.scope_type && text_le a.scope_id b.scope_id))
      (select (has_name key) t)
