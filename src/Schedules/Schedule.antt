-- ===== src/Schedules/Schedule.antt =====
-- internal/schedule/store.go: a row of the `schedules` table and the validation of a new one.
use open_praxis.Prelude.{
  Bool, List, Option, String, if◌then◌else◌, int_eq, int_lt, is_blank, is_empty, none, not, pos,
  some, text_le, text_lt, ℕ, ℤ, ◌&&◌, ◌==◌, ◌||◌,
}

-- The sentinel errors, and those that the store makes inline.
pub data Error : Type 0 where
  invalid_kind empty_entity_id empty_run_at nil_input bad_id bad_as_of : Error

pub data Result (A : Type 0) : Type 0 where
  ok : A → Result A
  err : Error → Result A

pub record Schedule : Type 0 where
  pub id : ℤ
  pub entity_kind : String
  pub entity_id : String
  pub run_at : String
  pub cron_expr : String
  pub timezone : String
  pub max_runs : ℤ
  pub runs_so_far : ℤ
  pub stop_at : String
  pub enabled : Bool
  pub metadata : String
  pub valid_from : String
  pub valid_to : String
  pub created_by : String
  pub reason : String
  pub created_at : String

-- The table, and the greatest id that AUTOINCREMENT has given.
pub record Db : Type 0 where
  pub rows : List Schedule
  pub last_id : ℕ

abbrev pub valid_kind : String → Bool
valid_kind k = not (is_empty k)

unfoldable pub validate_create : Schedule → Option Error
unfolding is_blank
validate_create s =
    if is_empty s.entity_id
    then some empty_entity_id
    else if not (valid_kind s.entity_kind)
    then some invalid_kind
    else if is_blank s.run_at
    then some empty_run_at
    else none

unfoldable pub is_current : Schedule → Bool
is_current s = is_empty s.valid_to

unfoldable pub has_id : ℤ → Schedule → Bool
has_id id s = int_eq s.id id

-- `WHERE entity_id = ? AND entity_kind = ?`
unfoldable pub is_of : String → String → Schedule → Bool
is_of kind id s = s.entity_id == id && s.entity_kind == kind

-- `valid_from <= ? AND (valid_to > ? OR valid_to = '')`
unfoldable pub is_valid_at : String → Schedule → Bool
is_valid_at as_of s =
    text_le s.valid_from as_of && (text_lt as_of s.valid_to || is_empty s.valid_to)

-- `max_runs = 0 OR runs_so_far < max_runs`
unfoldable pub has_runs_left : Schedule → Bool
has_runs_left s = int_eq s.max_runs (pos 0) || int_lt s.runs_so_far s.max_runs

-- The rows that the runner registers: current, enabled and with runs left.
unfoldable pub is_armed : Schedule → Bool
unfolding has_runs_left
is_armed s = is_current s && (s.enabled && has_runs_left s)
