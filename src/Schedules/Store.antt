-- ===== src/Schedules/Store.antt =====
-- internal/schedule/store.go: the operations of the store. Each write takes the time that `nowUTC`
-- reads and returns the database that it leaves.
use open_praxis.Prelude.{
  Bool, List, Option, String, [], count, false, first, if◌then◌else◌, int_lt, int_suc, is_empty,
  non_positive, none, not, pos, select, some, sort_by, suc, text_le, text_lt, update, ℕ, ℤ, ◌&&◌,
  ◌++◌, ◌==◌, ◌||◌, ◌∷◌,
}
use open_praxis.Schedules.Schedule.{
  Db, Error, Result, Schedule, bad_as_of, bad_id, empty_entity_id, err, has_id, invalid_kind,
  is_armed, is_current, is_of, is_valid_at, nil_input, ok, valid_kind, validate_create,
}

-- The row that Create inserts and returns.
unfoldable pub new_row : String → ℤ → Schedule → Schedule
new_row now id s = record s {
  id = id;
  timezone = if is_empty s.timezone then "UTC" else s.timezone;
  valid_from = if is_empty s.valid_from then now else s.valid_from;
  valid_to = "";
  created_at = now;
}

-- A nil pointer is `none`.
unfoldable pub create : String → Option Schedule → Db → Db × Result Schedule
unfolding new_row
create now none db = (db, err nil_input)
create now (some s) db = elim (validate_create s) [
  | some x ↦ (db, err x)
  | none ↦
      let row = new_row now (pos (suc db.last_id)) s in
      (record { rows = db.rows ++ row ∷ []; last_id = suc db.last_id }, ok row)
]

abbrev pub by_run_at : Schedule → Schedule → Bool
by_run_at a b = text_le a.run_at b.run_at

unfoldable pub list_current : String → String → Db → Result (List Schedule)
list_current kind id db =
    if is_empty id
    then err empty_entity_id
    else if not (valid_kind kind)
    then err invalid_kind
    else ok (sort_by by_run_at (select (λ s. is_of kind id s && is_current s) db.rows))

-- `ORDER BY valid_from DESC`
unfoldable pub list_history : String → String → Db → Result (List Schedule)
list_history kind id db =
    if is_empty id
    then err empty_entity_id
    else if not (valid_kind kind)
    then err invalid_kind
    else ok (sort_by (λ a b. text_le b.valid_from a.valid_from) (select (is_of kind id) db.rows))

abbrev pub close_row : String → String → String → Schedule → Schedule
close_row now reason by s = record s { valid_to = now; created_by = by; reason = reason }

unfoldable pub close : String → ℤ → String → String → Db → Db × Option Error
close now id reason by db = if non_positive id then (db, some bad_id) else (
  record db { rows = update (λ s. has_id id s && is_current s) (close_row now reason by) db.rows },
  none,
)

-- `is_rfc3339` stands for `time.Parse(time.RFC3339Nano, s)` returning no error.
unfoldable pub validate_as_of : (String → Bool) → String → Option Error
validate_as_of is_rfc3339 as_of =
    if is_empty as_of then none else if is_rfc3339 as_of then none else some bad_as_of

-- `as_of` is the time in the format of the store, and empty for Go's zero time.
unfoldable pub list_as_of : (String → Bool) → String → String → String → Db → Result (List Schedule)
unfolding validate_as_of list_current
list_as_of is_rfc3339 as_of kind id db =
    if is_empty id
    then err empty_entity_id
    else if not (valid_kind kind)
    then err invalid_kind
    else elim (validate_as_of is_rfc3339 as_of) [
      | some x ↦ err x
      | none ↦
          if is_empty as_of
          then list_current kind id db
          else ok (sort_by by_run_at (select (λ s. is_of kind id s && is_valid_at as_of s) db.rows))
    ]

unfoldable pub get : ℤ → Db → Result (Option Schedule)
get id db = if non_positive id then err bad_id else ok (first (has_id id) db.rows)

-- `ORDER BY id ASC`
unfoldable pub list_all_current : Db → List Schedule
list_all_current db = sort_by (λ a b. not (int_lt b.id a.id)) (select is_armed db.rows)

-- `valid_to = '' AND (cron_expr = '' OR cron_expr = 'once') AND run_at != '' AND run_at < ?`
unfoldable pub is_stale : String → Schedule → Bool
is_stale now s =
    is_current s
    && ((is_empty s.cron_expr || s.cron_expr == "once")
        && (not (is_empty s.run_at) && text_lt s.run_at now))

abbrev pub close_stale : String → Schedule → Schedule
close_stale now s = record s { valid_to = now; reason = "stale-one-shot-cleanup" }

unfoldable pub close_stale_one_shots : String → Db → Db × ℕ
unfolding is_stale
close_stale_one_shots now db = (
  record db { rows = update (is_stale now) (close_stale now) db.rows },
  count (is_stale now) db.rows,
)

-- `SET runs_so_far = runs_so_far + 1, enabled = CASE WHEN max_runs > 0 AND
-- runs_so_far + 1 >= max_runs THEN 0 ELSE enabled END`
unfoldable pub mark_row : Schedule → Schedule
mark_row s = record s {
  runs_so_far = int_suc s.runs_so_far;
  enabled =
      if int_lt (pos 0) s.max_runs && not (int_lt (int_suc s.runs_so_far) s.max_runs)
      then false
      else s.enabled;
}

unfoldable pub mark_fired : ℤ → Db → Db × Option Error
unfolding mark_row
mark_fired id db =
    if non_positive id
    then (db, some bad_id)
    else (record db { rows = update (λ s. has_id id s && is_current s) mark_row db.rows }, none)
