-- ===== src/Templates/Store.antt =====
-- internal/templates/store.go: the operations of the store. A write takes the time that it reads and
-- returns the database that it leaves.
use open_praxis.Prelude.{
  Bool, List, Option, String, [], any, if◌then◌else◌, is_empty, none, select, some, sort_by, suc,
  text_le, text_lt, update, ◌&&◌, ◌++◌, ◌==◌, ◌||◌, ◌∷◌,
}
use open_praxis.Templates.Template.{
  Db, Error, Result, Template, duplicate_override, empty_uid, err, is_active, is_active_at,
  is_live_of, is_open_of, key_conflict, missing_scope, newest_id, not_found, ok, scope_system,
  system_scope,
}

-- The first row of a query, sql.ErrNoRows when it has none.
unfoldable pub scan_row : List Template → Option Template
scan_row [] = none
scan_row (t ∷ ts) = some t

unfoldable pub get : String → String → String → Db → Option Template
unfolding scan_row newest_id
get scope scope_id section db =
    scan_row (sort_by newest_id (select (is_active_at scope scope_id section) db.rows))

unfoldable pub get_by_uid : String → Db → Option Template
unfolding scan_row newest_id
get_by_uid uid db =
    scan_row (sort_by newest_id (select (λ t. t.template_uid == uid && is_active t) db.rows))

-- `ORDER BY scope, scope_id, section, id DESC`
unfoldable pub by_place : Template → Template → Bool
unfolding newest_id
by_place a b =
    text_lt a.scope b.scope
    || (a.scope == b.scope
        && (text_lt a.scope_id b.scope_id
            || (a.scope_id == b.scope_id
                && (text_lt a.section b.section || (a.section == b.section && newest_id a b)))))

-- `AND column = ?`, where the filter is not empty.
abbrev pub filtered : String → String → Bool
filtered filter value = is_empty filter || value == filter

unfoldable pub list : String → String → Db → List Template
unfolding by_place
list scope section db =
    sort_by by_place
      (select (λ t. is_active t && (filtered scope t.scope && filtered section t.section)) db.rows)

unfoldable pub list_with_scope_id : String → String → String → Db → List Template
unfolding by_place
list_with_scope_id scope scope_id section db = sort_by by_place (
    select
      (λ t.
        is_active t
        && (filtered scope t.scope && (filtered scope_id t.scope_id && filtered section t.section)))
      db.rows)

-- `ORDER BY valid_from DESC, id DESC`
unfoldable pub newest_version : Template → Template → Bool
unfolding newest_id
newest_version a b =
    text_lt b.valid_from a.valid_from || (a.valid_from == b.valid_from && newest_id a b)

unfoldable pub history : String → Db → List Template
unfolding newest_version
history uid db = sort_by newest_version (select (λ t. t.template_uid == uid) db.rows)

-- `template_uid = ? AND deleted_at = '' AND valid_from <= ? AND (valid_to > ? OR valid_to = '')`
unfoldable pub was_active : String → String → Template → Bool
was_active uid time t =
    t.template_uid == uid
    && (is_empty t.deleted_at
        && (text_le t.valid_from time && (text_lt time t.valid_to || is_empty t.valid_to)))

unfoldable pub at_time : String → String → Db → Option Template
unfolding scan_row
at_time uid time db =
    scan_row
      (sort_by (λ a b. text_le b.valid_from a.valid_from) (select (was_active uid time) db.rows))

-- INSERT, under the unique index on template_uid of the rows with `valid_to = ''`.
unfoldable pub insert : Template → Db → Option Db
insert row db =
    if any (is_open_of row.template_uid) db.rows
    then none
    else some (record {
      rows = db.rows ++ record row { id = suc db.last_id } ∷ [];
      last_id = suc db.last_id;
    })

abbrev pub new_template :
    String → String → String → String → String → String → String → String → String → Template
new_template now uid scope scope_id section title body by reason = record {
  id = 0;
  template_uid = uid;
  title = if is_empty title then section else title;
  scope = scope;
  scope_id = scope_id;
  section = section;
  body = body;
  status = "open";
  tags = "[]";
  source_node = "";
  valid_from = now;
  valid_to = "";
  changed_by = by;
  reason = reason;
  created_at = now;
  deleted_at = "";
}

-- `uid` is the UUID that the library makes.
-- The INSERT of Create, a statement of its own after the SELECT of Get.
abbrev pub insert_override :
    String
    → String
    → String
    → String
    → String
    → String
    → String
    → String
    → String
    → Db
    → Db × Result String
insert_override now uid scope scope_id section title body by reason db =
    elim (insert (new_template now uid scope scope_id section title body by reason) db) [
      | none ↦ (db, err key_conflict)
      | some after ↦ (after, ok uid)
    ]

-- The two statements, with no other call between them.
unfoldable pub create :
    String
    → String
    → String
    → String
    → String
    → String
    → String
    → String
    → String
    → Db
    → Db × Result String
unfolding insert get
create now uid scope scope_id section title body by reason db =
    if is_empty scope || is_empty section
    then (db, err missing_scope)
    else if scope == scope_system
    then (db, err system_scope)
    else elim (get scope scope_id section db) [
      | some t ↦ (db, err duplicate_override)
      | none ↦ insert_override now uid scope scope_id section title body by reason db
    ]

abbrev pub close : String → Template → Template
close now t = record t { valid_to = now }

-- `INSERT … SELECT`: the row with another body.
abbrev pub revised : String → String → String → String → Template → Template
revised now body by reason t = record t {
  body = body;
  valid_from = now;
  valid_to = "";
  changed_by = by;
  reason = reason;
  created_at = now;
  deleted_at = "";
}

-- The newest row that was closed at `now`.
unfoldable pub closed_at : String → String → List Template → Option Template
unfolding scan_row newest_id
closed_at now uid rows =
    scan_row (sort_by newest_id (select (λ t. t.template_uid == uid && t.valid_to == now) rows))

unfoldable pub update_body_once :
    String → String → String → String → String → Db → Db × Option Error
unfolding closed_at insert
update_body_once now uid body by reason db =
    let closed : Db = record db { rows = update (is_open_of uid) (close now) db.rows } in
    if any (is_live_of uid) db.rows
    then elim (closed_at now uid closed.rows) [
      | none ↦ (closed, none)
      | some t ↦ elim (insert (revised now body by reason t) closed) [
        | none ↦ (db, some key_conflict)
        | some after ↦ (after, none)
      ]
    ]
    else (db, some not_found)

unfoldable pub update_body : String → String → String → String → String → Db → Db × Option Error
unfolding update_body_once
update_body now uid body by reason db =
    if is_empty uid then (db, some empty_uid) else update_body_once now uid body by reason db

-- `SET deleted_at = ?, valid_to = CASE WHEN valid_to = '' THEN ? ELSE valid_to END, …`
abbrev pub buried : String → String → String → Template → Template
buried now by reason t = record t {
  deleted_at = now;
  valid_to = if is_empty t.valid_to then now else t.valid_to;
  changed_by = by;
  reason = reason;
}

-- `template_uid = ? AND deleted_at = ''`
unfoldable pub is_undeleted_of : String → Template → Bool
is_undeleted_of uid t = t.template_uid == uid && is_empty t.deleted_at

unfoldable pub tombstone : String → String → String → String → Db → Db × Option Error
tombstone now uid by reason db = if is_empty uid then (db, some empty_uid) else (
  record db { rows = update (is_undeleted_of uid) (buried now by reason) db.rows },
  if any (is_undeleted_of uid) db.rows then none else some not_found,
)

abbrev pub shut : String → String → Template → Template
shut by reason t = record t { status = "closed"; changed_by = by; reason = reason }

unfoldable pub close_status : String → String → String → Db → Db × Option Error
close_status uid by reason db = if is_empty uid then (db, some empty_uid) else (
  record db { rows = update (is_live_of uid) (shut by reason) db.rows },
  if any (is_live_of uid) db.rows then none else some not_found,
)
