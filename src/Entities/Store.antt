-- ===== src/Entities/Store.antt =====
-- internal/entity/store.go: the operations of the store of entities. A write takes the time that it
-- reads and returns the database that it leaves.
use open_praxis.Entities.Entity.{
  Db, Entity, Error, Result, err, has_status, has_type, is_current, is_current_of, is_valid_at,
  key_conflict, newest_created, newest_version, not_found, ok, status_draft,
}
use open_praxis.Prelude.{
  Bool, List, Option, String, [], any, concat, contains, first, if◌then◌else◌, is_empty, negsuc,
  none, pos, select, some, sort_by, suc, take, update, zero, ℤ, ◌&&◌, ◌++◌, ◌==◌, ◌∷◌,
}

-- The unique index on entity_uid of the rows with `valid_to = ''`.
unfoldable pub insert : Entity → Db → Option Db
insert row db =
    if any (is_current_of row.entity_uid) db.rows
    then none
    else some (record {
      rows = db.rows ++ record row { row_id = suc db.last_id } ∷ [];
      last_id = suc db.last_id;
    })

abbrev pub new_entity :
    String → String → String → String → String → List String → String → String → Entity
new_entity now uid type title status tags by reason = record {
  row_id = 0;
  entity_uid = uid;
  type = type;
  title = title;
  status = if is_empty status then status_draft else status;
  tags = tags;
  valid_from = now;
  valid_to = "";
  changed_by = by;
  change_reason = reason;
  created_at = now;
}

-- `uid` is the UUID that the library makes. The entity that Create returns has no row_id.
unfoldable pub create :
    String
    → String
    → String
    → String
    → String
    → List String
    → String
    → String
    → Db
    → Db × Result Entity
unfolding insert
create now uid type title status tags by reason db =
    elim (insert (new_entity now uid type title status tags by reason) db) [
      | none ↦ (db, err key_conflict)
      | some after ↦ (after, ok (new_entity now uid type title status tags by reason))
    ]

unfoldable pub get : String → Db → Option Entity
get uid db = first (is_current_of uid) db.rows

-- The first row of a query, nil when it has none.
unfoldable pub scan_entity : List Entity → Option Entity
scan_entity [] = none
scan_entity (e ∷ es) = some e

unfoldable pub get_at : String → String → Db → Option Entity
unfolding scan_entity newest_version
get_at uid as_of db =
    scan_entity
      (sort_by newest_version (select (λ e. e.entity_uid == uid && is_valid_at as_of e) db.rows))

-- `if limit > 0 { query += " LIMIT ?" }`
unfoldable pub limited : ℤ → List Entity → List Entity
limited (negsuc n) es = es
limited (pos zero) es = es
limited (pos (suc n)) es = take (suc n) es

unfoldable pub list : String → String → ℤ → Db → List Entity
unfolding has_type has_status limited newest_created
list type status limit db = limited limit (
    sort_by newest_created
      (select (λ e. is_current e && (has_type type e && has_status status e)) db.rows))

unfoldable pub list_as_of : String → String → ℤ → Db → List Entity
unfolding has_type limited newest_created
list_as_of type as_of limit db =
    limited limit
      (sort_by newest_created (select (λ e. is_valid_at as_of e && has_type type e) db.rows))

abbrev pub close : String → Entity → Entity
close now e = record e { valid_to = now }

-- The row that Update inserts in the place of `old`.
abbrev pub next_version :
    String → String → String → String → List String → String → String → Entity → Entity
next_version now uid title status tags by reason old = record old {
  row_id = 0;
  entity_uid = uid;
  title = title;
  status = status;
  tags = tags;
  valid_from = now;
  valid_to = "";
  changed_by = by;
  change_reason = reason;
}

unfoldable pub update_entity :
    String → String → String → String → List String → String → String → Db → Db × Option Error
unfolding get insert
update_entity now uid title status tags by reason db = elim (get uid db) [
  | none ↦ (db, some not_found)
  | some old ↦
      elim (insert (next_version now uid title status tags by reason old)
        (record db { rows = update (is_current_of uid) (close now) db.rows })) [
          | none ↦ (db, some key_conflict)
          | some after ↦ (after, none)
        ]
]

unfoldable pub history : String → Db → List Entity
unfolding newest_version
history uid db = sort_by newest_version (select (λ e. e.entity_uid == uid) db.rows)

unfoldable pub list_by_ids : List String → Db → List Entity
list_by_ids [] db = []
list_by_ids (id ∷ ids) db = select (λ e. contains (id ∷ ids) e.entity_uid && is_current e) db.rows

unfoldable pub list_by_types : List String → String → ℤ → Db → List Entity
unfolding has_status limited newest_created
list_by_types [] status limit db = []
list_by_types (t ∷ types) status limit db = limited limit (
    sort_by newest_created
      (select (λ e. is_current e && (contains (t ∷ types) e.type && has_status status e)) db.rows))

-- `like` is SQLite's LIKE, `trim` is strings.TrimSpace.
unfoldable pub search :
    (String → String → Bool) → (String → String) → String → String → ℤ → Db → List Entity
unfolding has_type limited newest_created
search like trim query type limit db = limited limit (
    sort_by newest_created (
      select
        (λ e.
          is_current e && (like (concat "%" (concat (trim query) "%")) e.title && has_type type e))
        db.rows))
