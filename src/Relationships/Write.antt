-- ===== src/Relationships/Write.antt =====
-- The operations that change the table. Each takes the time that `nowUTC` reads and returns the
-- table that it leaves with the error it returns, if any. A transaction that fails is rolled back.
use open_praxis.Prelude.{
  List, Option, String, [], any, if◌then◌else◌, is_empty, none, not, some, update, ◌++◌, ◌||◌, ◌∷◌,
}
use open_praxis.Relationships.Edge.{
  Edge, Error, Table, check_edge, empty_id, invalid_kind, is_current_edge, key_conflict, same_key,
  valid_edge_kind, validate_backfill_edge,
}

-- `INSERT INTO relationships`, which the primary key refuses for a second row of one key.
unfoldable pub insert_row : Edge → Table → Option Table
insert_row e t = if any (same_key e) t then none else some (t ++ e ∷ [])

abbrev pub finish : Table → Option Table → Table × Option Error
finish before none = (before, some key_conflict)
finish before (some after) = (after, none)

abbrev pub close : String → Edge → Edge
close now r = record r { valid_to = now }

-- Step 1 of Create: the prior current row gets its valid_to.
unfoldable pub close_prior : String → Edge → Table → Table
close_prior now e = update (is_current_edge e.src_id e.dst_id e.kind) (close now)

-- The row that Create inserts.
unfoldable pub fresh_row : String → Edge → Edge
fresh_row now e = record e {
  valid_from = if is_empty e.valid_from then now else e.valid_from;
  valid_to = "";
  created_at = now;
}

unfoldable pub create : String → Edge → Table → Table × Option Error
unfolding check_edge insert_row close_prior fresh_row
create now e t = elim (check_edge e) [
  | some x ↦ (t, some x)
  | none ↦ finish t (insert_row (fresh_row now e) (close_prior now e t))
]

abbrev pub stamp : String → Edge → Edge
stamp now e = record e { created_at = now }

unfoldable pub backfill_row : String → Edge → Table → Table × Option Error
unfolding validate_backfill_edge insert_row
backfill_row now e t = elim (validate_backfill_edge e) [
  | some x ↦ (t, some x)
  | none ↦ finish t (insert_row (stamp now e) t)
]

-- The error of the first edge that is refused.
unfoldable pub validate_all : List Edge → Option Error
unfolding validate_backfill_edge
validate_all [] = none
validate_all (e ∷ es) =
    let rest = validate_all es in elim (validate_backfill_edge e) [ some x ↦ some x | none ↦ rest ]

unfoldable pub insert_rows : String → List Edge → Table → Option Table
unfolding insert_row
insert_rows now [] t = some t
insert_rows now (e ∷ es) t = elim (insert_row (stamp now e) t) [
  | none ↦ none
  | some t' ↦ insert_rows now es t'
]

unfoldable pub backfill_bulk : String → List Edge → Table → Table × Option Error
unfolding validate_all insert_rows
backfill_bulk now edges t = elim (validate_all edges) [
  | some x ↦ (t, some x)
  | none ↦ finish t (insert_rows now edges t)
]

abbrev pub close_by : String → String → String → Edge → Edge
close_by now by reason r = record r { valid_to = now; created_by = by; reason = reason }

unfoldable pub remove :
    String → String → String → String → String → String → Table → Table × Option Error
remove now src dst kind by reason t =
    if is_empty src || is_empty dst
    then (t, some empty_id)
    else if not (valid_edge_kind kind)
    then (t, some invalid_kind)
    else (update (is_current_edge src dst kind) (close_by now by reason) t, none)
