-- ===== src/Entities/Replay.antt =====
-- internal/entity/store.go: runs of Create and Update, and the map of current versions that they stand for.
use mathlib.Core.Option
use open_praxis.Entities.Entity.{Db, Entity, Error, Result, err, key_conflict, not_found, ok}
use open_praxis.Entities.Store.{create, get, update_entity}
use open_praxis.Prelude.{List, Option, String, [], if◌then◌else◌, is_empty, none, some, ◌==◌, ◌∷◌}

-- A call of Create or of Update, with the time that it reads.
pub data Op : Type 0 where
  create_op : String → String → String → String → String → List String → String → String → Op
  update_op : String → String → String → String → List String → String → String → Op

abbrev pub time_of : Op → String
time_of (create_op now uid type title status tags by reason) = now
time_of (update_op now uid title status tags by reason) = now

abbrev error_of : Result Entity → Option Error
error_of (ok e) = none
error_of (err x) = some x

unfoldable pub step : Op → Db → Db × Option Error
step (create_op now uid type title status tags by reason) db =
    let out = create now uid type title status tags by reason db in (out.0, error_of out.1)
step (update_op now uid title status tags by reason) db =
    update_entity now uid title status tags by reason db

-- The database after the calls, and their errors.
unfoldable pub run : List Op → Db → Db × List (Option Error)
unfolding step
run [] db = (db, [])
run (op ∷ ops) db = let rest = run ops (step op db).0 in (rest.0, (step op db).1 ∷ rest.1)

-- The map from an entity's uid to its current version.
abbrev pub Versions : Type 0
Versions = String → Option Entity

unfoldable pub put : String → Entity → Versions → Versions
put uid e m u = if uid == u then some e else m u

unfoldable pub step_map : Op → Versions → Versions × Option Error
unfolding put
step_map (create_op now uid type title status tags by reason) m = elim (m uid) [
  | some old ↦ (m, some key_conflict)
  | none ↦ (
    put uid
        (record {
          row_id = 0;
          entity_uid = uid;
          type = type;
          title = title;
          status = if is_empty status then "draft" else status;
          tags = tags;
          valid_from = now;
          valid_to = "";
          changed_by = by;
          change_reason = reason;
          created_at = now;
        })
        m,
    none,
  )
]
step_map (update_op now uid title status tags by reason) m = elim (m uid) [
  | some old ↦ (
    put uid
        (record {
          row_id = 0;
          entity_uid = uid;
          type = old.type;
          title = title;
          status = status;
          tags = tags;
          valid_from = now;
          valid_to = "";
          changed_by = by;
          change_reason = reason;
          created_at = old.created_at;
        })
        m,
    none,
  )
  | none ↦ (m, some not_found)
]

unfoldable pub replay : List Op → Versions → Versions × List (Option Error)
unfolding step_map
replay [] m = (m, [])
replay (op ∷ ops) m =
    let rest = replay ops (step_map op m).0 in (rest.0, (step_map op m).1 ∷ rest.1)

-- A version without the number of its row.
abbrev pub unnumbered : Entity → Entity
unnumbered e = record e { row_id = 0 }

unfoldable pub versions : Db → Versions
versions db uid = Option.map unnumbered (get uid db)
