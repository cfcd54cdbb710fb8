-- ===== src/Entities/Nodes.antt =====
-- internal/entity/nodes.go: the links between nodes and entities.
use open_praxis.Prelude.{
  Bool, List, String, [], count, if◌then◌else◌, is_empty, ltb, select, sort_by, suc, text_le,
  update, ℕ, ◌&&◌, ◌++◌, ◌==◌, ◌∷◌,
}

pub record NodeEntity : Type 0 where
  pub row_id : ℕ
  pub node_id : String
  pub entity_uid : String
  pub valid_from : String
  pub valid_to : String
  pub changed_by : String
  pub change_reason : String
  pub created_at : String

pub record NodeDb : Type 0 where
  pub rows : List NodeEntity
  pub last_id : ℕ

-- `node_id = ? AND entity_uid = ? AND valid_to = ''`
unfoldable pub is_link : String → String → NodeEntity → Bool
is_link node uid r = r.node_id == node && (r.entity_uid == uid && is_empty r.valid_to)

abbrev pub new_link : String → ℕ → String → String → String → String → NodeEntity
new_link now id node uid by reason = record {
  row_id = id;
  node_id = node;
  entity_uid = uid;
  valid_from = now;
  valid_to = "";
  changed_by = by;
  change_reason = reason;
  created_at = now;
}

-- The INSERT of AddNodeEntity, a statement of its own after the SELECT.
abbrev pub insert_link : String → String → String → String → String → NodeDb → NodeDb
insert_link now node uid by reason db = record {
  rows = db.rows ++ new_link now (suc db.last_id) node uid by reason ∷ [];
  last_id = suc db.last_id;
}

-- The two statements, with no other call between them.
unfoldable pub add_node_entity : String → String → String → String → String → NodeDb → NodeDb
unfolding is_link
add_node_entity now node uid by reason db =
    if ltb 0 (count (is_link node uid) db.rows) then db else insert_link now node uid by reason db

abbrev pub unlink : String → String → String → NodeEntity → NodeEntity
unlink now by reason r = record r { valid_to = now; changed_by = by; change_reason = reason }

unfoldable pub remove_node_entity : String → String → String → String → String → NodeDb → NodeDb
unfolding is_link
remove_node_entity now node uid by reason db = record db {
  rows = update (is_link node uid) (unlink now by reason) db.rows;
}

-- `ORDER BY created_at DESC`
unfoldable pub newest_link : NodeEntity → NodeEntity → Bool
newest_link a b = text_le b.created_at a.created_at

unfoldable pub list_by_node : String → NodeDb → List NodeEntity
unfolding newest_link
list_by_node node db =
    sort_by newest_link (select (λ r. r.node_id == node && is_empty r.valid_to) db.rows)

unfoldable pub list_by_entity : String → NodeDb → List NodeEntity
unfolding newest_link
list_by_entity uid db =
    sort_by newest_link (select (λ r. r.entity_uid == uid && is_empty r.valid_to) db.rows)
