-- ===== src/Entities/Entity.antt =====
-- internal/entity/store.go: a version of an entity, and the table that keeps the versions. The tags
-- are the list that they are before and after JSON.
use open_praxis.Prelude.{Bool, List, String, is_empty, text_le, text_lt, ℕ, ◌&&◌, ◌==◌, ◌||◌}

pub record Entity : Type 0 where
  pub row_id : ℕ
  pub entity_uid : String
  pub type : String
  pub title : String
  pub status : String
  pub tags : List String
  pub valid_from : String
  pub valid_to : String
  pub changed_by : String
  pub change_reason : String
  pub created_at : String

-- The rows, and the last row_id that AUTOINCREMENT gave.
pub record Db : Type 0 where
  pub rows : List Entity
  pub last_id : ℕ

pub data Error : Type 0 where
  not_found : Error
  key_conflict : Error

pub data Result (A : Type 0) : Type 0 where
  ok : A → Result A
  err : Error → Result A

abbrev pub status_draft : String
status_draft = "draft"

-- `valid_to = ''`
unfoldable pub is_current : Entity → Bool
is_current e = is_empty e.valid_to

-- `entity_uid = ? AND valid_to = ''`
unfoldable pub is_current_of : String → Entity → Bool
unfolding is_current
is_current_of uid e = e.entity_uid == uid && is_current e

-- `valid_from <= ? AND (valid_to > ? OR valid_to = '')`
unfoldable pub is_valid_at : String → Entity → Bool
unfolding is_current
is_valid_at as_of e = text_le e.valid_from as_of && (text_lt as_of e.valid_to || is_current e)

-- `AND type = ?` and `AND status = ?`, each where the filter is not empty.
unfoldable pub has_type : String → Entity → Bool
has_type type e = is_empty type || e.type == type

unfoldable pub has_status : String → Entity → Bool
has_status status e = is_empty status || e.status == status

-- `ORDER BY created_at DESC` and `ORDER BY valid_from DESC`
unfoldable pub newest_created : Entity → Entity → Bool
newest_created a b = text_le b.created_at a.created_at

unfoldable pub newest_version : Entity → Entity → Bool
newest_version a b = text_le b.valid_from a.valid_from
