-- ===== src/Templates/Template.antt =====
-- internal/templates/model.go and schema.go: a version of a template, and the table that keeps them.
use open_praxis.Prelude.{Bool, List, String, is_empty, leb, not, ℕ, ◌&&◌, ◌==◌, ◌||◌}

pub record Template : Type 0 where
  pub id : ℕ
  pub template_uid : String
  pub title : String
  pub scope : String
  pub scope_id : String
  pub section : String
  pub body : String
  pub status : String
  pub tags : String
  pub source_node : String
  pub valid_from : String
  pub valid_to : String
  pub changed_by : String
  pub reason : String
  pub created_at : String
  pub deleted_at : String

-- The rows, and the last id that AUTOINCREMENT gave.
pub record Db : Type 0 where
  pub rows : List Template
  pub last_id : ℕ

pub data Error : Type 0 where
  missing_scope : Error
  system_scope : Error
  duplicate_override : Error
  key_conflict : Error
  empty_uid : Error
  not_found : Error

pub data Result (A : Type 0) : Type 0 where
  ok : A → Result A
  err : Error → Result A

abbrev pub scope_system : String
scope_system = "system"

abbrev pub scope_product : String
scope_product = "product"

abbrev pub scope_manifest : String
scope_manifest = "manifest"

abbrev pub scope_task : String
scope_task = "task"

abbrev pub scope_agent : String
scope_agent = "agent"

-- `valid_to = '' AND deleted_at = '' AND status NOT IN ('closed','archive')`
unfoldable pub is_active : Template → Bool
is_active t =
    is_empty t.valid_to
    && (is_empty t.deleted_at && not (t.status == "closed" || t.status == "archive"))

-- `scope = ? AND scope_id = ? AND section = ?`
unfoldable pub is_at : String → String → String → Template → Bool
is_at scope scope_id section t =
    t.scope == scope && (t.scope_id == scope_id && t.section == section)

unfoldable pub is_active_at : String → String → String → Template → Bool
unfolding is_active is_at
is_active_at scope scope_id section t = is_at scope scope_id section t && is_active t

-- `template_uid = ? AND valid_to = ''`
unfoldable pub is_open_of : String → Template → Bool
is_open_of uid t = t.template_uid == uid && is_empty t.valid_to

-- `template_uid = ? AND valid_to = '' AND deleted_at = ''`
unfoldable pub is_live_of : String → Template → Bool
unfolding is_open_of
is_live_of uid t = is_open_of uid t && is_empty t.deleted_at

-- `ORDER BY id DESC`
unfoldable pub newest_id : Template → Template → Bool
newest_id a b = leb b.id a.id
