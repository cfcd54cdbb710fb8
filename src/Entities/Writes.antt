-- ===== src/Entities/Writes.antt =====
-- internal/entity/store.go: the branches of Create and Update.
use open_praxis.Entities.Entity.{
  Db, Entity, err, is_current, is_current_of, key_conflict, not_found, ok,
}
use open_praxis.Entities.Store.{close, create, get, insert, new_entity, next_version, update_entity}
use open_praxis.Prelude.{
  List, String, [], any, any-eq-count, any_of_first, any_of_first-none, arith, count,
  count-update_off, false, is_empty, none, refl, some, suc, update, ◌++◌, ◌∙◌, ◌∷◌, ◌≡◌,
}

-- The rows with `row` at their end, under the next number.
abbrev pub added : Entity → Db → Db
added row db = record {
  rows = db.rows ++ record row { row_id = suc db.last_id } ∷ [];
  last_id = suc db.last_id;
}

abbrev pub closed : String → String → Db → Db
closed now uid db = record db { rows = update (is_current_of uid) (close now) db.rows }

pub closed_not_current :
    (now uid other : String)
    → is_empty now ≡ false
    → (e : Entity) → is_current_of other (close now e) ≡ false
unfolding is_current_of is_current
closed_not_current now uid other ticks e = rw ticks (ground arith)

pub none_current_after_close :
    (now uid : String) (db : Db)
    → is_empty now ≡ false
    → count (is_current_of uid) (closed now uid db).rows ≡ 0
none_current_after_close now uid db ticks =
    count-update_off (is_current_of uid) (close now) (closed_not_current now uid uid ticks) db.rows

module _ (now uid type title status : String) (tags : List String) (by reason : String)
    (db : Db) where
  pub create_free :
      get uid db ≡ none
      → create now uid type title status tags by reason db ≡ (
        added (new_entity now uid type title status tags by reason) db,
        ok (new_entity now uid type title status tags by reason),
      )
  unfolding create insert get
  create_free h = rw (any_of_first-none (is_current_of uid) db.rows h, create) refl

  pub create_taken :
      {old : Entity}
      → get uid db ≡ some old
      → create now uid type title status tags by reason db ≡ (db, err key_conflict)
  unfolding create insert get
  create_taken h = rw (any_of_first (is_current_of uid) db.rows h, create) refl

module _ (now uid title status : String) (tags : List String) (by reason : String) (db : Db) where
  pub update_missing :
      get uid db ≡ none
      → update_entity now uid title status tags by reason db ≡ (db, some not_found)
  unfolding update_entity
  update_missing h = rw (h, update_entity) refl

  pub update_found :
      {old : Entity}
      → is_empty now ≡ false
      → get uid db ≡ some old
      → update_entity now uid title status tags by reason db
        ≡ (added (next_version now uid title status tags by reason old) (closed now uid db), none)
  unfolding update_entity insert
  update_found ticks h =
      let free : any (is_current_of uid) (closed now uid db).rows ≡ false =
        any-eq-count (is_current_of uid) (closed now uid db).rows
        ∙ rw (none_current_after_close now uid db ticks) refl in
      rw (h, update_entity, free) refl
