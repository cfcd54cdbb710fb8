-- ===== src/Templates/Edits.antt =====
-- internal/templates/store.go: the branches of the writes.
use mathlib.Core.Path.{subst}
use open_praxis.Prelude.{
  Memᴰ, String, [], any, any-eq-count, any_of_mem, ap, arith, count, count-update_off, eq_iff,
  eq_refl, false, first, first_of_any, insert_by, is_empty, map, mem-select_of_test, mem_of_first,
  none, refl, select-update_fresh, select_one, some, sort_by, suc, sym, true, update, ◌&&◌, ◌++◌,
  ◌==◌, ◌∙◌, ◌∷◌, ◌≡◌, ◌≤◌,
}
use open_praxis.Templates.Store.{close, closed_at, insert, revised, scan_row, update_body_once}
use open_praxis.Templates.Template.{
  Db, Template, is_active, is_active_at, is_live_of, is_open_of, newest_id,
}

-- The rows with `row` at their end, under the next id.
abbrev pub added : Template → Db → Db
added row db = record {
  rows = db.rows ++ record row { id = suc db.last_id } ∷ [];
  last_id = suc db.last_id;
}

abbrev pub closed : String → String → Db → Db
closed now uid db = record db { rows = update (is_open_of uid) (close now) db.rows }

pub is_open_of-close :
    (now uid : String)
    → is_empty now ≡ false
    → (t : Template) → is_open_of uid (close now t) ≡ false
unfolding is_open_of
is_open_of-close now uid ticks t = rw ticks (ground arith)

pub is_active_at-close :
    (now scope scope_id section : String)
    → is_empty now ≡ false
    → (t : Template) → is_active_at scope scope_id section (close now t) ≡ false
unfolding is_active_at is_active
is_active_at-close now scope scope_id section ticks t = rw ticks (ground arith)

-- Each uid has at most one open row, and each place at most one active row.
pub record IsValid (db : Db) : Type 0 where
  pub one_open : (uid : String) → count (is_open_of uid) db.rows ≤ 1
  pub one_active :
      (scope scope_id section : String) → count (is_active_at scope scope_id section) db.rows ≤ 1

pub live_is_open : (uid : String) (t : Template) → is_live_of uid t ≡ true → is_open_of uid t ≡ true
unfolding is_live_of
live_is_open uid t h = ground arith

live_undeleted :
    (uid : String) (t : Template) → is_live_of uid t ≡ true → is_empty t.deleted_at ≡ true
unfolding is_live_of
live_undeleted uid t h = ground arith

pub only : {t u : Template} → Memᴰ t (u ∷ []) → t ≡ u
only (Memᴰ.head q) = q
only (Memᴰ.tail m) = elim m [ ]

pub open_owner :
    (uid : String) (db : Db) {old : Template}
    → first (is_open_of uid) db.rows ≡ some old
    → old.template_uid ≡ uid
unfolding is_open_of
open_owner uid db {old} found =
    let test : is_open_of uid old ≡ true = (mem_of_first (is_open_of uid) db.rows found).1 in
    (eq_iff old.template_uid uid).0 (ground arith)

-- The open row of a uid that has a live one.
pub live_row :
    (uid : String) (db : Db)
    → count (is_open_of uid) db.rows ≤ 1
    → any (is_live_of uid) db.rows ≡ true
    → (old : Template) × (first (is_open_of uid) db.rows ≡ some old)
      × (is_live_of uid old ≡ true)
      × Memᴰ old db.rows
live_row uid db one live =
    let (l, found) = first_of_any (is_live_of uid) db.rows live in
    let (m, test) = mem_of_first (is_live_of uid) db.rows found in
    let (old, first_open) =
      first_of_any (is_open_of uid) db.rows
        (any_of_mem (is_open_of uid) db.rows m (live_is_open uid l test)) in
    let same : l ≡ old = only (
      subst (λ ts. Memᴰ l ts) (select_one (is_open_of uid) db.rows one first_open)
        (mem-select_of_test (is_open_of uid) db.rows m (live_is_open uid l test))) in
    (old, first_open, sym (ap (is_live_of uid) same) ∙ test, subst (λ t. Memᴰ t db.rows) same m)

-- The time at which no row of the template was closed.
abbrev pub IsFresh : String → String → Db → Type 0
IsFresh now uid db = count (λ t. t.template_uid == uid && t.valid_to == now) db.rows ≡ 0

closed_at-closed :
    (now uid : String) (db : Db) {old : Template}
    → IsFresh now uid db
    → count (is_open_of uid) db.rows ≤ 1
    → first (is_open_of uid) db.rows ≡ some old
    → closed_at now uid (closed now uid db).rows ≡ some (close now old)
unfolding closed_at scan_row is_open_of sort_by insert_by
closed_at-closed now uid db fresh one found =
    ap (λ ts. scan_row (sort_by newest_id ts))
      (select-update_fresh (is_open_of uid) (λ t. t.template_uid == uid && t.valid_to == now)
          (close now) (λ t h. rw (eq_refl now) (ground arith)) db.rows fresh
        ∙ ap (map (close now)) (select_one (is_open_of uid) db.rows one found))

pub update_body_done :
    (now uid body by reason : String) (db : Db) {old : Template}
    → is_empty now ≡ false
    → IsFresh now uid db
    → IsValid db
    → any (is_live_of uid) db.rows ≡ true
    → first (is_open_of uid) db.rows ≡ some old
    → update_body_once now uid body by reason db
      ≡ (added (revised now body by reason old) (closed now uid db), none)
unfolding update_body_once insert
update_body_done now uid body by reason db {old} ticks fresh v live found =
    let owner : old.template_uid ≡ uid = open_owner uid db found in
    let free : any (is_open_of old.template_uid) (closed now uid db).rows ≡ false = rw owner (
      any-eq-count (is_open_of uid) (closed now uid db).rows
      ∙ rw (count-update_off (is_open_of uid) (close now) (is_open_of-close now uid ticks) db.rows)
          refl) in
    rw
      (
        update_body_once,
        live,
        closed_at-closed now uid db fresh (v.one_open uid) found,
        insert,
        free,
      )
      refl
