-- ===== src/Templates/Effects.antt =====
-- internal/templates/store.go: what the writes do to the active row of a place.
use mathlib.Core.Path.{subst}
use mathlib.Core.Bool.{false≢true}
use open_praxis.Prelude.{
  Bool, Bool-cases, List, Memᴰ, String, [], any_of_mem, ap, arith, count, count-update-le, eq_refl,
  false, first, first-update_one, first_of_any, inl, inr, length-select-eq-count,
  mem-select_of_test, mem_of_first, none, refl, select, select-update_other, select_one, some,
  sort_by, sort_by_one, sym, true, update, ◌∙◌, ◌∷◌, ◌≡◌, ◌≤◌,
}
use open_praxis.Templates.Edits.{IsValid, only}
use open_praxis.Templates.Store.{get, is_undeleted_of, scan_row}
use open_praxis.Templates.Template.{
  Db, Template, is_active, is_active_at, is_live_of, is_open_of, newest_id,
}

scan_row-select : (p : Template → Bool) (ts : List Template) → scan_row (select p ts) ≡ first p ts
unfolding scan_row select first
scan_row-select p [] = refl
scan_row-select p (t ∷ ts) = elim (Bool-cases (p t)) [
  | inl e ↦ rw e refl
  | inr e ↦ rw e (scan_row-select p ts)
]

pub get-first :
    (scope scope_id section : String) (db : Db)
    → count (is_active_at scope scope_id section) db.rows ≤ 1
    → get scope scope_id section db ≡ first (is_active_at scope scope_id section) db.rows
unfolding get
get-first scope scope_id section db one =
    ap scan_row (
      sort_by_one newest_id (select (is_active_at scope scope_id section) db.rows)
        (rw (length-select-eq-count (is_active_at scope scope_id section) db.rows) one))
    ∙ scan_row-select (is_active_at scope scope_id section) db.rows

active_is_open :
    (scope scope_id section : String) (t : Template)
    → is_active_at scope scope_id section t ≡ true
    → is_open_of t.template_uid t ≡ true
unfolding is_active_at is_active is_open_of
active_is_open scope scope_id section t h = rw (eq_refl t.template_uid) (ground arith)

pub active_is_live :
    (scope scope_id section : String) (t : Template)
    → is_active_at scope scope_id section t ≡ true
    → is_live_of t.template_uid t ≡ true
unfolding is_active_at is_active is_live_of is_open_of
active_is_live scope scope_id section t h = rw (eq_refl t.template_uid) (ground arith)

pub active_is_undeleted :
    (scope scope_id section : String) (t : Template)
    → is_active_at scope scope_id section t ≡ true
    → is_undeleted_of t.template_uid t ≡ true
unfolding is_active_at is_active is_undeleted_of
active_is_undeleted scope scope_id section t h = rw (eq_refl t.template_uid) (ground arith)

-- The row that Get finds.
pub found_row :
    (scope scope_id section : String) (db : Db) {t : Template}
    → IsValid db
    → get scope scope_id section db ≡ some t
    → (first (is_active_at scope scope_id section) db.rows ≡ some t)
      × Memᴰ t db.rows
      × (is_active_at scope scope_id section t ≡ true)
found_row scope scope_id section db v h =
    let found =
      sym (get-first scope scope_id section db (v.one_active scope scope_id section)) ∙ h in
    let (m, test) = mem_of_first (is_active_at scope scope_id section) db.rows found in
    (found, m, test)

-- A uid has one open row.
pub same_open :
    (uid : String) (db : Db) {t u : Template}
    → IsValid db
    → Memᴰ t db.rows
    → Memᴰ u db.rows
    → is_open_of uid t ≡ true
    → is_open_of uid u ≡ true
    → t ≡ u
same_open uid db {t} {u} v m n h k =
    let (o, found) =
      first_of_any (is_open_of uid) db.rows (any_of_mem (is_open_of uid) db.rows m h) in
    let one = select_one (is_open_of uid) db.rows (v.one_open uid) found in
    only (subst (λ ts. Memᴰ t ts) one (mem-select_of_test (is_open_of uid) db.rows m h))
    ∙ sym (only (subst (λ ts. Memᴰ u ts) one (mem-select_of_test (is_open_of uid) db.rows n k)))

-- An UPDATE of rows of a uid, which takes them out of use, at and off the place of its active row.
module _ (p : Template → Bool) (f : Template → Template) (db : Db) (v : IsValid db)
    (off : (s i c : String) (t : Template) → is_active_at s i c (f t) ≡ false)
    (scope scope_id section : String) (old : Template)
    (found : get scope scope_id section db ≡ some old)
    (own : (t : Template) → p t ≡ true → t.template_uid ≡ old.template_uid) where
  pub get_retired :
      p old ≡ true → get scope scope_id section (record db { rows = update p f db.rows }) ≡ none
  get_retired hit =
      let (at, m, test) = found_row scope scope_id section db v found in
      get-first scope scope_id section (record db { rows = update p f db.rows })
        (omega (
          arith,
          v.one_active scope scope_id section,
          count-update-le p (is_active_at scope scope_id section) f (off scope scope_id section)
              db.rows,
        ))
      ∙ first-update_one p (is_active_at scope scope_id section) f (off scope scope_id section)
          db.rows at (v.one_active scope scope_id section)
      ∙ rw hit refl

  select_kept :
      (s i c : String)
      → is_active_at s i c old ≡ false
      → select (is_active_at s i c) (update p f db.rows) ≡ select (is_active_at s i c) db.rows
  select_kept s i c apart =
      let (at, m, test) = found_row scope scope_id section db v found in
      select-update_other p (is_active_at s i c) f (off s i c) db.rows (λ t n hit.
        elim (Bool-cases (is_active_at s i c t)) [
          | inr e ↦ e
          | inl e ↦
              let same : t ≡ old =
                same_open old.template_uid db v n m
                  (rw (sym (own t hit)) (active_is_open s i c t e))
                  (active_is_open scope scope_id section old test) in
              absurd (false≢true (sym apart ∙ sym (ap (is_active_at s i c) same) ∙ e))
        ])

  pub get_kept :
      (s i c : String)
      → is_active_at s i c old ≡ false
      → get s i c (record db { rows = update p f db.rows }) ≡ get s i c db
  unfolding get
  get_kept s i c apart = ap (λ ts. scan_row (sort_by newest_id ts)) (select_kept s i c apart)
