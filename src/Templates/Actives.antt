-- ===== src/Templates/Actives.antt =====
-- internal/templates/store.go: the open rows and the active rows under the writes.
use open_praxis.Prelude.{
  Bool, Bool-cases, List, Option-cases, String, [], any, any-eq-count, ap, arith, count,
  count-append_off, count-append_one, count-update-le, count-update_off, count-update_only,
  count-update_same, eq_iff, false, inl, inr, is_empty, length, length-select-eq-count,
  length-sort_by, none, refl, select, suc, sym, true, update, ◌==◌, ◌||◌, ◌∙◌, ◌∷◌, ◌≡◌, ◌≤◌,
}
use open_praxis.Templates.Edits.{
  IsFresh, IsValid, added, closed, is_active_at-close, is_open_of-close, live_row, open_owner,
  update_body_done,
}
use open_praxis.Templates.Store.{
  buried, close, close_status, create, get, insert, insert_override, is_undeleted_of, new_template,
  revised, scan_row, shut, tombstone, update_body, update_body_once,
}
use open_praxis.Templates.Template.{
  Db, Template, is_active, is_active_at, is_at, is_live_of, is_open_of, newest_id, scope_system,
}

added-IsValid :
    (row : Template) (db : Db)
    → count (is_open_of row.template_uid) db.rows ≡ 0
    → ((scope scope_id section : String)
        → is_active_at scope scope_id section row ≡ true
        → count (is_active_at scope scope_id section) db.rows ≡ 0)
    → IsValid db
    → IsValid (added row db)
unfolding is_open_of is_active_at is_active is_at
added-IsValid row db unopened free v = record {
  one_open = λ uid. elim (Bool-cases (is_open_of uid row)) [
    | inl e ↦
        let same : row.template_uid ≡ uid = (eq_iff row.template_uid uid).0 (ground arith) in
        omega (
          arith,
          count-append_one (is_open_of uid) db.rows (record row { id = suc db.last_id }),
          ap (λ u. count (is_open_of u) db.rows) (sym same) ∙ unopened,
        )
    | inr e ↦
        rw (count-append_off (is_open_of uid) db.rows (record row { id = suc db.last_id }) e)
          (v.one_open uid)
  ];
  one_active = λ scope scope_id section.
      elim (Bool-cases (is_active_at scope scope_id section row)) [
        | inl e ↦ omega (
          arith,
          count-append_one (is_active_at scope scope_id section) db.rows
              (record row { id = suc db.last_id }),
          free scope scope_id section e,
        )
        | inr e ↦
            rw
              (count-append_off (is_active_at scope scope_id section) db.rows
                (record row { id = suc db.last_id }) e)
              (v.one_active scope scope_id section)
      ];
}

scan_row-none : (ts : List Template) → scan_row ts ≡ none → length ts ≡ 0
unfolding scan_row
scan_row-none [] h = refl
scan_row-none (t ∷ ts) h = cc

pub get-none :
    (scope scope_id section : String) (db : Db)
    → get scope scope_id section db ≡ none
    → count (is_active_at scope scope_id section) db.rows ≡ 0
unfolding get
get-none scope scope_id section db h =
    sym (length-select-eq-count (is_active_at scope scope_id section) db.rows)
    ∙ sym (length-sort_by newest_id (select (is_active_at scope scope_id section) db.rows))
    ∙ scan_row-none _ h

-- A row is active at its own place only.
pub place_of :
    (scope scope_id section : String) (t : Template)
    → is_active_at scope scope_id section t ≡ true
    → (t.scope ≡ scope) × (t.scope_id ≡ scope_id) × (t.section ≡ section)
unfolding is_active_at is_at
place_of scope scope_id section t h =
    ground (arith, eq_iff t.scope scope, eq_iff t.scope_id scope_id, eq_iff t.section section)

none_open :
    (uid : String) (db : Db)
    → any (is_open_of uid) db.rows ≡ false
    → count (is_open_of uid) db.rows ≡ 0
none_open uid db h = ground (arith, any-eq-count (is_open_of uid) db.rows)

-- What holds of the database as it was, and of one with a row inserted, holds after Create.
pub create_cases {ℓ} :
    (P : Db → Type ℓ) (now uid scope scope_id section title body by reason : String) (db : Db)
    → P db
    → (count (is_open_of uid) db.rows ≡ 0
        → get scope scope_id section db ≡ none
        → P (added (new_template now uid scope scope_id section title body by reason) db))
    → P (create now uid scope scope_id section title body by reason db).0
unfolding create insert
create_cases P now uid scope scope_id section title body by reason db same add =
    elim (Bool-cases (is_empty scope || is_empty section)) [
      | inl e ↦ rw (create, e) same
      | inr named ↦ elim (Bool-cases (scope == scope_system)) [
        | inl e ↦ rw (create, named, e) same
        | inr user ↦ elim (Option-cases (get scope scope_id section db)) [
          | inr (t, e) ↦ rw (create, named, user, e) same
          | inl free ↦ elim (Bool-cases (any (is_open_of uid) db.rows)) [
            | inl e ↦ rw (create, named, user, free, insert_override, insert, e) same
            | inr e ↦
                rw (create, named, user, free, insert_override, insert, e)
                  (add (none_open uid db e) free)
          ]
        ]
      ]
    ]

pub create-IsValid :
    (now uid scope scope_id section title body by reason : String) (db : Db)
    → IsValid db
    → IsValid (create now uid scope scope_id section title body by reason db).0
create-IsValid now uid scope scope_id section title body by reason db v =
    let row = new_template now uid scope scope_id section title body by reason in
    create_cases IsValid now uid scope scope_id section title body by reason db v (λ unopened free.
      added-IsValid row db unopened
        (λ s i c test.
          let (a, b, d) = place_of s i c row test in
          rw (sym a, sym b, sym d) (get-none scope scope_id section db free))
        v)

-- Rows that an UPDATE takes out of both tests.
updated-IsValid :
    (p : Template → Bool) (f : Template → Template) (db : Db)
    → ((uid : String)
        → count (is_open_of uid) (update p f db.rows) ≤ count (is_open_of uid) db.rows)
    → ((scope scope_id section : String) (t : Template)
        → is_active_at scope scope_id section (f t) ≡ false)
    → IsValid db
    → IsValid (record db { rows = update p f db.rows })
updated-IsValid p f db opens off v = record {
  one_open = λ uid. omega (arith, opens uid, v.one_open uid);
  one_active = λ s i c.
      omega
        (arith, count-update-le p (is_active_at s i c) f (off s i c) db.rows, v.one_active s i c);
}

pub is_active_at-buried :
    (now by reason scope scope_id section : String)
    → is_empty now ≡ false
    → (t : Template) → is_active_at scope scope_id section (buried now by reason t) ≡ false
unfolding is_active_at is_active
is_active_at-buried now by reason scope scope_id section ticks t = rw ticks (ground arith)

is_open_of-buried :
    (now by reason uid : String)
    → is_empty now ≡ false
    → (t : Template) → is_open_of uid (buried now by reason t) ≡ false
unfolding is_open_of
is_open_of-buried now by reason uid ticks t = elim (Bool-cases (is_empty t.valid_to)) [
  | inl e ↦ rw (e, ticks) (ground arith)
  | inr e ↦ rw (e, e) (ground arith)
]

pub is_active_at-shut :
    (by reason scope scope_id section : String) (t : Template)
    → is_active_at scope scope_id section (shut by reason t) ≡ false
unfolding is_active_at is_active
is_active_at-shut by reason scope scope_id section t = ground arith

pub tombstone-IsValid :
    (now uid by reason : String) (db : Db)
    → is_empty now ≡ false
    → IsValid db
    → IsValid (tombstone now uid by reason db).0
unfolding tombstone
tombstone-IsValid now uid by reason db ticks v = elim (Bool-cases (is_empty uid)) [
  | inl e ↦ rw (tombstone, e) v
  | inr e ↦
      rw (tombstone, e)
        (updated-IsValid (is_undeleted_of uid) (buried now by reason) db
          (λ u.
            count-update-le (is_undeleted_of uid) (is_open_of u) (buried now by reason)
              (is_open_of-buried now by reason u ticks) db.rows)
          (λ s i c t. is_active_at-buried now by reason s i c ticks t) v)
]

pub close_status-IsValid :
    (uid by reason : String) (db : Db) → IsValid db → IsValid (close_status uid by reason db).0
unfolding close_status is_open_of
close_status-IsValid uid by reason db v = elim (Bool-cases (is_empty uid)) [
  | inl e ↦ rw (close_status, e) v
  | inr e ↦
      rw (close_status, e)
        (updated-IsValid (is_live_of uid) (shut by reason) db
          (λ u.
            rw
              (count-update_same (is_live_of uid) (is_open_of u) (shut by reason) (λ t. refl)
                db.rows)
              (omega arith))
          (λ s i c t. is_active_at-shut by reason s i c t) v)
]

-- A new version is active where the live row before it was.
pub is_active_at-revised :
    (now body by reason uid scope scope_id section : String) (t : Template)
    → is_live_of uid t ≡ true
    → is_active_at scope scope_id section (revised now body by reason t)
      ≡ is_active_at scope scope_id section t
unfolding is_active_at is_at is_active is_live_of is_open_of
is_active_at-revised now body by reason uid scope scope_id section t h = ground arith

pub update_body-IsValid :
    (now uid body by reason : String) (db : Db)
    → is_empty now ≡ false
    → IsFresh now uid db
    → IsValid db
    → IsValid (update_body now uid body by reason db).0
unfolding update_body update_body_once
update_body-IsValid now uid body by reason db ticks fresh v = elim (Bool-cases (is_empty uid)) [
  | inl e ↦ rw (update_body, e) v
  | inr named ↦ elim (Bool-cases (any (is_live_of uid) db.rows)) [
    | inr e ↦ rw (update_body, named, update_body_once, e) v
    | inl live ↦
        let (old, found, alive, m) = live_row uid db (v.one_open uid) live in
        rw (update_body, named, update_body_done now uid body by reason db ticks fresh v live found)
          (added-IsValid (revised now body by reason old) (closed now uid db)
            (rw (open_owner uid db found) (
              count-update_off (is_open_of uid) (close now) (is_open_of-close now uid ticks)
                db.rows))
            (λ s i c test.
              count-update_only (is_open_of uid) (is_active_at s i c) (close now)
                (is_active_at-close now s i c ticks) db.rows found
                (sym (is_active_at-revised now body by reason uid s i c old alive) ∙ test)
                (v.one_active s i c))
            (updated-IsValid (is_open_of uid) (close now) db
              (λ u.
                count-update-le (is_open_of uid) (is_open_of u) (close now)
                  (is_open_of-close now u ticks) db.rows)
              (λ s i c t. is_active_at-close now s i c ticks t) v))
  ]
]

-- At a non-empty time at which no row of the template was closed before, Create, UpdateBody,
-- Tombstone and CloseStatus keep the invariant that each template_uid has at most one open row, and
-- each scope, scope id and section at most one active row.
pub writes-keep_one_active :
    (now uid scope scope_id section title body by reason : String) (db : Db)
    → is_empty now ≡ false
    → IsFresh now uid db
    → IsValid db
    → IsValid (create now uid scope scope_id section title body by reason db).0
      × IsValid (update_body now uid body by reason db).0
      × IsValid (tombstone now uid by reason db).0
      × IsValid (close_status uid by reason db).0
writes-keep_one_active now uid scope scope_id section title body by reason db ticks fresh v = (
  create-IsValid now uid scope scope_id section title body by reason db v,
  update_body-IsValid now uid body by reason db ticks fresh v,
  tombstone-IsValid now uid by reason db ticks v,
  close_status-IsValid uid by reason db v,
)
