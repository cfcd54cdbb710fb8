-- ===== src/Schedules/Lifecycle.antt =====
-- internal/schedule/store.go: what Create, Close and CloseStaleOneShots do to a schedule.
use mathlib.Core.Bool.{false≢true}
use open_praxis.Prelude.{
  Bool-cases, List, Memᴰ, Option, Option-cases, String, [], ap, arith, count, count-update_off,
  eq_refl, false, first, first-append_of_none, inl, inr, int_eq_refl, is_empty, mem-append_right,
  mem-select_of_test, mem-sort_by, mem-update_kept, mem_of_mem-select, mem_of_mem-sort_by,
  mem_of_mem-update, non_positive, none, not, pos, refl, select, some, sort_by, suc, sym,
  test_of_mem-select, text_lt, true, update_none, ℕ, ℤ, ◌&&◌, ◌++◌, ◌==◌, ◌||◌, ◌↔◌, ◌∙◌, ◌∷◌, ◌≡◌,
}
use open_praxis.Schedules.Ids.{IsValid}
use open_praxis.Schedules.Schedule.{
  Db, Schedule, has_id, is_armed, is_current, is_of, ok, validate_create,
}
use open_praxis.Schedules.Store.{
  by_run_at, close, close_row, close_stale, close_stale_one_shots, create, get, is_stale,
  list_all_current, list_current, new_row,
}

same_ok : {a b : Schedule} → ok a ≡ ok b → a ≡ b
same_ok h = cc

validated :
    (s : Schedule)
    → validate_create s ≡ none
    → (is_empty s.entity_id ≡ false) × (is_empty s.entity_kind ≡ false)
unfolding validate_create
validated s h = ground arith

create_done :
    (now : String) (s : Option Schedule) (db : Db) {r : Schedule}
    → (create now s db).1 ≡ ok r
    → ((create now s db).0.rows ≡ db.rows ++ r ∷ [])
      × (r.id ≡ pos (suc db.last_id))
      × (r.valid_to ≡ "")
      × (is_empty r.entity_id ≡ false)
      × (is_empty r.entity_kind ≡ false)
unfolding create
create_done now none db h = cc
create_done now (some s) db {r} h = elim (Option-cases (validate_create s)) [
  | inl good ↦
      let row : new_row now (pos (suc db.last_id)) s ≡ r = same_ok (rw (good, create) at h) in
      rw (good, create)
        (
          ap (λ x. db.rows ++ x ∷ []) row,
          sym (ap (λ x. x.id) row),
          sym (ap (λ x. x.valid_to) row),
          ap (λ x. is_empty x.entity_id) (sym row) ∙ (validated s good).0,
          ap (λ x. is_empty x.entity_kind) (sym row) ∙ (validated s good).1,
        )
  | inr (x, bad) ↦ cc (rw (bad, create) at h)
]

positive : (n : ℕ) → non_positive (pos (suc n)) ≡ false
positive n = ground arith

found_self : (r : Schedule) → first (has_id r.id) (r ∷ []) ≡ some r
unfolding first has_id
found_self r = rw (int_eq_refl r.id)

get_last :
    (rows : List Schedule) (r : Schedule) (db : Db)
    → non_positive r.id ≡ false
    → count (has_id r.id) rows ≡ 0
    → db.rows ≡ rows ++ r ∷ []
    → get r.id db ≡ ok (some r)
unfolding get
get_last rows r db valid unused table =
    rw (valid, table)
      (ap ok (first-append_of_none (has_id r.id) rows (r ∷ []) unused ∙ found_self r))

own_row :
    (r : Schedule) → r.valid_to ≡ "" → (is_of r.entity_kind r.entity_id r && is_current r) ≡ true
unfolding is_of is_current
own_row r h = simp (h, eq_refl)

-- After a Create that returns a row, from a database with valid ids: Get finds that row by its id,
-- and ListCurrent of its entity lists it.
pub create_readable :
    (now : String) (s : Option Schedule) (db : Db) {r : Schedule}
    → IsValid db
    → (create now s db).1 ≡ ok r
    → (get r.id (create now s db).0 ≡ ok (some r))
      × ((rows : List Schedule) × (list_current r.entity_kind r.entity_id (create now s db).0
            ≡ ok rows)
          × Memᴰ r rows)
unfolding get list_current
create_readable now s db {r} v h =
    let (rows, id, open_end, entity, kind) = create_done now s db h in
    (
      get_last db.rows r (create now s db).0 (ap non_positive id ∙ positive db.last_id)
          (ap (λ i. count (has_id i) db.rows) id ∙ v.fresh (suc db.last_id) (omega arith)) rows,
      (
        sort_by by_run_at (
            select (λ x. is_of r.entity_kind r.entity_id x && is_current x)
              (create now s db).0.rows),
        rw (entity, kind),
        mem-sort_by by_run_at _ (
            mem-select_of_test (λ x. is_of r.entity_kind r.entity_id x && is_current x)
              (create now s db).0.rows
              (rw rows (mem-append_right db.rows (r ∷ []) (Memᴰ.head refl))) (own_row r open_end)),
      ),
    )

closed_not_current :
    (now : String) (id : ℤ) (reason by : String)
    → is_empty now ≡ false
    → (s : Schedule)
    → (has_id id (close_row now reason by s) && is_current (close_row now reason by s)) ≡ false
unfolding is_current
closed_not_current now id reason by ticks s = rw ticks (ground arith)

-- After a Close at a non-empty time, a second Close of the same schedule, whatever its time, reason
-- and author, changes nothing.
pub close_idempotent :
    (now later : String) (id : ℤ) (reason by reason' by' : String) (db : Db)
    → is_empty now ≡ false
    → (close later id reason' by' (close now id reason by db).0).0 ≡ (close now id reason by db).0
unfolding close
close_idempotent now later id reason by reason' by' db ticks = elim (Bool-cases (non_positive id)) [
  | inl bad ↦ rw bad
  | inr good ↦ rw good (
      ap (λ rows. record db { rows = rows })
        (update_none (λ s. has_id id s && is_current s) (close_row later reason' by') _
          (count-update_off (λ s. has_id id s && is_current s) (close_row now reason by)
            (closed_not_current now id reason by ticks) db.rows)))
]

closed_not_stale :
    (now : String)
    → is_empty now ≡ false
    → (s : Schedule) → is_stale now (close_stale now s) ≡ false
unfolding is_stale is_current
closed_not_stale now ticks s = rw ticks

-- After CloseStaleOneShots at a non-empty time no stale one-shot is left, the count that it returns
-- is that of the rows it closed, and every row that was not stale is as it was.
pub close_stale_one_shots_lem :
    (now : String) (db : Db)
    → is_empty now ≡ false
    → (count (is_stale now) (close_stale_one_shots now db).0.rows ≡ 0)
      × ((close_stale_one_shots now db).1 ≡ count (is_stale now) db.rows)
      × ((s : Schedule)
          → Memᴰ s db.rows
          → is_stale now s ≡ false
          → Memᴰ s (close_stale_one_shots now db).0.rows)
unfolding close_stale_one_shots
close_stale_one_shots_lem now db ticks = (
  count-update_off (is_stale now) (close_stale now) (closed_not_stale now ticks) db.rows,
  refl,
  λ s m fresh. mem-update_kept (is_stale now) (close_stale now) db.rows m fresh,
)

armed_current : (s : Schedule) → is_armed s ≡ true → is_current s ≡ true
unfolding is_armed
armed_current s h = ground arith

closed_not_armed :
    (now : String) → is_empty now ≡ false → (s : Schedule) → is_armed (close_stale now s) ≡ false
unfolding is_armed is_current
closed_not_armed now ticks s = rw ticks refl

-- After CloseStaleOneShots at a non-empty time, ListAllCurrent gives the runner exactly the
-- schedules that it gave before and that have a cron expression other than once, or no run_at, or a
-- run_at that is not before that time.
pub list_all_current-close_stale :
    (now : String) (db : Db)
    → is_empty now ≡ false
    → (s : Schedule)
    → Memᴰ s (list_all_current (close_stale_one_shots now db).0) ↔ (
        Memᴰ s (list_all_current db)
        × (((is_empty s.cron_expr || s.cron_expr == "once")
              && (not (is_empty s.run_at) && text_lt s.run_at now))
            ≡ false))
unfolding list_all_current close_stale_one_shots is_stale
list_all_current-close_stale now db ticks s = (
  λ m.
      let n = mem_of_mem-sort_by _ (select is_armed (close_stale_one_shots now db).0.rows) m in
      let armed = test_of_mem-select is_armed (close_stale_one_shots now db).0.rows n in
      elim (mem_of_mem-update (is_stale now) (close_stale now) db.rows
        (mem_of_mem-select is_armed (close_stale_one_shots now db).0.rows n)) [
          | inl (k, off) ↦ (
            mem-sort_by _ (select is_armed db.rows) (mem-select_of_test is_armed db.rows k armed),
            ground (arith, off, armed_current s armed),
          )
          | inr (b, k, hit, q) ↦
              absurd (false≢true (sym (closed_not_armed now ticks b) ∙ ap is_armed (sym q) ∙ armed))
        ],
  λ (m, fresh).
      let n = mem_of_mem-sort_by _ (select is_armed db.rows) m in
      mem-sort_by _ (select is_armed (close_stale_one_shots now db).0.rows) (
        mem-select_of_test is_armed (close_stale_one_shots now db).0.rows
          (mem-update_kept (is_stale now) (close_stale now) db.rows
            (mem_of_mem-select is_armed db.rows n) (ground (arith, fresh)))
          (test_of_mem-select is_armed db.rows n)),
)
