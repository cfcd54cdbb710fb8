-- ===== src/Schedules/Ids.antt =====
-- internal/schedule/store.go: the ids of the schedules under the writes.
use open_praxis.Prelude.{
  Bool, Bool-cases, Option, Option-cases, String, [], ap, arith, count, count-append,
  count-update_same, false, if◌then◌else◌, inl, inr, int_eq, int_eq_iff, non_positive, none, pos,
  refl, some, suc, sym, true, update, ℕ, ℤ, ◌&&◌, ◌++◌, ◌+◌, ◌<◌, ◌∙◌, ◌∷◌, ◌≡◌, ◌≤◌,
}
use open_praxis.Schedules.Schedule.{Db, Schedule, bad_id, has_id, is_current, validate_create}
use open_praxis.Schedules.Store.{
  close, close_row, close_stale, close_stale_one_shots, create, is_stale, mark_fired, mark_row,
  new_row,
}

pub record IsValid (db : Db) : Type 0 where
  pub unique : (id : ℤ) → count (has_id id) db.rows ≤ 1
  pub fresh : (n : ℕ) → db.last_id < n → count (has_id (pos n)) db.rows ≡ 0

-- An UPDATE that does not write the id.
update-IsValid :
    (p : Schedule → Bool) (f : Schedule → Schedule) (db : Db)
    → ((s : Schedule) → (f s).id ≡ s.id)
    → IsValid db
    → IsValid (record db { rows = update p f db.rows })
unfolding has_id
update-IsValid p f db keeps v = record {
  unique = λ id.
      rw (count-update_same p (has_id id) f (λ s. ap (λ i. int_eq i id) (keeps s)) db.rows)
        (v.unique id);
  fresh = λ n h.
      count-update_same p (has_id (pos n)) f (λ s. ap (λ i. int_eq i (pos n)) (keeps s)) db.rows
      ∙ v.fresh n h;
}

mark_row_id : (s : Schedule) → (mark_row s).id ≡ s.id
unfolding mark_row
mark_row_id s = refl

added_id :
    (now : String) (s : Schedule) (db : Db) (id : ℤ)
    → count (has_id id) (db.rows ++ new_row now (pos (suc db.last_id)) s ∷ [])
      ≡ count (has_id id) db.rows + (if int_eq (pos (suc db.last_id)) id then 1 else 0)
unfolding count has_id new_row
added_id now s db id =
    count-append (has_id id) db.rows (new_row now (pos (suc db.last_id)) s ∷ []) ∙ ground arith

create-IsValid :
    (now : String) (s : Option Schedule) (db : Db) → IsValid db → IsValid (create now s db).0
unfolding create
create-IsValid now none db v = v
create-IsValid now (some s) db v = elim (Option-cases (validate_create s)) [
  | inl good ↦
      rw (good, create)
        (record {
          unique = λ id. elim (Bool-cases (int_eq (pos (suc db.last_id)) id)) [
            | inl e ↦
                let i : pos (suc db.last_id) ≡ id = (int_eq_iff _ id).0 e in
                rw (added_id now s db id, e, sym i, v.fresh (suc db.last_id) (omega arith))
                  (omega arith)
            | inr e ↦ rw (added_id now s db id, e) (omega (arith, v.unique id))
          ];
          fresh = λ n h. rw (added_id now s db (pos n), v.fresh n (omega arith)) (ground arith);
        })
  | inr (x, bad) ↦ rw (bad, create) v
]

either_way :
    {A : Type 0} (b : Bool) (x y : Db) (u v : A)
    → IsValid x
    → IsValid y
    → IsValid (if◌then◌else◌ {A = Db × A} b (x, u) (y, v)).0
either_way true x y u v h k = h
either_way false x y u v h k = k

-- Create, Close, CloseStaleOneShots and MarkFired keep the ids of the schedules unique and below
-- the AUTOINCREMENT counter.
pub writes-IsValid :
    (now : String) (s : Option Schedule) (id : ℤ) (reason by : String) (db : Db)
    → IsValid db
    → IsValid (create now s db).0
      × IsValid (close now id reason by db).0
      × IsValid (close_stale_one_shots now db).0
      × IsValid (mark_fired id db).0
unfolding close close_stale_one_shots mark_fired
writes-IsValid now s id reason by db v = (
  create-IsValid now s db v,
  either_way (non_positive id) db _ (some bad_id) none v (
      update-IsValid (λ r. has_id id r && is_current r) (close_row now reason by) db (λ r. refl) v),
  update-IsValid (is_stale now) (close_stale now) db (λ r. refl) v,
  either_way (non_positive id) db _ (some bad_id) none v
      (update-IsValid (λ r. has_id id r && is_current r) mark_row db mark_row_id v),
)
