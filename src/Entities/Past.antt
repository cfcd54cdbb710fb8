-- ===== src/Entities/Past.antt =====
-- internal/entity/store.go: the readers of a past time, after the writes that followed it.
use open_praxis.Entities.Entity.{Db, Entity, is_current, is_current_of, is_valid_at}
use open_praxis.Entities.Replay.{Op, create_op, run, step, time_of, update_op}
use open_praxis.Entities.Store.{close, get}
use open_praxis.Entities.Writes.{
  closed_not_current, create_free, create_taken, none_current_after_close, update_found,
  update_missing,
}
use open_praxis.Prelude.{
  Bool-cases, Every, Every-append, Every-update, List, Option-cases, String, [], ap, arith, count,
  count-append_off, count-append_one, count-update-le, count_of_first-none, eq_iff, false, inl, inr,
  is_empty, none, refl, sym, text_le, text_lt, true, update, ◌++◌, ◌∙◌, ◌∷◌, ◌≡◌, ◌≤◌,
}

-- What holds of the rows holds after a step, when an added current row and a closed row keep it.
pub step_cases {ℓ} :
    (P : List Entity → Type ℓ) (op : Op) (db : Db)
    → is_empty (time_of op) ≡ false
    → P db.rows
    → ((r : Entity)
        → r.valid_from ≡ time_of op
        → r.valid_to ≡ ""
        → get r.entity_uid db ≡ none
        → P (db.rows ++ r ∷ []))
    → ((r : Entity)
        → r.valid_from ≡ time_of op
        → r.valid_to ≡ ""
        → P (update (is_current_of r.entity_uid) (close (time_of op)) db.rows ++ r ∷ []))
    → P (step op db).0.rows
unfolding step
step_cases P (create_op now uid type title status tags by reason) db ticks same add replace =
    elim (Option-cases (get uid db)) [
      | inl free ↦
          rw (step, create_free now uid type title status tags by reason db free)
            (add _ refl refl free)
      | inr (old, taken) ↦
          rw (step, create_taken now uid type title status tags by reason db taken) same
    ]
step_cases P (update_op now uid title status tags by reason) db ticks same add replace =
    elim (Option-cases (get uid db)) [
      | inl missing ↦ rw (step, update_missing now uid title status tags by reason db missing) same
      | inr (old, found) ↦
          rw (step, update_found now uid title status tags by reason db ticks found)
            (replace _ refl refl)
    ]

-- Rows of which each entity has one current version at most.
pub record IsScd (rows : List Entity) : Type 0 where
  pub one_current : (uid : String) → count (is_current_of uid) rows ≤ 1

owner : (uid : String) (e : Entity) → is_current_of uid e ≡ true → e.entity_uid ≡ uid
unfolding is_current_of
owner uid e h = (eq_iff e.entity_uid uid).0 (ground arith)

one_current_added :
    (rows : List Entity) (r : Entity) (uid : String)
    → count (is_current_of uid) rows ≤ 1
    → count (is_current_of r.entity_uid) rows ≡ 0
    → count (is_current_of uid) (rows ++ r ∷ []) ≤ 1
one_current_added rows r uid h free = elim (Bool-cases (is_current_of uid r)) [
  | inl c ↦
      let same : r.entity_uid ≡ uid = owner uid r c in
      omega (
        arith,
        count-append_one (is_current_of uid) rows r,
        ap (λ u. count (is_current_of u) rows) (sym same) ∙ free,
      )
  | inr c ↦ omega (arith, count-append_off (is_current_of uid) rows r c, h)
]

step-IsScd :
    (op : Op) (db : Db) → is_empty (time_of op) ≡ false → IsScd db.rows → IsScd (step op db).0.rows
unfolding get
step-IsScd op db ticks h =
    step_cases IsScd op db ticks h
      (λ r from open_end free. record {
        one_current = λ uid.
            one_current_added db.rows r uid (h.one_current uid)
              (count_of_first-none (is_current_of r.entity_uid) db.rows free);
      })
      (λ r from open_end. record {
        one_current = λ uid.
            one_current_added _ r uid
              (omega (
                arith,
                h.one_current uid,
                count-update-le (is_current_of r.entity_uid) (is_current_of uid)
                    (close (time_of op)) (closed_not_current (time_of op) uid uid ticks) db.rows,
              ))
              (none_current_after_close (time_of op) r.entity_uid db ticks);
      })

-- Rows none of which begins or ends after `as_of`.
abbrev pub Settled : String → List Entity → Type 0
Settled as_of rows = Every (λ e. is_valid_at as_of e ≡ is_current e) rows

abbrev pub AllBefore : String → List Op → Type 0
AllBefore as_of [] = Unit
AllBefore as_of (op ∷ ops) =
    (is_empty (time_of op) ≡ false) × (text_le (time_of op) as_of ≡ true) × AllBefore as_of ops

abbrev pub AllAfter : String → List Op → Type 0
AllAfter as_of [] = Unit
AllAfter as_of (op ∷ ops) =
    (is_empty (time_of op) ≡ false) × (text_lt as_of (time_of op) ≡ true) × AllAfter as_of ops

settled_row :
    (as_of : String) (r : Entity)
    → text_le r.valid_from as_of ≡ true
    → r.valid_to ≡ ""
    → is_valid_at as_of r ≡ is_current r
unfolding is_valid_at is_current
settled_row as_of r begun open_end = rw (open_end, begun) (ground arith)

settled_close :
    (as_of now : String)
    → is_empty now ≡ false
    → text_le now as_of ≡ true
    → (e : Entity) → is_valid_at as_of (close now e) ≡ is_current (close now e)
unfolding is_valid_at is_current
settled_close as_of now ticks early e = rw ticks (ground arith)

step-Settled :
    (as_of : String) (op : Op) (db : Db)
    → is_empty (time_of op) ≡ false
    → text_le (time_of op) as_of ≡ true
    → Settled as_of db.rows
    → Settled as_of (step op db).0.rows
step-Settled as_of op db ticks early h =
    step_cases (Settled as_of) op db ticks h
      (λ r from open_end free.
        Every-append _ db.rows r h
          (settled_row as_of r (ap (λ t. text_le t as_of) from ∙ early) open_end))
      (λ r from open_end.
        Every-append _ _ r
          (Every-update _ (is_current_of r.entity_uid) (close (time_of op))
            (λ e _. settled_close as_of (time_of op) ticks early e) db.rows h)
          (settled_row as_of r (ap (λ t. text_le t as_of) from ∙ early) open_end))

pub run-Settled :
    (as_of : String) (ops : List Op) (db : Db)
    → AllBefore as_of ops
    → Settled as_of db.rows
    → IsScd db.rows
    → Settled as_of (run ops db).0.rows × IsScd (run ops db).0.rows
unfolding run
run-Settled as_of [] db before h k = (h, k)
run-Settled as_of (op ∷ ops) db (ticks, early, before) h k =
    run-Settled as_of ops (step op db).0 before (step-Settled as_of op db ticks early h)
      (step-IsScd op db ticks k)
