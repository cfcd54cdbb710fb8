-- ===== src/Entities/Refines.antt =====
-- internal/entity/store.go: the store against the map from uids to current versions.
use mathlib.Core.Path.{fun_ext}
use mathlib.Core.Option
use open_praxis.Entities.Entity.{Db, Entity, Error, is_current, is_current_of}
use open_praxis.Entities.Replay.{
  Op, Versions, create_op, put, replay, run, step, step_map, time_of, unnumbered, update_op,
  versions,
}
use open_praxis.Entities.Store.{close, get, new_entity, next_version}
use open_praxis.Entities.Writes.{
  added, closed, closed_not_current, create_free, create_taken, none_current_after_close,
  update_found, update_missing,
}
use open_praxis.Prelude.{
  Bool-cases, List, Option, Option-cases, String, [], ap, arith, eq_iff, eq_refl, false, first,
  first-append_last, first-none_of_count, first-update_other, inl, inr, is_empty, none, refl, some,
  suc, sym, true, ◌==◌, ◌∙◌, ◌∷◌, ◌≡◌,
}

other_uid :
    (uid u : String) (e : Entity)
    → (uid == u) ≡ false
    → is_current_of uid e ≡ true
    → is_current_of u e ≡ false
unfolding is_current_of
other_uid uid u e apart h =
    let same : e.entity_uid ≡ uid = (eq_iff e.entity_uid uid).0 (ground arith) in
    rw (same, apart) refl

-- A current row of `uid` at the end of rows that hold no other.
module _ (uid : String) (row : Entity) (owner : row.entity_uid ≡ uid)
    (open_end : row.valid_to ≡ "") where
  get-added_self :
      (db : Db)
      → get uid db ≡ none
      → get uid (added row db) ≡ some (record row { row_id = suc db.last_id })
  unfolding get is_current_of is_current
  get-added_self db h =
      first-append_last (is_current_of uid) db.rows (record row { row_id = suc db.last_id })
      ∙ rw (h, owner, open_end, eq_refl uid) refl

  get-added_other : (u : String) (db : Db) → (uid == u) ≡ false → get u (added row db) ≡ get u db
  unfolding get is_current_of
  get-added_other u db apart =
      first-append_last (is_current_of u) db.rows (record row { row_id = suc db.last_id })
      ∙ rw (owner, apart)
          (elim (Option-cases (first (is_current_of u) db.rows)) [
            | inl e ↦ rw e refl
            | inr (a, e) ↦ rw e refl
          ])

  versions-added :
      (db : Db)
      → get uid db ≡ none
      → versions (added row db) ≡ put uid (unnumbered row) (versions db)
  unfolding versions put
  versions-added db h = fun_ext λ u. elim (Bool-cases (uid == u)) [
    | inl e ↦ rw (e, sym ((eq_iff uid u).0 e)) (ap (Option.map unnumbered) (get-added_self db h))
    | inr e ↦ rw e (ap (Option.map unnumbered) (get-added_other u db e))
  ]

module _ (now uid : String) (ticks : is_empty now ≡ false) (db : Db) where
  get-closed_self : get uid (closed now uid db) ≡ none
  unfolding get
  get-closed_self =
      first-none_of_count (is_current_of uid) (closed now uid db).rows
        (none_current_after_close now uid db ticks)

  get-closed_other : (u : String) → (uid == u) ≡ false → get u (closed now uid db) ≡ get u db
  unfolding get
  get-closed_other u apart =
      first-update_other (is_current_of uid) (is_current_of u) (close now)
        (λ e h. other_uid uid u e apart h) (λ e h. closed_not_current now uid u ticks e) db.rows

  put-versions-closed :
      (e : Entity) → put uid e (versions (closed now uid db)) ≡ put uid e (versions db)
  unfolding put versions
  put-versions-closed e = fun_ext λ u. elim (Bool-cases (uid == u)) [
    | inl same ↦ rw same refl
    | inr apart ↦ rw apart (ap (Option.map unnumbered) (get-closed_other u apart))
  ]

read :
    (uid : String) (db : Db) {o : Option Entity}
    → get uid db ≡ o
    → versions db uid ≡ Option.map unnumbered o
unfolding versions
read uid db h = ap (Option.map unnumbered) h

abbrev both : Db × Option Error → Versions × Option Error
both out = (versions out.0, out.1)

step-step_map :
    (op : Op) (db : Db)
    → is_empty (time_of op) ≡ false
    → both (step op db) ≡ step_map op (versions db)
unfolding step step_map
step-step_map (create_op now uid type title status tags by reason) db ticks =
    elim (Option-cases (get uid db)) [
      | inl free ↦
          rw
            (
              step,
              step_map,
              read uid db free,
              create_free now uid type title status tags by reason db free,
            )
            (ap (λ m. (m, none))
              (versions-added uid (new_entity now uid type title status tags by reason) refl refl db
                free))
      | inr (old, taken) ↦
          rw
            (
              step,
              step_map,
              read uid db taken,
              create_taken now uid type title status tags by reason db taken,
            )
            refl
    ]
step-step_map (update_op now uid title status tags by reason) db ticks =
    elim (Option-cases (get uid db)) [
      | inl missing ↦
          rw
            (
              step,
              step_map,
              read uid db missing,
              update_missing now uid title status tags by reason db missing,
            )
            refl
      | inr (old, found) ↦
          rw
            (
              step,
              step_map,
              read uid db found,
              update_found now uid title status tags by reason db ticks found,
            )
            (ap (λ m. (m, none))
              (versions-added uid (next_version now uid title status tags by reason old) refl refl
                  (closed now uid db) (get-closed_self now uid ticks db)
                ∙ put-versions-closed now uid ticks db
                    (next_version now uid title status tags by reason old)))
    ]

abbrev pub AllTimed : List Op → Type 0
AllTimed [] = Unit
AllTimed (op ∷ ops) = (is_empty (time_of op) ≡ false) × AllTimed ops

-- For any calls of Create and Update whose times are not empty, on any database: the map from each
-- uid to the version that Get returns, but for its row number, is what the same calls make of the
-- map before. There Create puts under a free uid a version with the fields given (an empty status
-- is draft) that begins and is created at its time, Update puts under a taken uid a version with
-- the title, status, tags, name and reason given that begins at its time and has the type and the
-- creation time of the version before, and every other call changes nothing. The calls return the
-- errors that they return on the map.
pub run-replay :
    (ops : List Op) (db : Db)
    → AllTimed ops
    → (versions (run ops db).0 ≡ (replay ops (versions db)).0)
      × ((run ops db).1 ≡ (replay ops (versions db)).1)
unfolding run replay
run-replay [] db timed = (refl, refl)
run-replay (op ∷ ops) db (t, timed) =
    let now = step-step_map op db t in
    let map_now : versions (step op db).0 ≡ (step_map op (versions db)).0 = ap (λ o. o.0) now in
    let rest = run-replay ops (step op db).0 timed in
    (rest.0 ∙ ap (λ m. (replay ops m).0) map_now, rw (ap (λ o. o.1) now, rest.1, map_now) refl)
