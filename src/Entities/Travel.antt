-- ===== src/Entities/Travel.antt =====
-- internal/entity/store.go: what a query of a past time selects, before and after later writes.
use open_praxis.Entities.Entity.{Db, Entity, is_current, is_current_of, is_valid_at}
use open_praxis.Entities.Past.{AllAfter, AllBefore, IsScd, run-Settled, step_cases}
use open_praxis.Entities.Replay.{Op, run, step, time_of}
use open_praxis.Entities.Store.{close}
use open_praxis.Prelude.{
  Bool, Every-weaken, List, String, [], ap, arith, count, false, is_empty, map, map-select-update,
  refl, select, select-append_off, select_same, text_lt, true, ◌&&◌, ◌++◌, ◌∙◌, ◌∷◌, ◌≡◌,
}

abbrev pub empty_db : Db
empty_db = record { rows = []; last_id = 0 }

-- A version without the time at which it ends.
abbrev pub opened : Entity → Entity
opened e = record e { valid_to = "" }

is_valid_at-close :
    (as_of now uid : String)
    → text_lt as_of now ≡ true
    → (e : Entity) → is_current_of uid e ≡ true
    → is_valid_at as_of (close now e) ≡ is_valid_at as_of e
unfolding is_valid_at is_current_of is_current
is_valid_at-close as_of now uid later e h = rw later (ground arith)

future_off :
    (as_of : String) (r : Entity) → text_lt as_of r.valid_from ≡ true → is_valid_at as_of r ≡ false
unfolding is_valid_at
future_off as_of r h = rw h (ground arith)

pub empty-IsScd : IsScd empty_db.rows
unfolding count
empty-IsScd = record { one_current = λ uid. omega arith }

-- A query of the rows that are valid at `as_of` and that `q` takes, which does not read valid_to.
module _ (as_of : String) (q : Entity → Bool)
    (blind : (now : String) (e : Entity) → q (close now e) ≡ q e) where
  abbrev past : List Entity → List Entity
  past rows = map opened (select (λ e. q e && is_valid_at as_of e) rows)

  past-append :
      (rows : List Entity) (r : Entity)
      → text_lt as_of r.valid_from ≡ true
      → past (rows ++ r ∷ []) ≡ past rows
  past-append rows r h = ap (map opened) (
      select-append_off (λ e. q e && is_valid_at as_of e) r
        (rw (future_off as_of r h) (ground arith)) rows)

  past-step :
      (op : Op) (db : Db)
      → is_empty (time_of op) ≡ false
      → text_lt as_of (time_of op) ≡ true
      → past (step op db).0.rows ≡ past db.rows
  past-step op db ticks later =
      step_cases (λ rows. past rows ≡ past db.rows) op db ticks refl
        (λ r from open_end free. past-append db.rows r (ap (text_lt as_of) from ∙ later))
        (λ r from open_end.
          past-append _ r (ap (text_lt as_of) from ∙ later)
          ∙ map-select-update (is_current_of r.entity_uid) (λ e. q e && is_valid_at as_of e)
              (close (time_of op)) opened
              (λ e h.
                rw
                  (
                    blind (time_of op) e,
                    is_valid_at-close as_of (time_of op) r.entity_uid later e h,
                  )
                  refl)
              (λ e. refl) db.rows)

  past-run :
      (ops : List Op) (db : Db) → AllAfter as_of ops → past (run ops db).0.rows ≡ past db.rows
  unfolding run
  past-run [] db after = refl
  past-run (op ∷ ops) db (ticks, later, after) =
      past-run ops (step op db).0 after ∙ past-step op db ticks later

  -- The same query of the rows that are current once the earlier calls are done.
  pub past_is_present :
      (before after : List Op)
      → AllBefore as_of before
      → AllAfter as_of after
      → past (run after (run before empty_db).0).0.rows
        ≡ map opened (select (λ e. q e && is_current e) (run before empty_db).0.rows)
  past_is_present before after early late =
      past-run after (run before empty_db).0 late
      ∙ ap (map opened) (
          select_same (λ e. q e && is_valid_at as_of e) (λ e. q e && is_current e)
            (run before empty_db).0.rows
            (Every-weaken (λ e h. ap (λ b. q e && b) h) (run before empty_db).0.rows
              (run-Settled as_of before empty_db early tt empty-IsScd).0))
