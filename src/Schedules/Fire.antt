-- ===== src/Schedules/Fire.antt =====
-- internal/schedule/runner.go: one run of the closure of makeJob.
use mathlib.Core.Path.{subst}
use open_praxis.Prelude.{
  Bool-cases, List, [], any, arith, false, first, inl, inr, int_eq_iff, none, not, pos, refl,
  select, some, sym, true, ℤ, ◌∷◌, ◌≡◌, ◌⊎◌,
}
use open_praxis.Schedules.Budget.{mark_fired_unbounded}
use open_praxis.Schedules.Runner.{
  CronLib, Dispatch, Entry, Job, Runner, dispatcher_of, drop, has_key, is_registered, run_job,
}
use open_praxis.Schedules.Schedule.{Db, Schedule, is_armed, ok}
use open_praxis.Schedules.Store.{get, mark_fired}

first_cases :
    (id : ℤ) (es : List Entry)
    → ((e : Entry) × (first (has_key id) es ≡ some e) × (e.key ≡ id))
      ⊎ ((first (has_key id) es ≡ none) × (any (has_key id) es ≡ false))
unfolding first any has_key
first_cases id [] = inr (refl, refl)
first_cases id (e ∷ es) = elim (Bool-cases (has_key id e)) [
  | inl t ↦ inl (e, rw t, (int_eq_iff e.key id).0 t)
  | inr f ↦ elim (first_cases id es) [
    | inl (x, found, same) ↦ inl (x, rw f found, same)
    | inr (missing, off) ↦ inr (rw f missing, rw f off)
  ]
]

dropped :
    (id : ℤ) (es : List Entry) → any (has_key id) (select (λ x. not (has_key id x)) es) ≡ false
unfolding any select
dropped id [] = refl
dropped id (e ∷ es) = ground (arith, dropped id es)

module _ {C P T : Type 0} (lib : CronLib C P T) {W : Type 0} where
  sent_job :
      (job : Job) (db : Db) (r : Runner C W) (w : W) (dispatch : Dispatch W)
      → dispatcher_of job.entity_kind r ≡ some dispatch
      → (dispatch job.entity_id job.schedule_id w).1 ≡ true
      → ((run_job lib job db r w).0 ≡ (mark_fired job.schedule_id db).0)
        × (is_registered job.schedule_id (run_job lib job db r w).1 ≡ false)
  unfolding run_job is_registered drop
  sent_job job db r w dispatch known sent = elim (first_cases job.schedule_id r.entries) [
    | inl (e, found, same) ↦
        rw (run_job, known, sent, found)
          (
            refl,
            subst
                (λ k.
                  any (has_key job.schedule_id) (select (λ x. not (has_key k x)) r.entries) ≡ false)
                (sym same) (dropped job.schedule_id r.entries),
          )
    | inr (missing, off) ↦ rw (run_job, known, sent, missing) (refl, off)
  ]

  unregistered_job :
      (job : Job) (db : Db) (r : Runner C W) (w : W) (dispatch : Dispatch W) (e : Entry)
      → dispatcher_of job.entity_kind r ≡ some dispatch
      → (dispatch job.entity_id job.schedule_id w).1 ≡ true
      → first (has_key job.schedule_id) r.entries ≡ some e
      → (run_job lib job db r w).1.cron ≡ lib.remove e.entry_id r.cron
  unfolding run_job drop
  unregistered_job job db r w dispatch e known sent found = rw (run_job, known, sent, found) refl

  -- After a job whose dispatcher succeeds, for an armed schedule without a limit that has an entry:
  -- the schedule is still one that ListAllCurrent gives the runner, but its id is no longer
  -- registered, and the cron is what the library's Remove of the id of its entry makes of it.
  pub run_job_forgets_recurring :
      (job : Job) (db : Db) (r : Runner C W) (w : W) (dispatch : Dispatch W) (s : Schedule)
      (e : Entry)
      → dispatcher_of job.entity_kind r ≡ some dispatch
      → (dispatch job.entity_id job.schedule_id w).1 ≡ true
      → get job.schedule_id db ≡ ok (some s)
      → is_armed s ≡ true
      → s.max_runs ≡ pos 0
      → first (has_key job.schedule_id) r.entries ≡ some e
      → ((after : Schedule) × (get job.schedule_id (run_job lib job db r w).0 ≡ ok (some after))
          × (is_armed after ≡ true))
        × (is_registered job.schedule_id (run_job lib job db r w).1 ≡ false)
        × ((run_job lib job db r w).1.cron ≡ lib.remove e.entry_id r.cron)
  run_job_forgets_recurring job db r w dispatch s e known sent found armed limit there =
      let (marked, off) = sent_job job db r w dispatch known sent in
      (
        rw marked (mark_fired_unbounded 1 job.schedule_id db s found armed limit),
        off,
        unregistered_job job db r w dispatch e known sent there,
      )
