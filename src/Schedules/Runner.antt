-- ===== src/Schedules/Runner.antt =====
-- internal/schedule/runner.go: the runner that registers the armed schedules with the cron library
-- and fires them. A call that only logs is left out.
use open_praxis.Prelude.{
  Bool, List, Option, String, [], any, false, first, if◌then◌else◌, int_eq, is_empty, none, not,
  select, some, true, ℕ, ℤ, ◌++◌, ◌∷◌,
}
use open_praxis.Schedules.Schedule.{Db, Schedule, has_id}
use open_praxis.Schedules.Store.{list_all_current, mark_fired}

-- oneShot, over the type of the times.
pub record OneShot (T : Type 0) : Type 0 where
  pub run_at : T
  pub fired : Bool

-- A cron.Schedule: what the library parses from an expression, or a oneShot.
pub data Plan (P T : Type 0) : Type 0 where
  cron_plan : P → Plan P T
  one_shot_plan : OneShot T → Plan P T

-- The triple that the closure of makeJob captures.
pub record Job : Type 0 where
  pub schedule_id : ℤ
  pub entity_kind : String
  pub entity_id : String

-- What the runner uses of robfig/cron and of package time, which are not part of the repository:
-- `C` is the state of a cron, `P` a parsed expression, `T` a time.
pub record CronLib (C P T : Type 0) : Type 0 where
  pub parse_expr : String → Option P
  pub add : Plan P T → Job → C → C × ℕ
  pub remove : ℕ → C → C
  pub parse_time : String → String → Option T
  pub utc : T → T
  pub zero_time : T

-- One pair of the map from the ids of schedules to the library's entry ids.
pub record Entry : Type 0 where
  pub key : ℤ
  pub entry_id : ℕ

-- A dispatcher changes the world that it works in and tells whether it succeeded.
abbrev pub Dispatch : Type 0 → Type 0
Dispatch W = String → ℤ → W → W × Bool

pub record Runner (C W : Type 0) : Type 0 where
  pub dispatchers : String → Option (Dispatch W)
  pub cron : C
  pub entries : List Entry

pub data BuildError : Type 0 where
  bad_cron_expr no_run_at bad_run_at : BuildError

pub data Build (A : Type 0) : Type 0 where
  built : A → Build A
  failed : BuildError → Build A

-- NewRunner with a fresh cron; a nil map of dispatchers is one without keys.
unfoldable pub new_runner : {C W : Type 0} → (String → Option (Dispatch W)) → C → Runner C W
new_runner dispatchers cron = record { dispatchers = dispatchers; cron = cron; entries = [] }

unfoldable pub has_key : ℤ → Entry → Bool
has_key id e = int_eq e.key id

unfoldable pub is_registered : {C W : Type 0} → ℤ → Runner C W → Bool
unfolding has_key
is_registered id r = any (has_key id) r.entries

-- The lookup of `r.dispatchers[kind]`, with "*" as the fallback.
unfoldable pub dispatcher_of : {C W : Type 0} → String → Runner C W → Option (Dispatch W)
dispatcher_of kind r = elim (r.dispatchers kind) [ some d ↦ some d | none ↦ r.dispatchers "*" ]

-- The map of the wanted rows: a later row replaces an earlier one with its id.
unfoldable pub want_of : List Schedule → List Schedule → List Schedule
want_of [] want = want
want_of (s ∷ rows) want = want_of rows (s ∷ select (λ x. not (has_id s.id x)) want)

module _ {C P T : Type 0} (lib : CronLib C P T) where
  unfoldable pub parse_run_at : String → Option T
  parse_run_at s = elim (lib.parse_time "2006-01-02T15:04:05.999999999Z07:00" s) [
    | some t ↦ some (lib.utc t)
    | none ↦ elim (lib.parse_time "2006-01-02T15:04:05Z07:00" s) [
      | some t ↦ some (lib.utc t)
      | none ↦ elim (lib.parse_time "2006-01-02 15:04:05" s) [
        | some t ↦ some (lib.utc t)
        | none ↦ none
      ]
    ]
  ]

  unfoldable pub build_schedule : Schedule → Build (Plan P T)
  unfolding parse_run_at
  build_schedule s =
      if not (is_empty s.cron_expr)
      then elim (lib.parse_expr s.cron_expr) [
        | some p ↦ built (cron_plan p)
        | none ↦ failed bad_cron_expr
      ]
      else if is_empty s.run_at
      then failed no_run_at
      else elim (parse_run_at s.run_at) [
        | some t ↦ built (one_shot_plan (record { run_at = t; fired = false }))
        | none ↦ failed bad_run_at
      ]

  -- oneShot.Next: the time, and the oneShot afterwards.
  unfoldable pub next : OneShot T → T × OneShot T
  next s = if s.fired then (lib.zero_time, s) else (s.run_at, record s { fired = true })

  module _ {W : Type 0} where
    -- register, and the assignment to the map after it.
    unfoldable pub register : Schedule → Runner C W → Runner C W
    unfolding build_schedule
    register s r = elim (build_schedule s) [
      | failed x ↦ r
      | built plan ↦
          let (cron, entry_id) =
            lib.add plan
              (record { schedule_id = s.id; entity_kind = s.entity_kind; entity_id = s.entity_id })
              r.cron in
          record r {
            cron = cron;
            entries = r.entries ++ record { key = s.id; entry_id = entry_id } ∷ [];
          }
    ]

    -- `r.cron.Remove(entryID)` and `delete(r.entries, id)`
    unfoldable pub drop : Entry → Runner C W → Runner C W
    unfolding has_key
    drop e r = record r {
      cron = lib.remove e.entry_id r.cron;
      entries = select (λ x. not (has_key e.key x)) r.entries;
    }

    -- The first loop of Reload over the map of entries.
    unfoldable pub drop_unwanted : List Schedule → List Entry → Runner C W → Runner C W
    unfolding drop
    drop_unwanted want [] r = r
    drop_unwanted want (e ∷ es) r =
        drop_unwanted want es (if any (has_id e.key) want then r else drop e r)

    -- The second loop of Reload over the map of wanted rows.
    unfoldable pub add_missing : List Schedule → Runner C W → Runner C W
    unfolding register is_registered
    add_missing [] r = r
    add_missing (s ∷ want) r = add_missing want (if is_registered s.id r then r else register s r)

    -- `visit_entries` and `visit_rows` stand for the order in which `range` visits a map.
    unfoldable pub reload :
        (List Entry → List Entry) → (List Schedule → List Schedule) → Db → Runner C W → Runner C W
    unfolding drop_unwanted add_missing want_of
    reload visit_entries visit_rows db r =
        let want = want_of (list_all_current db) [] in
        add_missing (visit_rows want) (drop_unwanted want (visit_entries r.entries) r)

    -- The body of the closure that makeJob returns, on the database, the runner and the world.
    unfoldable pub run_job : Job → Db → Runner C W → W → Db × Runner C W × W
    unfolding drop
    run_job job db r w = elim (dispatcher_of job.entity_kind r) [
      | none ↦ (db, r, w)
      | some dispatch ↦
          let (world, sent) = dispatch job.entity_id job.schedule_id w in
          if not sent then (db, r, world) else (
            (mark_fired job.schedule_id db).0,
            elim (first (has_key job.schedule_id) r.entries) [ none ↦ r | some e ↦ drop e r ],
            world,
          )
    ]
