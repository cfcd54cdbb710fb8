-- ===== src/Schedules/Tests.antt =====
-- Runs of the schedules' store and runner, and the theorems at concrete inputs.
use open_praxis.Prelude.{
  List, Memᴰ, String, [], any, arith, count, false, first, if◌then◌else◌, is_empty, nat_eq, none,
  not, pos, refl, select, some, sort_by, suc, text_lt, true, ℕ, ◌&&◌, ◌++◌, ◌==◌, ◌||◌, ◌↔◌, ◌∷◌,
  ◌≡◌,
}
use open_praxis.Schedules.Budget.{mark_fired_budget, mark_times}
use open_praxis.Schedules.Fire.{run_job_forgets_recurring}
use open_praxis.Schedules.Ids.{IsValid, writes-IsValid}
use open_praxis.Schedules.Lifecycle.{list_all_current-close_stale}
use open_praxis.Schedules.Reload.{builds, reload_registers}
use open_praxis.Schedules.Runner.{
  CronLib, Dispatch, Job, Runner, build_schedule, dispatcher_of, is_registered, new_runner, reload,
  run_job,
}
use open_praxis.Schedules.Schedule.{Db, Schedule, has_id, is_armed, is_current, ok, validate_create}
use open_praxis.Schedules.Store.{close_stale_one_shots, create, get, list_all_current, new_row}

abbrev noon : String
noon = "2026-04-25T12:00:00Z"

abbrev one_pm : String
one_pm = "2026-04-25T13:00:00Z"

-- A schedule as a caller passes it to Create.
abbrev asked : String → String → ℕ → Schedule
asked entity cron_expr max_runs = record {
  id = pos 0;
  entity_kind = "task";
  entity_id = entity;
  run_at = "2026-04-25T10:00:00Z";
  cron_expr = cron_expr;
  timezone = "";
  max_runs = pos max_runs;
  runs_so_far = pos 0;
  stop_at = "";
  enabled = true;
  metadata = "";
  valid_from = "";
  valid_to = "";
  created_by = "alice";
  reason = "";
  created_at = "";
}

abbrev empty_db : Db
empty_db = record { rows = []; last_id = 0 }

empty-IsValid : IsValid empty_db
unfolding count
empty-IsValid = record { unique = λ id. omega arith; fresh = λ n h. refl }

abbrev one_shot_row : Schedule
one_shot_row = new_row noon (pos 1) (asked "t1" "" 1)

abbrev cron_row : Schedule
cron_row = new_row noon (pos 2) (asked "t2" "*/5 * * * *" 0)

abbrev limited_row : Schedule
limited_row = new_row noon (pos 3) (asked "t3" "0 * * * *" 2)

abbrev one_db : Db
one_db = (create noon (some (asked "t1" "" 1)) empty_db).0

abbrev two_db : Db
two_db = (create noon (some (asked "t2" "*/5 * * * *" 0)) one_db).0

abbrev three_db : Db
three_db = (create noon (some (asked "t3" "0 * * * *" 2)) two_db).0

abbrev create-IsValid_at :
    (s : Schedule) (db : Db) → IsValid db → IsValid (create noon (some s) db).0
create-IsValid_at s db v = (writes-IsValid noon (some s) (pos 1) "" "" db v).0

three-IsValid : IsValid three_db
three-IsValid =
    create-IsValid_at _ two_db
      (create-IsValid_at _ one_db (create-IsValid_at _ empty_db empty-IsValid))

list_all_current-close_stale_example :
    Memᴰ limited_row (list_all_current (close_stale_one_shots noon three_db).0) ↔ (
      Memᴰ limited_row (list_all_current three_db)
      × (((is_empty limited_row.cron_expr || limited_row.cron_expr == "once")
            && (not (is_empty limited_row.run_at) && text_lt limited_row.run_at noon))
          ≡ false))
list_all_current-close_stale_example = list_all_current-close_stale noon three_db refl limited_row

-- The cleanup closes one of the three.
closed_one : (close_stale_one_shots noon three_db).1 ≡ 1
unfolding close_stale_one_shots count create validate_create is_current text_lt
closed_one = refl

mark_fired_budget_example :
    (r : Schedule) × (get (pos 3) (mark_times 2 (pos 3) three_db) ≡ ok (some r))
    × (r.runs_so_far ≡ pos 2)
    × (is_armed r ≡ false)
unfolding create get first is_armed validate_create has_id is_current
mark_fired_budget_example = mark_fired_budget 2 1 0 (pos 3) three_db limited_row refl refl refl refl

-- A cron that counts its entries, and parses every expression and every time as its text.
-- A cron is the last entry id that it gave and the ids that are in it.
abbrev Cron : Type 0
Cron = ℕ × List ℕ

abbrev counting : CronLib Cron String String
counting = record {
  parse_expr = λ s. some s;
  add = λ plan job c. ((suc c.0, suc c.0 ∷ c.1), suc c.0);
  remove = λ id c. (c.0, select (λ n. not (nat_eq n id)) c.1);
  parse_time = λ layout s. some s;
  utc = λ t. t;
  zero_time = "";
}

-- A dispatcher that notes what it is asked to fire.
abbrev noting : Dispatch (List String)
noting entity id world = (world ++ entity ∷ [], true)

-- A runner that has only the wildcard dispatcher.
abbrev idle : Runner Cron (List String)
idle = new_runner (λ kind. if kind == "*" then some noting else none) (0, [])

abbrev keep_order : {A : Type 0} → List A → List A
keep_order xs = xs

reload_registers_example :
    is_registered (pos 2) (reload counting keep_order keep_order three_db idle) ≡ true
unfolding any create has_id is_registered builds build_schedule is_armed validate_create new_runner
    is_current
reload_registers_example =
    reload_registers counting keep_order keep_order (λ p es. refl) (λ p rows. refl) three_db idle
      (pos 2) three-IsValid

abbrev loaded : Runner Cron (List String)
loaded = reload counting keep_order keep_order three_db idle

abbrev cron_job : Job
cron_job = record { schedule_id = pos 2; entity_kind = "task"; entity_id = "t2" }

run_job_forgets_recurring_example :
    ((after : Schedule) × (get (pos 2) (run_job counting cron_job three_db loaded []).0
        ≡ ok (some after))
      × (is_armed after ≡ true))
    × (is_registered (pos 2) (run_job counting cron_job three_db loaded []).1 ≡ false)
    × ((run_job counting cron_job three_db loaded []).1.cron ≡ counting.remove 2 loaded.cron)
unfolding create get first is_armed dispatcher_of reload list_all_current sort_by select
    validate_create is_current has_id any new_runner
run_job_forgets_recurring_example =
    run_job_forgets_recurring counting cron_job three_db loaded [] noting cron_row
      (record { key = pos 2; entry_id = 2 }) refl refl refl refl refl refl
