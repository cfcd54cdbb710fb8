-- ===== src/Schedules/Budget.antt =====
-- internal/schedule/store.go: MarkFired and the budget of runs.
use open_praxis.Prelude.{
  Bool, Bool-cases, Option, ap, arith, first, first-update_same, inl, inr, ltb, mem_of_first,
  non_positive, pos, refl, some, suc, sym, true, zero, ℕ, ℤ, ◌&&◌, ◌+◌, ◌∙◌, ◌≡◌,
}
use open_praxis.Schedules.Schedule.{Db, Schedule, has_id, has_runs_left, is_armed, is_current, ok}
use open_praxis.Schedules.Store.{get, mark_fired, mark_row}

-- MarkFired called n times.
abbrev pub mark_times : ℕ → ℤ → Db → Db
mark_times zero id db = db
mark_times (suc n) id db = mark_times n id (mark_fired id db).0

same_found : {a b : Option Schedule} → ok a ≡ ok b → a ≡ b
same_found h = cc

get-mark_fired :
    (id : ℤ) (db : Db) (s : Schedule)
    → is_current s ≡ true
    → get id db ≡ ok (some s)
    → get id (mark_fired id db).0 ≡ ok (some (mark_row s))
unfolding get mark_fired has_id
get-mark_fired id db s open_end h = elim (Bool-cases (non_positive id)) [
  | inl bad ↦ cc (rw bad at h)
  | inr good ↦
      let found : first (has_id id) db.rows ≡ some s = same_found (rw good at h) in
      let (m, named) = mem_of_first (has_id id) db.rows found in
      rw good (
        ap ok (
          first-update_same (λ x. has_id id x && is_current x) (has_id id) mark_row (λ x. refl)
            db.rows s found
          ∙ rw (named, open_end) refl))
]

-- A current schedule with its budget in the state that `k` runs leave it in.
Spent : ℕ → ℕ → Schedule → Type 0
Spent m k s =
    (is_current s ≡ true)
    × (s.max_runs ≡ pos (suc m))
    × (s.runs_so_far ≡ pos k)
    × ((s.enabled && ltb k (suc m)) ≡ ltb k (suc m))

mark_row-Spent : (m k : ℕ) (s : Schedule) → Spent m k s → Spent m (suc k) (mark_row s)
unfolding Spent mark_row is_current
mark_row-Spent m k s (open_end, limit, runs, armed) =
    (open_end, limit, rw runs, rw (runs, limit) (ground arith))

current_of_Spent : (m k : ℕ) (s : Schedule) → Spent m k s → is_current s ≡ true
unfolding Spent
current_of_Spent m k s h = h.0

runs_of_Spent : (m k : ℕ) (s : Schedule) → Spent m k s → s.runs_so_far ≡ pos k
unfolding Spent
runs_of_Spent m k s (open_end, limit, runs, armed) = runs

and-true_parts : (a b : Bool) → (a && b) ≡ true → (a ≡ true) × (b ≡ true)
and-true_parts a b h = ground arith

is_armed_of_Spent : (m k : ℕ) (s : Schedule) → Spent m k s → is_armed s ≡ ltb k (suc m)
unfolding Spent is_armed has_runs_left
is_armed_of_Spent m k s (open_end, limit, runs, armed) =
    rw (open_end, limit, runs) (ground (arith, armed))

enough_budget :
    (m k : ℕ) (s : Schedule)
    → is_armed s ≡ true
    → s.max_runs ≡ pos (suc m)
    → s.runs_so_far ≡ pos k
    → Spent m k s
unfolding Spent is_armed
enough_budget m k s armed limit runs =
    let (open_end, rest) = and-true_parts (is_current s) _ armed in
    (open_end, limit, runs, rw (and-true_parts s.enabled _ rest).0)

same_budget : (m : ℕ) {k j : ℕ} → k ≡ j → (s : Schedule) → Spent m k s → Spent m j s
same_budget m e s h = rw (sym e) h

budget :
    (n m k : ℕ) (id : ℤ) (db : Db) (s : Schedule)
    → get id db ≡ ok (some s)
    → Spent m k s
    → (r : Schedule) × (get id (mark_times n id db) ≡ ok (some r)) × Spent m (k + n) r
budget zero m k id db s h spent = (s, h, same_budget m (omega arith) s spent)
budget (suc n) m k id db s h spent =
    let (r, found, after) =
      budget n m (suc k) id (mark_fired id db).0 (mark_row s)
        (get-mark_fired id db s (current_of_Spent m k s spent) h) (mark_row-Spent m k s spent) in
    (r, found, same_budget m (omega arith) r after)

-- For a schedule that the runner is given, with k runs of its positive max_runs behind it: after n
-- further calls of MarkFired it has k + n runs, and the runner is still given it exactly when k + n
-- is below max_runs.
pub mark_fired_budget :
    (n m k : ℕ) (id : ℤ) (db : Db) (s : Schedule)
    → get id db ≡ ok (some s)
    → is_armed s ≡ true
    → s.max_runs ≡ pos (suc m)
    → s.runs_so_far ≡ pos k
    → (r : Schedule) × (get id (mark_times n id db) ≡ ok (some r))
      × (r.runs_so_far ≡ pos (k + n))
      × (is_armed r ≡ ltb (k + n) (suc m))
unfolding Spent
mark_fired_budget n m k id db s h armed limit runs =
    let (r, found, spent) = budget n m k id db s h (enough_budget m k s armed limit runs) in
    (r, found, runs_of_Spent m (k + n) r spent, is_armed_of_Spent m (k + n) r spent)

armed-mark_row :
    (s : Schedule)
    → is_armed s ≡ true
    → s.max_runs ≡ pos 0
    → (is_armed (mark_row s) ≡ true) × ((mark_row s).max_runs ≡ pos 0)
unfolding is_armed mark_row is_current has_runs_left
armed-mark_row s armed limit = (rw limit (ground arith), limit)

-- A schedule that the runner is given and that has no limit (max_runs 0) is still given to it after
-- any number of calls of MarkFired.
pub mark_fired_unbounded :
    (n : ℕ) (id : ℤ) (db : Db) (s : Schedule)
    → get id db ≡ ok (some s)
    → is_armed s ≡ true
    → s.max_runs ≡ pos 0
    → (r : Schedule) × (get id (mark_times n id db) ≡ ok (some r)) × (is_armed r ≡ true)
unfolding is_armed
mark_fired_unbounded zero id db s h armed limit = (s, h, armed)
mark_fired_unbounded (suc n) id db s h armed limit =
    let (next, same) = armed-mark_row s armed limit in
    mark_fired_unbounded n id (mark_fired id db).0 (mark_row s)
      (get-mark_fired id db s (and-true_parts (is_current s) _ armed).0 h) next same
