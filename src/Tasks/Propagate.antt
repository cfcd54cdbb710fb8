-- ===== src/Tasks/Propagate.antt =====
-- internal/task/manifest_activation.go and product_activation.go: the walk over the dependents of a
-- manifest or of a product that closes. The lookups of the callers are parameters: `deps_for` is the
-- dependents of an id and `satisfied_for` whether all dependencies of one are met; an error is `none`.
use open_praxis.Prelude.{
  Bool, List, Option, String, [], contains, if◌then◌else◌, is_empty, none, not, some, suc, zero, ℕ,
  ◌++◌, ◌+◌, ◌==◌, ◌||◌, ◌∷◌,
}
use open_praxis.Tasks.Status.{status_pending, status_scheduled}

abbrev is_target : String → Bool
is_target status = status == status_scheduled || status == status_pending

-- The number of tasks flipped: none since the tasks table is retired. An error is `none`.
unfoldable pub flip_manifest_blocked_tasks : String → String → Option ℕ
flip_manifest_blocked_tasks id status =
    if is_empty id then none else if not (is_target status) then none else some 0

unfoldable pub flip_product_blocked_tasks : String → String → Option ℕ
flip_product_blocked_tasks id status =
    if is_empty id then none else if not (is_target status) then none else some 0

-- The local variables of the walk.
pub record Walk : Type 0 where
  pub visited : List String
  pub queue : List String
  pub total : ℕ

pub data Outcome : Type 0 where
  done : Walk → Outcome
  failed : Walk → Outcome
  empty_id : Outcome
  out_of_fuel : Outcome

module _ (deps_for : String → Option (List String)) (satisfied_for : String → Option Bool)
    (flip : String → Option ℕ) where
  -- A dependent that is seen for the first time.
  abbrev pub seen : String → Walk → Walk
  seen dep w = record w { visited = dep ∷ w.visited }

  abbrev pub activated : String → ℕ → Walk → Walk
  activated dep n w = record w {
    visited = dep ∷ w.visited;
    queue = w.queue ++ dep ∷ [];
    total = w.total + n;
  }

  -- Whether the walk flips the tasks of a dependent, and how many they are.
  unfoldable pub flips : String → Option ℕ
  flips dep = elim (satisfied_for dep) [ none ↦ none | some ok ↦ if ok then flip dep else none ]

  unfoldable pub visit : String → Walk → Walk
  unfolding flips
  visit dep w =
      if contains w.visited dep
      then w
      else elim (flips dep) [ none ↦ seen dep w | some n ↦ activated dep n w ]

  unfoldable pub visit_all : List String → Walk → Walk
  unfolding visit
  visit_all [] w = w
  visit_all (dep ∷ deps) w = visit_all deps (visit dep w)

  -- The loop over the queue.
  unfoldable pub propagate : ℕ → Walk → Outcome
  unfolding visit_all
  propagate zero w = elim w.queue [ [] ↦ done w | head ∷ rest ↦ out_of_fuel ]
  propagate (suc fuel) w = elim w.queue [
    | [] ↦ done w
    | head ∷ rest ↦ elim (deps_for head) [
      | none ↦ failed (record w { queue = rest })
      | some deps ↦ propagate fuel (visit_all deps (record w { queue = rest }))
    ]
  ]

  abbrev pub start : String → Walk
  start closed = record { visited = closed ∷ []; queue = closed ∷ []; total = 0 }

  unfoldable pub propagate_closed : ℕ → String → Outcome
  unfolding propagate
  propagate_closed fuel closed = if is_empty closed then empty_id else propagate fuel (start closed)

unfoldable pub propagate_manifest_closed :
    (String → Option (List String)) → (String → Option Bool) → ℕ → String → Outcome
unfolding propagate_closed flip_manifest_blocked_tasks
propagate_manifest_closed deps_for satisfied_for fuel closed =
    propagate_closed deps_for satisfied_for (λ id. flip_manifest_blocked_tasks id status_scheduled)
      fuel closed

unfoldable pub propagate_product_closed :
    (String → Option (List String)) → (String → Option Bool) → ℕ → String → Outcome
unfolding propagate_closed flip_product_blocked_tasks
propagate_product_closed deps_for satisfied_for fuel closed =
    propagate_closed deps_for satisfied_for (λ id. flip_product_blocked_tasks id status_scheduled)
      fuel closed
