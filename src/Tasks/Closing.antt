-- ===== src/Tasks/Closing.antt =====
-- internal/task: PropagateManifestClosed and PropagateProductClosed from end to end.
use mathlib.Core.Bool.{false≢true}
use mathlib.Core.Path.{subst}
use open_praxis.Prelude.{
  Bool, Bool-cases, List, Memᴰ, Option, String, [], ap, arith, contains, count_le_length, false,
  if◌then◌else◌, inl, inr, none, is_empty, length, not, refl, same_some, some, suc, sym, true, zero,
  ℕ, ◌↔◌, ◌∙◌, ◌∷◌, ◌≡◌, ◌≤◌, ◌⊎◌,
}
use open_praxis.Tasks.Fuel.{ended, list_cases, measure, propagate-ended}
use open_praxis.Tasks.Propagate.{
  Walk, done, flip_manifest_blocked_tasks, flip_product_blocked_tasks, out_of_fuel, propagate,
  propagate_closed, propagate_manifest_closed, propagate_product_closed, start, visit_all,
}
use open_praxis.Tasks.Freed.{propagate_lem}
use open_praxis.Tasks.Reach.{IsSeen, answers}
use open_praxis.Tasks.Status.{status_scheduled}

module _ (children : String → List String) (satisfied_for : String → Option Bool)
    (flip : String → Option ℕ) where
  done_or_short :
      (fuel : ℕ) (w : Walk)
      → ((v : Walk) × (propagate (answers children) satisfied_for flip fuel w ≡ done v))
        ⊎ (propagate (answers children) satisfied_for flip fuel w ≡ out_of_fuel)
  unfolding propagate
  done_or_short zero w = elim (list_cases w.queue) [
    | inl e ↦ inl (w, simp (propagate, e))
    | inr (head, rest, e) ↦ inr (rw (propagate, e) refl)
  ]
  done_or_short (suc fuel) w = elim (list_cases w.queue) [
    | inl e ↦ inl (w, simp (propagate, e))
    | inr (head, rest, e) ↦
        rw (propagate, e)
          (done_or_short fuel (
            visit_all (answers children) satisfied_for flip (children head)
              (record w { queue = rest })))
  ]

  module _ (nodes : List String)
      (known : (head d : String) → Memᴰ d (children head) → Memᴰ d nodes) where
    propagate_not_short :
        (fuel : ℕ) (w : Walk)
        → measure nodes w ≤ fuel
        → propagate (answers children) satisfied_for flip fuel w ≡ out_of_fuel
        → false ≡ true
    unfolding ended
    propagate_not_short fuel w enough short =
        sym (ap ended short)
        ∙ propagate-ended (answers children) satisfied_for flip nodes
            (λ head deps e d m. known head d (subst (λ l. Memᴰ d l) (sym (same_some e)) m)) fuel w
            enough

    propagate_done :
        (fuel : ℕ) (w : Walk)
        → measure nodes w ≤ fuel
        → (v : Walk) × (propagate (answers children) satisfied_for flip fuel w ≡ done v)
    propagate_done fuel w enough = elim (done_or_short fuel w) [
      | inl found ↦ found
      | inr short ↦ absurd (false≢true (propagate_not_short fuel w enough short))
    ]

    measure-start :
        (closed : String)
        → measure nodes (start (answers children) satisfied_for flip closed) ≤ suc (length nodes)
    measure-start closed =
        omega (arith, count_le_length (λ d. not (contains (closed ∷ []) d)) nodes)

    closing :
        (closed : String)
        → ((id : String) → flip id ≡ (if is_empty id then none else some 0))
        → is_empty closed ≡ false
        → (v : Walk) × (propagate_closed
              (answers children)
              satisfied_for
              flip
              (suc (length nodes))
              closed
            ≡ done v)
          × (v.total ≡ 0)
          × ((d : String) → Memᴰ d v.visited ↔ IsSeen children satisfied_for closed d)
    unfolding propagate_closed
    closing closed flip_lem named =
        let (v, h) =
          propagate_done (suc (length nodes)) (start (answers children) satisfied_for flip closed)
            (measure-start closed) in
        let (total, visited) =
          propagate_lem children satisfied_for closed flip flip_lem (suc (length nodes)) h in
        (v, rw (propagate_closed, named) h, total, visited)

-- When the lookup of dependents never fails, and names only ids of a finite list: from a closed id
-- that is not empty, PropagateManifestClosed and PropagateProductClosed end with their result
-- within as many rounds as the list has ids and one more. The ids that they have visited are then
-- exactly the closed id and the dependents of the ids that the closing reaches, which are the
-- closed id and, from each id reached, its dependents that are satisfied and not empty; and the
-- total that they return is 0.
pub closing_reaches :
    (children : String → List String) (satisfied_for : String → Option Bool) (nodes : List String)
    (closed : String)
    → is_empty closed ≡ false
    → ((head d : String) → Memᴰ d (children head) → Memᴰ d nodes)
    → ((v : Walk) × (propagate_manifest_closed
            (answers children)
            satisfied_for
            (suc (length nodes))
            closed
          ≡ done v)
        × (v.total ≡ 0)
        × ((d : String) → Memᴰ d v.visited ↔ IsSeen children satisfied_for closed d))
      × ((v : Walk) × (propagate_product_closed
              (answers children)
              satisfied_for
              (suc (length nodes))
              closed
            ≡ done v)
          × (v.total ≡ 0)
          × ((d : String) → Memᴰ d v.visited ↔ IsSeen children satisfied_for closed d))
unfolding propagate_manifest_closed propagate_product_closed flip_manifest_blocked_tasks
    flip_product_blocked_tasks
closing_reaches children satisfied_for nodes closed named known = (
  closing children satisfied_for (λ id. flip_manifest_blocked_tasks id status_scheduled) nodes known
      closed (λ id. refl) named,
  closing children satisfied_for (λ id. flip_product_blocked_tasks id status_scheduled) nodes known
      closed (λ id. refl) named,
)

closed_ends :
    (deps_for : String → Option (List String)) (satisfied_for : String → Option Bool)
    (flip : String → Option ℕ) (nodes : List String) (fuel : ℕ) (closed : String)
    → ((head : String) (deps : List String)
        → deps_for head ≡ some deps
        → (d : String) → Memᴰ d deps
        → Memᴰ d nodes)
    → suc (length nodes) ≤ fuel
    → ended (propagate_closed deps_for satisfied_for flip fuel closed) ≡ true
unfolding propagate_closed ended
closed_ends deps_for satisfied_for flip nodes fuel closed known enough =
    elim (Bool-cases (is_empty closed)) [
      | inl e ↦ rw (propagate_closed, e) refl
      | inr e ↦
          rw (propagate_closed, e)
            (propagate-ended deps_for satisfied_for flip nodes known fuel
              (start deps_for satisfied_for flip closed)
              (omega (arith, enough, count_le_length (λ d. not (contains (closed ∷ []) d)) nodes)))
    ]

-- Whatever graph the lookups describe, cycles included, as long as the dependents are ids of a
-- finite list, and whether the lookups fail or not: PropagateManifestClosed and
-- PropagateProductClosed end, with a result or an error, within as many rounds as the list has ids
-- and one more.
pub closing_ends :
    (deps_for : String → Option (List String)) (satisfied_for : String → Option Bool)
    (nodes : List String) (fuel : ℕ) (closed : String)
    → ((head : String) (deps : List String)
        → deps_for head ≡ some deps
        → (d : String) → Memᴰ d deps
        → Memᴰ d nodes)
    → suc (length nodes) ≤ fuel
    → (ended (propagate_manifest_closed deps_for satisfied_for fuel closed) ≡ true)
      × (ended (propagate_product_closed deps_for satisfied_for fuel closed) ≡ true)
unfolding propagate_manifest_closed propagate_product_closed
closing_ends deps_for satisfied_for nodes fuel closed known enough = (
  closed_ends deps_for satisfied_for (λ id. flip_manifest_blocked_tasks id status_scheduled) nodes
      fuel closed known enough,
  closed_ends deps_for satisfied_for (λ id. flip_product_blocked_tasks id status_scheduled) nodes
      fuel closed known enough,
)
