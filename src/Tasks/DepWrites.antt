-- ===== src/Tasks/DepWrites.antt =====
-- internal/task/repository.go: the dependency that writeSCDDepRow leaves.
use mathlib.Core.Path.{subst}
use open_praxis.Prelude.{
  Bool-cases, List, Memᴰ, Option-cases, String, [], arith, count, count-append, count-update-le,
  count_none, eq_refl, false, first, first-append_of_none, inl, inr, is_empty, length,
  mem-select_of_test, none, refl, select, some, true, ℕ, ◌&&◌, ◌==◌, ◌∙◌, ◌∷◌, ◌≡◌,
}
use open_praxis.Relationships.Edge.{
  Edge, Table, is_current, is_current_edge, is_edge, ok, valid_edge_kind,
}
use open_praxis.Relationships.Effects.{create_done}
use open_praxis.Relationships.Read.{has_kind, list_current, list_outgoing}
use open_praxis.Relationships.Write.{close, close_prior, create, fresh_row}
use open_praxis.Tasks.Deps.{IsCovered, close_deps_lem, is_task_dep}
use open_praxis.Tasks.Linking.{close_deps, dep_edge, write_dep}
use open_praxis.Tasks.Links.{Result-cases, store_error-none}

self_edge :
    (task : String) (r : Edge)
    → is_task_dep task r ≡ true
    → (is_edge r.src_id r.dst_id "depends_on" r ≡ true)
      × ((r.dst_kind == "task") ≡ true)
      × ((r.src_id == task && (is_current r && has_kind "depends_on" r)) ≡ true)
unfolding is_task_dep is_edge has_kind
self_edge task r h =
    (rw (eq_refl r.src_id, eq_refl r.dst_id) (ground arith), ground arith, ground arith)

same_ok : {a b : List Edge} → ok a ≡ ok b → a ≡ b
same_ok h = cc

prior_rows :
    (task : String) (t : Table) {prior : List Edge}
    → list_outgoing task "depends_on" t ≡ ok prior
    → select (λ r. r.src_id == task && (is_current r && has_kind "depends_on" r)) t ≡ prior
unfolding list_outgoing list_current valid_edge_kind
prior_rows task t h = elim (Bool-cases (is_empty task)) [
  | inl e ↦ cc (rw (list_outgoing, list_current, e) at h)
  | inr e ↦ same_ok (rw (list_outgoing, list_current, e) at h)
]

prior_covers :
    (task : String) (t : Table) {prior : List Edge}
    → list_outgoing task "depends_on" t ≡ ok prior
    → IsCovered task prior t
prior_covers task t h r m dep =
    let (edge, kind, listed) = self_edge task r dep in
    (
      r,
      subst (λ l. Memᴰ r l) (prior_rows task t h)
          (mem-select_of_test (λ r. r.src_id == task && (is_current r && has_kind "depends_on" r)) t
            m listed),
      edge,
      kind,
    )

fresh_dep :
    (now task depends_on by reason : String)
    → is_task_dep task (fresh_row now (dep_edge task depends_on by reason)) ≡ true
unfolding is_task_dep fresh_row is_current
fresh_dep now task depends_on by reason = rw (eq_refl task) refl

close_dep :
    (task now : String) → is_empty now ≡ false → (r : Edge) → is_task_dep task (close now r) ≡ false
unfolding is_task_dep is_current
close_dep task now ticks r = rw ticks (ground arith)

module _ (now task depends_on by reason : String) (t : Table) (ticks : is_empty now ≡ false)
    (free : count (is_task_dep task) t ≡ 0)
    (done : (create now (dep_edge task depends_on by reason) t).1 ≡ none) where
  abbrev row : Edge
  row = fresh_row now (dep_edge task depends_on by reason)

  prior_closed :
      count (is_task_dep task) (close_prior now (dep_edge task depends_on by reason) t) ≡ 0
  unfolding close_prior
  prior_closed = omega (
    arith,
    free,
    count-update-le (is_current_edge task depends_on "depends_on") (is_task_dep task) (close now)
        (close_dep task now ticks) t,
  )

  create_dep :
      (count (is_task_dep task) (create now (dep_edge task depends_on by reason) t).0 ≡ 1)
      × (first (is_task_dep task) (create now (dep_edge task depends_on by reason) t).0 ≡ some row)
  unfolding count first
  create_dep = rw (create_done now (dep_edge task depends_on by reason) t done).1 (
    count-append (is_task_dep task) (close_prior now (dep_edge task depends_on by reason) t)
          (row ∷ [])
        ∙ rw (prior_closed, fresh_dep now task depends_on by reason) refl,
    first-append_of_none (is_task_dep task) _ (row ∷ []) prior_closed
        ∙ rw (fresh_dep now task depends_on by reason) refl,
  )

-- After writeSCDDepRow with a non-empty depends_on, over a wired store and a clock that never gives
-- an empty time, when it returns no error: exactly one current dependency of the task on a task is
-- left, whatever there was before, and it is on depends_on, with the author and the reason given.
pub write_dep_lem :
    (clock : ℕ → String) (task depends_on by reason : String) (t : Table)
    → ((i : ℕ) → is_empty (clock i) ≡ false)
    → is_empty depends_on ≡ false
    → (write_dep clock task depends_on by reason t).1 ≡ none
    → (count (is_task_dep task) (write_dep clock task depends_on by reason t).0 ≡ 1)
      × ((r : Edge) × (first (is_task_dep task) (write_dep clock task depends_on by reason t).0
            ≡ some r)
          × (r.dst_id ≡ depends_on)
          × (r.created_by ≡ by)
          × (r.reason ≡ reason))
unfolding write_dep fresh_row
write_dep_lem clock task depends_on by reason t ticks named h =
    elim (Result-cases (list_outgoing task "depends_on" t)) [
      | inl (x, e) ↦ cc (rw (write_dep, e) at h)
      | inr (prior, e) ↦ elim (Option-cases (close_deps clock 0 by prior t).1) [
        | inr (x, f) ↦ cc (rw (write_dep, e, f) at h)
        | inl f ↦
            let free =
              count_none (is_task_dep task) (close_deps clock 0 by prior t).0
                (close_deps_lem clock ticks task by 0 prior t (prior_covers task t e) f) in
            let done =
              store_error-none
                (create (clock (length prior)) (dep_edge task depends_on by reason)
                  (close_deps clock 0 by prior t).0).1
                (rw (write_dep, e, f, named) at h) in
            let (one, found) =
              create_dep (clock (length prior)) task depends_on by reason
                (close_deps clock 0 by prior t).0 (ticks (length prior)) free done in
            rw (write_dep, e, f, named) (one, (_, found, refl, refl, refl))
      ]
    ]
