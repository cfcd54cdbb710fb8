-- ===== src/Tasks/Deps.antt =====
-- internal/task/repository.go: writeSCDDepRow, over the store of relationships.
use mathlib.Core.Bool.{false≢true}
use open_praxis.Prelude.{
  Bool, Bool-cases, List, Memᴰ, Option-cases, String, [], ap, arith, false, inl, inr, is_empty,
  mem-cons_cases, mem_of_mem-update, none, suc, sym, true, update, ℕ, ◌&&◌, ◌==◌, ◌∙◌, ◌∷◌, ◌≡◌,
}
use open_praxis.Relationships.Edge.{Edge, Table, is_current, is_current_edge, is_edge}
use open_praxis.Relationships.Write.{close_by, remove}
use open_praxis.Tasks.Linking.{close_deps}

-- A current dependency of `task` on a task.
unfoldable pub is_task_dep : String → Edge → Bool
unfolding is_current
is_task_dep task r =
    r.src_id == task && (r.kind == "depends_on" && (is_current r && r.dst_kind == "task"))

remove_done :
    (now src dst by reason : String) (t : Table)
    → (remove now src dst "depends_on" by reason t).1 ≡ none
    → (remove now src dst "depends_on" by reason t).0
      ≡ update (is_current_edge src dst "depends_on") (close_by now by reason) t
unfolding remove
remove_done now src dst by reason t h = ground arith

pub closed_dep :
    (task now by reason : String)
    → is_empty now ≡ false
    → (r : Edge) → is_task_dep task (close_by now by reason r) ≡ false
unfolding is_task_dep is_current
closed_dep task now by reason ticks r = rw ticks (ground arith)

-- A row of `prior` for the edge of each current dependency.
abbrev pub IsCovered : String → List Edge → Table → Type 0
IsCovered task prior t =
    (r : Edge)
    → Memᴰ r t
    → is_task_dep task r ≡ true
    → (p : Edge) × Memᴰ p prior
      × (is_edge p.src_id p.dst_id "depends_on" r ≡ true)
      × ((p.dst_kind == "task") ≡ true)

still_current :
    (task src dst : String) (r : Edge)
    → is_task_dep task r ≡ true
    → is_edge src dst "depends_on" r ≡ true
    → is_current_edge src dst "depends_on" r ≡ true
unfolding is_task_dep is_current_edge is_current
still_current task src dst r h k = ground arith

module _ (clock : ℕ → String) (ticks : (i : ℕ) → is_empty (clock i) ≡ false)
    (task by : String) where
  IsCovered-next :
      (i : ℕ) (p : Edge) (prior : List Edge) (t : Table) (reason : String)
      → IsCovered task (p ∷ prior) t
      → IsCovered task prior
          (update (is_current_edge p.src_id p.dst_id "depends_on") (close_by (clock i) by reason) t)
  IsCovered-next i p prior t reason cover r m dep =
      elim (mem_of_mem-update (is_current_edge p.src_id p.dst_id "depends_on")
        (close_by (clock i) by reason) t m) [
          | inr (b, n, hit, q) ↦ absurd (
              false≢true (
                sym (closed_dep task (clock i) by reason (ticks i) b)
                ∙ ap (is_task_dep task) (sym q)
                ∙ dep))
          | inl (n, off) ↦
              let (c, from, edge, kind) = cover r n dep in
              elim (mem-cons_cases from) [
                | inr later ↦ (c, later, edge, kind)
                | inl same ↦ absurd (
                    false≢true (
                      sym off
                      ∙ still_current task p.src_id p.dst_id r dep
                          (ap (λ x. is_edge x.src_id x.dst_id "depends_on" r) (sym same) ∙ edge)))
              ]
        ]

  IsCovered-skip :
      (p : Edge) (prior : List Edge) (t : Table)
      → (p.dst_kind == "task") ≡ false
      → IsCovered task (p ∷ prior) t
      → IsCovered task prior t
  IsCovered-skip p prior t other cover r m dep =
      let (c, from, edge, kind) = cover r m dep in
      elim (mem-cons_cases from) [
        | inr later ↦ (c, later, edge, kind)
        | inl same ↦
            absurd (false≢true (sym other ∙ ap (λ x. x.dst_kind == "task") (sym same) ∙ kind))
      ]

  pub close_deps_lem :
      (i : ℕ) (prior : List Edge) (t : Table)
      → IsCovered task prior t
      → (close_deps clock i by prior t).1 ≡ none
      → (r : Edge) → Memᴰ r (close_deps clock i by prior t).0
      → is_task_dep task r ≡ false
  unfolding close_deps
  close_deps_lem i [] t cover h r m = elim (Bool-cases (is_task_dep task r)) [
    | inr e ↦ e
    | inl e ↦ elim ((cover r m e).1) [ ]
  ]
  close_deps_lem i (p ∷ prior) t cover h r m = elim (Bool-cases (p.dst_kind == "task")) [
    | inr e ↦
        close_deps_lem i prior t (IsCovered-skip p prior t e cover) (rw (close_deps, e) at h) r
          (rw (close_deps, e) at m)
    | inl e ↦
        elim (Option-cases
          (remove (clock i) p.src_id p.dst_id "depends_on" by "superseded by SetDependency" t).1) [
            | inr (x, f) ↦ cc (rw (close_deps, e, f) at h)
            | inl f ↦
                let table =
                  remove_done (clock i) p.src_id p.dst_id by "superseded by SetDependency" t f in
                close_deps_lem (suc i) prior
                  (remove (clock i) p.src_id p.dst_id "depends_on" by "superseded by SetDependency"
                    t).0
                  (rw table (IsCovered-next i p prior t "superseded by SetDependency" cover))
                  (rw (close_deps, e, f) at h) r (rw (close_deps, e, f) at m)
          ]
  ]
