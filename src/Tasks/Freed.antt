-- ===== src/Tasks/Freed.antt =====
-- internal/task: the walk has come to what the closing reaches.
use mathlib.Core.Path.{subst}
use open_praxis.Tasks.Fuel.{list_cases}
use open_praxis.Tasks.Propagate.{Walk, done, propagate, start, visit_all}
use open_praxis.Tasks.Reach.{
  Grows, IsFair, IsOpen, IsReached, IsSeen, answers, next, root, visit_all-IsFair,
}
use open_praxis.Prelude.{
  Bool, List, Memᴰ, Option, String, [], if◌then◌else◌, inl, inr, is_empty, mem-cons_cases, none,
  refl, some, suc, sym, zero, ℕ, ◌↔◌, ◌∷◌, ◌≡◌, ◌⊎◌,
}

module _ (children : String → List String) (satisfied_for : String → Option Bool) (closed : String)
    (flip : String → Option ℕ)
    (flip_lem : (id : String) → flip id ≡ (if is_empty id then none else some 0)) where
  -- An id of which the walk has visited all dependents.
  abbrev IsDone : Walk → String → Type 0
  IsDone w h = (d : String) → Memᴰ d (children h) → Memᴰ d w.visited

  abbrev IsExpanded : String → Type 0
  IsExpanded h = (h ≡ closed) ⊎ IsOpen children satisfied_for closed h

  record IsCovered (w : Walk) : Type 0 where
    covered : (h : String) → Memᴰ h w.visited → IsExpanded h → Memᴰ h w.queue ⊎ IsDone w h

  IsCovered-next :
      (w v : Walk) (head : String) (rest : List String)
      → w.queue ≡ head ∷ rest
      → IsFair children satisfied_for closed flip flip_lem w
      → Grows children satisfied_for closed flip flip_lem (record w { queue = rest }) v
      → ((d : String) → Memᴰ d (children head) → Memᴰ d v.visited)
      → IsCovered w
      → IsCovered v
  IsCovered-next w v head rest split fair grown there cover = record {
    covered = λ h m known.
        let old : Memᴰ h w.visited → Memᴰ h v.queue ⊎ IsDone v h = λ before.
          elim (cover.covered h before known) [
            | inr finished ↦ inr (λ d k. grown.visited_kept d (finished d k))
            | inl queued ↦ elim (mem-cons_cases (subst (λ q. Memᴰ h q) split queued)) [
              | inl same ↦ inr (λ d k. there d (subst (λ x. Memᴰ d (children x)) same k))
              | inr later ↦ inl (grown.queue_kept h later)
            ]
          ] in
        elim known [
          | inl q ↦ old (subst (λ x. Memᴰ x w.visited) (sym q) fair.closed_visited)
          | inr free ↦ elim (grown.open_queued h m free) [
            | inl before ↦ old before
            | inr queued ↦ inl queued
          ]
        ];
  }

  IsFair-rest :
      (w : Walk) (head : String) (rest : List String)
      → w.queue ≡ head ∷ rest
      → IsFair children satisfied_for closed flip flip_lem w
      → IsFair children satisfied_for closed flip flip_lem (record w { queue = rest })
  IsFair-rest w head rest split fair = record {
    closed_visited = fair.closed_visited;
    queue_known = λ h m. fair.queue_known h (subst (λ q. Memᴰ h q) (sym split) (Memᴰ.tail m));
    visited_known = fair.visited_known;
    none_flipped = fair.none_flipped;
  }

  head_reached :
      (w : Walk) (head : String) (rest : List String)
      → w.queue ≡ head ∷ rest
      → IsFair children satisfied_for closed flip flip_lem w
      → IsReached children satisfied_for closed head
  head_reached w head rest split fair =
      fair.queue_known head (subst (λ q. Memᴰ head q) (sym split) (Memᴰ.head refl))

  abbrev IsFinal : Walk → Type 0
  IsFinal v = IsFair children satisfied_for closed flip flip_lem v × IsCovered v × (v.queue ≡ [])

  same_done : {w v : Walk} → done w ≡ done v → w ≡ v
  same_done h = cc

  propagate-IsFinal :
      (fuel : ℕ) (w : Walk) {v : Walk}
      → IsFair children satisfied_for closed flip flip_lem w
      → IsCovered w
      → propagate (answers children) satisfied_for flip fuel w ≡ done v
      → IsFinal v
  unfolding propagate
  propagate-IsFinal zero w {v} fair cover h = elim (list_cases w.queue) [
    | inl e ↦ subst IsFinal (same_done (rw (propagate, e) at h)) (fair, cover, e)
    | inr (head, rest, e) ↦ cc (rw (propagate, e) at h)
  ]
  propagate-IsFinal (suc fuel) w {v} fair cover h = elim (list_cases w.queue) [
    | inl e ↦ subst IsFinal (same_done (rw (propagate, e) at h)) (fair, cover, e)
    | inr (head, rest, e) ↦
        let (fair', grown, there) =
          visit_all-IsFair children satisfied_for closed flip flip_lem (children head)
            (record w { queue = rest }) (λ d m. inr (head, head_reached w head rest e fair, m))
            (IsFair-rest w head rest e fair) in
        propagate-IsFinal fuel
          (visit_all (answers children) satisfied_for flip (children head)
            (record w { queue = rest }))
          fair' (IsCovered-next w _ head rest e fair grown there cover) (rw (propagate, e) at h)
  ]

  start-IsFair :
      IsFair children satisfied_for closed flip flip_lem
        (start (answers children) satisfied_for flip closed)
  start-IsFair = record {
    closed_visited = Memᴰ.head refl;
    queue_known = λ h m. elim (mem-cons_cases m) [
      | inl q ↦ subst (λ x. IsReached children satisfied_for closed x) (sym q) root
      | inr later ↦ elim later [ ]
    ];
    visited_known = λ d m. elim (mem-cons_cases m) [ inl q ↦ inl q | inr later ↦ elim later [ ] ];
    none_flipped = refl;
  }

  start-IsCovered : IsCovered (start (answers children) satisfied_for flip closed)
  start-IsCovered = record { covered = λ h m known. inl m }

  -- Once the queue is empty, the dependents of a visited id that the walk expands are visited.
  finished :
      (v : Walk)
      → IsFinal v
      → (h : String) → Memᴰ h v.visited
      → IsExpanded h
      → (d : String) → Memᴰ d (children h)
      → Memᴰ d v.visited
  finished v (fair, cover, empty) h m known = elim (cover.covered h m known) [
    | inl queued ↦ elim (subst (λ q. Memᴰ h q) empty queued) [ ]
    | inr all ↦ all
  ]

  all_reached :
      (v : Walk)
      → IsFinal v
      → (h : String) → IsReached children satisfied_for closed h
      → Memᴰ h v.visited × IsExpanded h
  all_reached v final _ root = ((final.0).closed_visited, inl refl)
  all_reached v final _ (next h d r m good named) =
      let (before, known) = all_reached v final h r in
      (finished v final h before known d m, inr (good, named))

  -- The walk ends with the closed id and the dependents of the ids reached visited, and no task
  -- flipped.
  pub propagate_lem :
      (fuel : ℕ) {v : Walk}
      → propagate
          (answers children)
          satisfied_for
          flip
          fuel
          (start (answers children) satisfied_for flip closed)
        ≡ done v
      → (v.total ≡ 0) × ((d : String) → Memᴰ d v.visited ↔ IsSeen children satisfied_for closed d)
  propagate_lem fuel {v} h =
      let final =
        propagate-IsFinal fuel (start (answers children) satisfied_for flip closed) start-IsFair
          start-IsCovered h in
      (
        (final.0).none_flipped,
        λ d. (
          (final.0).visited_known d,
          λ seen. elim seen [
            | inl q ↦ subst (λ x. Memᴰ x v.visited) (sym q) (final.0).closed_visited
            | inr (p, r, m) ↦
                let (before, known) = all_reached v final p r in finished v final p before known d m
          ],
        ),
      )
