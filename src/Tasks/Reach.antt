-- ===== src/Tasks/Reach.antt =====
-- internal/task: which dependents the walk comes to.
use mathlib.Core.Path.{subst}
use open_praxis.Tasks.Fuel.{mem_of_contains}
use open_praxis.Tasks.Propagate.{Walk, activated, flips, seen, visit, visit_all}
use open_praxis.Prelude.{
  Bool, Bool-cases, List, Memᴰ, Option, Option-cases, String, [], arith, contains, false,
  if◌then◌else◌, inl, inr, is_empty, mem-append_cases, mem-append_left, mem-append_right,
  mem-cons_cases, none, refl, some, sym, true, ℕ, ◌++◌, ◌∷◌, ◌≡◌, ◌⊎◌,
}

-- The caller's lookup, when it never fails.
abbrev pub answers : (String → List String) → String → Option (List String)
answers children h = some (children h)

-- The ids that a closing reaches: the closed one, and each dependent of an id reached that is
-- satisfied and not empty.
pub data IsReached (children : String → List String) (satisfied_for : String → Option Bool)
    (closed : String) : String → Type 0 where
  root : IsReached children satisfied_for closed closed
  next :
      (h d : String)
      → IsReached children satisfied_for closed h
      → Memᴰ d (children h)
      → satisfied_for d ≡ some true
      → is_empty d ≡ false
      → IsReached children satisfied_for closed d

module _ (children : String → List String) (satisfied_for : String → Option Bool)
    (closed : String) where
  -- The closed id, or a dependent of an id reached.
  abbrev pub IsSeen : String → Type 0
  IsSeen d =
      (d ≡ closed)
      ⊎ ((h : String) × IsReached children satisfied_for closed h × Memᴰ d (children h))

  abbrev pub IsOpen : String → Type 0
  IsOpen d = (satisfied_for d ≡ some true) × (is_empty d ≡ false)

  module _ (flip : String → Option ℕ)
      (flip_lem : (id : String) → flip id ≡ (if is_empty id then none else some 0)) where
    flips_cases :
        (d : String)
        → ((flips (answers children) satisfied_for flip d ≡ none) × (IsOpen d → ⊥))
          ⊎ ((flips (answers children) satisfied_for flip d ≡ some 0) × IsOpen d)
    unfolding flips
    flips_cases d = elim (Option-cases (satisfied_for d)) [
      | inl e ↦ inl (rw (flips, e) refl, λ free. cc)
      | inr (true, e) ↦ elim (Bool-cases (is_empty d)) [
        | inl f ↦ inl (rw (flips, e, flip_lem d, f) refl, λ free. cc)
        | inr f ↦ inr (rw (flips, e, flip_lem d, f) refl, (e, f))
      ]
      | inr (false, e) ↦ inl (rw (flips, e) refl, λ free. cc)
    ]

    -- What holds of the walk at every moment.
    pub record IsFair (w : Walk) : Type 0 where
      pub closed_visited : Memᴰ closed w.visited
      pub queue_known : (h : String) → Memᴰ h w.queue → IsReached children satisfied_for closed h
      pub visited_known : (d : String) → Memᴰ d w.visited → IsSeen d
      pub none_flipped : w.total ≡ 0

    pub record Grows (w v : Walk) : Type 0 where
      pub visited_kept : (d : String) → Memᴰ d w.visited → Memᴰ d v.visited
      pub queue_kept : (d : String) → Memᴰ d w.queue → Memᴰ d v.queue
      pub open_queued :
          (d : String) → Memᴰ d v.visited → IsOpen d → Memᴰ d w.visited ⊎ Memᴰ d v.queue

    Grows-same : (w : Walk) → Grows w w
    Grows-same w = record {
      visited_kept = λ d m. m;
      queue_kept = λ d m. m;
      open_queued = λ d m o. inl m;
    }

    Grows-trans : (u v w : Walk) → Grows u v → Grows v w → Grows u w
    Grows-trans u v w g h = record {
      visited_kept = λ d m. h.visited_kept d (g.visited_kept d m);
      queue_kept = λ d m. h.queue_kept d (g.queue_kept d m);
      open_queued = λ d m o. elim (h.open_queued d m o) [
        | inl a ↦ elim (g.open_queued d a o) [ inl b ↦ inl b | inr b ↦ inr (h.queue_kept d b) ]
        | inr b ↦ inr b
      ];
    }

    seen-IsFair :
        (dep : String) (w : Walk)
        → IsSeen dep
        → (IsOpen dep → ⊥)
        → IsFair w
        → IsFair (seen (answers children) satisfied_for flip dep w)
          × Grows w (seen (answers children) satisfied_for flip dep w)
    seen-IsFair dep w child blocked fair = (
      record {
        closed_visited = Memᴰ.tail fair.closed_visited;
        queue_known = fair.queue_known;
        visited_known = λ d m. elim (mem-cons_cases m) [
          | inl q ↦ subst IsSeen (sym q) child
          | inr old ↦ fair.visited_known d old
        ];
        none_flipped = fair.none_flipped;
      },
      record {
        visited_kept = λ d m. Memᴰ.tail m;
        queue_kept = λ d m. m;
        open_queued = λ d m o. elim (mem-cons_cases m) [
          | inl q ↦ absurd (blocked (subst IsOpen q o))
          | inr old ↦ inl old
        ];
      },
    )

    mem_last : (d : String) (xs : List String) → Memᴰ d (xs ++ d ∷ [])
    mem_last d xs = mem-append_right xs (d ∷ []) (Memᴰ.head refl)

    reached : (dep : String) → IsSeen dep → IsOpen dep → IsReached children satisfied_for closed dep
    reached dep (inl q) free = subst (λ x. IsReached children satisfied_for closed x) (sym q) root
    reached dep (inr (h, r, m)) (good, named) = next h dep r m good named

    activated-IsFair :
        (dep : String) (w : Walk)
        → IsSeen dep
        → IsOpen dep
        → IsFair w
        → IsFair (activated (answers children) satisfied_for flip dep 0 w)
          × Grows w (activated (answers children) satisfied_for flip dep 0 w)
    activated-IsFair dep w child free fair = (
      record {
        closed_visited = Memᴰ.tail fair.closed_visited;
        queue_known = λ d m. elim (mem-append_cases w.queue (dep ∷ []) m) [
          | inl old ↦ fair.queue_known d old
          | inr new ↦ elim (mem-cons_cases new) [
            | inl q ↦
                subst (λ x. IsReached children satisfied_for closed x) (sym q)
                  (reached dep child free)
            | inr none_left ↦ elim none_left [ ]
          ]
        ];
        visited_known = λ d m. elim (mem-cons_cases m) [
          | inl q ↦ subst IsSeen (sym q) child
          | inr old ↦ fair.visited_known d old
        ];
        none_flipped = omega (arith, fair.none_flipped);
      },
      record {
        visited_kept = λ d m. Memᴰ.tail m;
        queue_kept = λ d m. mem-append_left w.queue (dep ∷ []) m;
        open_queued = λ d m o. elim (mem-cons_cases m) [
          | inl q ↦ inr (subst (λ x. Memᴰ x (w.queue ++ dep ∷ [])) (sym q) (mem_last dep w.queue))
          | inr old ↦ inl old
        ];
      },
    )

    visit-IsFair :
        (dep : String) (w : Walk)
        → IsSeen dep
        → IsFair w
        → IsFair (visit (answers children) satisfied_for flip dep w)
          × Grows w (visit (answers children) satisfied_for flip dep w)
          × Memᴰ dep (visit (answers children) satisfied_for flip dep w).visited
    unfolding visit
    visit-IsFair dep w child fair = elim (Bool-cases (contains w.visited dep)) [
      | inl e ↦ rw (visit, e) (fair, Grows-same w, mem_of_contains w.visited dep e)
      | inr e ↦ elim (flips_cases dep) [
        | inl (f, blocked) ↦
            let (fair', grown) = seen-IsFair dep w child blocked fair in
            rw (visit, e, f) (fair', grown, Memᴰ.head refl)
        | inr (f, free) ↦
            let (fair', grown) = activated-IsFair dep w child free fair in
            rw (visit, e, f) (fair', grown, Memᴰ.head refl)
      ]
    ]

    pub visit_all-IsFair :
        (deps : List String) (w : Walk)
        → ((d : String) → Memᴰ d deps → IsSeen d)
        → IsFair w
        → IsFair (visit_all (answers children) satisfied_for flip deps w)
          × Grows w (visit_all (answers children) satisfied_for flip deps w)
          × ((d : String)
              → Memᴰ d deps
              → Memᴰ d (visit_all (answers children) satisfied_for flip deps w).visited)
    unfolding visit_all
    visit_all-IsFair [] w child fair = (fair, Grows-same w, λ d m. elim m [ ])
    visit_all-IsFair (dep ∷ deps) w child fair =
        let (fair', grown, found) = visit-IsFair dep w (child dep (Memᴰ.head refl)) fair in
        let (last, more, there) =
          visit_all-IsFair deps (visit (answers children) satisfied_for flip dep w)
            (λ d m. child d (Memᴰ.tail m)) fair' in
        (
          last,
          Grows-trans w (visit (answers children) satisfied_for flip dep w) _ grown more,
          λ d m. elim (mem-cons_cases m) [
            | inl q ↦ more.visited_kept d (
                subst (λ x. Memᴰ x (visit (answers children) satisfied_for flip dep w).visited)
                  (sym q) found)
            | inr later ↦ there d later
          ],
        )
