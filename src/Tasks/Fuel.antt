-- ===== src/Tasks/Fuel.antt =====
-- internal/task: the walk over dependents needs a round for each id.
use mathlib.Core.Bool.{false≢true}
use open_praxis.Prelude.{
  Bool, Bool-cases, List, Memᴰ, Option, Option-cases, String, [], ap, arith, contains, count,
  count_mono, eq_iff, eq_refl, false, inl, inr, length, length-append, not, refl, some, suc, sym,
  true, zero, ℕ, ◌+◌, ◌==◌, ◌∙◌, ◌∷◌, ◌≡◌, ◌≤◌, ◌⊎◌,
}
use open_praxis.Tasks.Propagate.{
  Outcome, Walk, done, empty_id, failed, flips, out_of_fuel, propagate, visit, visit_all,
}

pub contains_of_mem : (xs : List String) {s : String} → Memᴰ s xs → contains xs s ≡ true
unfolding contains
contains_of_mem [] m = elim m [ ]
contains_of_mem (x ∷ xs) {s} (Memᴰ.head q) = rw (q, eq_refl x) refl
contains_of_mem (x ∷ xs) (Memᴰ.tail m) = rw (contains_of_mem xs m) (ground arith)

pub mem_of_contains : (xs : List String) (s : String) → contains xs s ≡ true → Memᴰ s xs
unfolding contains
mem_of_contains [] s h = absurd (false≢true h)
mem_of_contains (x ∷ xs) s h = elim (Bool-cases (x == s)) [
  | inl e ↦ Memᴰ.head (sym ((eq_iff x s).0 e))
  | inr e ↦ Memᴰ.tail (mem_of_contains xs s (rw e at h))
]

abbrev unvisited : List String → Walk → ℕ
unvisited nodes w = count (λ d. not (contains w.visited d)) nodes

-- The rounds that are left at most.
abbrev pub measure : List String → Walk → ℕ
measure nodes w = unvisited nodes w + length w.queue

still_new :
    (dep : String) (visited : List String) (d : String)
    → not (contains (dep ∷ visited) d) ≡ true
    → not (contains visited d) ≡ true
unfolding contains
still_new dep visited d h = ground arith

unvisited_less :
    (nodes visited : List String) (dep : String)
    → Memᴰ dep nodes
    → contains visited dep ≡ false
    → suc (count (λ d. not (contains (dep ∷ visited) d)) nodes)
      ≤ count (λ d. not (contains visited d)) nodes
unfolding count contains
unvisited_less [] visited dep m new = elim m [ ]
unvisited_less (x ∷ xs) visited dep (Memᴰ.head q) new =
    let same : (dep == x) ≡ true = (eq_iff dep x).1 q in
    let fresh : contains visited x ≡ false = ap (contains visited) (sym q) ∙ new in
    let fewer =
      count_mono (λ d. not (contains (dep ∷ visited) d)) (λ d. not (contains visited d))
        (λ d h. still_new dep visited d h) xs in
    rw (same, fresh) (omega (arith, fewer))
unvisited_less (x ∷ xs) visited dep (Memᴰ.tail m) new =
    ground (arith, unvisited_less xs visited dep m new)

pub list_cases :
    (xs : List String) → (xs ≡ []) ⊎ ((x : String) × (rest : List String) × (xs ≡ x ∷ rest))
list_cases [] = inl refl
list_cases (x ∷ xs) = inr (x, xs, refl)

-- The walk has ended, with its result or with an error.
unfoldable pub ended : Outcome → Bool
ended (done w) = true
ended (failed w) = true
ended empty_id = true
ended out_of_fuel = false

module _ (deps_for : String → Option (List String)) (satisfied_for : String → Option Bool)
    (flip : String → Option ℕ) (nodes : List String) where
  measure-visit :
      (dep : String) (w : Walk)
      → Memᴰ dep nodes
      → measure nodes (visit deps_for satisfied_for flip dep w) ≤ measure nodes w
  unfolding visit
  measure-visit dep w m = elim (Bool-cases (contains w.visited dep)) [
    | inl e ↦ rw (visit, e) (omega arith)
    | inr e ↦ elim (Option-cases (flips deps_for satisfied_for flip dep)) [
      | inl f ↦ rw (visit, e, f) (omega (arith, unvisited_less nodes w.visited dep m e))
      | inr (n, f) ↦
          rw (visit, e, f)
            (omega
              (arith, unvisited_less nodes w.visited dep m e, length-append w.queue (dep ∷ [])))
    ]
  ]

  measure-visit_all :
      (deps : List String) (w : Walk)
      → ((d : String) → Memᴰ d deps → Memᴰ d nodes)
      → measure nodes (visit_all deps_for satisfied_for flip deps w) ≤ measure nodes w
  unfolding visit_all
  measure-visit_all [] w known = omega arith
  measure-visit_all (dep ∷ deps) w known = omega (
    arith,
    measure-visit dep w (known dep (Memᴰ.head refl)),
    measure-visit_all deps (visit deps_for satisfied_for flip dep w) (λ d m. known d (Memᴰ.tail m)),
  )

  module _
      (known : (head : String) (deps : List String)
        → deps_for head ≡ some deps
        → (d : String) → Memᴰ d deps
        → Memᴰ d nodes) where
    pub propagate-ended :
        (fuel : ℕ) (w : Walk)
        → measure nodes w ≤ fuel
        → ended (propagate deps_for satisfied_for flip fuel w) ≡ true
    unfolding propagate ended
    propagate-ended zero w enough = elim (list_cases w.queue) [
      | inl e ↦ rw (propagate, e) refl
      | inr (head, rest, e) ↦ absurd (omega (arith, enough, ap (λ (q : List String). length q) e))
    ]
    propagate-ended (suc fuel) w enough = elim (list_cases w.queue) [
      | inl e ↦ rw (propagate, e) refl
      | inr (head, rest, e) ↦ elim (Option-cases (deps_for head)) [
        | inl f ↦ rw (propagate, e, f) refl
        | inr (deps, f) ↦
            rw (propagate, e, f)
              (propagate-ended fuel
                (visit_all deps_for satisfied_for flip deps (record w { queue = rest }))
                (omega (
                  arith,
                  enough,
                  ap (λ (q : List String). length q) e,
                  measure-visit_all deps (record w { queue = rest }) (known head deps f),
                )))
      ]
    ]
