-- ===== src/Tasks/Tests.antt =====
-- Runs of the walk over dependents, and the theorems at concrete inputs.
use mathlib.Core.Path.{subst}
use open_praxis.Prelude.{
  Bool, Bool-cases, List, Memᴰ, Option, String, [], arith, contains, if◌then◌else◌, inl, inr, none,
  not, refl, same_some, some, sym, true, ◌==◌, ◌↔◌, ◌∷◌, ◌≡◌,
}
use open_praxis.Tasks.Closing.{closing_ends, closing_reaches}
use open_praxis.Tasks.Fuel.{ended}
use open_praxis.Tasks.Machine.{
  Course, any_status, here, not_running, terminal_lem, then_to, unstarted, unstarted_lem,
}
use open_praxis.Tasks.Propagate.{
  Walk, done, failed, propagate_manifest_closed, propagate_product_closed,
}
use open_praxis.Tasks.Reach.{IsSeen, answers}
use open_praxis.Tasks.Status.{
  can_transition, is_terminal, is_valid_status, terminal_source, validate_transition,
}

-- `a` holds back `b` and `c`, and `b` holds back `a` and `d`.
abbrev held_back : String → List String
held_back h = if h == "a" then "b" ∷ "c" ∷ [] else if h == "b" then "a" ∷ "d" ∷ [] else []

-- All but `c` are satisfied.
abbrev all_but_c : String → Option Bool
all_but_c d = some (not (d == "c"))

abbrev ids : List String
ids = "a" ∷ "b" ∷ "c" ∷ "d" ∷ []

known_a : (d : String) → Memᴰ d ("b" ∷ "c" ∷ []) → Memᴰ d ids
known_a d (Memᴰ.head q) = Memᴰ.tail (Memᴰ.head q)
known_a d (Memᴰ.tail (Memᴰ.head q)) = Memᴰ.tail (Memᴰ.tail (Memᴰ.head q))
known_a d (Memᴰ.tail (Memᴰ.tail m)) = elim m [ ]

known_b : (d : String) → Memᴰ d ("a" ∷ "d" ∷ []) → Memᴰ d ids
known_b d (Memᴰ.head q) = Memᴰ.head q
known_b d (Memᴰ.tail (Memᴰ.head q)) = Memᴰ.tail (Memᴰ.tail (Memᴰ.tail (Memᴰ.head q)))
known_b d (Memᴰ.tail (Memᴰ.tail m)) = elim m [ ]

ids_known : (head d : String) → Memᴰ d (held_back head) → Memᴰ d ids
ids_known head d m = elim (Bool-cases (head == "a")) [
  | inl e ↦ known_a d (rw e at m)
  | inr e ↦ elim (Bool-cases (head == "b")) [
    | inl f ↦ known_b d (rw (e, f) at m)
    | inr f ↦ elim (rw (e, f) at m) [ ]
  ]
]

reached_ids :
    propagate_manifest_closed (answers held_back) all_but_c 5 "a"
    ≡ done (record { visited = "d" ∷ "c" ∷ "b" ∷ "a" ∷ []; queue = []; total = 0 })
unfolding propagate_manifest_closed contains
reached_ids = refl

lookup_error :
    propagate_product_closed (λ h. none) all_but_c 5 "a"
    ≡ failed (record { visited = "a" ∷ []; queue = []; total = 0 })
unfolding propagate_product_closed
lookup_error = refl

closing_reaches_example :
    ((v : Walk) × (propagate_manifest_closed (answers held_back) all_but_c 5 "a" ≡ done v)
      × (v.total ≡ 0)
      × ((d : String) → Memᴰ d v.visited ↔ IsSeen held_back all_but_c "a" d))
    × ((v : Walk) × (propagate_product_closed (answers held_back) all_but_c 5 "a" ≡ done v)
        × (v.total ≡ 0)
        × ((d : String) → Memᴰ d v.visited ↔ IsSeen held_back all_but_c "a" d))
closing_reaches_example = closing_reaches held_back all_but_c ids "a" refl ids_known

known_answers :
    (head : String) (deps : List String)
    → answers held_back head ≡ some deps
    → (d : String) → Memᴰ d deps
    → Memᴰ d ids
known_answers head deps e d m = ids_known head d (subst (λ l. Memᴰ d l) (sym (same_some e)) m)

closing_ends_example :
    (ended (propagate_manifest_closed (answers held_back) all_but_c 6 "a") ≡ true)
    × (ended (propagate_product_closed (answers held_back) all_but_c 6 "a") ≡ true)
closing_ends_example =
    closing_ends (answers held_back) all_but_c ids 6 "a" known_answers (omega arith)

terminal_lem_example :
    (is_terminal "failed" ≡ true) ↔ ((t : String) → Course any_status "failed" t → t ≡ "failed")
unfolding is_valid_status contains
terminal_lem_example = terminal_lem "failed" refl

to_waiting : Course not_running "pending" "waiting"
unfolding can_transition contains
to_waiting = then_to "pending" "waiting" here refl refl

unstarted_lem_example : contains unstarted "waiting" ≡ true
unstarted_lem_example = unstarted_lem "waiting" to_waiting

rerun_refused : validate_transition "failed" "running" ≡ some terminal_source
unfolding validate_transition contains
rerun_refused = refl
