-- ===== src/Tasks/Machine.antt =====
-- internal/task/status.go: the statuses that sequences of transitions lead to.
use open_praxis.Prelude.{
  Bool, Bool-cases, List, Memᴰ, String, [], any, ap, arith, contains, eq_iff, first_of_any, inl,
  inr, mem_of_first, not, refl, sym, true, ◌&&◌, ◌==◌, ◌||◌, ◌↔◌, ◌∙◌, ◌∷◌, ◌≡◌, ◌⊎◌,
}
use open_praxis.Tasks.Fuel.{mem_of_contains}
use open_praxis.Tasks.Status.{
  all_statuses, can_transition, is_terminal, is_valid_status, status_cancelled, status_pending,
  status_running, status_scheduled, status_waiting,
}

-- Sequences of transitions from `s`, each to a status that `open_to` takes.
pub data Course (open_to : String → Bool) (s : String) : String → Type 0 where
  here : Course open_to s s
  then_to :
      (t u : String)
      → Course open_to s t
      → can_transition t u ≡ true
      → open_to u ≡ true
      → Course open_to s u

all : (String → Bool) → List String → Bool
all p [] = true
all p (x ∷ xs) = p x && all p xs

all_of_mem :
    (p : String → Bool) (xs : List String) → all p xs ≡ true → {s : String} → Memᴰ s xs → p s ≡ true
unfolding all
all_of_mem p [] h m = elim m [ ]
all_of_mem p (x ∷ xs) h (Memᴰ.head q) = ap p q ∙ ground arith
all_of_mem p (x ∷ xs) h (Memᴰ.tail m) = all_of_mem p xs (ground arith) m

-- A test that the eight statuses pass, each valid status passes.
status_test :
    (p : String → Bool)
    → all p all_statuses ≡ true
    → (s : String) → is_valid_status s ≡ true
    → p s ≡ true
unfolding is_valid_status
status_test p h s valid = all_of_mem p all_statuses h (mem_of_contains all_statuses s valid)

pair_test :
    (p : String → String → Bool)
    → all (λ s. all (p s) all_statuses) all_statuses ≡ true
    → (s t : String) → is_valid_status s ≡ true
    → is_valid_status t ≡ true
    → p s t ≡ true
pair_test p h s t valid valid' =
    status_test (p s) (status_test (λ u. all (p u) all_statuses) h s valid) t valid'

abbrev pub any_status : String → Bool
any_status s = true

can_valid :
    (s t : String)
    → can_transition s t ≡ true
    → (s ≡ t) ⊎ ((is_valid_status s ≡ true) × (is_valid_status t ≡ true))
unfolding can_transition
can_valid s t h = elim (Bool-cases (s == t)) [
  | inl e ↦ inl ((eq_iff s t).0 e)
  | inr e ↦ inr (ground arith)
]

abbrev stays : String → String → Bool
stays s t = not (is_terminal s) || (not (can_transition s t) || t == s)

all_stay : all (λ s. all (stays s) all_statuses) all_statuses ≡ true
unfolding all can_transition is_terminal contains
all_stay = refl

-- A terminal status has no transition but to itself.
terminal_stays : (s t : String) → is_terminal s ≡ true → can_transition s t ≡ true → t ≡ s
terminal_stays s t final h = elim (can_valid s t h) [
  | inl same ↦ sym same
  | inr (valid, valid') ↦
      let fact : stays s t ≡ true = pair_test stays all_stay s t valid valid' in
      (eq_iff t s).0 (ground arith)
]

Course-stays : (s t : String) → is_terminal s ≡ true → Course any_status s t → t ≡ s
Course-stays s t final here = refl
Course-stays s t final (then_to u t' c h o) =
    let at : u ≡ s = Course-stays s u final c in
    terminal_stays s t final (ap (λ x. can_transition x t) (sym at) ∙ h)

abbrev leaves : String → Bool
leaves s = is_terminal s || any (λ t. can_transition s t && not (t == s)) all_statuses

all_leave : all leaves all_statuses ≡ true
unfolding all any can_transition is_terminal contains
all_leave = refl

-- A valid status is terminal for IsTerminal exactly when every sequence of transitions that
-- CanTransition allows from it stays at it.
pub terminal_lem :
    (s : String)
    → is_valid_status s ≡ true
    → (is_terminal s ≡ true) ↔ ((t : String) → Course any_status s t → t ≡ s)
terminal_lem s valid = (
  λ final t c. Course-stays s t final c,
  λ stuck. elim (Bool-cases (is_terminal s)) [
    | inl e ↦ e
    | inr e ↦
        let fact : leaves s ≡ true = status_test leaves all_leave s valid in
        let (t, found) =
          first_of_any (λ t. can_transition s t && not (t == s)) all_statuses (ground arith) in
        let (m, test) = mem_of_first (λ t. can_transition s t && not (t == s)) all_statuses found in
        let same : t ≡ s = stuck t (then_to s t here (ground arith) refl) in
        let equal : (t == s) ≡ true = (eq_iff t s).1 same in ground arith
  ],
)

abbrev pub not_running : String → Bool
not_running s = not (s == status_running)

abbrev pub unstarted : List String
unstarted = status_pending ∷ status_waiting ∷ status_scheduled ∷ status_cancelled ∷ []

abbrev keeps : String → String → Bool
keeps s t =
    not (contains unstarted s)
    || (not (can_transition s t) || (t == status_running || contains unstarted t))

all_keep : all (λ s. all (keeps s) all_statuses) all_statuses ≡ true
unfolding all can_transition contains
all_keep = refl

-- A sequence of transitions from pending that never enters running stays among pending, waiting,
-- scheduled and cancelled, so that a task that has not run is never completed, failed or paused.
pub unstarted_lem : (t : String) → Course not_running status_pending t → contains unstarted t ≡ true
unfolding contains
unstarted_lem t here = refl
unstarted_lem t (then_to u t' c h o) =
    let before : contains unstarted u ≡ true = unstarted_lem u c in
    elim (can_valid u t h) [
      | inl same ↦ ap (contains unstarted) (sym same) ∙ before
      | inr (valid, valid') ↦
          let fact : keeps u t ≡ true = pair_test keeps all_keep u t valid valid' in ground arith
    ]
