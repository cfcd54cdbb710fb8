-- ===== src/Tasks/Status.antt =====
-- internal/task/status.go: the statuses of a task and the table of their transitions.
use open_praxis.Prelude.{
  Bool, List, Option, String, [], contains, false, if◌then◌else◌, none, not, some, sort_by, text_le,
  true, ◌==◌, ◌||◌, ◌∷◌,
}

abbrev pub status_pending : String
status_pending = "pending"

abbrev pub status_waiting : String
status_waiting = "waiting"

abbrev pub status_scheduled : String
status_scheduled = "scheduled"

abbrev pub status_running : String
status_running = "running"

abbrev pub status_paused : String
status_paused = "paused"

abbrev pub status_completed : String
status_completed = "completed"

abbrev pub status_failed : String
status_failed = "failed"

abbrev pub status_cancelled : String
status_cancelled = "cancelled"

abbrev pub all_statuses : List String
all_statuses =
    status_pending ∷ status_waiting ∷ status_scheduled ∷ status_running ∷ status_paused
    ∷ status_completed ∷ status_failed ∷ status_cancelled ∷ []

unfoldable pub is_valid_status : String → Bool
is_valid_status s = contains all_statuses s

unfoldable pub is_terminal : String → Bool
is_terminal s = s == status_failed || s == status_cancelled

-- The entries of validTransitions; the map has none for the terminal statuses.
unfoldable pub valid_transitions : List (String × List String)
valid_transitions =
    (status_pending, status_waiting ∷ status_scheduled ∷ status_cancelled ∷ [])
    ∷ (status_waiting, status_scheduled ∷ status_pending ∷ status_cancelled ∷ [])
    ∷ (status_scheduled, status_running ∷ status_waiting ∷ status_pending ∷ status_cancelled ∷ [])
    ∷ (status_running, status_paused ∷ status_completed ∷ status_failed ∷ status_cancelled ∷ [])
    ∷ (status_paused, status_running ∷ status_cancelled ∷ [])
    ∷ (status_completed, status_failed ∷ status_scheduled ∷ [])
    ∷ []

-- `next, ok := validTransitions[from]`
unfoldable pub next_of : String → List (String × List String) → Option (List String)
next_of s [] = none
next_of s (entry ∷ entries) = if entry.0 == s then some entry.1 else next_of s entries

unfoldable pub can_transition : String → String → Bool
unfolding is_valid_status valid_transitions next_of
can_transition from to =
    if from == to
    then true
    else if not (is_valid_status from)
    then false
    else if not (is_valid_status to)
    then false
    else elim (next_of from valid_transitions) [ none ↦ false | some next ↦ contains next to ]

pub data TransitionError : Type 0 where
  invalid_source : TransitionError
  invalid_target : TransitionError
  terminal_source : TransitionError
  not_allowed : List String → TransitionError

-- The error of a transition that is refused. `allowed` are the targets, in order.
unfoldable pub refusal : List String → TransitionError
refusal [] = terminal_source
refusal (s ∷ allowed) = not_allowed (s ∷ allowed)

-- The allowed targets; a missing key is the empty map.
unfoldable pub allowed_of : String → List String
unfolding next_of valid_transitions
allowed_of from = elim (next_of from valid_transitions) [
  | none ↦ []
  | some next ↦ sort_by text_le next
]

unfoldable pub validate_transition : String → String → Option TransitionError
unfolding can_transition is_valid_status refusal allowed_of
validate_transition from to =
    if can_transition from to
    then none
    else if not (is_valid_status from)
    then some invalid_source
    else if not (is_valid_status to)
    then some invalid_target
    else some (refusal (allowed_of from))
