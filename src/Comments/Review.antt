-- ===== src/Comments/Review.antt =====
-- internal/task/review.go over CommentsReviewBackend: reviews as comments.
use open_praxis.Comments.Store.{Comment, Result, Table, add, err, list, ok}
use open_praxis.Comments.Types.{
  Error, normalize_type, target_entity, type_review_approval, type_review_rejection,
}
use open_praxis.Prelude.{
  Bool, List, Option, String, [], false, if◌then◌else◌, is_blank, ltb, map, none, not, pos, select,
  some, true, ℕ, ℤ, ◌==◌, ◌||◌, ◌∷◌,
}

pub record ReviewComment : Type 0 where
  pub review_type : String
  pub author : String
  pub body : String
  pub created_at : ℕ

pub record ReviewStatus : Type 0 where
  pub needs_rework : Bool
  pub has_approval : Bool
  pub latest_rejection_reason : String

pub data ReviewError : Type 0 where
  empty_review_reason review_not_available : ReviewError
  write_failed : Error → ReviewError

unfoldable pub add_review_comment :
    ℕ → String → String → String → String → String → Table → Table × Result Comment
add_review_comment now id task_id author review_type body t =
    add now id target_entity task_id author (normalize_type review_type) body t

-- The test of the loop in ListReviewCommentsForTask, negated as its `continue` is.
unfoldable pub is_review : Comment → Bool
is_review c = c.comment_type == type_review_rejection || c.comment_type == type_review_approval

abbrev pub as_review : Comment → ReviewComment
as_review c = record {
  review_type = c.comment_type;
  author = c.author;
  body = c.body;
  created_at = c.created_at;
}

unfoldable pub list_review_comments : String → ℤ → Table → List ReviewComment
unfolding is_review
list_review_comments task_id limit t =
    map as_review (select is_review (list target_entity task_id limit none t))

abbrev pub review_error : Table × Result Comment → Table × Option ReviewError
review_error (t, ok c) = (t, none)
review_error (t, err x) = (t, some (write_failed x))

-- `wired` tells whether SetReviewCommentsAPI has given the store its writer and its reader.
unfoldable pub reject_completed_task :
    Bool → ℕ → String → String → String → String → Table → Table × Option ReviewError
unfolding add_review_comment
reject_completed_task wired now id task_id reason reviewer t =
    if not wired
    then (t, some review_not_available)
    else if is_blank reason
    then (t, some empty_review_reason)
    else review_error (add_review_comment now id task_id reviewer "review_rejection" reason t)

unfoldable pub approve_completed_task :
    Bool → ℕ → String → String → String → Table → Table × Option ReviewError
unfolding add_review_comment
approve_completed_task wired now id task_id reviewer t =
    if not wired
    then (t, none)
    else review_error (add_review_comment now id task_id reviewer "review_approval" "approved" t)

-- The loop of TaskReviewStatus: a later row replaces the latest only if it is newer.
unfoldable pub latest_of : Option ReviewComment → List ReviewComment → Option ReviewComment
latest_of latest [] = latest
latest_of none (c ∷ rows) = latest_of (some c) rows
latest_of (some l) (c ∷ rows) =
    latest_of (if ltb l.created_at c.created_at then some c else some l) rows

unfoldable pub status_of : Option ReviewComment → ReviewStatus
status_of none = record { needs_rework = false; has_approval = false; latest_rejection_reason = "" }
status_of (some l) =
    if l.review_type == "review_rejection"
    then record { needs_rework = true; has_approval = false; latest_rejection_reason = l.body }
    else record { needs_rework = false; has_approval = true; latest_rejection_reason = "" }

unfoldable pub task_review_status : Bool → String → Table → ReviewStatus
unfolding list_review_comments latest_of status_of
task_review_status wired task_id t =
    if not wired
    then status_of none
    else status_of (latest_of none (list_review_comments task_id (pos 100) t))
