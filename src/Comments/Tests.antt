-- ===== src/Comments/Tests.antt =====
-- Runs of the comments' store and of the reviews, and the theorems at concrete inputs.
use open_praxis.Comments.Review.{list_review_comments, reject_completed_task, task_review_status}
use open_praxis.Comments.Store.{Comment, Table, add, edit, get, has_id, list, new_comment}
use open_praxis.Comments.Types.{is_valid_target_type, normalize_type}
use open_praxis.Comments.Verdicts.{task_review_status_never_rejects}
use open_praxis.Comments.Writes.{get-edit}
use open_praxis.Prelude.{
  String, [], any, contains, false, is_blank, none, pos, refl, select, some, sort_by, true, ◌&&◌,
  ◌∷◌, ◌≡◌,
}

abbrev empty_table : Table
empty_table = []

-- A note on the task t1, then its rejection.
abbrev noted : Table
noted = (add 10 "a1" "entity" "t1" "alice" "comment" "looks odd" empty_table).0

abbrev rejected : Table
rejected = (reject_completed_task true 20 "a2" "t1" "the tests fail" "bob" noted).0

abbrev note : Comment
note = new_comment 10 "a1" "entity" "t1" "alice" "comment" "looks odd"

task_review_status_never_rejects_example :
    ((task_review_status true "t1" rejected).needs_rework ≡ false)
    × ((task_review_status true "t1" rejected).latest_rejection_reason ≡ "")
    × ((task_review_status true "t1" rejected).has_approval
        ≡ (true && any (λ r. true) (list_review_comments "t1" (pos 100) rejected)))
task_review_status_never_rejects_example = task_review_status_never_rejects true "t1" rejected

-- The rejection of a task reads as its approval.
rejection_approves : (task_review_status true "t1" rejected).has_approval ≡ true
unfolding task_review_status any select reject_completed_task add list sort_by is_blank
    is_valid_target_type has_id normalize_type contains
rejection_approves = refl

get-edit_example :
    (c : Comment) × (get "a1" noted ≡ some c)
    × (get "a1" (edit 40 "a1" "looks fine" noted).0
        ≡ some (record {
          id = c.id;
          target_type = c.target_type;
          target_id = c.target_id;
          author = c.author;
          comment_type = c.comment_type;
          body = "looks fine";
          created_at = c.created_at;
          updated_at = some 40;
          parent_id = c.parent_id;
        }))
    × ((other : String) (d : Comment)
        → has_id "a1" d ≡ false
        → get other noted ≡ some d
        → get other (edit 40 "a1" "looks fine" noted).0 ≡ some d)
unfolding add edit any has_id is_valid_target_type
get-edit_example = get-edit 40 "a1" "looks fine" noted refl

-- The note is listed.
note_listed : list "entity" "t1" (pos 0) none noted ≡ note ∷ []
unfolding list add select sort_by is_valid_target_type any
note_listed = refl
