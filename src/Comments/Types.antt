-- ===== src/Comments/Types.antt =====
-- internal/comments/types.go, model.go and validate.go: the taxonomy of comments and the checks of a
-- request.
use open_praxis.Prelude.{
  Bool, List, Option, String, [], contains, if◌then◌else◌, is_blank, is_empty, none, not, some,
  ◌==◌, ◌||◌, ◌∷◌,
}

abbrev pub target_entity : String
target_entity = "entity"

abbrev pub type_prompt : String
type_prompt = "prompt"

abbrev pub type_comment : String
type_comment = "comment"

-- The legacy names are constants equal to type_comment.
abbrev pub type_review_rejection : String
type_review_rejection = type_comment

abbrev pub type_review_approval : String
type_review_approval = type_comment

abbrev legacy_comments : List String
legacy_comments =
    "" ∷ "user_note" ∷ "agent_note" ∷ "watcher_finding" ∷ "execution_review" ∷ "decision" ∷ "link"
    ∷ "review_rejection" ∷ "review_approval" ∷ []

unfoldable pub normalize_type : String → String
normalize_type raw =
    if contains legacy_comments raw
    then type_comment
    else if raw == "description_revision"
    then type_prompt
    else raw

unfoldable pub is_valid_comment_type : String → Bool
is_valid_comment_type s = s == type_prompt || s == type_comment

unfoldable pub is_valid_target_type : String → Bool
is_valid_target_type s = s == target_entity

pub data Error : Type 0 where
  unknown_target_type empty_target_id empty_author unknown_comment_type empty_body : Error
  no_rows check_failed key_conflict : Error

unfoldable pub validate_add : String → String → String → String → String → Option Error
validate_add target target_id author comment_type body =
    if not (is_valid_target_type target)
    then some unknown_target_type
    else if is_empty target_id
    then some empty_target_id
    else if is_empty author
    then some empty_author
    else if not (is_valid_comment_type comment_type)
    then some unknown_comment_type
    else if is_blank body
    then some empty_body
    else none

unfoldable pub validate_edit : String → Option Error
validate_edit body = if is_blank body then some empty_body else none
