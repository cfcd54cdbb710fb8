-- ===== src/Comments/Store.antt =====
-- internal/comments/store.go: the operations on the table of comments. Attachments are not modelled.
use open_praxis.Comments.Types.{
  Error, check_failed, empty_author, empty_body, is_valid_target_type, key_conflict, no_rows,
}
use open_praxis.Prelude.{
  Bool, List, Option, String, [], any, first, if◌then◌else◌, is_empty, leb, ltb, negsuc, none, not,
  pos, select, some, sort_by, suc, take, text_le, update, zero, ℕ, ℤ, ◌&&◌, ◌++◌, ◌==◌, ◌||◌, ◌∷◌,
}

pub record Comment : Type 0 where
  pub id : String
  pub target_type : String
  pub target_id : String
  pub author : String
  pub comment_type : String
  pub body : String
  pub created_at : ℕ
  pub updated_at : Option ℕ
  pub parent_id : Option String

abbrev pub Table : Type 0
Table = List Comment

pub data Result (A : Type 0) : Type 0 where
  ok : A → Result A
  err : Error → Result A

unfoldable pub has_id : String → Comment → Bool
has_id id c = c.id == id

abbrev pub new_comment : ℕ → String → String → String → String → String → String → Comment
new_comment now id target target_id author comment_type body = record {
  id = id;
  target_type = target;
  target_id = target_id;
  author = author;
  comment_type = comment_type;
  body = body;
  created_at = now;
  updated_at = none;
  parent_id = none;
}

-- `now` is time.Now in seconds, and `id` the UUID that the library makes. The id is
-- the primary key, and the table checks the target type.
unfoldable pub add :
    ℕ → String → String → String → String → String → String → Table → Table × Result Comment
add now id target target_id author comment_type body t =
    if is_empty author
    then (t, err empty_author)
    else if is_empty body
    then (t, err empty_body)
    else if not (is_valid_target_type target)
    then (t, err check_failed)
    else if any (has_id id) t
    then (t, err key_conflict)
    else (
      t ++ new_comment now id target target_id author comment_type body ∷ [],
      ok (new_comment now id target target_id author comment_type body),
    )

-- sql.ErrNoRows is `none`.
unfoldable pub get : String → Table → Option Comment
get id t = first (has_id id) t

abbrev pub max_list_limit : ℕ
max_list_limit = 1000

abbrev pub default_list_limit : ℕ
default_list_limit = 100

unfoldable pub clamp_limit : ℤ → ℕ
clamp_limit (negsuc n) = default_list_limit
clamp_limit (pos zero) = default_list_limit
clamp_limit (pos (suc n)) = if ltb max_list_limit (suc n) then max_list_limit else suc n

-- `ORDER BY created_at DESC, id DESC`
unfoldable pub newest_first : Comment → Comment → Bool
newest_first a b =
    ltb b.created_at a.created_at || (leb b.created_at a.created_at && text_le b.id a.id)

-- `WHERE target_type = ? AND target_id = ? AND type = ?`, the last where a filter is given.
unfoldable pub is_listed : String → String → Option String → Comment → Bool
is_listed target target_id none c = c.target_type == target && c.target_id == target_id
is_listed target target_id (some type) c =
    (c.target_type == target && c.target_id == target_id) && c.comment_type == type

unfoldable pub list : String → String → ℤ → Option String → Table → Table
unfolding clamp_limit is_listed newest_first take
list target target_id limit filter t =
    take (clamp_limit limit) (sort_by newest_first (select (is_listed target target_id filter) t))

abbrev pub edited : ℕ → String → Comment → Comment
edited now body c = record c { body = body; updated_at = some now }

unfoldable pub edit : ℕ → String → String → Table → Table × Option Error
edit now id body t =
    if is_empty body
    then (t, some empty_body)
    else (update (has_id id) (edited now body) t, if any (has_id id) t then none else some no_rows)

-- Without attachments.
unfoldable pub delete : String → Table → Table
delete id t = select (λ c. not (has_id id c)) t
