-- ===== src/Comments/Writes.antt =====
-- internal/comments/store.go: what Add, Edit and Delete do to one comment.
use mathlib.Core.Bool.{false≢true}
use open_praxis.Comments.Store.{
  Comment, Table, add, delete, edit, edited, get, has_id, new_comment, ok,
}
use open_praxis.Comments.Types.{is_valid_target_type, validate_add}
use open_praxis.Prelude.{
  Bool-cases, String, [], any, any-eq-count, ap, arith, count, count-select-not, eq_iff, eq_refl,
  false, first, first-append_of_none, first-none_of_count, first-update_same, first_of_any,
  if◌then◌else◌, inl, inr, is_blank, is_empty, mem_of_first, none, refl, select_none, some, sym,
  true, update, ℕ, ◌∙◌, ◌∷◌, ◌≡◌,
}

empty_is_blank : (s : String) → is_blank s ≡ false → is_empty s ≡ false
unfolding is_blank
empty_is_blank s h = elim (Bool-cases (is_empty s)) [
  | inl empty ↦ absurd (false≢true (sym h ∙ ap is_blank ((eq_iff s "").0 empty)))
  | inr full ↦ full
]

checked :
    (target target_id author comment_type body : String)
    → validate_add target target_id author comment_type body ≡ none
    → (is_valid_target_type target ≡ true) × (is_empty author ≡ false) × (is_blank body ≡ false)
unfolding validate_add
checked target target_id author comment_type body h = ground arith

-- For a request that ValidateAdd accepts and an id that no comment has, Add returns a comment, and
-- Get finds it by that id.
pub add-validate_add :
    (now : ℕ) (id target target_id author comment_type body : String) (t : Table)
    → validate_add target target_id author comment_type body ≡ none
    → count (has_id id) t ≡ 0
    → (c : Comment) × ((add now id target target_id author comment_type body t).1 ≡ ok c)
      × (get id (add now id target target_id author comment_type body t).0 ≡ some c)
unfolding add get first has_id
add-validate_add now id target target_id author comment_type body t good fresh =
    let (entity, named, full) = checked target target_id author comment_type body good in
    let c = new_comment now id target target_id author comment_type body in
    let unused : any (has_id id) t ≡ false = any-eq-count (has_id id) t ∙ rw fresh refl in
    rw (add, named, empty_is_blank body full, entity, unused)
      (c, refl, first-append_of_none (has_id id) t (c ∷ []) fresh ∙ rw (eq_refl id) refl)

edit_done :
    (now : ℕ) (id body : String) (t : Table)
    → (edit now id body t).1 ≡ none
    → (any (has_id id) t ≡ true) × ((edit now id body t).0 ≡ update (has_id id) (edited now body) t)
unfolding edit
edit_done now id body t h = elim (Bool-cases (is_empty body)) [
  | inl empty ↦ cc (rw (empty, edit) at h)
  | inr full ↦ elim (Bool-cases (any (has_id id) t)) [
    | inl there ↦ (there, rw (full, edit) refl)
    | inr missing ↦ cc (rw (full, edit, missing) at h)
  ]
]

get_of_any :
    (id : String) (t : Table) → any (has_id id) t ≡ true → (c : Comment) × (get id t ≡ some c)
unfolding get
get_of_any id t there = first_of_any (has_id id) t there

has_id_of_get : (id : String) (t : Table) (c : Comment) → get id t ≡ some c → has_id id c ≡ true
unfolding get
has_id_of_get id t c found = (mem_of_first (has_id id) t found).1

get_updated :
    (now : ℕ) (id body : String) (t : Table) (other : String) (d : Comment)
    → get other t ≡ some d
    → get other (update (has_id id) (edited now body) t)
      ≡ some (if has_id id d then edited now body d else d)
unfolding get has_id
get_updated now id body t other d found =
    first-update_same (has_id id) (has_id other) (edited now body) (λ c. refl) t d found

-- An Edit that returns no error finds a comment under its id; Get then returns that comment with
-- the body given, updated at the time given, and every other field as it was, and a comment with
-- another id as it was.
pub get-edit :
    (now : ℕ) (id body : String) (t : Table)
    → (edit now id body t).1 ≡ none
    → (c : Comment) × (get id t ≡ some c)
      × (get id (edit now id body t).0
          ≡ some (record {
            id = c.id;
            target_type = c.target_type;
            target_id = c.target_id;
            author = c.author;
            comment_type = c.comment_type;
            body = body;
            created_at = c.created_at;
            updated_at = some now;
            parent_id = c.parent_id;
          }))
      × ((other : String) (d : Comment)
          → has_id id d ≡ false
          → get other t ≡ some d
          → get other (edit now id body t).0 ≡ some d)
get-edit now id body t h =
    let (there, rows) = edit_done now id body t h in
    let (c, found) = get_of_any id t there in
    (
      c,
      found,
      ap (get id) rows
          ∙ get_updated now id body t id c found
          ∙ rw (has_id_of_get id t c found) refl,
      λ other d apart read.
          ap (get other) rows ∙ get_updated now id body t other d read ∙ rw apart refl,
    )

-- After a Delete, Get finds no comment with its id, and a second Delete changes nothing.
pub get-delete :
    (id : String) (t : Table)
    → (get id (delete id t) ≡ none) × (delete id (delete id t) ≡ delete id t)
unfolding get delete
get-delete id t = (
  first-none_of_count (has_id id) (delete id t) (count-select-not (has_id id) t),
  select_none (has_id id) (delete id t) (count-select-not (has_id id) t),
)
